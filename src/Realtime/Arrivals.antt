-- ===== src/Realtime/Arrivals.antt =====
-- services/realtime/cmd/server/main.go: a stream connects.
use rd_testing_project.Base.{
  ℕ, ◌+◌, ◌<◌, ◌≡◌, ◌⊎◌, inl, inr, refl, sym, ap, ◌∙◌, false, ◌==◌, nat_eq, if◌then◌else◌, arith,
  Bool-cases,
}
use rd_testing_project.Base.Maps.{get, put, get-put, put-IsKeyed, ==_self}
use rd_testing_project.Models.{Uuid}
use rd_testing_project.Hub.{ClientSession, set_channel, clients_of, register_client}
use rd_testing_project.Realtime.{World, connect}
use rd_testing_project.Realtime.Safety.{IsSafe, user_of, IsClient}

-- The session that a new stream registers.
abbrev session_of : Uuid → Uuid → World → ClientSession
session_of org_id user_id w = record {
  user_id = user_id;
  organization_id = org_id;
  send_chan = w.next;
}

clients_of-connect :
    (org_id user_id o : Uuid) (w : World)
    → clients_of o (connect org_id user_id w).hub ≡ (
        if org_id == o
        then put user_id (session_of org_id user_id w) (clients_of org_id w.hub)
        else clients_of o w.hub)
unfolding connect register_client set_channel
clients_of-connect org_id user_id o w = ground (
  arith,
  get-put o org_id (put user_id (session_of org_id user_id w) (clients_of org_id w.hub))
      w.hub.clients,
)

-- A client after a new stream has come in is the new one or was there.
connect-IsClient :
    (org_id user_id o u : Uuid) (w : World) (s : ClientSession)
    → IsClient (connect org_id user_id w).hub o u s
    → ((o ≡ org_id) × (u ≡ user_id) × (s ≡ session_of org_id user_id w)) ⊎ IsClient w.hub o u s
connect-IsClient org_id user_id o u w s here =
    let cs = clients_of org_id w.hub in
    let seen = ap (get u) (sym (clients_of-connect org_id user_id o w)) ∙ here in
    ground (
      arith,
      seen,
      get-put u user_id (session_of org_id user_id w) cs,
      nat_eq.same_iff org_id o,
      nat_eq.same_iff user_id u,
    )

connect-channels :
    (org_id user_id : Uuid) (w : World) (k : ℕ)
    → k < w.next
    → (connect org_id user_id w).hub.channels k ≡ w.hub.channels k
unfolding connect register_client set_channel
connect-channels org_id user_id w k old = ground (arith, nat_eq.same_iff k w.next)

connect-opened :
    (org_id user_id : Uuid) (w : World)
    → ((connect org_id user_id w).hub.channels w.next).closed ≡ false
unfolding connect register_client set_channel
connect-opened org_id user_id w = ground (arith, ==_self w.next)

connect-next :
    (org_id user_id : Uuid) (w : World)
    → ((connect org_id user_id w).next ≡ w.next + 1)
      × ((connect org_id user_id w).hub.agents ≡ w.hub.agents)
unfolding connect register_client set_channel
connect-next org_id user_id w = (refl, refl)

pub connect-IsSafe :
    (w : World) (org_id user_id : Uuid) → IsSafe w → IsSafe (connect org_id user_id w)
connect-IsSafe w org_id user_id safe = record {
  no_agents = (connect-next org_id user_id w).1 ∙ safe.no_agents;
  keyed = λ o. rw (clients_of-connect org_id user_id o w) (elim (Bool-cases (org_id == o)) [
    | inl e ↦ rw e (
        put-IsKeyed user_of (session_of org_id user_id w) (clients_of org_id w.hub)
          (safe.keyed org_id))
    | inr e ↦ rw e (safe.keyed o)
  ]);
  opened = λ o u s here. elim (connect-IsClient org_id user_id o u w s here) [
    | inl (org, user, new) ↦ rw new (connect-opened org_id user_id w)
    | inr old ↦
        ap (λ c. c.closed) (connect-channels org_id user_id w s.send_chan (safe.fresh o u s old))
        ∙ safe.opened o u s old
  ];
  fresh = λ o u s here. elim (connect-IsClient org_id user_id o u w s here) [
    | inl (org, user, new) ↦
        omega (arith, ap (λ c. c.send_chan) new, (connect-next org_id user_id w).0)
    | inr old ↦ omega (arith, safe.fresh o u s old, (connect-next org_id user_id w).0)
  ];
  own = λ o u o' u' s s' here here' eq. elim (connect-IsClient org_id user_id o u w s here) [
    | inl (org, user, new) ↦ elim (connect-IsClient org_id user_id o' u' w s' here') [
      | inl (org', user', new') ↦ (org ∙ sym org', user ∙ sym user')
      | inr old' ↦ absurd (omega (arith, ap (λ c. c.send_chan) new, safe.fresh o' u' s' old', eq))
    ]
    | inr old ↦ elim (connect-IsClient org_id user_id o' u' w s' here') [
      | inl (org', user', new') ↦
          absurd (omega (arith, ap (λ c. c.send_chan) new', safe.fresh o u s old, eq))
      | inr old' ↦ safe.own o u o' u' s s' old old' eq
    ]
  ];
}
