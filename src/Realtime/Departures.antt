-- ===== src/Realtime/Departures.antt =====
-- services/realtime/cmd/server/main.go: a stream disconnects.
use rd_testing_project.Base.{
  ℕ, ◌≡◌, ◌≢◌, ◌⊎◌, inl, inr, refl, sym, ap, subst, ◌∙◌, true, false, some, [], ◌∷◌, ◌==◌, nat_eq,
  or_else, arith, Option-cases, Bool-cases,
}
use rd_testing_project.Base.Maps.{Map, get, delete, IsKeyed, get-put, get-delete, delete-IsKeyed}
use rd_testing_project.Models.{Uuid}
use rd_testing_project.Hub.{
  ClientSession, Hub, set_channel, close, clients_of, drop_client, unregister_client,
}
use rd_testing_project.Hub.Registry.{drop_client_lem, drop_client_channels}
use rd_testing_project.Realtime.{World}
use rd_testing_project.Realtime.Safety.{IsSafe, user_of, IsClient}

-- The clients after one has gone.
drop_client_other :
    (org_id o : Uuid) (cs : Map Uuid ClientSession) (h : Hub)
    → org_id == o ≡ false
    → clients_of o (drop_client org_id cs h) ≡ clients_of o h
unfolding drop_client
drop_client_other org_id o [] h differ = ground (arith, get-delete o org_id h.clients)
drop_client_other org_id o (c ∷ cs) h differ = ground (arith, get-put o org_id (c ∷ cs) h.clients)

drop_client_agents :
    (org_id : Uuid) (cs : Map Uuid ClientSession) (h : Hub)
    → (drop_client org_id cs h).agents ≡ h.agents
unfolding drop_client
drop_client_agents org_id [] h = refl
drop_client_agents org_id (c ∷ cs) h = ground arith

-- Dropping the entry of a stream, whose channel is closed or was not there.
dropped-IsSafe :
    (w : World) (org_id : Uuid) (cs : Map Uuid ClientSession) (h : Hub)
    → h.agents ≡ []
    → IsKeyed user_of cs
    → ((o : Uuid) → org_id == o ≡ false → clients_of o h ≡ clients_of o w.hub)
    → ((o u : Uuid) (s : ClientSession)
        → IsClient (drop_client org_id cs h) o u s
        → IsClient w.hub o u s × ((h.channels s.send_chan).closed ≡ false))
    → IsSafe w
    → IsSafe (record w { hub = drop_client org_id cs h })
dropped-IsSafe w org_id cs h agents keyed others there safe = record {
  no_agents = drop_client_agents org_id cs h ∙ agents;
  keyed = λ o. elim (Bool-cases (org_id == o)) [
    | inl e ↦ rw (sym ((nat_eq.same_iff org_id o).0 e)) (rw (drop_client_lem org_id cs h) keyed)
    | inr e ↦ rw (drop_client_other org_id o cs h e ∙ others o e) (safe.keyed o)
  ];
  opened = λ o u s here.
      ap (λ f. (f s.send_chan).closed) (drop_client_channels org_id cs h) ∙ (there o u s here).1;
  fresh = λ o u s here. safe.fresh o u s (there o u s here).0;
  own = λ o u o' u' s s' here here' eq.
      safe.own o u o' u' s s' (there o u s here).0 (there o' u' s' here').0 eq;
}

drop_client-IsClient :
    (org_id o u : Uuid) (cs : Map Uuid ClientSession) (h : Hub) (s : ClientSession)
    → IsClient (drop_client org_id cs h) o u s
    → ((org_id ≡ o) × (get u cs ≡ some s)) ⊎ ((org_id == o ≡ false) × IsClient h o u s)
drop_client-IsClient org_id o u cs h s here = elim (Bool-cases (org_id == o)) [
  | inl e ↦
      let same = (nat_eq.same_iff org_id o).0 e in
      inl (
        same,
        ap (get u) (
              sym (
                ap (λ k. clients_of k (drop_client org_id cs h)) (sym same)
                ∙ drop_client_lem org_id cs h))
            ∙ here,
      )
  | inr e ↦ inr (e, ap (get u) (sym (drop_client_other org_id o cs h e)) ∙ here)
]

-- The map of an organization, where there is one.
listed :
    (org_id : Uuid) (cs : Map Uuid ClientSession) (h : Hub)
    → get org_id h.clients ≡ some cs
    → clients_of org_id h ≡ cs
listed org_id cs h e = ap (λ found. or_else found []) e

-- An organization's stream that is not registered goes.
absent-IsSafe :
    (w : World) (org_id : Uuid) (cs : Map Uuid ClientSession)
    → get org_id w.hub.clients ≡ some cs
    → IsSafe w
    → IsSafe (record w { hub = drop_client org_id cs w.hub })
absent-IsSafe w org_id cs e safe =
    let there : (o u : Uuid) (s : ClientSession)
        → IsClient (drop_client org_id cs w.hub) o u s
        → IsClient w.hub o u s =
      λ o u s here. elim (drop_client-IsClient org_id o u cs w.hub s here) [
        | inl (same, found) ↦
            ap (λ k. get u (clients_of k w.hub)) (sym same)
            ∙ ap (get u) (listed org_id cs w.hub e)
            ∙ found
        | inr (differ, found) ↦ found
      ] in
    dropped-IsSafe w org_id cs w.hub safe.no_agents
      (subst (IsKeyed user_of) (listed org_id cs w.hub e) (safe.keyed org_id)) (λ o differ. refl)
      (λ o u s here. (there o u s here, safe.opened o u s (there o u s here))) safe

-- The hub with the channel of a stream closed.
abbrev closing : ClientSession → Hub → Hub
closing s h = set_channel s.send_chan (record (h.channels s.send_chan) { closed = true }) h

closing-other :
    (s : ClientSession) (k : ℕ) (h : Hub)
    → k ≢ s.send_chan
    → (closing s h).channels k ≡ h.channels k
unfolding set_channel
closing-other s k h differ = ground (arith, nat_eq.same_iff k s.send_chan)

closing-clients :
    (s : ClientSession) (h : Hub)
    → ((closing s h).clients ≡ h.clients) × ((closing s h).agents ≡ h.agents)
unfolding set_channel
closing-clients s h = (refl, refl)

-- A registered stream goes: its channel is closed, and no other stream has it.
present-IsSafe :
    (w : World) (org_id user_id : Uuid) (cs : Map Uuid ClientSession) (gone : ClientSession)
    → get org_id w.hub.clients ≡ some cs
    → get user_id cs ≡ some gone
    → IsSafe w
    → IsSafe (record w { hub = drop_client org_id (delete user_id cs) (closing gone w.hub) })
unfolding set_channel
present-IsSafe w org_id user_id cs gone e here safe =
    let was : IsClient w.hub org_id user_id gone =
      ap (get user_id) (listed org_id cs w.hub e) ∙ here in
    let there : (o u : Uuid) (s : ClientSession)
        → IsClient (drop_client org_id (delete user_id cs) (closing gone w.hub)) o u s
        → IsClient w.hub o u s × (((o ≡ org_id) × (u ≡ user_id)) → ⊥) =
      λ o u s found.
        elim (drop_client-IsClient org_id o u (delete user_id cs) (closing gone w.hub) s found) [
          | inl (same, kept) ↦ (
            ap (λ k. get u (clients_of k w.hub)) (sym same)
                ∙ ap (get u) (listed org_id cs w.hub e)
                ∙ ground (arith, get-delete u user_id cs),
            λ both. ground (arith, get-delete u user_id cs, nat_eq.same_iff user_id u),
          )
          | inr (differ, kept) ↦ (kept, λ both. ground (arith, nat_eq.same_iff org_id o))
        ] in
    dropped-IsSafe w org_id (delete user_id cs) (closing gone w.hub) safe.no_agents
      (delete-IsKeyed user_of user_id cs
        (subst (IsKeyed user_of) (listed org_id cs w.hub e) (safe.keyed org_id)))
      (λ o differ. refl)
      (λ o u s found.
        let (old, other) = there o u s found in
        (
          old,
          ap (λ c. c.closed)
                (closing-other gone s.send_chan w.hub
                  (λ eq. other (safe.own o u org_id user_id s gone old was eq)))
              ∙ safe.opened o u s old,
        ))
      safe

pub disconnects-IsSafe :
    (w : World) (org_id user_id : Uuid)
    → IsSafe w
    → (h : Hub) × (unregister_client org_id user_id w.hub ≡ some h) × IsSafe (record w { hub = h })
unfolding unregister_client close
disconnects-IsSafe w org_id user_id safe = elim (Option-cases (get org_id w.hub.clients)) [
  | inl e ↦ (w.hub, ground arith, safe)
  | inr (cs, e) ↦ elim (Option-cases (get user_id cs)) [
    | inl none_there ↦ (drop_client org_id cs w.hub, ground arith, absent-IsSafe w org_id cs e safe)
    | inr (gone, here) ↦
        let open_yet =
          safe.opened org_id user_id gone (ap (get user_id) (listed org_id cs w.hub e) ∙ here) in
        (
          drop_client org_id (delete user_id cs) (closing gone w.hub),
          ground arith,
          present-IsSafe w org_id user_id cs gone e here safe,
        )
  ]
]
