-- ===== src/Hub/Registry.antt =====
-- hub.go: the register of the clients.
use rd_testing_project.Base.{
  ℕ, ◌⊎◌, ◌≡◌, refl, sym, ◌∙◌, ap, true, false, none, some, [], ◌∷◌, ◌==◌, nat_eq, arith, inl, inr,
  Option-cases, Bool-cases,
}
use rd_testing_project.Base.Maps.{Map, get, delete, get-put, get-delete, get-none, ==_self}
use rd_testing_project.Models.{Uuid}
use rd_testing_project.Hub.{
  Channel, ClientSession, Hub, set_channel, close, clients_of, drop_client, unregister_client,
}

closed_now : (ch : ℕ) (c : Channel) (h : Hub) → ((set_channel ch c h).channels ch).closed ≡ c.closed
unfolding set_channel
closed_now ch c h = ground (arith, ==_self ch)

others_kept :
    (ch k : ℕ) (c : Channel) (h : Hub) → (k ≡ ch) ⊎ ((set_channel ch c h).channels k ≡ h.channels k)
unfolding set_channel
others_kept ch k c h = elim (Bool-cases (k == ch)) [
  | inl same ↦ inl (ground arith)
  | inr differ ↦ inr (ground arith)
]

pub drop_client_lem :
    (org_id : Uuid) (cs : Map Uuid ClientSession) (h : Hub)
    → clients_of org_id (drop_client org_id cs h) ≡ cs
unfolding drop_client
drop_client_lem org_id [] h = ground (arith, get-delete org_id org_id h.clients)
drop_client_lem org_id (c ∷ cs) h = ground (arith, get-put org_id org_id (c ∷ cs) h.clients)

pub drop_client_channels :
    (org_id : Uuid) (cs : Map Uuid ClientSession) (h : Hub)
    → (drop_client org_id cs h).channels ≡ h.channels
unfolding drop_client
drop_client_channels org_id [] h = refl
drop_client_channels org_id (c ∷ cs) h = ground arith

-- Taking out a registered client whose channel is open does not panic, removes exactly that client
-- from its organization, closes its channel and leaves every other channel.
unregister_client_lem :
    (org_id user_id : Uuid) (s : ClientSession) (h : Hub)
    → get user_id (clients_of org_id h) ≡ some s
    → (h.channels s.send_chan).closed ≡ false
    → (h' : Hub) × (unregister_client org_id user_id h ≡ some h')
      × (clients_of org_id h' ≡ delete user_id (clients_of org_id h))
      × (get user_id (clients_of org_id h') ≡ none)
      × ((h'.channels s.send_chan).closed ≡ true)
      × ((k : ℕ) → (k ≡ s.send_chan) ⊎ (h'.channels k ≡ h.channels k))
unfolding unregister_client close
unregister_client_lem org_id user_id s h here opened = elim (Option-cases (get org_id h.clients)) [
  | inl gone ↦ absurd (ground (arith, get-none {V = ClientSession} user_id))
  | inr (cs, filed) ↦
      let c = h.channels s.send_chan in
      let shut = set_channel s.send_chan (record c { closed = true }) h in
      let left = delete user_id cs in
      let listed : clients_of org_id h ≡ cs = ground arith in
      let kept = drop_client_lem org_id left shut in
      let chans = drop_client_channels org_id left shut in
      (
        drop_client org_id left shut,
        ground arith,
        kept ∙ ap (delete user_id) (sym listed),
        ground (arith, kept, get-delete user_id user_id cs, ==_self user_id),
        ap (λ f. (f s.send_chan).closed) chans
            ∙ closed_now s.send_chan (record c { closed = true }) h,
        λ k. elim (others_kept s.send_chan k (record c { closed = true }) h) [
          | inl same ↦ inl same
          | inr kept_k ↦ inr (ap (λ f. f k) chans ∙ kept_k)
        ],
      )
]
