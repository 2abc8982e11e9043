-- ===== src/Hub/Delivery.antt =====
-- hub.go: what a broadcast does to the channels and to the hub.
use rd_testing_project.Base.{
  ℕ, ◌⊎◌, ◌≡◌, ◌≤◌, refl, ◌∙◌, ap, String, false, some, [], ◌∷◌, ◌++◌, ◌==◌, nat_eq, ltb, length,
  length-append, arith, inl, inr, Bool-cases, Option-cases,
}
use rd_testing_project.Base.Maps.{Map}
use rd_testing_project.Models.{Uuid}
use rd_testing_project.Hub.{
  EventMessage, ClientSession, Hub, Formats, set_channel, send, send_all, and_then, clients_of,
  broadcast_to_org,
}

-- One of the clients reads from the channel.
abbrev pub IsReadBy : ℕ → Map Uuid ClientSession → Type 0
IsReadBy k [] = ⊥
IsReadBy k ((id, client) ∷ rest) = (client.send_chan ≡ k) ⊎ IsReadBy k rest

-- Every client's channel is open.
abbrev pub IsOpen : Map Uuid ClientSession → Hub → Type 0
IsOpen [] h = Unit
IsOpen ((id, client) ∷ rest) h = ((h.channels client.send_chan).closed ≡ false) × IsOpen rest h

-- What a delivery to the clients leaves as it was: the registers, which channels are closed, the
-- channels that no client reads from; and no channel is written to past its capacity.
pub record Delivers (to : Map Uuid ClientSession) (h h' : Hub) : Type 0 where
  pub same_agents : h'.agents ≡ h.agents
  pub same_clients : h'.clients ≡ h.clients
  pub same_ttl : h'.heartbeat_ttl ≡ h.heartbeat_ttl
  pub same_closed : (k : ℕ) → (h'.channels k).closed ≡ (h.channels k).closed
  pub same_others : (k : ℕ) → IsReadBy k to ⊎ (h'.channels k ≡ h.channels k)
  pub bounded :
      (k : ℕ)
      → (h'.channels k ≡ h.channels k) ⊎ (length (h'.channels k).buffer ≤ (h'.channels k).capacity)

send-Delivers :
    (payload : String) (id : Uuid) (client : ClientSession) (h : Hub)
    → (h.channels client.send_chan).closed ≡ false
    → (h' : Hub) × (send payload client.send_chan h ≡ some h') × Delivers ((id, client) ∷ []) h h'
unfolding send set_channel
send-Delivers payload id client h opened =
    let ch = client.send_chan in
    let c = h.channels ch in
    elim (Bool-cases (ltb (length c.buffer) c.capacity)) [
      | inr full ↦ (
        h,
        ground arith,
        record {
          same_agents = refl;
          same_clients = refl;
          same_ttl = refl;
          same_closed = λ k. refl;
          same_others = λ k. inr refl;
          bounded = λ k. inl refl;
        },
      )
      | inl room ↦ (
        set_channel ch (record c { buffer = c.buffer ++ payload ∷ [] }) h,
        ground arith,
        record {
          same_agents = refl;
          same_clients = refl;
          same_ttl = refl;
          same_closed = λ k. ground arith;
          same_others = λ k. elim (Bool-cases (k == ch)) [
            | inl same ↦ inl (inl (ground arith))
            | inr differ ↦ inr (ground arith)
          ];
          bounded = λ k. elim (Bool-cases (k == ch)) [
            | inl same ↦ inr (ground (arith, length-append c.buffer (payload ∷ [])))
            | inr differ ↦ inl (ground arith)
          ];
        },
      )
    ]

still_IsOpen :
    (cs : Map Uuid ClientSession) (h h' : Hub)
    → ((k : ℕ) → (h'.channels k).closed ≡ (h.channels k).closed)
    → IsOpen cs h
    → IsOpen cs h'
still_IsOpen [] h h' same o = tt
still_IsOpen ((id, client) ∷ rest) h h' same o =
    (same client.send_chan ∙ o.0, still_IsOpen rest h h' same o.1)

send_all-Delivers :
    (payload : String) (to : Map Uuid ClientSession) (h : Hub)
    → IsOpen to h
    → (h' : Hub) × (send_all payload to h ≡ some h') × Delivers to h h'
unfolding send_all
send_all-Delivers payload [] h o = (
  h,
  refl,
  record {
    same_agents = refl;
    same_clients = refl;
    same_ttl = refl;
    same_closed = λ k. refl;
    same_others = λ k. inr refl;
    bounded = λ k. inl refl;
  },
)
send_all-Delivers payload ((id, client) ∷ rest) h o =
    let (h1, sent, d1) = send-Delivers payload id client h o.0 in
    let (h2, rest_sent, d2) =
      send_all-Delivers payload rest h1 (still_IsOpen rest h h1 d1.same_closed o.1) in
    (
      h2,
      ap (and_then (send_all payload rest)) sent ∙ rest_sent,
      record {
        same_agents = d2.same_agents ∙ d1.same_agents;
        same_clients = d2.same_clients ∙ d1.same_clients;
        same_ttl = d2.same_ttl ∙ d1.same_ttl;
        same_closed = λ k. d2.same_closed k ∙ d1.same_closed k;
        same_others = λ k. elim (d2.same_others k) [
          | inl reads ↦ inl (inr reads)
          | inr after ↦ elim (d1.same_others k) [
            | inl (inl e) ↦ inl (inl e)
            | inl (inr e) ↦ absurd e
            | inr before ↦ inr (after ∙ before)
          ]
        ];
        bounded = λ k. elim (d2.bounded k) [
          | inr fits ↦ inr fits
          | inl after ↦ elim (d1.bounded k) [
            | inl before ↦ inl (after ∙ before)
            | inr fits ↦ inr (rw after fits)
          ]
        ];
      },
    )

-- A broadcast to an organization whose clients' channels are open does not panic, keeps the
-- registers of agents and clients and which channels are closed, leaves every channel that no
-- client of the organization reads from, and writes to no channel past its capacity.
pub broadcast_to_org-Delivers :
    (f : Formats) (org_id : Uuid) (msg : EventMessage) (h : Hub)
    → IsOpen (clients_of org_id h) h
    → (h' : Hub) × (broadcast_to_org f org_id msg h ≡ some h') × Delivers (clients_of org_id h) h h'
unfolding broadcast_to_org
broadcast_to_org-Delivers f org_id msg h o = elim (Option-cases (f.marshal msg)) [
  | inl failed ↦ (
    h,
    ground arith,
    record {
      same_agents = refl;
      same_clients = refl;
      same_ttl = refl;
      same_closed = λ k. refl;
      same_others = λ k. inr refl;
      bounded = λ k. inl refl;
    },
  )
  | inr (payload, made) ↦
      let (h', sent, d) = send_all-Delivers payload (clients_of org_id h) h o in
      (h', ground arith, d)
]
