-- ===== src/Hub/Retirement.antt =====
-- hub.go: what the watchdog does to one agent that it has not heard of for too long.
use rd_testing_project.Base.{
  ℕ, ◌-◌, ◌≡◌, ◌≢◌, refl, sym, ◌∙◌, ap, subst, Bool, true, false, none, some, [], ◌∷◌, ◌==◌, ◌&&◌,
  nat_eq, ltb, any, All, arith, inl, inr, or_else, if◌then◌else◌,
}
use rd_testing_project.Base.Maps.{Map, get, delete, get-delete, IsKeyed, delete-IsKeyed}
use rd_testing_project.Models.{Uuid, Time, field, text, end}
use rd_testing_project.Hub.{
  AgentSession, ClientSession, Hub, Formats, set_channel, close, and_then, clients_of,
  offline_message, broadcast_to_org,
}
use rd_testing_project.Hub.Delivery.{IsReadBy, IsOpen, broadcast_to_org-Delivers}

abbrev pub agent_id : AgentSession → Uuid
agent_id s = s.device_id

-- The agent has not been heard of for longer than the hub allows.
abbrev pub is_stale : Time → ℕ → AgentSession → Bool
is_stale now ttl s = ltb ttl (now - s.last_heartbeat)

-- No two of the agents share a channel.
abbrev pub HaveOwnChannels : Map Uuid AgentSession → Type 0
HaveOwnChannels [] = Unit
HaveOwnChannels ((id, s) ∷ rest) =
    All (λ (row : Uuid × AgentSession). row.1.send_chan ≢ s.send_chan) rest × HaveOwnChannels rest

-- The agents' channels are open and their own, and the clients' channels are open and others.
pub record IsReady (agents : Map Uuid AgentSession) (h : Hub) : Type 0 where
  pub opened :
      All (λ (row : Uuid × AgentSession). (h.channels row.1.send_chan).closed ≡ false) agents
  pub own : HaveOwnChannels agents
  pub clients_open : (org_id : Uuid) → IsOpen (clients_of org_id h) h
  pub unshared :
      (org_id : Uuid) (k : ℕ)
      → IsReadBy k (clients_of org_id h)
      → All (λ (row : Uuid × AgentSession). row.1.send_chan ≢ k) agents

abbrev pub ends_agent : Time → ℕ → Uuid → Uuid × AgentSession → Bool
ends_agent now ttl id (j, s) = j == id && is_stale now ttl s

abbrev pub ends_channel : Time → ℕ → ℕ → Uuid × AgentSession → Bool
ends_channel now ttl k (j, s) = s.send_chan == k && is_stale now ttl s

-- What a sweep over some agents does to the hub.
pub record Sweeps (now : Time) (rest : Map Uuid AgentSession) (h h' : Hub) : Type 0 where
  pub same_clients : h'.clients ≡ h.clients
  pub same_ttl : h'.heartbeat_ttl ≡ h.heartbeat_ttl
  pub stay_keyed : IsKeyed agent_id h.agents → IsKeyed agent_id h'.agents
  pub agents :
      (id : Uuid)
      → get id h'.agents
        ≡ (if any (ends_agent now h.heartbeat_ttl id) rest then none else get id h.agents)
  pub closed :
      (k : ℕ)
      → (h'.channels k).closed
        ≡ (if any (ends_channel now h.heartbeat_ttl k) rest then true else (h.channels k).closed)

-- The hub once the agent's entry is gone and its channel closed.
abbrev retired : Uuid → AgentSession → Hub → Hub
retired id s h =
    set_channel s.send_chan (record (h.channels s.send_chan) { closed = true })
      (record h { agents = delete id h.agents })

retired_closed :
    (id : Uuid) (s : AgentSession) (h : Hub) (k : ℕ)
    → ((retired id s h).channels k).closed
      ≡ (if s.send_chan == k then true else (h.channels k).closed)
unfolding set_channel
retired_closed id s h k =
    ground (arith, nat_eq.same_iff k s.send_chan, nat_eq.same_iff s.send_chan k)

-- Closing a channel that no client reads from leaves the clients' channels open.
apart-IsOpen :
    (ch : ℕ) (h h' : Hub) (cs : Map Uuid ClientSession)
    → ((k : ℕ) → k ≢ ch → (h'.channels k).closed ≡ (h.channels k).closed)
    → (IsReadBy ch cs → ⊥)
    → IsOpen cs h
    → IsOpen cs h'
apart-IsOpen ch h h' [] same unread o = tt
apart-IsOpen ch h h' ((j, client) ∷ cs) same unread (here, there) = (
  same client.send_chan (λ e. unread (inl e)) ∙ here,
  apart-IsOpen ch h h' cs same (λ reads. unread (inr reads)) there,
)

apart_opened :
    (ch : ℕ) (h h' : Hub) (rows : Map Uuid AgentSession)
    → ((k : ℕ) → k ≢ ch → (h'.channels k).closed ≡ (h.channels k).closed)
    → All (λ (row : Uuid × AgentSession). row.1.send_chan ≢ ch) rows
    → All (λ (row : Uuid × AgentSession). (h.channels row.1.send_chan).closed ≡ false) rows
    → All (λ (row : Uuid × AgentSession). (h'.channels row.1.send_chan).closed ≡ false) rows
apart_opened ch h h' [] same apart opened = tt
apart_opened ch h h' ((j, s) ∷ rows) same (differs, apart) (here, opened) =
    (same s.send_chan differs ∙ here, apart_opened ch h h' rows same apart opened)

-- An agent is retired without a panic, and its organization is told.
pub retire-Sweeps :
    (f : Formats) (now : Time) (id : Uuid) (s : AgentSession) (h : Hub)
    → is_stale now h.heartbeat_ttl s ≡ true
    → IsReady ((id, s) ∷ []) h
    → (h' : Hub) × (and_then
          (broadcast_to_org f s.organization_id
            (offline_message f now s (field "reason" (text "heartbeat_timeout") end)))
          (close s.send_chan (record h { agents = delete id h.agents }))
        ≡ some h')
      × Sweeps now ((id, s) ∷ []) h h'
unfolding close
retire-Sweeps f now id s h stale ready =
    let msg = offline_message f now s (field "reason" (text "heartbeat_timeout") end) in
    let (h', sent, d) = broadcast_to_org-Delivers f s.organization_id msg (retired id s h) (
      apart-IsOpen s.send_chan h (retired id s h) (clients_of s.organization_id h)
        (λ k differs. ground (arith, retired_closed id s h k, differs))
        (λ reads. (ready.unshared s.organization_id s.send_chan reads).0 refl)
        (ready.clients_open s.organization_id)) in
    (
      h',
      rw (ready.opened.0) sent,
      record {
        same_clients = d.same_clients;
        same_ttl = d.same_ttl;
        stay_keyed = λ keyed.
            subst (IsKeyed agent_id) (sym d.same_agents)
              (delete-IsKeyed agent_id id h.agents keyed);
        agents = λ j. ap (get j) d.same_agents ∙ ground (arith, get-delete j id h.agents);
        closed = λ k. d.same_closed k ∙ ground (arith, retired_closed id s h k);
      },
    )

swept_apart :
    (now : Time) (id : Uuid) (s : AgentSession) (h h' : Hub)
    → Sweeps now ((id, s) ∷ []) h h'
    → (k : ℕ) → k ≢ s.send_chan
    → (h'.channels k).closed ≡ (h.channels k).closed
swept_apart now id s h h' d k differs = ground (arith, d.closed k, differs)

-- What is left to sweep is ready after an agent is retired.
pub retired-IsReady :
    (now : Time) (id : Uuid) (s : AgentSession) (rest : Map Uuid AgentSession) (h h' : Hub)
    → Sweeps now ((id, s) ∷ []) h h'
    → IsReady ((id, s) ∷ rest) h
    → IsReady rest h'
retired-IsReady now id s rest h h' d ready =
    let same : (org_id : Uuid) → clients_of org_id h' ≡ clients_of org_id h =
      λ org_id. ap (λ cs. or_else (get org_id cs) []) d.same_clients in
    let apart = swept_apart now id s h h' d in
    record {
      opened = apart_opened s.send_chan h h' rest apart ready.own.0 ready.opened.1;
      own = ready.own.1;
      clients_open = λ org_id.
          subst (λ cs. IsOpen cs h') (sym (same org_id))
            (apart-IsOpen s.send_chan h h' (clients_of org_id h) apart
              (λ reads. (ready.unshared org_id s.send_chan reads).0 refl)
              (ready.clients_open org_id));
      unshared =
          λ org_id k reads. (ready.unshared org_id k (subst (IsReadBy k) (same org_id) reads)).1;
    }
