-- ===== src/Hub/Steady.antt =====
-- hub.go: the hubs that the watchdog can sweep, and that a tick leaves one of them.
use rd_testing_project.Base.{
  ℕ, ◌≡◌, ◌≢◌, refl, sym, ◌∙◌, ap, subst, Bool, true, false, Option, none, some, [], ◌∷◌, ◌==◌,
  nat_eq, any, All, arith, inl, inr, Bool-cases, or_else, if◌then◌else◌,
}
use rd_testing_project.Base.Maps.{Map, get, IsKeyed, ==_self}
use rd_testing_project.Models.{Uuid, Time}
use rd_testing_project.Hub.{AgentSession, ClientSession, Hub, clients_of}
use rd_testing_project.Hub.Delivery.{IsReadBy, IsOpen}
use rd_testing_project.Hub.Retirement.{agent_id, is_stale, HaveOwnChannels, IsReady, ends_channel}
use rd_testing_project.Hub.Watchdog.{unless_stale}

abbrev pub IsAgent : Hub → Uuid → AgentSession → Type 0
IsAgent h id s = get id h.agents ≡ some s

-- Each agent is filed under its id with an open channel that no other agent and no client has, and
-- the channels of the clients are open.
pub record IsSteady (h : Hub) : Type 0 where
  pub keyed : IsKeyed agent_id h.agents
  pub opened :
      (id : Uuid) (s : AgentSession) → IsAgent h id s → (h.channels s.send_chan).closed ≡ false
  pub own :
      (i j : Uuid) (s t : AgentSession)
      → IsAgent h i s
      → IsAgent h j t
      → t.send_chan ≡ s.send_chan
      → j ≡ i
  pub clients_open : (org_id : Uuid) → IsOpen (clients_of org_id h) h
  pub unshared :
      (org_id : Uuid) (k : ℕ)
      → IsReadBy k (clients_of org_id h)
      → (id : Uuid) (s : AgentSession) → IsAgent h id s
      → s.send_chan ≢ k

elsewhere :
    (i j : Uuid) (t : AgentSession) (agents : Map Uuid AgentSession)
    → get i agents ≡ none
    → get j agents ≡ some t
    → i ≢ j
elsewhere i j t agents gone here e = absurd (ground arith)

-- An agent is found behind one that is filed elsewhere.
finds :
    (i j : Uuid) (s t : AgentSession) (agents : Map Uuid AgentSession)
    → get i agents ≡ none
    → get j agents ≡ some t
    → get j ((i, s) ∷ agents) ≡ some t
unfolding get
finds i j s t agents gone here =
    ground (arith, nat_eq.same_iff i j, elsewhere i j t agents gone here)

-- What holds of every agent that a lookup finds holds of every entry.
all_found :
    (P : Uuid × AgentSession → Type 0) (agents : Map Uuid AgentSession)
    → IsKeyed agent_id agents
    → ((id : Uuid) (s : AgentSession) → get id agents ≡ some s → P (id, s))
    → All P agents
unfolding get
all_found P [] keyed p = tt
all_found P ((i, s) ∷ agents) keyed p = (
  p i s (ground (arith, ==_self i)),
  all_found P agents keyed.2 (λ id t here. p id t (finds i id s t agents keyed.1 here)),
)

apart_own :
    (agents : Map Uuid AgentSession)
    → IsKeyed agent_id agents
    → ((i j : Uuid) (s t : AgentSession)
        → get i agents ≡ some s
        → get j agents ≡ some t
        → t.send_chan ≡ s.send_chan
        → j ≡ i)
    → HaveOwnChannels agents
unfolding get
apart_own [] keyed own = tt
apart_own ((i, s) ∷ agents) keyed own = (
  all_found (λ row. row.1.send_chan ≢ s.send_chan) agents keyed.2
      (λ j t here e. absurd (
        elsewhere i j t agents keyed.1 here
          (sym (own i j s t (ground (arith, ==_self i)) (finds i j s t agents keyed.1 here) e)))),
  apart_own agents keyed.2 (λ j k t u here there e.
      own j k t u (finds i j s t agents keyed.1 here) (finds i k s u agents keyed.1 there) e),
)

pub steady-IsReady : (h : Hub) → IsSteady h → IsReady h.agents h
steady-IsReady h steady = record {
  opened =
      all_found (λ row. (h.channels row.1.send_chan).closed ≡ false) h.agents steady.keyed
        steady.opened;
  own = apart_own h.agents steady.keyed steady.own;
  clients_open = steady.clients_open;
  unshared = λ org_id k reads.
      all_found (λ row. row.1.send_chan ≢ k) h.agents steady.keyed (steady.unshared org_id k reads);
}

no_entry_passes :
    (p : Uuid × AgentSession → Bool) (agents : Map Uuid AgentSession)
    → All (λ row. p row ≡ false) agents
    → any p agents ≡ false
no_entry_passes p [] fails = refl
no_entry_passes p (row ∷ agents) (here, fails) = ground (arith, no_entry_passes p agents fails)

-- A channel that is the agent's is closed once the agent is stale.
stale_closes :
    (now : Time) (ttl : ℕ) (id : Uuid) (s : AgentSession) (agents : Map Uuid AgentSession)
    → get id agents ≡ some s
    → is_stale now ttl s ≡ true
    → any (ends_channel now ttl s.send_chan) agents ≡ true
unfolding get
stale_closes now ttl id s [] here stale = absurd (ground arith)
stale_closes now ttl id s ((j, t) ∷ agents) here stale = elim (Bool-cases (j == id)) [
  | inl e ↦ let same : t ≡ s = ground arith in rw same (ground (arith, ==_self s.send_chan))
  | inr e ↦ ground (arith, stale_closes now ttl id s agents)
]

still_there :
    (now : Time) (ttl : ℕ) (s : AgentSession) (found : Option AgentSession)
    → unless_stale now ttl found ≡ some s
    → (found ≡ some s) × (is_stale now ttl s ≡ false)
still_there now ttl s none left = absurd (ground arith)
still_there now ttl s (some t) left = elim (Bool-cases (is_stale now ttl t)) [
  | inl stale ↦ absurd (ground arith)
  | inr fresh ↦
      let same : t ≡ s = ground arith in
      (ap some same, subst (λ u. is_stale now ttl u ≡ false) same fresh)
]

-- Clients whose channels are all as they were read from open ones.
kept-IsOpen :
    (h h' : Hub) (cs : Map Uuid ClientSession)
    → ((k : ℕ) → IsReadBy k cs → (h'.channels k).closed ≡ (h.channels k).closed)
    → IsOpen cs h
    → IsOpen cs h'
kept-IsOpen h h' [] same o = tt
kept-IsOpen h h' ((j, client) ∷ cs) same (here, there) = (
  same client.send_chan (inl refl) ∙ here,
  kept-IsOpen h h' cs (λ k reads. same k (inr reads)) there,
)

module _ (now : Time) (h h' : Hub) (steady : IsSteady h)
    (agents : (id : Uuid) → get id h'.agents ≡ unless_stale now h.heartbeat_ttl (get id h.agents))
    (closed : (k : ℕ)
      → (h'.channels k).closed ≡ (
          if any (ends_channel now h.heartbeat_ttl k) h.agents
          then true
          else (h.channels k).closed)) where
  same_unless_ended :
      (k : ℕ)
      → ((j : Uuid) (t : AgentSession)
          → IsAgent h j t
          → ends_channel now h.heartbeat_ttl k (j, t) ≡ false)
      → (h'.channels k).closed ≡ (h.channels k).closed
  same_unless_ended k fails =
      let nobody = no_entry_passes (ends_channel now h.heartbeat_ttl k) h.agents (
        all_found (λ row. ends_channel now h.heartbeat_ttl k row ≡ false) h.agents steady.keyed
          fails) in
      ground (arith, closed k)

  pub IsAgent-kept : (id : Uuid) (s : AgentSession) → IsAgent h' id s → IsAgent h id s
  IsAgent-kept id s here =
      (still_there now h.heartbeat_ttl s (get id h.agents) (sym (agents id) ∙ here)).0

  IsAgent-open :
      (id : Uuid) (s : AgentSession)
      → IsAgent h' id s
      → (h'.channels s.send_chan).closed ≡ (h.channels s.send_chan).closed
  IsAgent-open id s here =
      let (there, fresh) =
        still_there now h.heartbeat_ttl s (get id h.agents) (sym (agents id) ∙ here) in
      same_unless_ended s.send_chan (λ j t other. elim (Bool-cases (t.send_chan == s.send_chan)) [
        | inr differ ↦ rw differ refl
        | inl e ↦
            let at_id : j ≡ id =
              steady.own id j s t there other ((nat_eq.same_iff t.send_chan s.send_chan).0 e) in
            let same : t ≡ s = ground (arith, ap (λ i. get i h.agents) at_id) in
            rw (same, fresh) (ground arith)
      ])

  client_open :
      (org_id : Uuid) (k : ℕ)
      → IsReadBy k (clients_of org_id h)
      → (h'.channels k).closed ≡ (h.channels k).closed
  client_open org_id k reads = same_unless_ended k (λ j t here.
      ground (arith, nat_eq.same_iff t.send_chan k, steady.unshared org_id k reads j t here))

  pub tick-IsSteady : h'.clients ≡ h.clients → IsKeyed agent_id h'.agents → IsSteady h'
  tick-IsSteady clients keyed =
      let same : (o : Uuid) → clients_of o h' ≡ clients_of o h =
        λ o. ap (λ cs. or_else (get o cs) []) clients in
      record {
        keyed = keyed;
        opened = λ id s here. IsAgent-open id s here ∙ steady.opened id s (IsAgent-kept id s here);
        own = λ i j s t here there e.
            steady.own i j s t (IsAgent-kept i s here) (IsAgent-kept j t there) e;
        clients_open = λ o.
            subst (λ cs. IsOpen cs h') (sym (same o))
              (kept-IsOpen h h' (clients_of o h) (client_open o) (steady.clients_open o));
        unshared = λ o k reads id s here.
            steady.unshared o k (subst (IsReadBy k) (same o) reads) id s (IsAgent-kept id s here);
      }

  -- An agent that a tick retires has its channel closed.
  pub gone_closed :
      (id : Uuid) (s : AgentSession)
      → IsAgent h id s
      → get id h'.agents ≡ none
      → (h'.channels s.send_chan).closed ≡ true
  gone_closed id s here gone = elim (Bool-cases (is_stale now h.heartbeat_ttl s)) [
    | inl stale ↦
        closed s.send_chan ∙ rw (stale_closes now h.heartbeat_ttl id s h.agents here stale) refl
    | inr fresh ↦ absurd (ground (arith, agents id))
  ]

  pub stays_closed : (k : ℕ) → (h.channels k).closed ≡ true → (h'.channels k).closed ≡ true
  stays_closed k shut = ground (arith, closed k)
