-- ===== src/Hub/Watchdog.antt =====
-- hub.go: what one tick of the watchdog does to the agents, and what its stop does.
use rd_testing_project.Base.{
  List, ◌++◌, Option-cases, ℕ, ◌≡◌, refl, ◌∙◌, ap, subst, true, false, Option, none, some, [], ◌∷◌,
  nat_eq, any, arith, inl, inr, Bool-cases, if◌then◌else◌,
}
use rd_testing_project.Base.Maps.{Map, get, IsKeyed}
use rd_testing_project.Models.{Uuid, Time}
use rd_testing_project.Hub.{
  Wake, stopped, ticked, watchdog, AgentSession, Hub, Formats, and_then, sweep, watchdog_tick,
}
use rd_testing_project.Hub.Retirement.{
  agent_id, is_stale, IsReady, ends_agent, ends_channel, Sweeps, retire-Sweeps, retired-IsReady,
}

-- The loop goes on after an agent that is heard of.
skip-Sweeps :
    (now : Time) (id : Uuid) (s : AgentSession) (rest : Map Uuid AgentSession) (h h' : Hub)
    → is_stale now h.heartbeat_ttl s ≡ false
    → Sweeps now rest h h'
    → Sweeps now ((id, s) ∷ rest) h h'
skip-Sweeps now id s rest h h' fresh d = record {
  same_clients = d.same_clients;
  same_ttl = d.same_ttl;
  stay_keyed = d.stay_keyed;
  agents = λ j. ground (arith, d.agents j);
  closed = λ k. ground (arith, d.closed k);
}

then-Sweeps :
    (now : Time) (id : Uuid) (s : AgentSession) (rest : Map Uuid AgentSession) (h h1 h2 : Hub)
    → Sweeps now ((id, s) ∷ []) h h1
    → Sweeps now rest h1 h2
    → Sweeps now ((id, s) ∷ rest) h h2
then-Sweeps now id s rest h h1 h2 d1 d2 = record {
  same_clients = d2.same_clients ∙ d1.same_clients;
  same_ttl = d2.same_ttl ∙ d1.same_ttl;
  stay_keyed = λ keyed. d2.stay_keyed (d1.stay_keyed keyed);
  agents = λ j.
      let later =
        subst
          (λ ttl.
            get j h2.agents ≡ (if any (ends_agent now ttl j) rest then none else get j h1.agents))
          d1.same_ttl (d2.agents j) in
      ground (arith, d1.agents j);
  closed = λ k.
      let later =
        subst
          (λ ttl.
            (h2.channels k).closed
            ≡ (if any (ends_channel now ttl k) rest then true else (h1.channels k).closed))
          d1.same_ttl (d2.closed k) in
      ground (arith, d1.closed k);
}

alone-IsReady :
    (id : Uuid) (s : AgentSession) (rest : Map Uuid AgentSession) (h : Hub)
    → IsReady ((id, s) ∷ rest) h
    → IsReady ((id, s) ∷ []) h
alone-IsReady id s rest h ready = record {
  opened = (ready.opened.0, tt);
  own = (tt, tt);
  clients_open = ready.clients_open;
  unshared = λ org_id k reads. ((ready.unshared org_id k reads).0, tt);
}

rest-IsReady :
    (id : Uuid) (s : AgentSession) (rest : Map Uuid AgentSession) (h : Hub)
    → IsReady ((id, s) ∷ rest) h
    → IsReady rest h
rest-IsReady id s rest h ready = record {
  opened = ready.opened.1;
  own = ready.own.1;
  clients_open = ready.clients_open;
  unshared = λ org_id k reads. (ready.unshared org_id k reads).1;
}

sweep-Sweeps :
    (f : Formats) (now : Time) (rest : Map Uuid AgentSession) (h : Hub)
    → IsReady rest h
    → (h' : Hub) × (sweep f now rest h ≡ some h') × Sweeps now rest h h'
unfolding sweep
sweep-Sweeps f now [] h ready = (
  h,
  refl,
  record {
    same_clients = refl;
    same_ttl = refl;
    stay_keyed = λ keyed. keyed;
    agents = λ j. refl;
    closed = λ k. refl;
  },
)
sweep-Sweeps f now ((id, s) ∷ rest) h ready = elim (Bool-cases (is_stale now h.heartbeat_ttl s)) [
  | inr fresh ↦
      let (h', swept, d) = sweep-Sweeps f now rest h (rest-IsReady id s rest h ready) in
      (h', rw fresh swept, skip-Sweeps now id s rest h h' fresh d)
  | inl stale ↦
      let (h1, retired_one, d1) =
        retire-Sweeps f now id s h stale (alone-IsReady id s rest h ready) in
      let (h2, swept, d2) =
        sweep-Sweeps f now rest h1 (retired-IsReady now id s rest h h1 d1 ready) in
      (
        h2,
        rw stale (ap (and_then (sweep f now rest)) retired_one ∙ swept),
        then-Sweeps now id s rest h h1 h2 d1 d2,
      )
]

-- What the watchdog leaves of an agent.
abbrev pub unless_stale : Time → ℕ → Option AgentSession → Option AgentSession
unless_stale now ttl none = none
unless_stale now ttl (some s) = if is_stale now ttl s then none else some s

ends_agent_absent :
    (now : Time) (ttl : ℕ) (id : Uuid) (agents : Map Uuid AgentSession)
    → get id agents ≡ none
    → any (ends_agent now ttl id) agents ≡ false
unfolding get
ends_agent_absent now ttl id [] gone = refl
ends_agent_absent now ttl id ((j, s) ∷ agents) gone =
    ground (arith, ends_agent_absent now ttl id agents)

ends_agent_keyed :
    (now : Time) (ttl : ℕ) (id : Uuid) (agents : Map Uuid AgentSession)
    → IsKeyed agent_id agents
    → (if any (ends_agent now ttl id) agents then none else get id agents)
      ≡ unless_stale now ttl (get id agents)
unfolding get
ends_agent_keyed now ttl id [] keyed = refl
ends_agent_keyed now ttl id ((j, s) ∷ agents) keyed = ground (
  arith,
  nat_eq.same_iff j id,
  ends_agent_absent now ttl id agents,
  ends_agent_keyed now ttl id agents keyed.2,
)

-- In a hub whose agents are each filed under their id, with open channels that no other agent and
-- no client has, and whose clients' channels are open, a tick of the watchdog does not panic. It
-- leaves exactly the agents heard of within the time the hub allows, closes exactly the channels
-- of the others, and keeps the clients, the time allowed and the ids.
pub watchdog_tick_lem :
    (f : Formats) (now : Time) (h : Hub)
    → IsKeyed agent_id h.agents
    → IsReady h.agents h
    → (h' : Hub) × (watchdog_tick f now h ≡ some h')
      × (h'.clients ≡ h.clients)
      × (h'.heartbeat_ttl ≡ h.heartbeat_ttl)
      × IsKeyed agent_id h'.agents
      × ((id : Uuid) → get id h'.agents ≡ unless_stale now h.heartbeat_ttl (get id h.agents))
      × ((k : ℕ)
          → (h'.channels k).closed ≡ (
              if any (ends_channel now h.heartbeat_ttl k) h.agents
              then true
              else (h.channels k).closed))
unfolding watchdog_tick
watchdog_tick_lem f now h keyed ready =
    let (h', swept, d) = sweep-Sweeps f now h.agents h ready in
    (
      h',
      swept,
      d.same_clients,
      d.same_ttl,
      d.stay_keyed keyed,
      λ id. d.agents id ∙ ends_agent_keyed now h.heartbeat_ttl id h.agents keyed,
      d.closed,
    )

-- Once it has seen the closed stopChan, the watchdog retires nobody.
watchdog_stops :
    (f : Formats) (wakes later : List Wake) (h : Hub)
    → watchdog f (wakes ++ stopped ∷ later) h ≡ watchdog f wakes h
unfolding watchdog
watchdog_stops f [] later h = refl
watchdog_stops f (stopped ∷ wakes) later h = refl
watchdog_stops f (ticked now ∷ wakes) later h = elim (Option-cases (watchdog_tick f now h)) [
  | inl panics ↦ rw panics refl
  | inr (h', swept) ↦ rw swept (watchdog_stops f wakes later h')
]
