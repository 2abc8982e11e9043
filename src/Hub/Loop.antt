-- ===== src/Hub/Loop.antt =====
-- hub.go: what the loop of the watchdog makes of the hub, over any number of ticks.
use rd_testing_project.Base.{
  ℕ, ◌≡◌, refl, sym, ◌∙◌, ap, true, Option, none, some, List, [], ◌∷◌, nat_eq, arith, inl, inr,
  Option-cases,
}
use rd_testing_project.Base.Maps.{get}
use rd_testing_project.Models.{Uuid}
use rd_testing_project.Hub.{Wake, stopped, ticked, watchdog, AgentSession, Hub, Formats, and_then}
use rd_testing_project.Hub.Watchdog.{unless_stale, watchdog_tick_lem}
use rd_testing_project.Hub.Steady.{
  IsAgent, IsSteady, steady-IsReady, IsAgent-kept, tick-IsSteady, gone_closed, stays_closed,
}

-- An agent after the watchdog's ticks, up to its stop.
abbrev pub survives : List Wake → ℕ → Option AgentSession → Option AgentSession
survives [] ttl found = found
survives (stopped ∷ later) ttl found = found
survives (ticked now ∷ rest) ttl found = survives rest ttl (unless_stale now ttl found)

-- What the ticks up to the stop make of the hub.
pub record Leaves (wakes : List Wake) (h h' : Hub) : Type 0 where
  pub steady : IsSteady h'
  pub same_clients : h'.clients ≡ h.clients
  pub agents : (id : Uuid) → get id h'.agents ≡ survives wakes h.heartbeat_ttl (get id h.agents)
  pub gone_closed :
      (id : Uuid) (s : AgentSession)
      → IsAgent h id s
      → get id h'.agents ≡ none
      → (h'.channels s.send_chan).closed ≡ true
  pub stays_closed : (k : ℕ) → (h.channels k).closed ≡ true → (h'.channels k).closed ≡ true

same_Leaves :
    (h : Hub) (wakes : List Wake)
    → IsSteady h
    → ((ttl : ℕ) (found : Option AgentSession) → survives wakes ttl found ≡ found)
    → Leaves wakes h h
same_Leaves h wakes steady idle = record {
  steady = steady;
  same_clients = refl;
  agents = λ id. sym (idle h.heartbeat_ttl (get id h.agents));
  gone_closed = λ id s here gone. absurd (ground arith);
  stays_closed = λ k shut. shut;
}

-- From a hub whose agents are each filed under their id, with open channels that no other agent
-- and no client has, and whose clients' channels are open, the watchdog never panics, however
-- often it ticks, and leaves such a hub with the same clients. The agents left are exactly those
-- that no tick up to the stop found stale, each agent that is gone has its channel closed, and no
-- closed channel is opened.
pub watchdog_lem :
    (f : Formats) (wakes : List Wake) (h : Hub)
    → IsSteady h
    → (h' : Hub) × (watchdog f wakes h ≡ some h') × Leaves wakes h h'
unfolding watchdog
watchdog_lem f [] h steady = (h, refl, same_Leaves h [] steady (λ ttl found. refl))
watchdog_lem f (stopped ∷ later) h steady =
    (h, refl, same_Leaves h (stopped ∷ later) steady (λ ttl found. refl))
watchdog_lem f (ticked now ∷ rest) h steady =
    let (h1, swept, clients, ttl, keyed, agents, closed) =
      watchdog_tick_lem f now h steady.keyed (steady-IsReady h steady) in
    let (h', ran, left) =
      watchdog_lem f rest h1 (tick-IsSteady now h h1 steady agents closed clients keyed) in
    (
      h',
      ap (and_then (watchdog f rest)) swept ∙ ran,
      record {
        steady = left.steady;
        same_clients = left.same_clients ∙ clients;
        agents = λ id.
            left.agents id
            ∙ ap (survives rest h1.heartbeat_ttl) (agents id)
            ∙ ap (λ t. survives rest t (unless_stale now h.heartbeat_ttl (get id h.agents))) ttl;
        gone_closed = λ id s here gone. elim (Option-cases (get id h1.agents)) [
          | inl early ↦
              left.stays_closed s.send_chan
                (gone_closed now h h1 steady agents closed id s here early)
          | inr (t, late) ↦
              let same : t ≡ s =
                ground (arith, IsAgent-kept now h h1 steady agents closed id t late) in
              left.gone_closed id s (late ∙ ap some same) gone
        ];
        stays_closed =
            λ k shut. left.stays_closed k (stays_closed now h h1 steady agents closed k shut);
      },
    )
