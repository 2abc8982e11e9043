-- ===== src/Tests/Hub.antt =====
-- A hub with one full client and one with room.
use rd_testing_project.Base.{
  ℕ, ◌≡◌, refl, true, false, Option, none, some, [], ◌∷◌, nat_eq, ◌==◌, if◌then◌else◌, ◌+◌, List,
  ◌≤◌, arith, inl, inr, Bool-cases,
}
use rd_testing_project.Base.Maps.{get}
use rd_testing_project.Models.{Uuid, null}
use rd_testing_project.Hub.{
  AgentSession, Channel, ClientSession, Hub, Formats, Wake, ticked, stopped, watchdog, clients_of,
}
use rd_testing_project.Hub.Delivery.{IsReadBy}
use rd_testing_project.Hub.Steady.{IsAgent, IsSteady}
use rd_testing_project.Hub.Loop.{Leaves, watchdog_lem}
use rd_testing_project.Realtime.{World, new_hub}
use rd_testing_project.Realtime.Endpoints.{StreamRequest}
use rd_testing_project.Realtime.Calls.{
  Call, streams, posts, receives, leaves, sweeps, serve_calls, serve_calls-new_hub,
}
use rd_testing_project.Tests.Fixtures.{decoded}
use rd_testing_project.Realtime.Safety.{IsSafe}

abbrev client : ℕ → ClientSession
client n = record { user_id = n; organization_id = 1; send_chan = n }

abbrev formats : Formats
formats = record { marshal = λ msg. some "event"; uuid_text = λ id. "uuid" }

abbrev channel_of : ℕ → Channel
channel_of n = record { buffer = if n == 7 then "old" ∷ [] else []; capacity = 1; closed = false }

abbrev hub : Hub
hub = record {
  agents = [];
  clients = (1, (7, client 7) ∷ (8, client 8) ∷ []) ∷ [];
  heartbeat_ttl = 45000000000;
  channels = channel_of;
}

abbrev clock : ℕ → ℕ
clock i = 100 + i

abbrev stream_of : Option ℕ → ℕ → StreamRequest
stream_of org_id user_id = record {
  org_id = org_id;
  can_flush = true;
  user_id = user_id;
  time_text = "2026-01-01T00:00:00Z";
}

-- Two streams of one organization and a refused one, with telemetry between a stream's end and a
-- late tick.
abbrev calls : List Call
calls =
    streams (stream_of (some 1) 7)
    ∷ streams (stream_of (some 1) 8)
    ∷ streams (stream_of none 9)
    ∷ posts clock (decoded (record { device_id = 11; organization_id = 1; metrics = null }))
    ∷ leaves 1 7
    ∷ receives 1 8
    ∷ leaves 1 7
    ∷ sweeps 90000000000
    ∷ []

serve_calls-new_hub_example :
    (w : World) × (serve_calls formats calls
        (record { hub = new_hub 45000000000 channel_of; next = 0 })
      ≡ some w)
    × IsSafe w
serve_calls-new_hub_example = serve_calls-new_hub formats 45000000000 channel_of calls

abbrev agent : ℕ → ℕ → AgentSession
agent n heard = record {
  device_id = n;
  organization_id = 1;
  hostname = "EXAM-PC";
  last_heartbeat = heard;
  send_chan = n;
}

-- Agent 21 was last heard of a minute before the tick, and agent 22 right before it.
abbrev watched : Hub
watched = record hub { agents = (21, agent 21 0) ∷ (22, agent 22 59000000000) ∷ [] }

read_by_two : (k : ℕ) → IsReadBy k ((7, client 7) ∷ (8, client 8) ∷ []) → k ≤ 8
read_by_two k (inl e) = omega arith
read_by_two k (inr (inl e)) = omega arith
read_by_two k (inr (inr e)) = absurd e

watched_readers : (org_id k : ℕ) → IsReadBy k (clients_of org_id watched) → k ≤ 8
unfolding get
watched_readers org_id k = elim (Bool-cases (1 == org_id)) [
  | inl e ↦ rw e (read_by_two k)
  | inr e ↦ rw e (λ reads. absurd reads)
]

watched_agent :
    (id : Uuid) (s : AgentSession) → IsAgent watched id s → (s.send_chan ≡ id) × (21 ≤ id)
unfolding get
watched_agent id s here = elim (Bool-cases (21 == id)) [
  | inl first ↦ ground (arith, nat_eq.same_iff 21 id)
  | inr other ↦ elim (Bool-cases (22 == id)) [
    | inl second ↦ ground (arith, nat_eq.same_iff 22 id)
    | inr neither ↦ absurd (ground arith)
  ]
]

watched-IsSteady : IsSteady watched
unfolding get
watched-IsSteady = record {
  keyed = (refl, refl, (refl, refl, tt));
  opened = λ id s here. refl;
  own = λ i j s t here there e.
      let (at_i, _) = watched_agent i s here in
      let (at_j, _) = watched_agent j t there in omega arith;
  clients_open = λ org_id. elim (Bool-cases (1 == org_id)) [
    | inl e ↦ rw e (refl, (refl, tt))
    | inr e ↦ rw e tt
  ];
  unshared = λ org_id k reads id s here e.
      let low = watched_readers org_id k reads in
      let (at_id, high) = watched_agent id s here in absurd (omega arith);
}

-- One tick that retires agent 21, a tick that finds agent 22 still fresh, and a stop.
abbrev wakes : List Wake
wakes = ticked 60000000000 ∷ ticked 65000000000 ∷ stopped ∷ ticked 200000000000 ∷ []

watchdog_lem_example :
    (h' : Hub) × (watchdog formats wakes watched ≡ some h') × Leaves wakes watched h'
watchdog_lem_example = watchdog_lem formats wakes watched watched-IsSteady
