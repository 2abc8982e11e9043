-- ===== src/Realtime/Calls.antt =====
-- services/realtime/cmd/server/main.go: sequences of requests to the realtime server.
use rd_testing_project.Base.{
  ℕ, ◌≡◌, refl, ap, ◌∙◌, not, Option, none, some, List, [], ◌∷◌, if◌then◌else◌, inl, inr,
  Bool-cases, Option-cases,
}
use rd_testing_project.Models.{Uuid, Time}
use rd_testing_project.Http.{Decoded}
use rd_testing_project.Hub.{Channel, Formats, broadcast_telemetry}
use rd_testing_project.Realtime.{
  World, TelemetryPayload, Event, connects, takes, disconnects, ingests, ticks, new_hub, connect,
  payload_value, step, run,
}
use rd_testing_project.Realtime.Endpoints.{
  StreamRequest, Answer, open_parsed, open_stream, telemetry_webhook,
}
use rd_testing_project.Realtime.Safety.{IsSafe}
use rd_testing_project.Realtime.Streams.{run-IsSafe, new_hub-IsSafe}

-- What reaches the server: a health check, a request for a stream, telemetry, a stream that takes a
-- message or whose request ends, and a tick of the watchdog.
pub data Call : Type 0 where
  checks : Call
  streams : StreamRequest → Call
  posts : (now : ℕ → Time) → Decoded TelemetryPayload → Call
  receives : (org_id user_id : Uuid) → Call
  leaves : (org_id user_id : Uuid) → Call
  sweeps : (now : Time) → Call

abbrev world_of : Option (Answer × World) → Option World
world_of none = none
world_of (some (answer, w)) = some w

-- The server after one call; `none` is a panic.
unfoldable serve_call : Formats → Call → World → Option World
serve_call f checks w = some w
serve_call f (streams r) w = some (open_stream r w).1
serve_call f (posts now body) w = world_of (telemetry_webhook f now body w)
serve_call f (receives org_id user_id) w = step f (takes org_id user_id) w
serve_call f (leaves org_id user_id) w = step f (disconnects org_id user_id) w
serve_call f (sweeps now) w = step f (ticks now) w

abbrev continue : (World → Option World) → Option World → Option World
continue rest none = none
continue rest (some w) = rest w

unfoldable pub serve_calls : Formats → List Call → World → Option World
unfolding serve_call
serve_calls f [] w = some w
serve_calls f (c ∷ cs) w = continue (serve_calls f cs) (serve_call f c w)

-- What a call does to the hub.
abbrev opened : StreamRequest → Option Uuid → List Event
opened r none = []
opened r (some org_id) = if not r.can_flush then [] else connects org_id r.user_id ∷ []

abbrev events_of : Call → List Event
events_of checks = []
events_of (streams r) = opened r r.org_id
events_of (posts now body) = if body.failed then [] else ingests now body.value ∷ []
events_of (receives org_id user_id) = takes org_id user_id ∷ []
events_of (leaves org_id user_id) = disconnects org_id user_id ∷ []
events_of (sweeps now) = ticks now ∷ []

open_parsed_runs :
    (f : Formats) (r : StreamRequest) (org_id : Option Uuid) (w : World)
    → some (open_parsed r org_id w).1 ≡ run f (opened r org_id) w
unfolding run step connect
open_parsed_runs f r none w = refl
open_parsed_runs f r (some org_id) w = elim (Bool-cases r.can_flush) [
  | inl e ↦ rw e refl
  | inr e ↦ rw e refl
]

step_runs : (f : Formats) (e : Event) (w : World) → step f e w ≡ run f (e ∷ []) w
unfolding run
step_runs f e w = elim (Option-cases (step f e w)) [
  | inl gone ↦ rw gone refl
  | inr (w', went) ↦ rw went refl
]

telemetry_webhook_runs :
    (f : Formats) (now : ℕ → Time) (body : Decoded TelemetryPayload) (w : World)
    → world_of (telemetry_webhook f now body w) ≡ run f (events_of (posts now body)) w
unfolding telemetry_webhook run step
telemetry_webhook_runs f now body w = elim (Bool-cases body.failed) [
  | inl e ↦ rw e refl
  | inr e ↦
      elim (Option-cases (
        broadcast_telemetry f now body.value.organization_id body.value.device_id
          (payload_value f body.value) w.hub)) [
            | inl panics ↦ rw (e, panics) refl
            | inr (h, sent) ↦ rw (e, sent) refl
          ]
]

serve_call_runs : (f : Formats) (c : Call) (w : World) → serve_call f c w ≡ run f (events_of c) w
unfolding serve_call run open_stream
serve_call_runs f checks w = refl
serve_call_runs f (streams r) w = open_parsed_runs f r r.org_id w
serve_call_runs f (posts now body) w = telemetry_webhook_runs f now body w
serve_call_runs f (receives org_id user_id) w = step_runs f (takes org_id user_id) w
serve_call_runs f (leaves org_id user_id) w = step_runs f (disconnects org_id user_id) w
serve_call_runs f (sweeps now) w = step_runs f (ticks now) w

serve_calls-IsSafe :
    (f : Formats) (cs : List Call) (w : World)
    → IsSafe w
    → (w' : World) × (serve_calls f cs w ≡ some w') × IsSafe w'
unfolding serve_calls
serve_calls-IsSafe f [] w safe = (w, refl, safe)
serve_calls-IsSafe f (c ∷ cs) w safe =
    let (w1, ran, safe1) = run-IsSafe f (events_of c) w safe in
    let (w2, served, safe2) = serve_calls-IsSafe f cs w1 safe1 in
    (w2, ap (continue (serve_calls f cs)) (serve_call_runs f c w ∙ ran) ∙ served, safe2)

-- From a new hub, no sequence of health checks, requests for streams, telemetry, messages taken,
-- ends of streams and ticks makes the realtime server panic by a send on a closed channel or a
-- second close: it ends with every stream registered under its own user with an open channel that
-- no other stream has.
pub serve_calls-new_hub :
    (f : Formats) (heartbeat_ttl : ℕ) (channels : ℕ → Channel) (cs : List Call)
    → (w : World) × (serve_calls f cs (record { hub = new_hub heartbeat_ttl channels; next = 0 })
        ≡ some w)
      × IsSafe w
serve_calls-new_hub f heartbeat_ttl channels cs =
    serve_calls-IsSafe f cs (record { hub = new_hub heartbeat_ttl channels; next = 0 })
      (new_hub-IsSafe heartbeat_ttl channels)
