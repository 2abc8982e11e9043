-- ===== src/Realtime/Endpoints.antt =====
-- services/realtime/cmd/server/main.go: the three routes of the realtime server.
use rd_testing_project.Base.{
  ℕ, concat, String, Bool, not, Option, none, some, if◌then◌else◌, nat_eq,
}
use rd_testing_project.Models.{Uuid, Time}
use rd_testing_project.Http.{Decoded}
use rd_testing_project.Hub.{Hub, Formats, broadcast_telemetry}
use rd_testing_project.Realtime.{World, TelemetryPayload, connect, payload_value}

-- A request for a stream: what uuid.Parse makes of the query's org_id, whether the writer is an
-- http.Flusher, the UUID drawn for the client, and the time of the first event as text.
pub record StreamRequest : Type 0 where
  pub org_id : Option Uuid
  pub can_flush : Bool
  pub user_id : Uuid
  pub time_text : String

-- What is written before a route returns or a stream waits.
pub data Answer : Type 0 where
  healthy : Time → Answer
  refused : ℕ → String → Answer
  streaming : String → Answer
  routed : ℕ → String → Answer

-- The health check, at the time of the request.
unfoldable pub health_check : Time → Answer
health_check now = healthy now

unfoldable pub connected_event : String → String
connected_event time_text =
    concat "data: {\"event\":\"connected\",\"time\":\"" (concat time_text "\"}\n\n")

-- The handler of the stream up to its loop, for a query whose org_id parses.
abbrev pub open_parsed : StreamRequest → Option Uuid → World → Answer × World
open_parsed r none w = (refused 400 "Invalid org_id parameter", w)
open_parsed r (some org_id) w =
    if not r.can_flush
    then (refused 500 "Streaming unsupported", w)
    else (streaming (connected_event r.time_text), connect org_id r.user_id w)

unfoldable pub open_stream : StreamRequest → World → Answer × World
unfolding connected_event connect
open_stream r w = open_parsed r r.org_id w

-- The answer of the webhook once the telemetry is sent on.
abbrev route_to : World → Option Hub → Option (Answer × World)
route_to w none = none
route_to w (some h) = some (routed 202 "{\"status\":\"telemetry_routed\"}", record w { hub = h })

unfoldable pub telemetry_webhook :
    Formats → (ℕ → Time) → Decoded TelemetryPayload → World → Option (Answer × World)
unfolding broadcast_telemetry
telemetry_webhook f now body w =
    let p = body.value in
    if body.failed
    then some (refused 400 "Invalid JSON body", w)
    else route_to w
        (broadcast_telemetry f now p.organization_id p.device_id (payload_value f p) w.hub)
