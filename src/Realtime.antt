-- ===== src/Realtime.antt =====
-- services/realtime/cmd/server/main.go: the streams and the telemetry webhook of the realtime
-- server as steps over its hub. A stream waits for a message or for the end of its request, so
-- between two calls of the hub it is a registered client with a channel of its own.
pub mod Safety
pub mod Arrivals
pub mod Departures
pub mod Streams
pub mod Endpoints
pub mod Calls
use rd_testing_project.Base.{
  ℕ, ◌+◌, ◌*◌, ◌≡◌, String, Bool, true, false, Option, none, some, List, [], ◌∷◌, ◌==◌, nat_eq, leb,
  if◌then◌else◌,
}
use rd_testing_project.Models.{Uuid, Time, Value, second, text, object, field, end}
use rd_testing_project.Base.Maps.{get}
use rd_testing_project.Hub.{
  clients_of, Channel, ClientSession, Hub, Formats, set_channel, register_client, unregister_client,
  broadcast_telemetry, watchdog_tick,
}

-- `next` is the number of the next channel that make gives.
pub record World : Type 0 where
  pub hub : Hub
  pub next : ℕ

-- NewHub; a duration in nanoseconds, of which 0 stands for all that are not positive.
unfoldable pub new_hub : ℕ → (ℕ → Channel) → Hub
new_hub heartbeat_ttl channels = record {
  agents = [];
  clients = [];
  heartbeat_ttl = if heartbeat_ttl == 0 then 45 * second else heartbeat_ttl;
  channels = channels;
}

pub record TelemetryPayload : Type 0 where
  pub device_id : Uuid
  pub organization_id : Uuid
  pub metrics : Value

-- What happens at the server: the hub's calls of its handlers, a stream that takes a message, and
-- a tick of the watchdog.
pub data Event : Type 0 where
  connects : (org_id user_id : Uuid) → Event
  takes : (org_id user_id : Uuid) → Event
  disconnects : (org_id user_id : Uuid) → Event
  ingests : (now : ℕ → Time) → TelemetryPayload → Event
  ticks : (now : Time) → Event

-- make(chan []byte, 32) and RegisterClient.
unfoldable pub connect : Uuid → Uuid → World → World
unfolding register_client set_channel
connect org_id user_id w =
    let session : ClientSession = record {
      user_id = user_id;
      organization_id = org_id;
      send_chan = w.next;
    } in
    record {
      hub =
          register_client session
            (set_channel w.next (record { buffer = []; capacity = 32; closed = false }) w.hub);
      next = w.next + 1;
    }

-- A stream takes the oldest message of its channel, and waits where there is none.
abbrev pub tail : List String → List String
tail [] = []
tail (msg ∷ rest) = rest

abbrev pub take_from : Option ClientSession → Hub → Hub
take_from none h = h
take_from (some session) h =
    let c = h.channels session.send_chan in
    set_channel session.send_chan (record c { buffer = tail c.buffer }) h

unfoldable pub take_message : Uuid → Uuid → Hub → Hub
take_message org_id user_id h = take_from (get user_id (clients_of org_id h)) h

-- The struct of the webhook, as the hub sends it on.
abbrev pub payload_value : Formats → TelemetryPayload → Value
payload_value f p = object (
    field "device_id" (text (f.uuid_text p.device_id)) (
      field "organization_id" (text (f.uuid_text p.organization_id))
        (field "metrics" p.metrics end)))

abbrev pub with_hub : World → Option Hub → Option World
with_hub w none = none
with_hub w (some h) = some (record w { hub = h })

module _ (f : Formats) where
  -- `none` is a panic.
  unfoldable pub step : Event → World → Option World
  unfolding connect take_message unregister_client broadcast_telemetry watchdog_tick
  step (connects org_id user_id) w = some (connect org_id user_id w)
  step (takes org_id user_id) w = with_hub w (some (take_message org_id user_id w.hub))
  step (disconnects org_id user_id) w = with_hub w (unregister_client org_id user_id w.hub)
  step (ingests now p) w =
      with_hub w (broadcast_telemetry f now p.organization_id p.device_id (payload_value f p) w.hub)
  step (ticks now) w = with_hub w (watchdog_tick f now w.hub)

  -- The events after one, where there was no panic.
  abbrev pub go_on : (World → Option World) → Option World → Option World
  go_on rest none = none
  go_on rest (some w) = rest w

  unfoldable pub run : List Event → World → Option World
  unfolding step
  run [] w = some w
  run (e ∷ es) w = go_on (run es) (step e w)
