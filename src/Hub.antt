-- ===== src/Hub.antt =====
-- services/realtime/internal/hub/hub.go. Channels are shared between the hub and the connections,
-- so they stand in a heap by number. A result `none` is a panic: a send on a closed channel, or a
-- second close. A connection that takes a message from its channel is not part of the hub.
pub mod Delivery
pub mod Registry
pub mod Retirement
pub mod Watchdog
pub mod Steady
pub mod Loop
use rd_testing_project.Base.{
  ℕ, ◌+◌, ◌-◌, String, Bool, true, false, Option, none, some, List, [], ◌∷◌, ◌++◌, ◌==◌, nat_eq,
  ltb, if◌then◌else◌, length, or_else,
}
use rd_testing_project.Base.Maps.{Map, get, put, delete, update}
use rd_testing_project.Models.{Uuid, Time, Value, text, Fields, end, field, object}

pub record EventMessage : Type 0 where
  pub event : String
  pub organization_id : Uuid
  pub timestamp : Time
  pub event_data : Value

-- A buffered `chan []byte`.
pub record Channel : Type 0 where
  pub buffer : List String
  pub capacity : ℕ
  pub closed : Bool

pub record AgentSession : Type 0 where
  pub device_id : Uuid
  pub organization_id : Uuid
  pub hostname : String
  pub last_heartbeat : Time
  pub send_chan : ℕ

pub record ClientSession : Type 0 where
  pub user_id : Uuid
  pub organization_id : Uuid
  pub send_chan : ℕ

pub record Hub : Type 0 where
  pub agents : Map Uuid AgentSession
  pub clients : Map Uuid (Map Uuid ClientSession)
  pub heartbeat_ttl : ℕ
  pub channels : ℕ → Channel

-- What the hub calls of other packages.
pub record Formats : Type 0 where
  pub marshal : EventMessage → Option String  -- json.Marshal
  pub uuid_text : Uuid → String

unfoldable pub set_channel : ℕ → Channel → Hub → Hub
set_channel ch c h = record h { channels = λ k. if k == ch then c else h.channels k }

-- select { case ch <- payload: default: }
unfoldable pub send : String → ℕ → Hub → Option Hub
unfolding set_channel
send payload ch h =
    let c = h.channels ch in
    if c.closed
    then none
    else if ltb (length c.buffer) c.capacity
    then some (set_channel ch (record c { buffer = c.buffer ++ payload ∷ [] }) h)
    else some h

-- close(ch)
unfoldable pub close : ℕ → Hub → Option Hub
unfolding set_channel
close ch h =
    let c = h.channels ch in
    if c.closed then none else some (set_channel ch (record c { closed = true }) h)

-- What runs next, where there was no panic.
abbrev pub and_then : (Hub → Option Hub) → Option Hub → Option Hub
and_then f none = none
and_then f (some h) = f h

-- The loop over the clients of an organization.
unfoldable pub send_all : String → Map Uuid ClientSession → Hub → Option Hub
send_all payload [] h = some h
send_all payload ((id, client) ∷ rest) h =
    and_then (send_all payload rest) (send payload client.send_chan h)

abbrev pub clients_of : Uuid → Hub → Map Uuid ClientSession
clients_of org_id h = or_else (get org_id h.clients) []

module _ (f : Formats) where
  unfoldable pub broadcast_to_org : Uuid → EventMessage → Hub → Option Hub
  unfolding send_all
  broadcast_to_org org_id msg h = elim (f.marshal msg) [
    | none ↦ some h
    | some payload ↦ send_all payload (clients_of org_id h) h
  ]

  abbrev online_message : Time → AgentSession → EventMessage
  online_message now session = record {
    event = "device.online";
    organization_id = session.organization_id;
    timestamp = now;
    event_data = object (
        field "device_id" (text (f.uuid_text session.device_id))
          (field "hostname" (text session.hostname) (field "status" (text "ONLINE") end)));
  }

  -- The fields after the status are those that the watchdog adds.
  abbrev pub offline_message : Time → AgentSession → Fields → EventMessage
  offline_message now session more = record {
    event = "device.offline";
    organization_id = session.organization_id;
    timestamp = now;
    event_data = object (
        field "device_id" (text (f.uuid_text session.device_id))
          (field "hostname" (text session.hostname) (field "status" (text "OFFLINE") more)));
  }

  -- The clock is read at the registration and at the message.
  unfoldable pub register_agent : (ℕ → Time) → AgentSession → Hub → Option Hub
  unfolding broadcast_to_org
  register_agent now session h =
      let s = record session { last_heartbeat = now 0 } in
      broadcast_to_org s.organization_id (online_message (now 1) s)
        (record h { agents = put s.device_id s h.agents })

  unfoldable pub unregister_agent : Time → Uuid → Hub → Option Hub
  unfolding broadcast_to_org close
  unregister_agent now device_id h = elim (get device_id h.agents) [
    | none ↦ some h
    | some session ↦
        and_then (broadcast_to_org session.organization_id (offline_message now session end))
          (close session.send_chan (record h { agents = delete device_id h.agents }))
  ]

  -- The loop of the watchdog over the agents, at one tick.
  unfoldable pub sweep : Time → Map Uuid AgentSession → Hub → Option Hub
  unfolding broadcast_to_org close
  sweep now [] h = some h
  sweep now ((device_id, session) ∷ rest) h =
      if ltb h.heartbeat_ttl (now - session.last_heartbeat)
      then and_then (sweep now rest) (
          and_then
            (broadcast_to_org session.organization_id
              (offline_message now session (field "reason" (text "heartbeat_timeout") end)))
            (close session.send_chan (record h { agents = delete device_id h.agents })))
      else sweep now rest h

  unfoldable pub watchdog_tick : Time → Hub → Option Hub
  unfolding sweep
  watchdog_tick now h = sweep now h.agents h

-- What the select of the watchdog takes: the closed stopChan, or a tick.
pub data Wake : Type 0 where
  stopped : Wake
  ticked : Time → Wake

unfoldable pub watchdog : Formats → List Wake → Hub → Option Hub
unfolding watchdog_tick
watchdog f [] h = some h
watchdog f (stopped ∷ later) h = some h
watchdog f (ticked now ∷ rest) h = and_then (watchdog f rest) (watchdog_tick f now h)

-- Stop, by whether stopChan is closed; `none` is the panic of a second close.
unfoldable pub stop : Bool → Option Bool
stop closed = if closed then none else some true

unfoldable pub record_heartbeat : Time → Uuid → Hub → Hub
record_heartbeat now device_id h = record h {
  agents = update device_id (λ s. record s { last_heartbeat = now }) h.agents;
}

unfoldable pub register_client : ClientSession → Hub → Hub
register_client session h = record h {
  clients =
      put session.organization_id
        (put session.user_id session (clients_of session.organization_id h)) h.clients;
}

-- The client is taken out of its organization's map, and an empty map is taken out too.
unfoldable pub drop_client : Uuid → Map Uuid ClientSession → Hub → Hub
drop_client org_id org_clients h =
    if length org_clients == 0
    then record h { clients = delete org_id h.clients }
    else record h { clients = put org_id org_clients h.clients }

unfoldable pub unregister_client : Uuid → Uuid → Hub → Option Hub
unfolding close drop_client
unregister_client org_id user_id h = elim (get org_id h.clients) [
  | none ↦ some h
  | some org_clients ↦ elim (get user_id org_clients) [
    | none ↦ some (drop_client org_id org_clients h)
    | some session ↦
        and_then (λ h'. some (drop_client org_id (delete user_id org_clients) h'))
          (close session.send_chan h)
  ]
]

unfoldable pub broadcast_telemetry : Formats → (ℕ → Time) → Uuid → Uuid → Value → Hub → Option Hub
unfolding broadcast_to_org record_heartbeat
broadcast_telemetry f now org_id device_id event_data h =
    broadcast_to_org f org_id
      (record {
        event = "device.telemetry";
        organization_id = org_id;
        timestamp = now 1;
        event_data = event_data;
      })
      (record_heartbeat (now 0) device_id h)
