-- ===== src/Realtime/Streams.antt =====
-- services/realtime/cmd/server/main.go: sequences of connections, messages, disconnections and ticks.
use rd_testing_project.Base.{ℕ, ◌≡◌, refl, ap, ◌∙◌, some, List, [], ◌∷◌, nat_eq, or_else, arith}
use rd_testing_project.Base.Maps.{Map, get, get-none}
use rd_testing_project.Models.{Uuid}
use rd_testing_project.Hub.{Channel, ClientSession, Formats, clients_of}
use rd_testing_project.Realtime.{
  World, Event, connects, takes, disconnects, ingests, ticks, new_hub, connect, payload_value,
  with_hub, step, go_on, run,
}
use rd_testing_project.Realtime.Safety.{
  IsSafe, IsClient, ingests-IsSafe, ticks-IsSafe, takes-IsSafe,
}
use rd_testing_project.Realtime.Arrivals.{connect-IsSafe}
use rd_testing_project.Realtime.Departures.{disconnects-IsSafe}

step-IsSafe :
    (f : Formats) (e : Event) (w : World)
    → IsSafe w
    → (w' : World) × (step f e w ≡ some w') × IsSafe w'
unfolding step
step-IsSafe f (connects org_id user_id) w safe =
    (connect org_id user_id w, refl, connect-IsSafe w org_id user_id safe)
step-IsSafe f (takes org_id user_id) w safe = (_, refl, takes-IsSafe w org_id user_id safe)
step-IsSafe f (disconnects org_id user_id) w safe =
    let (h, gone, after) = disconnects-IsSafe w org_id user_id safe in
    (record w { hub = h }, ap (with_hub w) gone, after)
step-IsSafe f (ingests now p) w safe =
    let (h, sent, after) =
      ingests-IsSafe f w now p.organization_id p.device_id (payload_value f p) safe in
    (record w { hub = h }, ap (with_hub w) sent, after)
step-IsSafe f (ticks now) w safe =
    let (h, swept, after) = ticks-IsSafe f w now safe in
    (record w { hub = h }, ap (with_hub w) swept, after)

pub run-IsSafe :
    (f : Formats) (es : List Event) (w : World)
    → IsSafe w
    → (w' : World) × (run f es w ≡ some w') × IsSafe w'
unfolding run
run-IsSafe f [] w safe = (w, refl, safe)
run-IsSafe f (e ∷ es) w safe =
    let (w1, went, safe1) = step-IsSafe f e w safe in
    let (w2, ran, safe2) = run-IsSafe f es w1 safe1 in
    (w2, ap (go_on f (run f es)) went ∙ ran, safe2)

clients_of-new_hub :
    (heartbeat_ttl : ℕ) (channels : ℕ → Channel) (o : Uuid)
    → clients_of o (new_hub heartbeat_ttl channels) ≡ []
unfolding new_hub
clients_of-new_hub heartbeat_ttl channels o =
    ap (λ found. or_else found []) (get-none {V = Map Uuid ClientSession} o)

new_hub-nobody :
    (heartbeat_ttl : ℕ) (channels : ℕ → Channel) (o u : Uuid) (s : ClientSession)
    → IsClient (new_hub heartbeat_ttl channels) o u s
    → ⊥
new_hub-nobody heartbeat_ttl channels o u s here =
    let none_there =
      ap (get u) (clients_of-new_hub heartbeat_ttl channels o) ∙ get-none {V = ClientSession} u in
    ground arith

pub new_hub-IsSafe :
    (heartbeat_ttl : ℕ) (channels : ℕ → Channel)
    → IsSafe (record { hub = new_hub heartbeat_ttl channels; next = 0 })
unfolding new_hub
new_hub-IsSafe heartbeat_ttl channels = record {
  no_agents = refl;
  keyed = λ o. rw (clients_of-new_hub heartbeat_ttl channels o) tt;
  opened = λ o u s here. absurd (new_hub-nobody heartbeat_ttl channels o u s here);
  fresh = λ o u s here. absurd (new_hub-nobody heartbeat_ttl channels o u s here);
  own = λ o u o' u' s s' here here' eq. absurd (new_hub-nobody heartbeat_ttl channels o u s here);
}

-- From a new hub, no sequence of connections, messages taken, telemetry, disconnections and ticks
-- makes the realtime server panic by a send on a closed channel or a second close: it ends with
-- every stream registered under its own user with an open channel that no other stream has.
run-new_hub :
    (f : Formats) (heartbeat_ttl : ℕ) (channels : ℕ → Channel) (es : List Event)
    → (w : World) × (run f es (record { hub = new_hub heartbeat_ttl channels; next = 0 }) ≡ some w)
      × IsSafe w
run-new_hub f heartbeat_ttl channels es =
    run-IsSafe f es (record { hub = new_hub heartbeat_ttl channels; next = 0 })
      (new_hub-IsSafe heartbeat_ttl channels)
