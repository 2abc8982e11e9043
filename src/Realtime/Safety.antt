-- ===== src/Realtime/Safety.antt =====
-- services/realtime/cmd/server/main.go: what the hub of the running server looks like, and the steps
-- that keep its clients: a message taken, telemetry, a tick.
use rd_testing_project.Base.{
  ℕ, ◌<◌, ◌≡◌, refl, sym, ap, ◌∙◌, false, Option, none, some, [], ◌∷◌, nat_eq, or_else, arith,
}
use rd_testing_project.Base.Maps.{Map, get, update, IsKeyed, ==_self}
use rd_testing_project.Models.{Uuid, Time, Value}
use rd_testing_project.Hub.{
  Channel, ClientSession, Hub, Formats, set_channel, clients_of, record_heartbeat,
  broadcast_telemetry, sweep, watchdog_tick,
}
use rd_testing_project.Hub.Delivery.{IsOpen, broadcast_to_org-Delivers}
use rd_testing_project.Realtime.{World, tail, take_from, take_message}

abbrev pub user_of : ClientSession → Uuid
user_of s = s.user_id

abbrev pub IsClient : Hub → Uuid → Uuid → ClientSession → Type 0
IsClient h org_id user_id s = get user_id (clients_of org_id h) ≡ some s

-- Every stream has an open channel of its own, and no agent is registered.
pub record IsSafe (w : World) : Type 0 where
  pub no_agents : w.hub.agents ≡ []
  pub keyed : (o : Uuid) → IsKeyed user_of (clients_of o w.hub)
  pub opened :
      (o u : Uuid) (s : ClientSession)
      → IsClient w.hub o u s
      → (w.hub.channels s.send_chan).closed ≡ false
  pub fresh : (o u : Uuid) (s : ClientSession) → IsClient w.hub o u s → s.send_chan < w.next
  pub own :
      (o u o' u' : Uuid) (s s' : ClientSession)
      → IsClient w.hub o u s
      → IsClient w.hub o' u' s'
      → s.send_chan ≡ s'.send_chan
      → (o ≡ o') × (u ≡ u')

-- What keeps the clients and the open channels keeps the server safe.
pub same-IsSafe :
    (w : World) (h : Hub)
    → h.agents ≡ []
    → h.clients ≡ w.hub.clients
    → ((k : ℕ) → (h.channels k).closed ≡ (w.hub.channels k).closed)
    → IsSafe w
    → IsSafe (record w { hub = h })
same-IsSafe w h agents clients closed safe =
    let same : (o : Uuid) → clients_of o h ≡ clients_of o w.hub =
      λ o. ap (λ cs. or_else (get o cs) []) clients in
    record {
      no_agents = agents;
      keyed = λ o. rw (same o) (safe.keyed o);
      opened =
          λ o u s here. closed s.send_chan ∙ safe.opened o u s (ap (get u) (sym (same o)) ∙ here);
      fresh = λ o u s here. safe.fresh o u s (ap (get u) (sym (same o)) ∙ here);
      own = λ o u o' u' s s' here here' eq.
          safe.own o u o' u' s s' (ap (get u) (sym (same o)) ∙ here)
            (ap (get u') (sym (same o')) ∙ here') eq;
    }

-- The clients that a lookup finds are the ones that a broadcast goes through.
all-IsOpen :
    (cs : Map Uuid ClientSession) (h : Hub)
    → IsKeyed user_of cs
    → ((u : Uuid) (s : ClientSession) → get u cs ≡ some s → (h.channels s.send_chan).closed ≡ false)
    → IsOpen cs h
unfolding get
all-IsOpen [] h keyed opened = tt
all-IsOpen ((id, client) ∷ rest) h keyed opened = (
  opened id client (ground (arith, ==_self id)),
  all-IsOpen rest h keyed.2 (λ u s here. opened u s (ground (arith, nat_eq.same_iff id u))),
)

pub ingests-IsSafe :
    (f : Formats) (w : World) (now : ℕ → Time) (org_id device_id : Uuid) (event_data : Value)
    → IsSafe w
    → (h : Hub) × (broadcast_telemetry f now org_id device_id event_data w.hub ≡ some h)
      × IsSafe (record w { hub = h })
unfolding broadcast_telemetry record_heartbeat update
ingests-IsSafe f w now org_id device_id event_data safe =
    let h1 = record_heartbeat (now 0) device_id w.hub in
    let (h, sent, d) =
      broadcast_to_org-Delivers f org_id _ h1
        (all-IsOpen (clients_of org_id h1) h1 (safe.keyed org_id) (safe.opened org_id)) in
    (
      h,
      sent,
      same-IsSafe w h (d.same_agents ∙ ap (update device_id _) safe.no_agents) d.same_clients
          d.same_closed safe,
    )

pub ticks-IsSafe :
    (f : Formats) (w : World) (now : Time)
    → IsSafe w
    → (h : Hub) × (watchdog_tick f now w.hub ≡ some h) × IsSafe (record w { hub = h })
unfolding watchdog_tick sweep
ticks-IsSafe f w now safe = (w.hub, ap (λ agents. sweep f now agents w.hub) safe.no_agents, safe)

set_channel-closed :
    (ch k : ℕ) (c : Channel) (h : Hub)
    → c.closed ≡ (h.channels ch).closed
    → ((set_channel ch c h).channels k).closed ≡ (h.channels k).closed
unfolding set_channel
set_channel-closed ch k c h same = ground (arith, nat_eq.same_iff k ch)

take_from-IsSafe :
    (w : World) (client : Option ClientSession)
    → IsSafe w
    → IsSafe (record w { hub = take_from client w.hub })
unfolding set_channel
take_from-IsSafe w none safe = safe
take_from-IsSafe w (some s) safe =
    same-IsSafe w (take_from (some s) w.hub) safe.no_agents refl
      (λ k.
        set_channel-closed s.send_chan k
          (record (w.hub.channels s.send_chan) {
            buffer = tail (w.hub.channels s.send_chan).buffer;
          })
          w.hub refl)
      safe

pub takes-IsSafe :
    (w : World) (org_id user_id : Uuid)
    → IsSafe w
    → IsSafe (record w { hub = take_message org_id user_id w.hub })
unfolding take_message
takes-IsSafe w org_id user_id safe = take_from-IsSafe w (get user_id (clients_of org_id w.hub)) safe
