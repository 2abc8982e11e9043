-- ===== src/Server/Integrity.antt =====
-- main.go: that devices belong to organizations and sessions to devices, and that a request keeps it.
use rd_testing_project.Base.{
  ◌==◌, Bool-cases, Option-cases, Option, ℤ, inl, inr, some, ◌≡◌, refl, ap, ◌∙◌, String, nat_eq,
  string_eq, arith,
}
use rd_testing_project.Base.Maps.{
  put, Everywhere, get-update, get-put, Map, get, update, IsKeyed, put-IsKeyed, update-IsKeyed,
  put-Everywhere, update-Everywhere,
}
use rd_testing_project.Models.{Uuid, Time, Organization, Device, RemoteSession}
use rd_testing_project.Store.Sessions.{set_status}
use rd_testing_project.Store.Devices.{get_device}
use rd_testing_project.Handlers.Sessions.{new_session}
use rd_testing_project.Handlers.Sessions.Writes.{Writes, keeps, opens, sets as writes}
use rd_testing_project.Store.{MemoryStore, ok}
use rd_testing_project.Http.{Env, Request}
use rd_testing_project.Handlers.Enrollment.{new_device}
use rd_testing_project.Handlers.Devices.Transitions.{with_status}
use rd_testing_project.Server.Routes.{Guard}
use rd_testing_project.Server.Effects.{DeviceEffect, same, sets, sees, enrolls, Effect, mark_seen}

abbrev pub device_id : Device → Uuid
device_id d = d.id

-- The organization exists.
abbrev pub HasHome : Map Uuid Organization → Device → Type 0
HasHome orgs dev = (org : Organization) × (get dev.organization_id orgs ≡ some org)

-- Every device is filed under its id and has a home.
pub record AreHoused (orgs : Map Uuid Organization) (devices : Map Uuid Device) : Type 0 where
  pub keyed : IsKeyed device_id devices
  pub homes : (id : Uuid) (dev : Device) → get id devices ≡ some dev → HasHome orgs dev

update-AreHoused :
    (id : Uuid) (f : Device → Device) (orgs : Map Uuid Organization) (devices : Map Uuid Device)
    → ((d : Device) → (f d).id ≡ d.id)
    → ((d : Device) → (f d).organization_id ≡ d.organization_id)
    → AreHoused orgs devices
    → AreHoused orgs (update id f devices)
update-AreHoused id f orgs devices same_id same_org h = record {
  keyed = update-IsKeyed device_id id f devices same_id h.keyed;
  homes =
      update-Everywhere (HasHome orgs) id f devices
        (λ d home. (home.0, ap (λ org_id. get org_id orgs) (same_org d) ∙ home.1)) h.homes;
}

pub DeviceEffect-AreHoused :
    (env : Env) (g : Guard) (r : Request) (m m' : MemoryStore)
    → DeviceEffect env g r m m'
    → AreHoused m.orgs m.devices
    → AreHoused m.orgs m'.devices
DeviceEffect-AreHoused env g r m m' (same e) h = rw e h
DeviceEffect-AreHoused env g r m m' (sees id now e) h =
    rw e (update-AreHoused id (mark_seen now) m.orgs m.devices (λ _. refl) (λ _. refl) h)
DeviceEffect-AreHoused env g r m m' (sets claims id dev status _ _ _ _ _ e) h =
    rw e (update-AreHoused id (with_status status) m.orgs m.devices (λ _. refl) (λ _. refl) h)
DeviceEffect-AreHoused env g r m m' (enrolls req inv org home e) h = rw e (record {
  keyed = put-IsKeyed device_id (new_device env req inv) m.devices h.keyed;
  homes =
      put-Everywhere (HasHome m.orgs) (env.new_id 0) (new_device env req inv) m.devices (org, home)
        h.homes;
})

abbrev pub IsPresent : Uuid → Map Uuid Device → Type 0
IsPresent id devices = (dev : Device) × (get id devices ≡ some dev)

-- The device of the session is there.
abbrev pub HasDevice : Map Uuid Device → RemoteSession → Type 0
HasDevice devices s = IsPresent s.device_id devices

update-IsPresent :
    (id j : Uuid) (f : Device → Device) (devices : Map Uuid Device) (dev : Device)
    → get j devices ≡ some dev
    → IsPresent j (update id f devices)
update-IsPresent id j f devices dev here = elim (Bool-cases (id == j)) [
  | inl e ↦ (f dev, ground (arith, get-update j id f devices))
  | inr e ↦ (dev, ground (arith, get-update j id f devices))
]

put-IsPresent :
    (id j : Uuid) (new : Device) (devices : Map Uuid Device) (dev : Device)
    → get j devices ≡ some dev
    → IsPresent j (put id new devices)
put-IsPresent id j new devices dev here = elim (Bool-cases (id == j)) [
  | inl e ↦ (new, ground (arith, get-put j id new devices))
  | inr e ↦ (dev, ground (arith, get-put j id new devices))
]

-- No request takes a device out of the store.
DeviceEffect-IsPresent :
    (env : Env) (g : Guard) (r : Request) (m m' : MemoryStore) (j : Uuid) (dev : Device)
    → DeviceEffect env g r m m'
    → get j m.devices ≡ some dev
    → IsPresent j m'.devices
DeviceEffect-IsPresent env g r m m' j dev (same e) here = (dev, rw e here)
DeviceEffect-IsPresent env g r m m' j dev (sees id now e) here =
    rw e (update-IsPresent id j (mark_seen now) m.devices dev here)
DeviceEffect-IsPresent env g r m m' j dev (sets claims id d status _ _ _ _ _ e) here =
    rw e (update-IsPresent id j (with_status status) m.devices dev here)
DeviceEffect-IsPresent env g r m m' j dev (enrolls req inv org home e) here =
    rw e (put-IsPresent (env.new_id 0) j (new_device env req inv) m.devices dev here)

device_found :
    (org_id id : Uuid) (m : MemoryStore) (dev : Device)
    → get_device org_id id m ≡ ok dev
    → get id m.devices ≡ some dev
unfolding get_device
device_found org_id id m dev h = elim (Option-cases (get id m.devices)) [
  | inl gone ↦ ground arith
  | inr (d, here) ↦ ground arith
]

set_status-device :
    (status : String) (reason : Option String) (now : Time) (s : RemoteSession)
    → (set_status status reason now s).device_id ≡ s.device_id
unfolding set_status
set_status-device status reason now s = ground arith

-- Where every session's device is there, it is there for every session after a request.
Writes-HasDevice :
    (m : MemoryStore) {after : Map Uuid RemoteSession}
    → Writes m after
    → Everywhere (HasDevice m.devices) m.sessions
    → Everywhere (HasDevice m.devices) after
unfolding new_session
Writes-HasDevice m (keeps e) h = rw e h
Writes-HasDevice m (opens env claims device_id consent dev found e) h = rw e (
    put-Everywhere (HasDevice m.devices) (env.new_id 0) (new_session env claims device_id consent)
      m.sessions (dev, device_found claims.organization_id device_id m dev found) h)
Writes-HasDevice m (writes {status} id reason now w e) h = rw e (
    update-Everywhere (HasDevice m.devices) id (set_status status (some reason) now) m.sessions
      (λ s there. (
        there.0,
        ap (λ d. get d m.devices) (set_status-device status (some reason) now s) ∙ there.1,
      ))
      h)

pub Effect-HasDevice :
    (env : Env) (limit : ℤ) (pattern : String) (g : Guard) (r : Request) (m m' : MemoryStore)
    → Effect env limit pattern g r m m'
    → Everywhere (HasDevice m.devices) m.sessions
    → Everywhere (HasDevice m'.devices) m'.sessions
Effect-HasDevice env limit pattern g r m m' effect h id s here =
    let (dev, there) = Writes-HasDevice m effect.sessions h id s here in
    DeviceEffect-IsPresent env g r m m' s.device_id dev effect.devices there
