-- ===== src/Handlers/Devices/Isolation.antt =====
-- device_handler.go: what any sequence of device requests leaves alone.
use rd_testing_project.Base.{
  ◌≡◌, ◌≢◌, inl, inr, refl, some, List, [], ◌∷◌, ◌==◌, nat_eq, arith, All, Bool-cases,
}
use rd_testing_project.Base.Maps.{Map, get, get-update}
use rd_testing_project.Models.{Uuid, Device, DeviceStatus, active, revoked}
use rd_testing_project.Store.{MemoryStore}
use rd_testing_project.Http.{Env, Request, Claims, Handler}
use rd_testing_project.Handlers.Devices.{
  list_devices_handler, get_device_handler, approve_device, revoke_device, list_audit_logs_handler,
}
use rd_testing_project.Handlers.Devices.Transitions.{
  Change, approves, revokes, Writes, keeps, changes, with_status, approve_device-Writes,
  revoke_device-Writes,
}

-- The endpoints of DeviceHandler.
data Endpoint : Type 0 where
  list_all get_one approve revoke audit_log : Endpoint

record DeviceCall : Type 0 where
  endpoint : Endpoint
  env : Env
  request : Request

abbrev handler_of : Endpoint → Env → Request → Handler
handler_of list_all = list_devices_handler
handler_of get_one = get_device_handler
handler_of approve = approve_device
handler_of revoke = revoke_device
handler_of audit_log = list_audit_logs_handler

-- The status that an endpoint can set.
abbrev target_of : Endpoint → DeviceStatus
target_of approve = active
target_of _ = revoked

unfoldable serve_one : DeviceCall → Handler
serve_one c = handler_of c.endpoint c.env c.request

unfoldable serve : List DeviceCall → MemoryStore → MemoryStore
serve [] m = m
serve (c ∷ cs) m = serve cs (serve_one c m).1

endpoint-Writes :
    (e : Endpoint) (env : Env) (r : Request) (m : MemoryStore)
    → Writes r (target_of e) m.devices (handler_of e env r m).1.devices
unfolding list_devices_handler get_device_handler list_audit_logs_handler
endpoint-Writes list_all env r m = keeps (ground arith)
endpoint-Writes get_one env r m = keeps (ground arith)
endpoint-Writes approve env r m = approve_device-Writes env r m
endpoint-Writes revoke env r m = revoke_device-Writes env r m
endpoint-Writes audit_log env r m = keeps (ground arith)

-- The caller is not of the organization.
abbrev IsForeign : Uuid → Request → Type 0
IsForeign org r = (claims : Claims) → r.claims ≡ some claims → claims.organization_id ≢ org

foreign_keeps :
    (r : Request) (id : Uuid) (dev : Device) {status : DeviceStatus}
    {before after : Map Uuid Device}
    → Writes r status before after
    → IsForeign dev.organization_id r
    → get id before ≡ some dev
    → get id after ≡ some dev
foreign_keeps r id dev (keeps e) foreign here = rw e here
foreign_keeps r id dev {status} {before} (changes claims j d c there own _ e) foreign here =
    elim (Bool-cases (j == id)) [
      | inl same ↦ absurd (foreign claims c (ground arith))
      | inr other ↦ rw e (ground (arith, get-update id j (with_status status) before))
    ]

-- A device is left as it was by any sequence of device requests none of whose callers has claims
-- of the device's organization.
serve_isolates :
    (calls : List DeviceCall) (m : MemoryStore) (id : Uuid) (dev : Device)
    → All (λ c. IsForeign dev.organization_id c.request) calls
    → get id m.devices ≡ some dev
    → get id (serve calls m).devices ≡ some dev
unfolding serve serve_one
serve_isolates [] m id dev foreign here = here
serve_isolates (c ∷ cs) m id dev foreign here =
    serve_isolates cs (serve_one c m).1 id dev foreign.1
      (foreign_keeps c.request id dev (endpoint-Writes c.endpoint c.env c.request m) foreign.0 here)

Change-revoked : {s t : DeviceStatus} → Change s t → s ≡ revoked → t ≡ revoked
Change-revoked approves h = cc
Change-revoked revokes h = refl

-- The device is there and revoked.
abbrev pub IsRevoked : Uuid → Map Uuid Device → Type 0
IsRevoked id devices = (dev : Device) × (get id devices ≡ some dev) × (dev.status ≡ revoked)

IsRevoked-keeps :
    (r : Request) (id : Uuid) {status : DeviceStatus} {before after : Map Uuid Device}
    → Writes r status before after
    → IsRevoked id before
    → IsRevoked id after
IsRevoked-keeps r id (keeps e) (dev, here, s) = (dev, rw e here, s)
IsRevoked-keeps r id {status} {before} (changes claims j d c there own ch e) (dev, here, s) =
    elim (Bool-cases (j == id)) [
      | inl same ↦ (
        with_status status dev,
        rw e (ground (arith, get-update id j (with_status status) before)),
        Change-revoked ch (ground arith),
      )
      | inr other ↦ (dev, rw e (ground (arith, get-update id j (with_status status) before)), s)
    ]

-- A revoked device is still there and revoked after any sequence of device requests.
serve-IsRevoked :
    (calls : List DeviceCall) (m : MemoryStore) (id : Uuid)
    → IsRevoked id m.devices
    → IsRevoked id (serve calls m).devices
unfolding serve serve_one
serve-IsRevoked [] m id h = h
serve-IsRevoked (c ∷ cs) m id h =
    serve-IsRevoked cs (serve_one c m).1 id
      (IsRevoked-keeps c.request id (endpoint-Writes c.endpoint c.env c.request m) h)
