-- ===== src/Handlers/Devices/Transitions.antt =====
-- device_handler.go: the changes of a device's status, and the tenants that may make them.
use rd_testing_project.Base.{
  ◌≡◌, ◌↔◌, ◌&&◌, inl, inr, some, ◌==◌, nat_eq, arith, Option-cases, Bool-cases,
}
use rd_testing_project.Base.Maps.{Map, get, update}
use rd_testing_project.Models.{Uuid, Device, DeviceStatus, pending, active, revoked, is_pending}
use rd_testing_project.Store.{MemoryStore}
use rd_testing_project.Store.Devices.{get_device, update_device_status}
use rd_testing_project.Http.{Env, Request, Claims, audit, status_ok}
use rd_testing_project.Handlers.Devices.{approve_device, revoke_device}

-- The changes of status that the handlers make.
pub data Change : DeviceStatus → DeviceStatus → Type 0 where
  approves : Change pending active
  revokes : {s : DeviceStatus} → Change s revoked

abbrev pub with_status : DeviceStatus → Device → Device
with_status status d = record d { status = status }

-- What one request by `r`, which can set one status, does to the devices.
pub data Writes (r : Request) (status : DeviceStatus) (before after : Map Uuid Device)
    : Type 0 where
  keeps : after ≡ before → Writes r status before after
  changes :
      (claims : Claims) (id : Uuid) (dev : Device)
      → r.claims ≡ some claims
      → get id before ≡ some dev
      → dev.organization_id ≡ claims.organization_id
      → Change dev.status status
      → after ≡ update id (with_status status) before
      → Writes r status before after

module _ (env : Env) (r : Request) (m : MemoryStore) where
  approve-Change : (dev : Device) → dev.status ≡ pending → Change dev.status active
  approve-Change dev e = rw e approves

  pub approve_device-Writes : Writes r active m.devices (approve_device env r m).1.devices
  unfolding approve_device get_device update_device_status audit
  approve_device-Writes = elim (Option-cases r.claims) [
    | inl c ↦ keeps (ground arith)
    | inr (claims, c) ↦ elim (Option-cases (env.parse_uuid (r.path_value "deviceId"))) [
      | inl e ↦ keeps (ground arith)
      | inr (id, e) ↦ elim (Option-cases (get id m.devices)) [
        | inl q ↦ keeps (ground arith)
        | inr (dev, q) ↦
            elim (Bool-cases
              (dev.organization_id == claims.organization_id && is_pending dev.status)) [
                | inr no_right ↦ keeps (ground arith)
                | inl right ↦
                    changes claims id dev c q (ground arith) (approve-Change dev (ground arith))
                      (ground arith)
              ]
      ]
    ]
  ]

  pub revoke_device-Writes : Writes r revoked m.devices (revoke_device env r m).1.devices
  unfolding revoke_device update_device_status audit
  revoke_device-Writes = elim (Option-cases r.claims) [
    | inl c ↦ keeps (ground arith)
    | inr (claims, c) ↦ elim (Option-cases (env.parse_uuid (r.path_value "deviceId"))) [
      | inl e ↦ keeps (ground arith)
      | inr (id, e) ↦ elim (Option-cases (get id m.devices)) [
        | inl q ↦ keeps (ground arith)
        | inr (dev, q) ↦ elim (Bool-cases (dev.organization_id == claims.organization_id)) [
          | inr foreign ↦ keeps (ground arith)
          | inl own ↦ changes claims id dev c q (ground arith) revokes (ground arith)
        ]
      ]
    ]
  ]

  -- For an authenticated caller and a path that names a device, an approval answers 200 exactly
  -- where the device is of the caller's organization and PENDING.
  approve_device_succeeds :
      (claims : Claims) (id : Uuid) (dev : Device)
      → r.claims ≡ some claims
      → env.parse_uuid (r.path_value "deviceId") ≡ some id
      → get id m.devices ≡ some dev
      → ((approve_device env r m).0.status ≡ status_ok)
        ↔ ((dev.organization_id ≡ claims.organization_id) × (dev.status ≡ pending))
  unfolding approve_device get_device update_device_status audit
  approve_device_succeeds claims id dev c e q =
      (λ h. (ground arith, ground arith), λ h. ground arith)
