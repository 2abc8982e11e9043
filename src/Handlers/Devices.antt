-- ===== src/Handlers/Devices.antt =====
-- services/api/internal/handlers/device_handler.go
pub mod Isolation
pub mod Transitions
pub mod Frame
use rd_testing_project.Base.{
  String, Bool, true, false, Option, none, some, [], ◌∷◌, ◌==◌, ◌!=◌, ◌&&◌, string_eq,
  if◌then◌else◌, ℤ, pos, ltb_ℤ, leb_ℤ,
}
use rd_testing_project.Models.{Uuid, Device, active, revoked, is_pending, text}
use rd_testing_project.Store.{MemoryStore}
use rd_testing_project.Store.Devices.{list_devices, get_device, update_device_status}
use rd_testing_project.Store.Audit.{list_audit_logs}
use rd_testing_project.Http.{
  Env, Request, Handler, ◌>>=◌, ◌>>◌, respond_json, respond_error, require, check, fetch, perform,
  audit, authenticated, status_ok, bad_request, not_found, conflict, internal_error,
}
use rd_testing_project.Http.Bodies.{Body, device, devices, strings, audit_logs}

-- if parsed, err := strconv.Atoi(limitStr); err == nil && parsed > 0 && parsed <= 100
abbrev pub limit_or : ℤ → Option ℤ → ℤ
limit_or d none = d
limit_or d (some n) = if ltb_ℤ (pos 0) n && leb_ℤ n (pos 100) then n else d

module _ (env : Env) (r : Request) where
  unfoldable pub list_devices_handler : Handler
  list_devices_handler = do
    claims ← authenticated r
    found ←
        fetch (list_devices claims.organization_id)
          (λ _. respond_error internal_error "Failed to query devices")
    respond_json status_ok (devices found)

  unfoldable pub get_device_handler : Handler
  get_device_handler = do
    claims ← authenticated r
    device_id ←
        require (env.parse_uuid (r.path_value "deviceId")) bad_request "Invalid device ID format"
    dev ←
        fetch (get_device claims.organization_id device_id)
          (λ _. respond_error not_found "Device not found in organization inventory")
    respond_json status_ok (device dev)

  unfoldable pub approve_device : Handler
  approve_device = do
    claims ← authenticated r
    device_id ←
        require (env.parse_uuid (r.path_value "deviceId")) bad_request "Invalid device ID format"
    dev ←
        fetch (get_device claims.organization_id device_id)
          (λ _. respond_error not_found "Device not found in organization inventory")
    check (is_pending dev.status) conflict "Device is not in PENDING state"
    perform (update_device_status claims.organization_id device_id active) internal_error
        "Failed to update device status"
    audit r (env.now 0) claims.organization_id (some claims.user_id) "device.approved" "device"
        (env.uuid_text device_id) "SUCCESS" (some (("hostname", text dev.hostname) ∷ []))
    respond_json status_ok
        (strings (("message", "Device successfully approved and activated") ∷ []))

  unfoldable pub revoke_device : Handler
  revoke_device = do
    claims ← authenticated r
    device_id ←
        require (env.parse_uuid (r.path_value "deviceId")) bad_request "Invalid device ID format"
    perform (update_device_status claims.organization_id device_id revoked) internal_error
        "Failed to revoke device"
    audit r (env.now 0) claims.organization_id (some claims.user_id) "device.revoked" "device"
        (env.uuid_text device_id) "SUCCESS" none
    respond_json status_ok (strings (("message", "Device credentials revoked") ∷ []))

  unfoldable pub audit_limit : ℤ
  audit_limit =
      if r.query_value "limit" != ""
      then limit_or (pos 50) (env.atoi (r.query_value "limit"))
      else pos 50

  unfoldable pub list_audit_logs_handler : Handler
  unfolding audit_limit
  list_audit_logs_handler = do
    claims ← authenticated r
    logs ←
        fetch (list_audit_logs claims.organization_id audit_limit)
          (λ _. respond_error internal_error "Failed to retrieve audit logs")
    respond_json status_ok (audit_logs logs)
