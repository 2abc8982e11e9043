-- ===== src/Handlers/Devices/Frame.antt =====
-- device_handler.go: which part of the store each handler writes, and what it writes where it answers with
-- an error.
use rd_testing_project.Base.{◌≡◌, ◌≤◌, arith, nat_eq, string_eq}
use rd_testing_project.Store.{MemoryStore}
use rd_testing_project.Store.Frame.{core, IsUntouched}
use rd_testing_project.Store.Devices.{list_devices, get_device, update_device_status}
use rd_testing_project.Store.Audit.{list_audit_logs}
use rd_testing_project.Http.{Env, Request, audit}
use rd_testing_project.Handlers.Devices.{
  list_devices_handler, get_device_handler, approve_device, revoke_device, list_audit_logs_handler,
}

module _ (env : Env) (r : Request) (m : MemoryStore) where
  pub core-list_devices_handler : core (list_devices_handler env r m).1 ≡ core m
  unfolding list_devices_handler list_devices
  core-list_devices_handler = ground arith

  pub list_devices_handler-IsUntouched :
      400 ≤ (list_devices_handler env r m).0.status → IsUntouched m (list_devices_handler env r m).1
  unfolding list_devices_handler list_devices
  list_devices_handler-IsUntouched h = ground arith

  pub core-get_device_handler : core (get_device_handler env r m).1 ≡ core m
  unfolding get_device_handler get_device
  core-get_device_handler = ground arith

  pub get_device_handler-IsUntouched :
      400 ≤ (get_device_handler env r m).0.status → IsUntouched m (get_device_handler env r m).1
  unfolding get_device_handler get_device
  get_device_handler-IsUntouched h = ground arith

  pub core-approve_device :
      core (approve_device env r m).1
      ≡ record (core m) { devices = (approve_device env r m).1.devices }
  unfolding approve_device get_device update_device_status audit
  core-approve_device = ground arith

  pub approve_device-IsUntouched :
      400 ≤ (approve_device env r m).0.status → IsUntouched m (approve_device env r m).1
  unfolding approve_device get_device update_device_status audit
  approve_device-IsUntouched h = ground arith

  pub core-revoke_device :
      core (revoke_device env r m).1
      ≡ record (core m) { devices = (revoke_device env r m).1.devices }
  unfolding revoke_device update_device_status audit
  core-revoke_device = ground arith

  pub revoke_device-IsUntouched :
      400 ≤ (revoke_device env r m).0.status → IsUntouched m (revoke_device env r m).1
  unfolding revoke_device update_device_status audit
  revoke_device-IsUntouched h = ground arith

  pub core-list_audit_logs_handler : core (list_audit_logs_handler env r m).1 ≡ core m
  unfolding list_audit_logs_handler list_audit_logs
  core-list_audit_logs_handler = ground arith

  pub list_audit_logs_handler-IsUntouched :
      400 ≤ (list_audit_logs_handler env r m).0.status
      → IsUntouched m (list_audit_logs_handler env r m).1
  unfolding list_audit_logs_handler list_audit_logs
  list_audit_logs_handler-IsUntouched h = ground arith
