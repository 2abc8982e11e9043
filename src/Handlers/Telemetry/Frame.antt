-- ===== src/Handlers/Telemetry/Frame.antt =====
-- telemetry_handler.go: which part of the store each handler writes, and what it writes where it answers with
-- an error.
use rd_testing_project.Base.{◌≡◌, ◌≤◌, arith, nat_eq, string_eq}
use rd_testing_project.Store.{MemoryStore}
use rd_testing_project.Store.Frame.{core, IsUntouched}
use rd_testing_project.Store.Devices.{get_device, save_telemetry}
use rd_testing_project.Http.{Env, Request, Decoded}
use rd_testing_project.Handlers.Telemetry.{
  get_device_telemetry, ingest_telemetry, IngestTelemetryRequest,
}

module _ (env : Env) (r : Request) (m : MemoryStore) where
  pub core-get_device_telemetry : core (get_device_telemetry env r m).1 ≡ core m
  unfolding get_device_telemetry get_device
  core-get_device_telemetry = ground arith

  pub get_device_telemetry-IsUntouched :
      400 ≤ (get_device_telemetry env r m).0.status → IsUntouched m (get_device_telemetry env r m).1
  unfolding get_device_telemetry get_device
  get_device_telemetry-IsUntouched h = ground arith

  pub core-ingest_telemetry :
      (body : Decoded IngestTelemetryRequest)
      → core (ingest_telemetry env r body m).1
        ≡ record (core m) { devices = (ingest_telemetry env r body m).1.devices }
  unfolding ingest_telemetry save_telemetry
  core-ingest_telemetry body = ground arith

  pub ingest_telemetry-IsUntouched :
      (body : Decoded IngestTelemetryRequest)
      → 400 ≤ (ingest_telemetry env r body m).0.status
      → IsUntouched m (ingest_telemetry env r body m).1
  unfolding ingest_telemetry save_telemetry
  ingest_telemetry-IsUntouched body h = ground arith
