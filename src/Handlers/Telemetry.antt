-- ===== src/Handlers/Telemetry.antt =====
-- services/api/internal/handlers/telemetry_handler.go
pub mod Frame
use rd_testing_project.Base.{
  not, Option, none, some, List, [], ◌∷◌, ◌==◌, string_eq, nat_eq, ◌!=◌, ℤ, pos, if◌then◌else◌,
}
use rd_testing_project.Models.{Uuid, Float64, DeviceTelemetry}
use rd_testing_project.Store.{Result, ok, err}
use rd_testing_project.Store.Devices.{
  get_device, get_latest_telemetry, get_telemetry_history, save_telemetry,
}
use rd_testing_project.Http.{
  Env, Request, Decoded, Handler, ◌>>=◌, ◌>>◌, respond_json, respond_error, require, check, fetch,
  peek, perform, authenticated, status_ok, status_created, bad_request, not_found, internal_error,
}
use rd_testing_project.Http.Bodies.{strings, telemetry}
use rd_testing_project.Handlers.Devices.{limit_or}

pub record IngestTelemetryRequest : Type 0 where
  pub device_id : Uuid
  pub organization_id : Uuid
  pub cpu_percent : Float64
  pub ram_used_bytes : ℤ
  pub ram_total_bytes : ℤ
  pub ram_percent : Float64
  pub disk_used_bytes : ℤ
  pub disk_total_bytes : ℤ
  pub disk_percent : Float64
  pub network_rx_bytes_sec : ℤ
  pub network_tx_bytes_sec : ℤ

abbrev latest_of : Result DeviceTelemetry → Option DeviceTelemetry
latest_of (ok t) = some t
latest_of (err e) = none

abbrev history_or_nil : Result (List DeviceTelemetry) → List DeviceTelemetry
history_or_nil (ok ts) = ts
history_or_nil (err e) = []

-- The sample that IngestTelemetry stores.
unfoldable pub new_sample : Env → IngestTelemetryRequest → DeviceTelemetry
new_sample env req = record {
  id = pos 0;
  organization_id = req.organization_id;
  device_id = req.device_id;
  cpu_percent = req.cpu_percent;
  ram_used_bytes = req.ram_used_bytes;
  ram_total_bytes = req.ram_total_bytes;
  ram_percent = req.ram_percent;
  disk_used_bytes = req.disk_used_bytes;
  disk_total_bytes = req.disk_total_bytes;
  disk_percent = req.disk_percent;
  network_rx_bytes_sec = req.network_rx_bytes_sec;
  network_tx_bytes_sec = req.network_tx_bytes_sec;
  recorded_at = env.now 0;
}

module _ (env : Env) (r : Request) where
  unfoldable pub history_limit : ℤ
  history_limit =
      if r.query_value "limit" != ""
      then limit_or (pos 30) (env.atoi (r.query_value "limit"))
      else pos 30

  unfoldable pub get_device_telemetry : Handler
  unfolding history_limit
  get_device_telemetry = do
    claims ← authenticated r
    device_id ←
        require (env.parse_uuid (r.path_value "deviceId")) bad_request "Invalid device ID format"
    dev ←
        fetch (get_device claims.organization_id device_id)
          (λ _. respond_error not_found "Device not found in tenant organization")
    latest ← peek (get_latest_telemetry claims.organization_id device_id)
    history ← peek (get_telemetry_history claims.organization_id device_id history_limit)
    respond_json status_ok (
        telemetry (record {
          device_id = device_id;
          latest = latest_of latest;
          history = if r.query_value "history" == "true" then history_or_nil history else [];
          status = dev.status;
          last_seen = dev.last_seen;
        }))

  unfoldable pub ingest_telemetry : Decoded IngestTelemetryRequest → Handler
  unfolding new_sample
  ingest_telemetry body = do
    check (not body.failed) bad_request "Invalid JSON body"
    perform (save_telemetry (new_sample env body.value) (env.now 1)) internal_error
        "Failed to persist telemetry"
    respond_json status_created (strings (("status", "ingested") ∷ []))
