-- ===== src/Postgres/Telemetry.antt =====
-- postgres_store.go: telemetry.
pub mod History
use rd_testing_project.Base.{
  true, Option, none, some, List, [], ◌∷◌, ◌++◌, ◌&&◌, ◌==◌, nat_eq, keep, take, ℤ, pos, pos_part,
  ◌||◌, ltb_ℤ,
}
use rd_testing_project.Base.Maps.{update}
use rd_testing_project.Base.Sort.{newest_first}
use rd_testing_project.Models.{Uuid, DeviceTelemetry}
use rd_testing_project.Store.{not_found, Result, ok, err}
use rd_testing_project.Postgres.{Database, Query, query_row, query_all, exec, has}

-- WHERE organization_id=$1 AND device_id=$2 ORDER BY recorded_at DESC
abbrev pub rows_of : Uuid → Uuid → Database → List DeviceTelemetry
rows_of org_id device_id db =
    newest_first (λ (t : DeviceTelemetry). t.recorded_at)
      (keep (λ t. t.organization_id == org_id && t.device_id == device_id) db.device_telemetry)

abbrev first_row : List DeviceTelemetry → Option DeviceTelemetry
first_row [] = none
first_row (t ∷ ts) = some t

module _ (q : Query) where
  abbrev pub inserted_sample : DeviceTelemetry → DeviceTelemetry
  inserted_sample t = record t {
    id = q.serial;
    cpu_percent = q.numeric t.cpu_percent;
    ram_percent = q.numeric t.ram_percent;
    disk_percent = q.numeric t.disk_percent;
    recorded_at = q.now;
  }

  -- Two statements without a transaction: the second may fail when the first is done, and the row
  -- is then kept.
  unfoldable pub save_telemetry : DeviceTelemetry → Database → Database × Result Database
  save_telemetry t db =
      elim (exec (q.down 0) (has t.organization_id db.organizations && has t.device_id db.devices)
        (record db { device_telemetry = db.device_telemetry ++ inserted_sample t ∷ [] })) [
          | err e ↦ (db, err e)
          | ok db' ↦ (
            db',
            exec (q.down 1) true (record db' {
              devices = update t.device_id (λ d. record d { last_seen = some q.now }) db'.devices;
            }),
          )
        ]

  unfoldable pub get_latest_telemetry : Uuid → Uuid → Database → Result DeviceTelemetry
  get_latest_telemetry org_id device_id db =
      query_row (q.down 0) not_found (first_row (rows_of org_id device_id db))

  -- A negative LIMIT is an error.
  unfoldable pub get_telemetry_history : Uuid → Uuid → ℤ → Database → Result (List DeviceTelemetry)
  get_telemetry_history org_id device_id limit db =
      query_all (q.down 0 || ltb_ℤ limit (pos 0))
        (take (pos_part limit) (rows_of org_id device_id db))
