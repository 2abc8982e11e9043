-- ===== src/Postgres/Telemetry/History.antt =====
-- postgres_store.go, GetTelemetryHistory: which samples it lists.
use rd_testing_project.Base.{
  ℕ, ◌≤◌, ◌≡◌, ◌⊎◌, true, false, Bool, List, All, All-keep, keep, length, ◌==◌, ◌&&◌, nat_eq, ℤ,
  pos_part,
}
use rd_testing_project.Base.Sort.{
  IsIn, IsNewestFirst, keep-IsIn, length-take-le, take-All, take-IsNewestFirst, take-newest,
  newest_first-All, newest_first-IsNewestFirst, newest_first-IsIn, newest_first,
}
use rd_testing_project.Models.{Uuid, DeviceTelemetry}
use rd_testing_project.Store.{ok}
use rd_testing_project.Postgres.{Database, Query, query_all}
use rd_testing_project.Postgres.Telemetry.{get_telemetry_history}

abbrev recorded : DeviceTelemetry → ℕ
recorded t = t.recorded_at

abbrev is_of : Uuid → Uuid → DeviceTelemetry → Bool
is_of org_id device_id t = t.organization_id == org_id && t.device_id == device_id

query_all-ok {ℓ} : {A : Type ℓ} (down : Bool) (a b : A) → query_all down a ≡ ok b → b ≡ a
query_all-ok true a b h = cc
query_all-ok false a b h = cc

-- The samples of one device in a listing.
pub record IsHistory (org_id device_id : Uuid) (limit : ℕ) (all rows : List DeviceTelemetry)
    : Type 0 where
  own : All (λ t. is_of org_id device_id t ≡ true) rows
  sorted : IsNewestFirst recorded rows
  bounded : length rows ≤ limit
  complete :
      (t : DeviceTelemetry)
      → IsIn t all
      → is_of org_id device_id t ≡ true
      → IsIn t rows ⊎ ((length rows ≡ limit) × All (λ u. recorded t ≤ recorded u) rows)

-- A history of a device that the PostgreSQL store lists holds only samples of that device and
-- organization, newest first and at most the limit; a stored sample of the device that it does not
-- hold is at most as new as every one it holds, and the history then has as many as the limit
-- allows.
pub get_telemetry_history-IsHistory :
    (q : Query) (org_id device_id : Uuid) (limit : ℤ) (db : Database) (rows : List DeviceTelemetry)
    → get_telemetry_history q org_id device_id limit db ≡ ok rows
    → IsHistory org_id device_id (pos_part limit) db.device_telemetry rows
unfolding get_telemetry_history
get_telemetry_history-IsHistory q org_id device_id limit db rows h =
    let n = pos_part limit in
    let mine = keep (is_of org_id device_id) db.device_telemetry in
    let ordered = newest_first recorded mine in
    let sorted = newest_first-IsNewestFirst recorded mine in
    rw (query_all-ok _ _ rows h) (record {
      own = take-All _ n ordered (
          newest_first-All recorded _ mine (All-keep (is_of org_id device_id) db.device_telemetry));
      sorted = take-IsNewestFirst recorded n ordered sorted;
      bounded = length-take-le n ordered;
      complete = λ t i own. take-newest recorded t n ordered sorted (
          newest_first-IsIn recorded t mine
            (keep-IsIn (is_of org_id device_id) t db.device_telemetry own i));
    })
