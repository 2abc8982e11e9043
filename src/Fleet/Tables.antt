-- ===== src/Fleet/Tables.antt =====
-- postgres_store.go: PostgresStore keeps the promises of a store about its devices as long as its
-- statements run, and so answers as MemoryStore does.
use rd_testing_project.Base.{
  ℕ, ◌≡◌, ap, sym, ◌∙◌, inl, inr, false, List, ◌==◌, nat_eq, fun_ext, arith, Option-cases,
  Bool-cases,
}
use rd_testing_project.Base.Maps.{get, update, get-update}
use rd_testing_project.Models.{Uuid, Device, DeviceStatus}
use rd_testing_project.Store.{MemoryStore, unauthorized}
use rd_testing_project.Postgres.{Database, Query}
use rd_testing_project.Postgres.Devices.{get_device, update_device_status}
use rd_testing_project.Fleet.{
  Registry, DeviceStore, UpdateOutcome, refused, updated, status_for, status_of, Call, serve_all,
  prescribe_all, serve_all-refines,
}
use rd_testing_project.Fleet.Memory.{entry, memory_view, memory_devices}

abbrev pub tables_view : Database → Registry
tables_view db device_id = entry (get device_id db.devices)

module _ (q : Query) (up : (i : ℕ) → q.down i ≡ false) where
  pub get_device_lem :
      (org_id device_id : Uuid) (db : Database)
      → status_of (get_device q org_id device_id db) ≡ status_for org_id (tables_view db device_id)
  unfolding get_device
  get_device_lem org_id device_id db = ground (arith, up 0)

  -- The rows after an update of one.
  abbrev with_status : Uuid → DeviceStatus → Database → Database
  with_status device_id status db = record db {
    devices = update device_id (λ d. record d { status = status; updated_at = q.now }) db.devices;
  }

  pub update_device_status_lem :
      (org_id device_id : Uuid) (status : DeviceStatus) (db : Database)
      → UpdateOutcome tables_view org_id device_id status db
          (update_device_status q org_id device_id status db)
  unfolding update_device_status
  update_device_status_lem org_id device_id status db =
      elim (Option-cases (get device_id db.devices)) [
        | inl e ↦ refused unauthorized (ground arith) (ground (arith, up 0))
        | inr (d, e) ↦ elim (Bool-cases (d.organization_id == org_id)) [
          | inl mine ↦
              updated d.status (with_status device_id status db) (ground arith)
                (ground (arith, up 0))
                (fun_ext (λ j. ground (
                  arith,
                  nat_eq.same_iff d.organization_id org_id,
                  nat_eq.same_iff device_id j,
                  get-update j device_id
                      (λ (d : Device). record d { status = status; updated_at = q.now }) db.devices,
                )))
          | inr other ↦ refused unauthorized (ground arith) (ground (arith, up 0))
        ]
      ]

  abbrev pub database_devices : DeviceStore Database
  database_devices = record {
    view = tables_view;
    get_device = get_device q;
    update_device_status = update_device_status q;
    get_device_lem = get_device_lem;
    update_device_status_lem = update_device_status_lem;
  }

  -- As long as every statement of the PostgreSQL store runs, and from the same owners and statuses
  -- of devices, the in-memory store and the PostgreSQL store give the same answers to any sequence
  -- of approvals and revocations and end with the same owners and statuses.
  pub stores_agree :
      (calls : List Call) (m : MemoryStore) (db : Database)
      → memory_view m ≡ tables_view db
      → ((serve_all memory_devices calls m).0 ≡ (serve_all database_devices calls db).0)
        × (memory_view (serve_all memory_devices calls m).1
            ≡ tables_view (serve_all database_devices calls db).1)
  stores_agree calls m db same =
      let (answers, view) = serve_all-refines memory_devices calls m in
      let (answers', view') = serve_all-refines database_devices calls db in
      (
        answers ∙ ap (λ reg. (prescribe_all calls reg).0) same ∙ sym answers',
        view ∙ ap (λ reg. (prescribe_all calls reg).1) same ∙ sym view',
      )
