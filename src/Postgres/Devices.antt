-- ===== src/Postgres/Devices.antt =====
-- postgres_store.go: devices and their credentials.
use rd_testing_project.Base.{ℕ, not, none, List, ◌&&◌, ◌||◌, ◌==◌, nat_eq, keep, is_some, pos}
use rd_testing_project.Base.Maps.{get, put, update, values}
use rd_testing_project.Base.Sort.{newest_first}
use rd_testing_project.Models.{Uuid, Device, DeviceStatus}
use rd_testing_project.Store.{unauthorized, Result, ◌>>=◌}
use rd_testing_project.Postgres.{
  Database, Query, query_row, query_all, exec, exec_affecting, of_org, has, address, is_address,
}

abbrev pub org_of_device : Device → Uuid
org_of_device d = d.organization_id

module _ (q : Query) where
  unfoldable pub list_devices : Uuid → Database → Result (List Device)
  list_devices org_id db = query_all (q.down 0) (
      newest_first (λ (d : Device). d.created_at)
        (keep (λ d. d.organization_id == org_id) (values db.devices)))

  unfoldable pub get_device : Uuid → Uuid → Database → Result Device
  get_device org_id device_id db =
      query_row (q.down 0) unauthorized (of_org org_of_device org_id (get device_id db.devices))

  unfoldable pub update_device_status : Uuid → Uuid → DeviceStatus → Database → Result Database
  update_device_status org_id device_id status db =
      exec_affecting (q.down 0) unauthorized
        (is_some (of_org org_of_device org_id (get device_id db.devices)))
        (record db {
          devices =
              update device_id (λ d. record d { status = status; updated_at = q.now }) db.devices;
        })

  -- The columns that the INSERT does not name have their defaults.
  abbrev pub inserted_device : Device → Device
  inserted_device dev = record dev {
    ip_address_public = address q dev.ip_address_public;
    ip_address_local = address q dev.ip_address_local;
    last_seen = none;
    uptime_seconds = pos 0;
    created_at = q.now;
    updated_at = q.now;
  }

  -- Both INSERTs run in one transaction, which is undone where one of them fails.
  unfoldable pub register_device : Device → List ℕ → Database → Result Database
  register_device dev pub_key db = do
    db' ←
        exec (q.down 0 || q.down 1)
          (not (has dev.id db.devices)
            && has dev.organization_id db.organizations
            && is_address q dev.ip_address_public
            && is_address q dev.ip_address_local)
          (record db { devices = put dev.id (inserted_device dev) db.devices })
    exec (q.down 2 || q.down 3) (not (has dev.id db'.device_credentials))
        (record db' { device_credentials = put dev.id pub_key db'.device_credentials })
