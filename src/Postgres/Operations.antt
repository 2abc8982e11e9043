-- ===== src/Postgres/Operations.antt =====
-- postgres_store.go: alerts, software packages, deployments and licences.
use rd_testing_project.Base.{
  String, Bool, true, false, not, none, some, List, ◌&&◌, ◌||◌, ◌==◌, ltb, nat_eq, if◌then◌else◌,
  keep, is_some, ℤ,
}
use rd_testing_project.Base.Maps.{get, put, update, values}
use rd_testing_project.Base.Sort.{newest_first}
use rd_testing_project.Models.{Uuid, Time, Alert, SoftwarePackage, SoftwareDeployment, License}
use rd_testing_project.Store.{not_found, unauthorized, Result, ok, ◌>>=◌}
use rd_testing_project.Postgres.{
  Database, Query, query_row, query_all, exec, exec_affecting, of_org, has, has_or_null,
}

abbrev pub org_of_alert : Alert → Uuid
org_of_alert a = a.organization_id

-- The status that GetLicense computes; `add_days` is time.Time.AddDate(0, 0, n).
unfoldable pub license_status : (Time → ℤ → Time) → Time → License → String
license_status add_days now l =
    if ltb (add_days l.valid_until l.grace_period_days) now
    then "EXPIRED"
    else if ltb l.valid_until now
    then "GRACE_PERIOD"
    else "ACTIVE"

-- ON CONFLICT (organization_id) needs a unique constraint on the column; licenses has none.
abbrev pub has_conflict_target : Bool
has_conflict_target = false

module _ (q : Query) where
  -- The columns that the INSERT does not name have their defaults.
  abbrev inserted_alert : Alert → Alert
  inserted_alert alert = record alert {
    acknowledged = false;
    acknowledged_by = none;
    acknowledged_at = none;
    created_at = q.now;
  }

  unfoldable pub create_alert : Alert → Database → Result Database
  create_alert alert db =
      exec (q.down 0)
        (not (has alert.id db.alerts)
          && has alert.organization_id db.organizations
          && has_or_null alert.device_id db.devices)
        (record db { alerts = put alert.id (inserted_alert alert) db.alerts })

  unfoldable pub list_alerts : Uuid → Database → Result (List Alert)
  list_alerts org_id db = query_all (q.down 0) (
      newest_first (λ (a : Alert). a.created_at)
        (keep (λ a. a.organization_id == org_id) (values db.alerts)))

  -- acknowledged_by refers to users, which is checked where a row is updated.
  unfoldable pub acknowledge_alert : Uuid → Uuid → Uuid → Database → Result Database
  acknowledge_alert org_id alert_id user_id db =
      let hit = is_some (of_org org_of_alert org_id (get alert_id db.alerts)) in
      exec_affecting (q.down 0 || hit && not (has user_id db.users)) unauthorized hit (record db {
        alerts =
            update alert_id
              (λ a. record a {
                acknowledged = true;
                acknowledged_by = some user_id;
                acknowledged_at = some q.now;
              })
              db.alerts;
      })

  unfoldable pub create_software_package : SoftwarePackage → Database → Result Database
  create_software_package pkg db =
      exec (q.down 0)
        (not (has pkg.id db.software_packages) && has pkg.organization_id db.organizations)
        (record db {
          software_packages = put pkg.id (record pkg { created_at = q.now }) db.software_packages;
        })

  unfoldable pub list_software_packages : Uuid → Database → Result (List SoftwarePackage)
  list_software_packages org_id db = query_all (q.down 0) (
      newest_first (λ (p : SoftwarePackage). p.created_at)
        (keep (λ p. p.organization_id == org_id) (values db.software_packages)))

  unfoldable pub create_deployment : SoftwareDeployment → Database → Result Database
  create_deployment dep db =
      exec (q.down 0)
        (not (has dep.id db.software_deployments)
          && has dep.organization_id db.organizations
          && has dep.package_id db.software_packages
          && has dep.device_id db.devices)
        (record db {
          software_deployments =
              put dep.id (record dep { created_at = q.now }) db.software_deployments;
        })

  unfoldable pub list_deployments : Uuid → Database → Result (List SoftwareDeployment)
  list_deployments org_id db = query_all (q.down 0) (
      newest_first (λ (d : SoftwareDeployment). d.created_at)
        (keep (λ d. d.organization_id == org_id) (values db.software_deployments)))

  -- The licence of an organization is filed under the organization's id.
  unfoldable pub get_license : (Time → ℤ → Time) → Uuid → Database → Result License
  unfolding license_status
  get_license add_days org_id db = do
    l ← query_row (q.down 0) not_found (get org_id db.licenses)
    ok (record l { status = license_status add_days q.clock l })

  unfoldable pub save_license : License → Database → Result Database
  save_license lic db =
      exec (q.down 0) (has_conflict_target && has lic.organization_id db.organizations)
        (record db { licenses = put lic.organization_id lic db.licenses })
