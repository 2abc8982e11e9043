-- ===== src/Store/Operations.antt =====
-- store.go: alerts, software packages, deployments and licences.
use rd_testing_project.Base.{true, some, List, ◌==◌, nat_eq, keep}
use rd_testing_project.Base.Maps.{get, put, update, values}
use rd_testing_project.Models.{Uuid, Time, Alert, SoftwarePackage, SoftwareDeployment, License}
use rd_testing_project.Store.{MemoryStore, Result, ok, or_not_found, of_tenant, ◌>>=◌}

unfoldable pub create_alert : Alert → MemoryStore → Result MemoryStore
create_alert alert m = ok (record m { alerts = put alert.id alert m.alerts })

unfoldable pub list_alerts : Uuid → MemoryStore → Result (List Alert)
list_alerts org_id m = ok (keep (λ a. a.organization_id == org_id) (values m.alerts))

unfoldable pub acknowledge_alert : Uuid → Uuid → Uuid → Time → MemoryStore → Result MemoryStore
acknowledge_alert org_id alert_id user_id now m = do
  _ ← of_tenant (λ a. a.organization_id) org_id (get alert_id m.alerts)
  ok (record m {
    alerts =
        update alert_id
          (λ a. record a {
            acknowledged = true;
            acknowledged_by = some user_id;
            acknowledged_at = some now;
          })
          m.alerts;
  })

unfoldable pub create_software_package : SoftwarePackage → MemoryStore → Result MemoryStore
create_software_package pkg m = ok (record m { software_pkgs = put pkg.id pkg m.software_pkgs })

unfoldable pub list_software_packages : Uuid → MemoryStore → Result (List SoftwarePackage)
list_software_packages org_id m =
    ok (keep (λ p. p.organization_id == org_id) (values m.software_pkgs))

unfoldable pub create_deployment : SoftwareDeployment → MemoryStore → Result MemoryStore
create_deployment dep m = ok (record m { deployments = put dep.id dep m.deployments })

unfoldable pub list_deployments : Uuid → MemoryStore → Result (List SoftwareDeployment)
list_deployments org_id m = ok (keep (λ d. d.organization_id == org_id) (values m.deployments))

unfoldable pub get_license : Uuid → MemoryStore → Result License
get_license org_id m = or_not_found (get org_id m.licenses)

unfoldable pub save_license : License → MemoryStore → Result MemoryStore
save_license lic m = ok (record m { licenses = put lic.organization_id lic m.licenses })
