-- ===== src/Handlers/Operations.antt =====
-- services/api/internal/handlers/operations_handler.go
pub mod Frame
use rd_testing_project.Base.{
  ℕ, suc, String, not, none, some, List, [], ◌∷◌, ◌==◌, ◌||◌, string_eq, nat_eq, length, int_sub,
}
use rd_testing_project.Models.{Uuid, SoftwarePackage, SoftwareDeployment}
use rd_testing_project.Store.{MemoryStore, ok, err}
use rd_testing_project.Store.Devices.{list_devices}
use rd_testing_project.Store.Operations.{
  list_alerts, acknowledge_alert, list_software_packages, create_software_package,
  create_deployment, get_license,
}
use rd_testing_project.Http.{
  Env, Request, Claims, Decoded, Handler, ◌>>=◌, ◌>>◌, respond_json, respond_error, require, check,
  fetch, peek, perform, audit, authenticated, status_ok, status_created, status_accepted,
  bad_request, not_found, internal_error,
}
use rd_testing_project.Http.Bodies.{strings, counted, alerts, packages, package_created, license}
use rd_testing_project.Handlers.Groups.{devices_of}

pub record CreateSoftwareRequest : Type 0 where
  pub name : String
  pub version : String
  pub installer_url : String
  pub sha256_hash : String
  pub silent_install_args : String

pub record DeploySoftwareRequest : Type 0 where
  pub device_ids : List Uuid

-- The package that CreateSoftware stores.
unfoldable pub new_package : Env → Claims → CreateSoftwareRequest → SoftwarePackage
new_package env claims req = record {
  id = env.new_id 0;
  organization_id = claims.organization_id;
  name = req.name;
  version = req.version;
  installer_url = req.installer_url;
  sha256_hash = req.sha256_hash;
  silent_install_args = req.silent_install_args;
  created_at = env.now 0;
}

-- The deployment of round `i` of the loop over the devices.
unfoldable pub new_deployment : Env → Claims → Uuid → ℕ → Uuid → SoftwareDeployment
new_deployment env claims pkg_id i device_id = record {
  id = env.new_id i;
  organization_id = claims.organization_id;
  package_id = pkg_id;
  device_id = device_id;
  status = "QUEUED";
  created_at = env.now i;
}

-- The loop of DeploySoftware from round `i` on.
unfoldable pub deploy_all : Env → Claims → Uuid → ℕ → List Uuid → MemoryStore → MemoryStore
unfolding new_deployment
deploy_all env claims pkg_id i [] m = m
deploy_all env claims pkg_id i (device_id ∷ rest) m =
    deploy_all env claims pkg_id (suc i) rest
      (elim (create_deployment (new_deployment env claims pkg_id i device_id) m) [
        | ok m' ↦ m'
        | err e ↦ m
      ])

module _ (env : Env) (r : Request) where
  unfoldable pub list_alerts_handler : Handler
  list_alerts_handler = do
    claims ← authenticated r
    found ←
        fetch (list_alerts claims.organization_id)
          (λ _. respond_error internal_error "Failed to list alerts")
    respond_json status_ok (alerts found)

  unfoldable pub acknowledge_alert_handler : Handler
  acknowledge_alert_handler = do
    claims ← authenticated r
    alert_id ← require (env.parse_uuid (r.path_value "id")) bad_request "Invalid alert ID format"
    perform (acknowledge_alert claims.organization_id alert_id claims.user_id (env.now 0)) not_found
        "Alert not found in organization"
    audit r (env.now 1) claims.organization_id (some claims.user_id) "alert.acknowledged" "alert"
        (env.uuid_text alert_id) "SUCCESS" none
    respond_json status_ok (strings (("message", "Alert successfully acknowledged") ∷ []))

  unfoldable pub list_software : Handler
  list_software = do
    claims ← authenticated r
    found ←
        fetch (list_software_packages claims.organization_id)
          (λ _. respond_error internal_error "Failed to list software packages")
    respond_json status_ok (packages found)

  unfoldable pub create_software : Decoded CreateSoftwareRequest → Handler
  unfolding new_package
  create_software body = do
    claims ← authenticated r
    check (not (body.failed || body.value.name == "" || body.value.sha256_hash == "")) bad_request
        "Invalid JSON payload or missing name/hash"
    let pkg = new_package env claims body.value
    perform (create_software_package pkg) internal_error "Failed to register software package"
    respond_json status_created (package_created pkg)

  unfoldable pub deploy_software : Decoded DeploySoftwareRequest → Handler
  unfolding deploy_all
  deploy_software body = do
    claims ← authenticated r
    pkg_id ←
        require (env.parse_uuid (r.path_value "id")) bad_request
          "Invalid software package ID format"
    check (not (body.failed || length body.value.device_ids == 0)) bad_request
        "Invalid JSON payload or empty device list"
    (λ k m. k tt (deploy_all env claims pkg_id 0 body.value.device_ids m))
    respond_json status_accepted (
        counted "Software deployment initiated across target workstations" "targeted"
          (length body.value.device_ids))

  unfoldable pub get_current_license : Handler
  get_current_license = do
    claims ← authenticated r
    lic ←
        fetch (get_license claims.organization_id)
          (λ _. respond_error not_found "No active license found for organization")
    devices ← peek (list_devices claims.organization_id)
    let enrolled = length (devices_of devices)
    respond_json status_ok (
        license (record {
          license = lic;
          enrolled_count = enrolled;
          device_limit = lic.max_devices;
          seats_remaining = int_sub lic.max_devices enrolled;
          in_grace_period = lic.status == "GRACE_PERIOD";
        }))
