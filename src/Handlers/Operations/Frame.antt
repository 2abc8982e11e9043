-- ===== src/Handlers/Operations/Frame.antt =====
-- operations_handler.go: which part of the store each handler writes, and what it writes where it answers with
-- an error.
use rd_testing_project.Models.{Uuid}
use rd_testing_project.Base.{
  ℕ, suc, refl, List, [], ◌∷◌, Option-cases, inl, inr, ◌≡◌, ◌≤◌, arith, nat_eq, string_eq,
}
use rd_testing_project.Store.{MemoryStore}
use rd_testing_project.Store.Frame.{core, IsUntouched}
use rd_testing_project.Store.Operations.{
  list_alerts, acknowledge_alert, list_software_packages, create_software_package,
  create_deployment, get_license,
}
use rd_testing_project.Http.{Env, Claims, Request, Decoded, audit}
use rd_testing_project.Handlers.Operations.{
  list_alerts_handler, acknowledge_alert_handler, list_software, create_software, deploy_software,
  get_current_license, deploy_all, CreateSoftwareRequest, DeploySoftwareRequest,
}

-- The loop writes nothing but deployments.
core-deploy_all :
    (env : Env) (claims : Claims) (pkg_id : Uuid) (i : ℕ) (ids : List Uuid) (m : MemoryStore)
    → core (deploy_all env claims pkg_id i ids m) ≡ core m
unfolding deploy_all create_deployment
core-deploy_all env claims pkg_id i [] m = refl
core-deploy_all env claims pkg_id i (id ∷ ids) m = core-deploy_all env claims pkg_id (suc i) ids _

module _ (env : Env) (r : Request) (m : MemoryStore) where
  pub core-list_alerts_handler : core (list_alerts_handler env r m).1 ≡ core m
  unfolding list_alerts_handler list_alerts
  core-list_alerts_handler = ground arith

  pub list_alerts_handler-IsUntouched :
      400 ≤ (list_alerts_handler env r m).0.status → IsUntouched m (list_alerts_handler env r m).1
  unfolding list_alerts_handler list_alerts
  list_alerts_handler-IsUntouched h = ground arith

  pub core-acknowledge_alert_handler : core (acknowledge_alert_handler env r m).1 ≡ core m
  unfolding acknowledge_alert_handler acknowledge_alert audit
  core-acknowledge_alert_handler = ground arith

  pub acknowledge_alert_handler-IsUntouched :
      400 ≤ (acknowledge_alert_handler env r m).0.status
      → IsUntouched m (acknowledge_alert_handler env r m).1
  unfolding acknowledge_alert_handler acknowledge_alert audit
  acknowledge_alert_handler-IsUntouched h = ground arith

  pub core-list_software : core (list_software env r m).1 ≡ core m
  unfolding list_software list_software_packages
  core-list_software = ground arith

  pub list_software-IsUntouched :
      400 ≤ (list_software env r m).0.status → IsUntouched m (list_software env r m).1
  unfolding list_software list_software_packages
  list_software-IsUntouched h = ground arith

  pub core-create_software :
      (body : Decoded CreateSoftwareRequest) → core (create_software env r body m).1 ≡ core m
  unfolding create_software create_software_package
  core-create_software body = ground arith

  pub create_software-IsUntouched :
      (body : Decoded CreateSoftwareRequest)
      → 400 ≤ (create_software env r body m).0.status
      → IsUntouched m (create_software env r body m).1
  unfolding create_software create_software_package
  create_software-IsUntouched body h = ground arith

  pub core-deploy_software :
      (body : Decoded DeploySoftwareRequest) → core (deploy_software env r body m).1 ≡ core m
  unfolding deploy_software
  core-deploy_software body = elim (Option-cases r.claims) [
    | inl c ↦ ground arith
    | inr (claims, c) ↦ elim (Option-cases (env.parse_uuid (r.path_value "id"))) [
      | inl e ↦ ground arith
      | inr (id, e) ↦ ground (arith, core-deploy_all env claims id 0 body.value.device_ids m)
    ]
  ]

  pub deploy_software-IsUntouched :
      (body : Decoded DeploySoftwareRequest)
      → 400 ≤ (deploy_software env r body m).0.status
      → IsUntouched m (deploy_software env r body m).1
  unfolding deploy_software
  deploy_software-IsUntouched body h = ground arith

  pub core-get_current_license : core (get_current_license env r m).1 ≡ core m
  unfolding get_current_license get_license
  core-get_current_license = ground arith

  pub get_current_license-IsUntouched :
      400 ≤ (get_current_license env r m).0.status → IsUntouched m (get_current_license env r m).1
  unfolding get_current_license get_license
  get_current_license-IsUntouched h = ground arith
