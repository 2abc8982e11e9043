-- ===== src/Handlers/Groups/Frame.antt =====
-- group_handler.go: which part of the store each handler writes, and what it writes where it answers with
-- an error.
use rd_testing_project.Models.{Uuid}
use rd_testing_project.Base.{
  ◌∙◌, refl, List, [], ◌∷◌, Option-cases, inl, inr, ◌≡◌, ◌≤◌, arith, nat_eq, string_eq,
}
use rd_testing_project.Store.{MemoryStore, ok, err}
use rd_testing_project.Store.Frame.{core, IsUntouched}
use rd_testing_project.Store.Groups.{
  list_groups, create_group, assign_device_to_group, get_group, update_group, delete_group,
  remove_device_from_group,
}
use rd_testing_project.Http.{Env, Request, Decoded, audit}
use rd_testing_project.Handlers.Groups.{
  list_groups_handler, create_group_handler, get_group_handler, update_group_handler,
  delete_group_handler, assign_devices, remove_device, assign_all, AssignDevicesRequest,
  CreateGroupRequest, UpdateGroupRequest,
}

core-assign_one :
    (org_id group_id id : Uuid) (m : MemoryStore)
    → core (elim (assign_device_to_group org_id group_id id m) [ ok m' ↦ m' | err e ↦ m ]) ≡ core m
unfolding assign_device_to_group
core-assign_one org_id group_id id m = ground arith

-- The loop writes nothing but group members.
core-assign_all :
    (org_id group_id : Uuid) (ids : List Uuid) (m : MemoryStore)
    → core (assign_all org_id group_id ids m) ≡ core m
unfolding assign_all
core-assign_all org_id group_id [] m = refl
core-assign_all org_id group_id (id ∷ ids) m =
    core-assign_all org_id group_id ids _ ∙ core-assign_one org_id group_id id m

module _ (env : Env) (r : Request) (m : MemoryStore) where
  pub core-list_groups_handler : core (list_groups_handler env r m).1 ≡ core m
  unfolding list_groups_handler list_groups
  core-list_groups_handler = ground arith

  pub list_groups_handler-IsUntouched :
      400 ≤ (list_groups_handler env r m).0.status → IsUntouched m (list_groups_handler env r m).1
  unfolding list_groups_handler list_groups
  list_groups_handler-IsUntouched h = ground arith

  pub core-create_group_handler :
      (body : Decoded CreateGroupRequest) → core (create_group_handler env r body m).1 ≡ core m
  unfolding create_group_handler create_group audit
  core-create_group_handler body = ground arith

  pub create_group_handler-IsUntouched :
      (body : Decoded CreateGroupRequest)
      → 400 ≤ (create_group_handler env r body m).0.status
      → IsUntouched m (create_group_handler env r body m).1
  unfolding create_group_handler create_group audit
  create_group_handler-IsUntouched body h = ground arith

  pub core-get_group_handler : core (get_group_handler env r m).1 ≡ core m
  unfolding get_group_handler get_group
  core-get_group_handler = ground arith

  pub get_group_handler-IsUntouched :
      400 ≤ (get_group_handler env r m).0.status → IsUntouched m (get_group_handler env r m).1
  unfolding get_group_handler get_group
  get_group_handler-IsUntouched h = ground arith

  pub core-update_group_handler :
      (body : Decoded UpdateGroupRequest) → core (update_group_handler env r body m).1 ≡ core m
  unfolding update_group_handler update_group audit
  core-update_group_handler body = ground arith

  pub update_group_handler-IsUntouched :
      (body : Decoded UpdateGroupRequest)
      → 400 ≤ (update_group_handler env r body m).0.status
      → IsUntouched m (update_group_handler env r body m).1
  unfolding update_group_handler update_group audit
  update_group_handler-IsUntouched body h = ground arith

  pub core-delete_group_handler : core (delete_group_handler env r m).1 ≡ core m
  unfolding delete_group_handler delete_group audit
  core-delete_group_handler = ground arith

  pub delete_group_handler-IsUntouched :
      400 ≤ (delete_group_handler env r m).0.status → IsUntouched m (delete_group_handler env r m).1
  unfolding delete_group_handler delete_group audit
  delete_group_handler-IsUntouched h = ground arith

  pub core-assign_devices :
      (body : Decoded AssignDevicesRequest) → core (assign_devices env r body m).1 ≡ core m
  unfolding assign_devices audit
  core-assign_devices body = elim (Option-cases r.claims) [
    | inl c ↦ ground arith
    | inr (claims, c) ↦ elim (Option-cases (env.parse_uuid (r.path_value "id"))) [
      | inl e ↦ ground arith
      | inr (id, e) ↦
          ground (arith, core-assign_all claims.organization_id id body.value.device_ids m)
    ]
  ]

  pub assign_devices-IsUntouched :
      (body : Decoded AssignDevicesRequest)
      → 400 ≤ (assign_devices env r body m).0.status
      → IsUntouched m (assign_devices env r body m).1
  unfolding assign_devices audit
  assign_devices-IsUntouched body h = ground arith

  pub core-remove_device : core (remove_device env r m).1 ≡ core m
  unfolding remove_device remove_device_from_group audit
  core-remove_device = ground arith

  pub remove_device-IsUntouched :
      400 ≤ (remove_device env r m).0.status → IsUntouched m (remove_device env r m).1
  unfolding remove_device remove_device_from_group audit
  remove_device-IsUntouched h = ground arith
