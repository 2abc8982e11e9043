-- ===== src/Handlers/Groups/Tenancy.antt =====
-- group_handler.go over the in-memory store: which tenants' groups a caller changes.
use rd_testing_project.Base.{
  ◌≡◌, false, none, some, ◌==◌, nat_eq, string_eq, arith, is_some, if◌then◌else◌, ◌≢◌,
}
use rd_testing_project.Base.Maps.{get, get-delete, get-update}
use rd_testing_project.Models.{Uuid, DeviceGroup}
use rd_testing_project.Store.{MemoryStore}
use rd_testing_project.Store.Groups.{update_group, delete_group, patch_group}
use rd_testing_project.Http.{Env, Request, Claims, Decoded, audit, status_ok}
use rd_testing_project.Handlers.Groups.{
  UpdateGroupRequest, update_group_handler, delete_group_handler,
}

module _ (env : Env) (r : Request) (m : MemoryStore) where
  -- An update of a stored group by a caller of another organization is not answered 200 and changes
  -- nothing.
  update_group_isolated :
      (body : Decoded UpdateGroupRequest) (claims : Claims) (id : Uuid) (grp : DeviceGroup)
      → r.claims ≡ some claims
      → env.parse_uuid (r.path_value "id") ≡ some id
      → get id m.groups ≡ some grp
      → grp.organization_id ≢ claims.organization_id
      → ((update_group_handler env r body m).1 ≡ m)
        × ((update_group_handler env r body m).0.status ≢ status_ok)
  unfolding update_group_handler update_group
  update_group_isolated body claims id grp c e here foreign =
      let other = nat_eq.same_iff grp.organization_id claims.organization_id in
      (ground (arith, other), λ x. ground (arith, other))

  -- An update that parses, of a stored group of the caller's organization, writes the name if it
  -- is not empty and the description and the policies if they are given, changes no other field,
  -- and leaves every other group as it was.
  update_group_patches :
      (body : Decoded UpdateGroupRequest) (claims : Claims) (id : Uuid) (grp : DeviceGroup)
      (j : Uuid)
      → r.claims ≡ some claims
      → env.parse_uuid (r.path_value "id") ≡ some id
      → body.failed ≡ false
      → get id m.groups ≡ some grp
      → grp.organization_id ≡ claims.organization_id
      → get j (update_group_handler env r body m).1.groups ≡ (
          if id == j
          then some (record grp {
            name = if body.value.name == "" then grp.name else body.value.name;
            description =
                if is_some body.value.description then body.value.description else grp.description;
            policy_overrides =
                if is_some body.value.policy_overrides
                then body.value.policy_overrides
                else grp.policy_overrides;
          })
          else get j m.groups)
  unfolding update_group_handler update_group patch_group audit
  update_group_patches body claims id grp j c e f here own = ground (
    arith,
    get-update j id (patch_group body.value.name body.value.description body.value.policy_overrides)
        m.groups,
  )

  -- A deletion by an authenticated caller of any organization is answered 200 and removes the
  -- group that the path names, with its members.
  pub delete_group_any_tenant :
      (claims : Claims) (id : Uuid)
      → r.claims ≡ some claims
      → env.parse_uuid (r.path_value "id") ≡ some id
      → (get id (delete_group_handler env r m).1.groups ≡ none)
        × (get id (delete_group_handler env r m).1.group_members ≡ none)
        × ((delete_group_handler env r m).0.status ≡ status_ok)
  unfolding delete_group_handler delete_group audit
  delete_group_any_tenant claims id c e = (
    ground (arith, get-delete id id m.groups),
    ground (arith, get-delete id id m.group_members),
    ground arith,
  )
