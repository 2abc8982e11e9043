-- ===== src/Store/Groups/Members.antt =====
-- store.go: the members of a group under assignment and removal.
use rd_testing_project.Base.{
  ◌≡◌, refl, Bool, true, false, [], ◌==◌, ◌&&◌, nat_eq, arith, Option-cases, is_some, inl, inr,
  or_else, if◌then◌else◌,
}
use rd_testing_project.Base.Maps.{
  get, put, update, delete, get-put, get-update, get-delete, delete-none,
}
use rd_testing_project.Models.{Uuid}
use rd_testing_project.Store.{MemoryStore, ok}
use rd_testing_project.Store.Groups.{assign_device_to_group, remove_device_from_group, members_of}

abbrev is_member : Uuid → Uuid → MemoryStore → Bool
is_member group_id device_id m = is_some (get device_id (members_of group_id m))

-- An assignment that succeeds adds the device to the group and changes no other membership.
assign_device_to_group_lem :
    (org_id group_id device_id : Uuid) (m m' : MemoryStore) (g d : Uuid)
    → assign_device_to_group org_id group_id device_id m ≡ ok m'
    → is_member g d m' ≡ (if group_id == g && device_id == d then true else is_member g d m)
unfolding assign_device_to_group
assign_device_to_group_lem org_id group_id device_id m m' g d h =
    let ms = put device_id true (members_of group_id m) in
    let changed : m'.group_members ≡ put group_id ms m.group_members = ground arith in
    ground (
      arith,
      changed,
      get-put g group_id ms m.group_members,
      get-put d device_id true (members_of group_id m),
    )

members_of-update :
    (group_id device_id g : Uuid) (m : MemoryStore)
    → or_else (get g (update group_id (delete device_id) m.group_members)) []
      ≡ (if group_id == g then delete device_id (members_of g m) else members_of g m)
members_of-update group_id device_id g m =
    let here = get-update g group_id (delete device_id) m.group_members in
    elim (Option-cases (get g m.group_members)) [
      | inl none_yet ↦ ground (arith, here, none_yet, delete-none {V = Bool} device_id)
      | inr (ms, a_map) ↦ ground (arith, here, a_map)
    ]

-- A removal succeeds, takes the device out of the group and changes no other membership.
remove_device_from_group_lem :
    (org_id group_id device_id : Uuid) (m : MemoryStore) (g d : Uuid)
    → (m' : MemoryStore) × (remove_device_from_group org_id group_id device_id m ≡ ok m')
      × (is_member g d m' ≡ (if group_id == g && device_id == d then false else is_member g d m))
unfolding remove_device_from_group
remove_device_from_group_lem org_id group_id device_id m g d = (
  record m { group_members = update group_id (delete device_id) m.group_members },
  refl,
  ground (arith, members_of-update group_id device_id g m, get-delete d device_id (members_of g m)),
)
