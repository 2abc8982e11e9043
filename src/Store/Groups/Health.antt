-- ===== src/Store/Groups/Health.antt =====
-- store.go: the health summary of a group against the list of its devices.
use rd_testing_project.Base.{
  ℕ, ◌+◌, ◌<◌, ◌≡◌, refl, ap, ◌∙◌, Bool, not, List, [], ◌∷◌, nat_eq, arith, length, keep, pos,
  int_half, if◌then◌else◌, inl, inr, Option-cases,
}
use rd_testing_project.Base.Maps.{Map, get}
use rd_testing_project.Models.{Uuid, Device, GroupHealthSummary, is_active}
use rd_testing_project.Store.{MemoryStore, ok}
use rd_testing_project.Store.Groups.{
  member_devices, count_device, count_members, members_of, get_group_devices,
  get_group_health_summary, empty_summary, group_name_of,
}

-- The summary counts as many devices as these.
record Counts (s : GroupHealthSummary) (total online offline : ℕ) : Type 0 where
  in_all : s.total_devices ≡ pos total
  up : s.online_devices ≡ pos online
  down : s.offline_devices ≡ pos offline

abbrev up_count : List Device → ℕ
up_count ds = length (keep (λ d. is_active d.status) ds)

abbrev down_count : List Device → ℕ
down_count ds = length (keep (λ d. not (is_active d.status)) ds)

count_all : GroupHealthSummary → List Device → GroupHealthSummary
count_all s [] = s
count_all s (d ∷ ds) = count_all (count_device s d) ds

count_members-count_all :
    (org_id : Uuid) (devices : Map Uuid Device) (s : GroupHealthSummary) (members : Map Uuid Bool)
    → count_members org_id devices s members ≡ count_all s (member_devices org_id devices members)
unfolding count_members count_all member_devices
count_members-count_all org_id devices s [] = refl
count_members-count_all org_id devices s ((id, b) ∷ members) =
    elim (Option-cases (get id devices)) [
      | inl gone ↦ ground (arith, count_members-count_all org_id devices s members)
      | inr (dev, here) ↦ ground (
        arith,
        count_members-count_all org_id devices (count_device s dev) members,
        count_members-count_all org_id devices s members,
      )
    ]

count_device-Counts :
    (s : GroupHealthSummary) (d : Device) (n a b : ℕ)
    → n + 1 < int_half
    → a + b ≡ n
    → Counts s n a b
    → Counts
        (count_device s d)
        (n + 1)
        (if is_active d.status then a + 1 else a)
        (if is_active d.status then b else b + 1)
unfolding count_device
count_device-Counts s d n a b room sum c = record {
  in_all = ground arith;
  up = ground arith;
  down = ground arith;
}

count_all-Counts :
    (s : GroupHealthSummary) (ds : List Device) (n a b : ℕ)
    → n + length ds < int_half
    → a + b ≡ n
    → Counts s n a b
    → Counts (count_all s ds) (n + length ds) (a + up_count ds) (b + down_count ds)
unfolding count_all
count_all-Counts s [] n a b room sum c = record {
  in_all = ground arith;
  up = ground arith;
  down = ground arith;
}
count_all-Counts s (d ∷ ds) n a b room sum c =
    let a' = if is_active d.status then a + 1 else a in
    let b' = if is_active d.status then b else b + 1 in
    let step = count_device-Counts s d n a b (omega arith) sum c in
    let split : a' + b' ≡ n + 1 = ground arith in
    let ih = count_all-Counts (count_device s d) ds (n + 1) a' b' (omega arith) split step in
    record {
      in_all = ih.in_all ∙ ap pos (omega arith);
      up = ih.up ∙ ap pos (ground arith);
      down = ih.down ∙ ap pos (ground arith);
    }

up_down : (ds : List Device) → up_count ds + down_count ds ≡ length ds
up_down [] = refl
up_down (d ∷ ds) = ground (arith, up_down ds)

-- Where a group lists fewer than 2^63 devices for the tenant, its health summary counts them, and
-- splits them into the ACTIVE ones and the others, whose numbers add up.
pub get_group_health_summary_lem :
    (org_id group_id : Uuid) (m : MemoryStore) (ds : List Device)
    → get_group_devices org_id group_id m ≡ ok ds
    → length ds < int_half
    → (s : GroupHealthSummary) × (get_group_health_summary org_id group_id m ≡ ok s)
      × (s.total_devices ≡ pos (length ds))
      × (s.online_devices ≡ pos (length (keep (λ d. is_active d.status) ds)))
      × (s.offline_devices ≡ pos (length (keep (λ d. not (is_active d.status)) ds)))
      × (length (keep (λ d. is_active d.status) ds)
            + length (keep (λ d. not (is_active d.status)) ds)
          ≡ length ds)
unfolding get_group_devices get_group_health_summary
get_group_health_summary_lem org_id group_id m ds h room =
    let start = empty_summary group_id (group_name_of (get group_id m.groups)) in
    let members = members_of group_id m in
    let counts =
      count_all-Counts start ds 0 0 0 (omega arith) refl
        (record { in_all = refl; up = refl; down = refl }) in
    let listed : member_devices org_id m.devices members ≡ ds = ground arith in
    (
      count_all start ds,
      ap ok (count_members-count_all org_id m.devices start members ∙ ap (count_all start) listed),
      counts.in_all ∙ ap pos (omega arith),
      counts.up ∙ ap pos (omega arith),
      counts.down ∙ ap pos (omega arith),
      up_down ds,
    )
