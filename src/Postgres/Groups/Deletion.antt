-- ===== src/Postgres/Groups/Deletion.antt =====
-- postgres_store.go, DeleteGroup: what the statement deletes and clears, and when it is refused.
use rd_testing_project.Base.{
  true, false, not, none, some, Option, List, [], ◌∷◌, ◌≡◌, ◌↔◌, ap, inl, inr, refl, Bool-cases,
  Option-cases, keep, nat_eq, arith,
}
use rd_testing_project.Base.Maps.{Map, get}
use rd_testing_project.Models.{Uuid, DeviceGroup, EnrollmentInvitation}
use rd_testing_project.Store.{ok, err, unauthorized, failure}
use rd_testing_project.Postgres.{Database, Query}
use rd_testing_project.Postgres.Groups.{
  among, names_one, deleted_with, target_left, set_null, delete_group,
}
use rd_testing_project.Postgres.Groups.Cascade.{IsRow, IsRow-keep, Below, among-deleted_with}

-- An invitation whose target is gone leads to no group; any other is as it was.
pub data Clears (gone : Uuid → Type 0) (inv inv' : EnrollmentInvitation) : Type 0 where
  cleared :
      (id : Uuid)
      → inv.target_group_id ≡ some id
      → gone id
      → inv' ≡ record inv { target_group_id = none }
      → Clears gone inv inv'
  untouched :
      ((id : Uuid) → inv.target_group_id ≡ some id → gone id → ⊥)
      → inv' ≡ inv
      → Clears gone inv inv'

abbrev pub AllClear :
    (Uuid → Type 0) → Map Uuid EnrollmentInvitation → Map Uuid EnrollmentInvitation → Type 0
AllClear gone [] [] = Unit
AllClear gone (row ∷ rows) [] = ⊥
AllClear gone [] (row' ∷ rows') = ⊥
AllClear gone (row ∷ rows) (row' ∷ rows') =
    (row'.0 ≡ row.0) × Clears gone row.1 row'.1 × AllClear gone rows rows'

-- The deletion of a group and those below it: they and their memberships are gone, the invitations
-- to them lead nowhere, and all else is as it was.
pub record Deletes (group_id : Uuid) (db db' : Database) : Type 0 where
  groups :
      (row : Uuid × DeviceGroup)
      → IsRow row db'.device_groups
        ↔ (IsRow row db.device_groups × (Below group_id db.device_groups row.0 → ⊥))
  members :
      (row : Uuid × Uuid)
      → IsRow row db'.group_memberships
        ↔ (IsRow row db.group_memberships × (Below group_id db.device_groups row.0 → ⊥))
  targets :
      AllClear
        (Below group_id db.device_groups)
        db.enrollment_invitations
        db'.enrollment_invitations
  same_rest : db' ≡ record db {
    device_groups = db'.device_groups;
    group_memberships = db'.group_memberships;
    enrollment_invitations = db'.enrollment_invitations;
  }

names_one_lem :
    (deleted : List Uuid) (target : Option Uuid)
    → names_one deleted target ≡ true
    → (id : Uuid) × (target ≡ some id) × (among id deleted ≡ true)
names_one_lem deleted none h = absurd (ground arith)
names_one_lem deleted (some id) h = (id, refl, h)

module _ (gone : Uuid → Type 0) (deleted : List Uuid)
    (is_gone : (id : Uuid) → (among id deleted ≡ true) ↔ gone id) where
  target_left-Clears : (inv : EnrollmentInvitation) → Clears gone inv (target_left deleted inv)
  target_left-Clears inv = elim (Bool-cases (names_one deleted inv.target_group_id)) [
    | inl named ↦
        let (id, target, hit) = names_one_lem deleted inv.target_group_id named in
        cleared id target ((is_gone id).0 hit) (rw named refl)
    | inr free ↦
        untouched
          (λ id target g.
            let hit = (is_gone id).1 g in absurd (ground (arith, ap (names_one deleted) target)))
          (rw free refl)
  ]

  set_null-AllClear :
      (invs : Map Uuid EnrollmentInvitation) → AllClear gone invs (set_null deleted invs)
  unfolding set_null
  set_null-AllClear [] = tt
  set_null-AllClear ((id, inv) ∷ rest) = (refl, target_left-Clears inv, set_null-AllClear rest)

  -- The rows that a keyed DELETE leaves of a table.
  rows_left :
      {B : Type 0} (rows : List (Uuid × B)) (row : Uuid × B)
      → IsRow row (keep (λ r. not (among r.0 deleted)) rows) ↔ (IsRow row rows × (gone row.0 → ⊥))
  rows_left rows row =
      let (there, back) = IsRow-keep (λ r. not (among r.0 deleted)) row rows in
      (
        λ h. ((there h).0, λ g. absurd (ground (arith, (there h).1, (is_gone row.0).1 g))),
        λ h. back (
          h.0,
          elim (Bool-cases (among row.0 deleted)) [
            | inl hit ↦ absurd (h.1 ((is_gone row.0).0 hit))
            | inr free ↦ rw free refl
          ],
        ),
      )

module _ (q : Query) (org_id group_id : Uuid) (db : Database) where
  -- The ways in which DeleteGroup ends.
  pub data DeleteOutcome : Type 0 where
    failed : q.down 0 ≡ true → delete_group q org_id group_id db ≡ err failure → DeleteOutcome
    refused :
        q.down 0 ≡ false
        → ((grp : DeviceGroup)
            → get group_id db.device_groups ≡ some grp
            → grp.organization_id ≡ org_id
            → ⊥)
        → delete_group q org_id group_id db ≡ err unauthorized
        → DeleteOutcome
    deleted :
        (grp : DeviceGroup) (db' : Database)
        → q.down 0 ≡ false
        → get group_id db.device_groups ≡ some grp
        → grp.organization_id ≡ org_id
        → delete_group q org_id group_id db ≡ ok db'
        → Deletes group_id db db'
        → DeleteOutcome

  -- DeleteGroup of the PostgreSQL store fails where its statement fails. Else, where no group of
  -- the organization has the id, it is refused. Else it deletes exactly the group, the groups
  -- below it and the memberships of all these, clears the target of exactly the invitations that
  -- lead to them, and leaves everything else as it was.
  pub delete_group-DeleteOutcome : DeleteOutcome
  unfolding delete_group
  delete_group-DeleteOutcome = elim (Bool-cases (q.down 0)) [
    | inl down ↦ failed down (ground arith)
    | inr up ↦ elim (Option-cases (get group_id db.device_groups)) [
      | inl gone ↦ refused up (λ grp here e. absurd (ground arith)) (ground arith)
      | inr (grp, here) ↦ elim (Bool-cases (nat_eq.same grp.organization_id org_id)) [
        | inr other ↦
            refused up
              (λ g found e. absurd (ground (arith, nat_eq.same_iff grp.organization_id org_id)))
              (ground arith)
        | inl own ↦
            let is_gone = among-deleted_with group_id db.device_groups in
            let ids = deleted_with group_id db.device_groups in
            let gone = Below group_id db.device_groups in
            deleted grp _ up here ((nat_eq.same_iff grp.organization_id org_id).0 own)
              (rw (up, here, own) refl)
              (record {
                groups = rows_left gone ids is_gone db.device_groups;
                members = rows_left gone ids is_gone db.group_memberships;
                targets = set_null-AllClear gone ids is_gone db.enrollment_invitations;
                same_rest = refl;
              })
      ]
    ]
  ]
