-- ===== src/Postgres/Isolation.antt =====
-- postgres_store.go: the writes of one organization leave the rows of the others as they were.
use rd_testing_project.Base.{
  ◌≡◌, ◌≢◌, ap, String, true, Option, some, List, [], ◌∷◌, All, nat_eq, arith, is_some, inl, inr,
}
use rd_testing_project.Base.Maps.{Map, get, update, delete, get-update, get-delete}
use rd_testing_project.Models.{Uuid, Dict, DeviceStatus}
use rd_testing_project.Store.{Result, ok, Result-cases}
use rd_testing_project.Postgres.{Database, Query, of_org, state_after, exec_affecting-ok}
use rd_testing_project.Postgres.Devices.{update_device_status, org_of_device}
use rd_testing_project.Postgres.Groups.{update_group, org_of_group}
use rd_testing_project.Postgres.Invitations.{delete_enrollment_invitation, org_of_invitation}
use rd_testing_project.Postgres.Sessions.{update_remote_session_status, org_of_session}
use rd_testing_project.Postgres.Commands.{update_command_status, org_of_command}
use rd_testing_project.Postgres.Operations.{acknowledge_alert, org_of_alert}

-- The methods that write a row of the caller's organization.
pub data Write : Type 0 where
  set_device : Uuid → DeviceStatus → Write
  set_group : Uuid → String → Option String → Option Dict → Write
  drop_invitation : Uuid → Write
  set_session : Uuid → String → Option String → Write
  set_command : Uuid → String → Write
  acknowledge : Uuid → Uuid → Write

unfoldable pub write : Query → Uuid → Write → Database → Result Database
write q org_id (set_device id status) = update_device_status q org_id id status
write q org_id (set_group id name desc policies) = update_group q org_id id name desc policies
write q org_id (drop_invitation id) = delete_enrollment_invitation q org_id id
write q org_id (set_session id status reason) =
    update_remote_session_status q org_id id status reason
write q org_id (set_command id status) = update_command_status q org_id id status
write q org_id (acknowledge id user_id) = acknowledge_alert q org_id id user_id

-- The tables after the writes, of which those that return an error change nothing.
unfoldable pub write_all : List (Query × Uuid × Write) → Database → Database
unfolding write
write_all [] db = db
write_all ((q, org_id, w) ∷ writes) db = write_all writes (state_after db (write q org_id w db))

module _ (owner : Uuid) where
  -- The owner's rows of one table are there still.
  unfoldable pub Keeps {ℓ} : {A : Type ℓ} → (A → Uuid) → Map Uuid A → Map Uuid A → Type ℓ
  Keeps {A} org_of before after =
      (id : Uuid) (row : A)
      → get id before ≡ some row
      → org_of row ≡ owner
      → get id after ≡ some row

  unfoldable pub IsUntouched : Database → Database → Type 0
  IsUntouched db db' =
      Keeps org_of_device db.devices db'.devices
      × Keeps org_of_group db.device_groups db'.device_groups
      × Keeps org_of_invitation db.enrollment_invitations db'.enrollment_invitations
      × Keeps org_of_session db.remote_sessions db'.remote_sessions
      × Keeps org_of_command db.commands db'.commands
      × Keeps org_of_alert db.alerts db'.alerts

  kept {ℓ} : {A : Type ℓ} (org_of : A → Uuid) (table : Map Uuid A) → Keeps org_of table table
  unfolding Keeps
  kept org_of table id row here mine = here

  then_kept {ℓ} :
      {A : Type ℓ} (org_of : A → Uuid) (t t' t'' : Map Uuid A)
      → Keeps org_of t t'
      → Keeps org_of t' t''
      → Keeps org_of t t''
  unfolding Keeps
  then_kept org_of t t' t'' first rest id row here mine = rest id row (first id row here mine) mine

  module _ {ℓ} {A : Type ℓ} (org_of : A → Uuid) (org_id : Uuid) (stranger : org_id ≢ owner) where
    -- A row that a WHERE clause of another organization lets through is not the owner's.
    apart :
        (id j : Uuid) (table : Map Uuid A) (row : A)
        → is_some (of_org org_of org_id (get id table)) ≡ true
        → get j table ≡ some row
        → org_of row ≡ owner
        → id ≢ j
    apart id j table row hit here mine same =
        stranger (ground (arith, ap (λ k. get k table) same, nat_eq.same_iff (org_of row) org_id))

    update-Keeps :
        (id : Uuid) (f : A → A) (table : Map Uuid A)
        → is_some (of_org org_of org_id (get id table)) ≡ true
        → Keeps org_of table (update id f table)
    unfolding Keeps
    update-Keeps id f table hit j row here mine =
        ground
          (arith, get-update j id f table, nat_eq.same_iff id j, apart id j table row hit here mine)

    delete-Keeps :
        (id : Uuid) (table : Map Uuid A)
        → is_some (of_org org_of org_id (get id table)) ≡ true
        → Keeps org_of table (delete id table)
    unfolding Keeps
    delete-Keeps id table hit j row here mine =
        ground
          (arith, get-delete j id table, nat_eq.same_iff id j, apart id j table row hit here mine)

  write-IsUntouched :
      (q : Query) (org_id : Uuid) (w : Write) (db db' : Database)
      → org_id ≢ owner
      → write q org_id w db ≡ ok db'
      → IsUntouched db db'
  unfolding IsUntouched write update_device_status update_group delete_enrollment_invitation
      update_remote_session_status update_command_status acknowledge_alert
  write-IsUntouched q org_id (set_device id status) db db' stranger h =
      let (hit, left) = exec_affecting-ok _ _ _ _ h in
      rw left (
        update-Keeps org_of_device org_id stranger id _ db.devices hit,
        kept _ _,
        kept _ _,
        kept _ _,
        kept _ _,
        kept _ _,
      )
  write-IsUntouched q org_id (set_group id name desc policies) db db' stranger h =
      let (hit, left) = exec_affecting-ok _ _ _ _ h in
      rw left (
        kept _ _,
        update-Keeps org_of_group org_id stranger id _ db.device_groups hit,
        kept _ _,
        kept _ _,
        kept _ _,
        kept _ _,
      )
  write-IsUntouched q org_id (drop_invitation id) db db' stranger h =
      let (hit, left) = exec_affecting-ok _ _ _ _ h in
      rw left (
        kept _ _,
        kept _ _,
        delete-Keeps org_of_invitation org_id stranger id db.enrollment_invitations hit,
        kept _ _,
        kept _ _,
        kept _ _,
      )
  write-IsUntouched q org_id (set_session id status reason) db db' stranger h =
      let (hit, left) = exec_affecting-ok _ _ _ _ h in
      rw left (
        kept _ _,
        kept _ _,
        kept _ _,
        update-Keeps org_of_session org_id stranger id _ db.remote_sessions hit,
        kept _ _,
        kept _ _,
      )
  write-IsUntouched q org_id (set_command id status) db db' stranger h =
      let (hit, left) = exec_affecting-ok _ _ _ _ h in
      rw left (
        kept _ _,
        kept _ _,
        kept _ _,
        kept _ _,
        update-Keeps org_of_command org_id stranger id _ db.commands hit,
        kept _ _,
      )
  write-IsUntouched q org_id (acknowledge id user_id) db db' stranger h =
      let (hit, left) = exec_affecting-ok _ _ _ _ h in
      rw left (
        kept _ _,
        kept _ _,
        kept _ _,
        kept _ _,
        kept _ _,
        update-Keeps org_of_alert org_id stranger id _ db.alerts hit,
      )

  then-IsUntouched : (a b c : Database) → IsUntouched a b → IsUntouched b c → IsUntouched a c
  unfolding IsUntouched
  then-IsUntouched a b c (d, g, i, s, m, l) (d', g', i', s', m', l') = (
    then_kept _ _ _ _ d d',
    then_kept _ _ _ _ g g',
    then_kept _ _ _ _ i i',
    then_kept _ _ _ _ s s',
    then_kept _ _ _ _ m m',
    then_kept _ _ _ _ l l',
  )

  after-IsUntouched :
      (q : Query) (org_id : Uuid) (w : Write) (db : Database)
      → org_id ≢ owner
      → IsUntouched db (state_after db (write q org_id w db))
  unfolding IsUntouched
  after-IsUntouched q org_id w db stranger = elim (Result-cases (write q org_id w db)) [
    | inl (db', e) ↦ rw e (write-IsUntouched q org_id w db db' stranger e)
    | inr (f, e) ↦ rw e (kept _ _, kept _ _, kept _ _, kept _ _, kept _ _, kept _ _)
  ]

  abbrev IsForeign : Query × Uuid × Write → Type 0
  IsForeign (q, org_id, w) = org_id ≢ owner

  -- Any sequence of device, group, session and command updates, acknowledgements and revocations
  -- of invitations on the PostgreSQL store, by organizations other than the owner and whether or
  -- not statements fail, leaves every row that the owner has in those tables as it was.
  pub write_all-IsUntouched :
      (writes : List (Query × Uuid × Write)) (db : Database)
      → All IsForeign writes
      → IsUntouched db (write_all writes db)
  unfolding write_all IsUntouched
  write_all-IsUntouched [] db foreign = (kept _ _, kept _ _, kept _ _, kept _ _, kept _ _, kept _ _)
  write_all-IsUntouched ((q, org_id, w) ∷ writes) db (stranger, foreign) =
      let db' = state_after db (write q org_id w db) in
      then-IsUntouched db db' (write_all writes db') (after-IsUntouched q org_id w db stranger)
        (write_all-IsUntouched writes db' foreign)
