-- ===== src/Postgres.antt =====
-- services/api/internal/store/postgres_store.go over the tables of
-- database/migrations/000001_initial_schema.up.sql and 000002_refresh_tokens.up.sql. The statements
-- of a method are read as SQL says: a table is a map by its primary key from the rows as the method
-- would scan them, an INSERT fails on a constraint of the schema, an UPDATE or a DELETE touches the
-- rows of its WHERE clause. A method that returns an error has written nothing, but for
-- SaveTelemetry, which says what it leaves.
pub mod Users
pub mod Devices
pub mod Groups
pub mod Invitations
pub mod Telemetry
pub mod Sessions
pub mod Commands
pub mod Operations
pub mod Audit
pub mod Isolation
use rd_testing_project.Base.{
  ℕ, ◌+◌, String, Bool, true, false, not, Option, none, some, List, ◌||◌, ◌&&◌, ◌==◌, nat_eq,
  is_some, if◌then◌else◌, ℤ, ◌≡◌, arith,
}
use rd_testing_project.Base.Maps.{Map, get}
use rd_testing_project.Models.{
  Uuid, Time, Float64, Dict, Organization, User, RefreshToken, Device, DeviceGroup,
  EnrollmentInvitation, DeviceTelemetry, RemoteSession, Command, CommandResult, Alert,
  SoftwarePackage, SoftwareDeployment, License, AuditLog,
}
use rd_testing_project.Store.{Error, failure, Result, ok, err}

-- The tables that the store reads or writes. A column that a row's record names and the table does
-- not have (the nonce of a command) has the zero value that a scan leaves.
pub record Database : Type 0 where
  pub organizations : Map Uuid Organization
  pub users : Map Uuid User
  pub roles : Map Uuid String  -- the names
  pub user_roles : List (Uuid × Uuid)  -- user, role
  pub role_permissions : List (Uuid × String)
  pub refresh_tokens : Map String RefreshToken
  pub devices : Map Uuid Device
  pub device_credentials : Map Uuid (List ℕ)
  pub device_groups : Map Uuid DeviceGroup
  pub group_memberships : List (Uuid × Uuid)  -- group, device
  pub enrollment_invitations : Map Uuid EnrollmentInvitation
  pub device_telemetry : List DeviceTelemetry
  pub remote_sessions : Map Uuid RemoteSession
  pub commands : Map Uuid Command
  pub command_results : Map Uuid CommandResult
  pub alerts : Map Uuid Alert
  pub software_packages : Map Uuid SoftwarePackage
  pub software_deployments : Map Uuid SoftwareDeployment
  pub licenses : Map Uuid License
  pub audit_logs : List AuditLog

-- What a call draws from the server and from the driver.
pub record Query : Type 0 where
  pub down : ℕ → Bool  -- statement i fails: the connection, or a value that its column cannot hold
  pub now : Time  -- NOW()
  pub clock : Time  -- time.Now() of the process
  pub serial : ℤ  -- the next number of a BIGSERIAL column
  pub jsonb : Option Dict → Option Dict  -- a map after json.Marshal, JSONB and json.Unmarshal
  pub numeric : Float64 → Float64  -- a float after NUMERIC(5,2)
  pub timestamptz : Time → Time  -- a time after TIMESTAMPTZ
  pub inet : String → Option String  -- a text after INET, if it is an address
  pub average : List Float64 → Float64  -- AVG
  pub collate : String → String → Bool  -- ORDER BY on a text

-- The statements from number `i` on.
abbrev pub from_statement : ℕ → Query → Query
from_statement i q = record q { down = λ j. q.down (i + j) }

-- QueryRow and Scan, where every error becomes `e`.
abbrev pub query_row {ℓ} : {A : Type ℓ} → Bool → Error → Option A → Result A
query_row true e row = err e
query_row false e none = err e
query_row false e (some row) = ok row

-- Query and the loop over its rows.
abbrev pub query_all {ℓ} : {A : Type ℓ} → Bool → A → Result A
query_all true rows = err failure
query_all false rows = ok rows

-- Exec, where the constraints hold or do not.
abbrev pub exec : Bool → Bool → Database → Result Database
exec true holds db = err failure
exec false false db = err failure
exec false true db = ok db

-- Exec of an UPDATE or a DELETE, with `e` where no row is affected.
abbrev pub exec_affecting : Bool → Error → Bool → Database → Result Database
exec_affecting true e hit db = err failure
exec_affecting false e false db = err e
exec_affecting false e true db = ok db

-- WHERE organization_id=$1 AND id=$2
abbrev pub of_org {ℓ} : {A : Type ℓ} → (A → Uuid) → Uuid → Option A → Option A
of_org org_of org_id none = none
of_org org_of org_id (some row) = if org_of row == org_id then some row else none

-- REFERENCES a primary key
abbrev pub has {ℓ} : {A : Type ℓ} → Uuid → Map Uuid A → Bool
has id table = is_some (get id table)

-- REFERENCES, where the column may be NULL
abbrev pub has_or_null {ℓ} : {A : Type ℓ} → Option Uuid → Map Uuid A → Bool
has_or_null none table = true
has_or_null (some id) table = has id table

-- An address column keeps an address; no other text is stored.
abbrev pub address : Query → Option String → Option String
address q none = none
address q (some text) = q.inet text

abbrev pub is_address : Query → Option String → Bool
is_address q none = true
is_address q (some text) = is_some (q.inet text)

-- What a method leaves: one that returns an error has written nothing.
abbrev pub state_after : Database → Result Database → Database
state_after db (ok db') = db'
state_after db (err e) = db

-- A statement that has run leaves what it wrote.
pub exec-ok :
    (down holds : Bool) (db : Database) {db' : Database} → exec down holds db ≡ ok db' → db' ≡ db
exec-ok down holds db h = ground arith

pub exec_affecting-ok :
    (down : Bool) (e : Error) (hit : Bool) (db : Database) {db' : Database}
    → exec_affecting down e hit db ≡ ok db'
    → (hit ≡ true) × (db' ≡ db)
exec_affecting-ok down e hit db h = ground arith
