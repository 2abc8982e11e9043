-- ===== src/Store.antt =====
-- services/api/internal/store/store.go: the state of `MemoryStore` and the errors of the package.
-- A method is a function of the state. A reader returns `Result A`, a writer `Result MemoryStore`;
-- a method that returns an error has written nothing before it. Each method holds the mutex
-- throughout, so a method is one step. A method that reads the clock takes the reading, `now`.
-- The methods are in the modules below, by the part of the state that they work on.
pub mod Users
pub mod Devices
pub mod Groups
pub mod Invitations
pub mod Sessions
pub mod Commands
pub mod Operations
pub mod Audit
pub mod Seed
pub mod Frame
use rd_testing_project.Base.{
  ℕ, String, Bool, Option, none, some, List, [], ◌≡◌, refl, ◌⊎◌, inl, inr, ◌==◌, ◌!=◌, nat_eq,
  if◌then◌else◌,
}
use rd_testing_project.Base.Maps.{Map, get}
use rd_testing_project.Models.{
  Uuid, Organization, User, Device, DeviceGroup, EnrollmentInvitation, DeviceTelemetry,
  RemoteSession, Command, CommandResult, Alert, SoftwarePackage, SoftwareDeployment, License,
  AuditLog, RefreshToken,
}

-- The errors of the package, and any other that a method passes on (`failure`).
pub data Error : Type 0 where
  not_found duplicate_key unauthorized token_expired token_exhausted failure : Error

pub data Result {ℓ} (A : Type ℓ) : Type ℓ where
  ok : A → Result A
  err : Error → Result A

pub record MemoryStore : Type 0 where
  pub orgs : Map Uuid Organization
  pub users : Map Uuid User
  pub user_roles : Map Uuid String
  pub role_perms : Map String (List String)
  pub refresh_tokens : Map String RefreshToken
  pub devices : Map Uuid Device
  pub device_creds : Map Uuid (List ℕ)
  pub groups : Map Uuid DeviceGroup
  pub group_members : Map Uuid (Map Uuid Bool)
  pub invitations : Map Uuid EnrollmentInvitation
  pub telemetry : Map Uuid (List DeviceTelemetry)
  pub sessions : Map Uuid RemoteSession
  pub commands : Map Uuid Command
  pub command_results : Map Uuid CommandResult
  pub alerts : Map Uuid Alert
  pub software_pkgs : Map Uuid SoftwarePackage
  pub deployments : Map Uuid SoftwareDeployment
  pub licenses : Map Uuid License
  pub audit_logs : List AuditLog

-- x, exists := m[k]; if !exists { return ErrNotFound }
abbrev pub or_not_found {ℓ} : {A : Type ℓ} → Option A → Result A
or_not_found none = err not_found
or_not_found (some a) = ok a

-- if !exists || x.OrganizationID != orgID { return ErrNotFound }
abbrev pub of_tenant {ℓ} : {A : Type ℓ} → (A → Uuid) → Uuid → Option A → Result A
of_tenant org_of org_id none = err not_found
of_tenant org_of org_id (some a) = if org_of a != org_id then err not_found else ok a

-- The rest of a method that has read `r`.
infixl 5 ◌>>=◌
abbrev pub ◌>>=◌ {ℓ κ} : {A : Type ℓ} {B : Type κ} → Result A → (A → Result B) → Result B
ok a >>= f = f a
err e >>= f = err e

-- To split on what a method returned and keep the equation.
pub Result-cases {ℓ} :
    {A : Type ℓ} (r : Result A) → ((a : A) × (r ≡ ok a)) ⊎ ((e : Error) × (r ≡ err e))
Result-cases (ok a) = inl (a, refl)
Result-cases (err e) = inr (e, refl)
