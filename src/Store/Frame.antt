-- ===== src/Store/Frame.antt =====
-- store.go: the state that most requests leave alone, to say which part of it a request writes.
use rd_testing_project.Base.{String, List, ◌≡◌, ℕ}
use rd_testing_project.Base.Maps.{Map}
use rd_testing_project.Models.{
  Uuid, Organization, User, Device, EnrollmentInvitation, RemoteSession,
}
use rd_testing_project.Store.{MemoryStore}

-- The accounts, the devices with their keys, the invitations and the sessions.
pub record Core : Type 0 where
  pub orgs : Map Uuid Organization
  pub users : Map Uuid User
  pub user_roles : Map Uuid String
  pub role_perms : Map String (List String)
  pub devices : Map Uuid Device
  pub device_creds : Map Uuid (List ℕ)
  pub invitations : Map Uuid EnrollmentInvitation
  pub sessions : Map Uuid RemoteSession

abbrev pub core : MemoryStore → Core
core m = record {
  orgs = m.orgs;
  users = m.users;
  user_roles = m.user_roles;
  role_perms = m.role_perms;
  devices = m.devices;
  device_creds = m.device_creds;
  invitations = m.invitations;
  sessions = m.sessions;
}

-- What becomes of `before` if only the audit log and the refresh tokens are written.
abbrev pub IsUntouched : MemoryStore → MemoryStore → Type 0
IsUntouched before after =
    after ≡ record before { refresh_tokens = after.refresh_tokens; audit_logs = after.audit_logs }

-- The organizations, the users, their roles and the permissions of the roles.
pub record Accounts : Type 0 where
  pub orgs : Map Uuid Organization
  pub users : Map Uuid User
  pub user_roles : Map Uuid String
  pub role_perms : Map String (List String)

abbrev pub accounts : Core → Accounts
accounts c = record {
  orgs = c.orgs;
  users = c.users;
  user_roles = c.user_roles;
  role_perms = c.role_perms;
}
