-- ===== src/Server/Effects.antt =====
-- main.go: what one request can write to the accounts, the devices, the invitations and the
-- sessions, by the handler of its route.
pub mod OfHandlers
pub mod OfRoutes
use rd_testing_project.Base.{
  ◌≡◌, ◌<◌, ℤ, pos_part, int_half, ap, sym, subst, refl, String, List, some, nat_eq, string_eq,
  arith,
}
use rd_testing_project.Base.Maps.{Map, get, put, update, delete}
use rd_testing_project.Models.{
  Uuid, Time, Organization, User, Device, DeviceStatus, active, revoked, EnrollmentInvitation,
}
use rd_testing_project.Store.{MemoryStore}
use rd_testing_project.Store.Frame.{core, accounts}
use rd_testing_project.Store.Invitations.Quota.{IsWithin}
use rd_testing_project.Http.{Env, Request, Claims, Decoded}
use rd_testing_project.Handlers.Enrollment.{AgentHandshakeRequest, new_device, handshake}
use rd_testing_project.Handlers.Devices.Transitions.{Change, with_status}
use rd_testing_project.Handlers.Devices.Transitions
use rd_testing_project.Handlers.Sessions.Writes
use rd_testing_project.Server.Routes.{Guard, needs}

-- The status that a request behind a guard can set.
pub data MaySet : Guard → DeviceStatus → Type 0 where
  approving : MaySet (needs "device.approve") active
  removing : MaySet (needs "device.remove") revoked

abbrev pub mark_seen : Time → Device → Device
mark_seen now d = record d { last_seen = some now }

-- What a request `r` behind the guard `g` does to the devices.
pub data DeviceEffect (env : Env) (g : Guard) (r : Request) (before after : MemoryStore)
    : Type 0 where
  same : after.devices ≡ before.devices → DeviceEffect env g r before after
  sets :
      (claims : Claims) (id : Uuid) (dev : Device) (status : DeviceStatus)
      → MaySet g status
      → r.claims ≡ some claims
      → get id before.devices ≡ some dev
      → dev.organization_id ≡ claims.organization_id
      → Change dev.status status
      → after.devices ≡ update id (with_status status) before.devices
      → DeviceEffect env g r before after
  sees :
      (id : Uuid) (now : Time)
      → after.devices ≡ update id (mark_seen now) before.devices
      → DeviceEffect env g r before after
  enrolls :
      (req : AgentHandshakeRequest) (inv : EnrollmentInvitation) (org : Organization)
      → get inv.organization_id before.orgs ≡ some org
      → after.devices ≡ put (env.new_id 0) (new_device env req inv) before.devices
      → DeviceEffect env g r before after

abbrev pub handshake_pattern : String
handshake_pattern = "POST /api/v1/enrollment/handshake"

-- What a request to the route of `pattern` does to the invitations.
pub data InvitationEffect (env : Env) (limit : ℤ) (pattern : String) (r : Request)
    (before after : MemoryStore) : Type 0 where
  unchanged :
      after.invitations ≡ before.invitations → InvitationEffect env limit pattern r before after
  issues :
      (inv : EnrollmentInvitation)
      → inv.id ≡ env.new_id 0
      → (pos_part limit < int_half → IsWithin inv.times_used inv.max_uses)
      → after.invitations ≡ put (env.new_id 0) inv before.invitations
      → InvitationEffect env limit pattern r before after
  revokes :
      (id : Uuid)
      → after.invitations ≡ delete id before.invitations
      → InvitationEffect env limit pattern r before after
  redeems :
      pattern ≡ handshake_pattern
      → (body : Decoded AgentHandshakeRequest)
      → after.invitations ≡ (handshake env r body before).1.invitations
      → InvitationEffect env limit pattern r before after

-- What it does to the store; `limit` is the max_uses that its body asks for.
pub record Effect (env : Env) (limit : ℤ) (pattern : String) (g : Guard) (r : Request)
    (before after : MemoryStore) : Type 0 where
  pub same_accounts : accounts (core after) ≡ accounts (core before)
  pub devices : DeviceEffect env g r before after
  pub invitations : InvitationEffect env limit pattern r before after
  pub sessions : Writes.Writes before after.sessions

module _ (env : Env) (limit : ℤ) {pattern : String} (g : Guard) (r : Request)
    (m m' : MemoryStore) where
  pub of_nothing : core m' ≡ core m → Effect env limit pattern g r m m'
  of_nothing e = record {
    same_accounts = ap accounts e;
    devices = same (ap (λ c. c.devices) e);
    invitations = unchanged (ap (λ c. c.invitations) e);
    sessions = Writes.keeps (ap (λ c. c.sessions) e);
  }

  pub of_devices :
      core m' ≡ record (core m) { devices = m'.devices }
      → DeviceEffect env g r m m'
      → Effect env limit pattern g r m m'
  of_devices e d = record {
    same_accounts = ap accounts e;
    devices = d;
    invitations = unchanged (ap (λ c. c.invitations) e);
    sessions = Writes.keeps (ap (λ c. c.sessions) e);
  }

  pub of_invitations :
      core m' ≡ record (core m) { invitations = m'.invitations }
      → InvitationEffect env limit pattern r m m'
      → Effect env limit pattern g r m m'
  of_invitations e s = record {
    same_accounts = ap accounts e;
    devices = same (ap (λ c. c.devices) e);
    invitations = s;
    sessions = Writes.keeps (ap (λ c. c.sessions) e);
  }

  pub of_sessions :
      core m' ≡ record (core m) { sessions = m'.sessions }
      → Writes.Writes m m'.sessions
      → Effect env limit pattern g r m m'
  of_sessions e w = record {
    same_accounts = ap accounts e;
    devices = same (ap (λ c. c.devices) e);
    invitations = unchanged (ap (λ c. c.invitations) e);
    sessions = w;
  }

  pub of_enrollment :
      core m' ≡ record (core m) {
        devices = m'.devices;
        device_creds = m'.device_creds;
        invitations = m'.invitations;
      }
      → DeviceEffect env g r m m'
      → InvitationEffect env limit pattern r m m'
      → Effect env limit pattern g r m m'
  of_enrollment e d s = record {
    same_accounts = ap accounts e;
    devices = d;
    invitations = s;
    sessions = Writes.keeps (ap (λ c. c.sessions) e);
  }
