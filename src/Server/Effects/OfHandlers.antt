-- ===== src/Server/Effects/OfHandlers.antt =====
-- enrollment_handler.go, device_handler.go and telemetry_handler.go: the handlers that write the
-- devices or the invitations, by the effect that a request to them has.
use rd_testing_project.Base.{
  String, ◌≡◌, ◌<◌, inl, inr, refl, ◌||◌, some, nat_eq, string_eq, arith, ℤ, pos_part, int_half,
  Option-cases, Bool-cases,
}
use rd_testing_project.Base.Maps.{get}
use rd_testing_project.Models.{Uuid, Organization, DeviceStatus}
use rd_testing_project.Store.{MemoryStore, ok}
use rd_testing_project.Store.Users.{get_organization}
use rd_testing_project.Store.Devices.{save_telemetry}
use rd_testing_project.Store.Invitations.{
  create_enrollment_invitation, delete_enrollment_invitation,
}
use rd_testing_project.Store.Invitations.Quota.{IsWithin}
use rd_testing_project.Http.{Env, Request, Claims, Decoded, audit}
use rd_testing_project.Handlers.Enrollment.{
  AgentHandshakeRequest, CreateInvitationRequest, create_invitation, revoke_invitation, handshake,
  new_invitation,
}
use rd_testing_project.Handlers.Enrollment.Admission.{
  refused, stranded, admitted, handshake-Outcome,
}
use rd_testing_project.Handlers.Enrollment.Issue.{default_uses_bounds}
use rd_testing_project.Handlers.Enrollment.Frame.{core-handshake}
use rd_testing_project.Handlers.Telemetry.{IngestTelemetryRequest, ingest_telemetry}
use rd_testing_project.Handlers.Devices.Transitions.{Writes, keeps, changes}
use rd_testing_project.Server.Effects.{
  InvitationEffect, unchanged, issues, revokes, redeems, handshake_pattern, MaySet, DeviceEffect,
  same, sets, sees, enrolls, Effect, of_enrollment,
}
use rd_testing_project.Server.Routes.{Guard}

pub Writes-DeviceEffect :
    (env : Env) (g : Guard) (r : Request) (status : DeviceStatus) (m m' : MemoryStore)
    → MaySet g status
    → Writes r status m.devices m'.devices
    → DeviceEffect env g r m m'
Writes-DeviceEffect env g r status m m' may (keeps e) = same e
Writes-DeviceEffect env g r status m m' may (changes claims id dev c here own ch e) =
    sets claims id dev status may c here own ch e

module _ (env : Env) (g : Guard) (r : Request) (m : MemoryStore) where
  pub ingest_telemetry-DeviceEffect :
      (body : Decoded IngestTelemetryRequest)
      → DeviceEffect env g r m (ingest_telemetry env r body m).1
  unfolding ingest_telemetry save_telemetry
  ingest_telemetry-DeviceEffect body = elim (Bool-cases body.failed) [
    | inl f ↦ same (ground arith)
    | inr f ↦ sees body.value.device_id (env.now 1) (ground arith)
  ]

  org_filed :
      (org_id : Uuid) (org : Organization)
      → get_organization org_id m ≡ ok org
      → get org_id m.orgs ≡ some org
  unfolding get_organization
  org_filed org_id org h = ground arith

  handshake-DeviceEffect :
      (body : Decoded AgentHandshakeRequest) → DeviceEffect env g r m (handshake env r body m).1
  handshake-DeviceEffect body = elim (handshake-Outcome env r body m) [
    | refused _ kept ↦ same (rw kept refl)
    | stranded inv _ _ kept ↦ same (rw kept refl)
    | admitted inv key org _ _ found _ _ registered _ ↦
        enrolls body.value inv org (org_filed inv.organization_id org found) registered
  ]

  pub handshake-Effect :
      (limit : ℤ) (body : Decoded AgentHandshakeRequest)
      → Effect env limit handshake_pattern g r m (handshake env r body m).1
  handshake-Effect limit body =
      of_enrollment env limit g r m (handshake env r body m).1 (core-handshake env r m body)
        (handshake-DeviceEffect body) (redeems refl body refl)

  -- An invitation is created unused.
  new_invitation-IsWithin :
      (claims : Claims) (req : CreateInvitationRequest)
      → pos_part req.max_uses < int_half
      → IsWithin (new_invitation env claims req).times_used (new_invitation env claims req).max_uses
  unfolding new_invitation
  new_invitation-IsWithin claims req fits =
      let (n, e, _, small) = default_uses_bounds req.max_uses in rw e (omega arith, small fits)

  new_invitation-id :
      (claims : Claims) (req : CreateInvitationRequest)
      → (new_invitation env claims req).id ≡ env.new_id 0
  unfolding new_invitation
  new_invitation-id claims req = refl

  pub create_invitation-InvitationEffect :
      {pattern : String} (body : Decoded CreateInvitationRequest)
      → InvitationEffect env body.value.max_uses pattern r m (create_invitation env r body m).1
  unfolding create_invitation create_enrollment_invitation audit
  create_invitation-InvitationEffect body = elim (Option-cases r.claims) [
    | inl c ↦ unchanged (ground arith)
    | inr (claims, c) ↦ elim (Bool-cases (body.failed || (env.random 0 16).failed)) [
      | inl bad ↦ unchanged (ground arith)
      | inr fine ↦
          issues (new_invitation env claims body.value) (new_invitation-id claims body.value)
            (new_invitation-IsWithin claims body.value) (ground arith)
    ]
  ]

  pub revoke_invitation-InvitationEffect :
      {limit : ℤ} {pattern : String}
      → InvitationEffect env limit pattern r m (revoke_invitation env r m).1
  unfolding revoke_invitation delete_enrollment_invitation audit
  revoke_invitation-InvitationEffect = elim (Option-cases r.claims) [
    | inl c ↦ unchanged (ground arith)
    | inr (claims, c) ↦ elim (Option-cases (env.parse_uuid (r.path_value "id"))) [
      | inl e ↦ unchanged (ground arith)
      | inr (id, e) ↦ revokes id (ground arith)
    ]
  ]
