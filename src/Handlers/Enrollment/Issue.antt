-- ===== src/Handlers/Enrollment/Issue.antt =====
-- enrollment_handler.go, CreateInvitation: what an invitation is issued with, and that its token
-- lets an agent in.
use rd_testing_project.Base.{
  ℕ, ◌+◌, ◌*◌, ap, ◌∙◌, int_scale, ◌≤◌, ◌<◌, ◌≡◌, refl, true, false, none, some, List, ◌==◌, nat_eq,
  string_eq, arith, inl, inr, Option-cases, find?, if◌then◌else◌, ℤ, pos, negsuc, pos_part,
  int_half, or_else,
}
use rd_testing_project.Base.Maps.{get, put, values, find?-put, get-put, ==_self}
use rd_testing_project.Models.{
  add_duration, Device, EnrollmentInvitation, Time, hour, Organization, active, pending,
}
use rd_testing_project.Store.{MemoryStore, ok}
use rd_testing_project.Store.Users.{get_organization}
use rd_testing_project.Store.Devices.{register_device}
use rd_testing_project.Store.Invitations.{
  create_enrollment_invitation, get_enrollment_invitation_by_hash, consume_enrollment_invitation,
  redeemable,
}
use rd_testing_project.Http.{Env, Request, Claims, Decoded, audit, status_created}
use rd_testing_project.Handlers.Enrollment.{
  CreateInvitationRequest, AgentHandshakeRequest, enroll, handshake, valid_key, new_device,
  clamp_hours, default_uses, new_invitation, new_token, create_invitation,
}
use rd_testing_project.Handlers.Enrollment.Admission.{has_fields, hash_of}

clamp_hours_bounds : (h : ℤ) → (n : ℕ) × (clamp_hours h ≡ pos n) × (1 ≤ n) × (n ≤ 168)
unfolding clamp_hours
clamp_hours_bounds (negsuc h) = (24, refl, omega arith, omega arith)
clamp_hours_bounds (pos h) =
    (pos_part (clamp_hours (pos h)), ground arith, ground arith, ground arith)

pub default_uses_bounds :
    (x : ℤ) → (n : ℕ) × (default_uses x ≡ pos n) × (1 ≤ n) × (pos_part x < int_half → n < int_half)
unfolding default_uses
default_uses_bounds (negsuc h) = (1, refl, omega arith, λ _. omega arith)
default_uses_bounds (pos h) =
    (pos_part (default_uses (pos h)), ground arith, ground arith, λ e. ground arith)

hours_later : (now n : ℕ) → n ≤ 168 → add_duration now (int_scale (pos n) hour) ≡ now + n * hour
hours_later now n h = ground arith

-- An invitation that CreateInvitation may issue at the time of `env`, for the caller's tenant: it is
-- unused, allows at least one use, and is good for between 1 and 168 hours.
pub record IsIssued (env : Env) (claims : Claims) (inv : EnrollmentInvitation) : Type 0 where
  pub tenant : inv.organization_id ≡ claims.organization_id
  pub unused : inv.times_used ≡ pos 0
  pub uses : (n : ℕ) × (inv.max_uses ≡ pos n) × (1 ≤ n)
  pub soonest : env.now 0 + hour ≤ inv.expires_at
  pub latest : inv.expires_at ≤ env.now 0 + 168 * hour

new_invitation-IsIssued :
    (env : Env) (claims : Claims) (req : CreateInvitationRequest)
    → IsIssued env claims (new_invitation env claims req)
unfolding new_invitation
new_invitation-IsIssued env claims req =
    let (hours, is_hours, low, high) = clamp_hours_bounds req.expires_in_hours in
    let later : (new_invitation env claims req).expires_at ≡ env.now 0 + hours * hour =
      ap (λ h. add_duration (env.now 0) (int_scale h hour)) is_hours
      ∙ hours_later (env.now 0) hours high in
    let (uses, is_uses, some_use, _) = default_uses_bounds req.max_uses in
    record {
      tenant = refl;
      unused = refl;
      uses = (uses, is_uses, some_use);
      soonest = rw later (omega arith);
      latest = rw later (omega arith);
    }

redeemable_fresh :
    (now : Time) (inv : EnrollmentInvitation) (n : ℕ)
    → inv.max_uses ≡ pos n
    → 1 ≤ n
    → inv.times_used ≡ pos 0
    → now ≤ inv.expires_at
    → redeemable now inv ≡ ok inv
redeemable_fresh now inv n uses some_use unused early = ground arith

module _ (env : Env) (r : Request) (body : Decoded CreateInvitationRequest) (m : MemoryStore) where
  create_invitation_stores :
      (create_invitation env r body m).0.status ≡ status_created
      → (claims : Claims) × (r.claims ≡ some claims)
        × ((create_invitation env r body m).1.invitations
            ≡ put (env.new_id 0) (new_invitation env claims body.value) m.invitations)
        × ((create_invitation env r body m).1.orgs ≡ m.orgs)
  unfolding create_invitation create_enrollment_invitation new_invitation audit
  create_invitation_stores h = elim (Option-cases r.claims) [
    | inl c ↦ absurd (ground arith)
    | inr (claims, c) ↦ (claims, c, ground arith, ground arith)
  ]

  -- An invitation request that is answered 201 has an authenticated caller, and stores under the
  -- new id an invitation of the caller's organization with the hash of the new token, no use yet,
  -- at least one use allowed, and an expiry between 1 and 168 hours ahead.
  pub create_invitation_issues :
      (create_invitation env r body m).0.status ≡ status_created
      → (claims : Claims) × (inv : EnrollmentInvitation) × (r.claims ≡ some claims)
        × (get (env.new_id 0) (create_invitation env r body m).1.invitations ≡ some inv)
        × (inv.token_hash ≡ env.hex_encode (env.sha256 (new_token env)))
        × IsIssued env claims inv
  unfolding new_invitation
  create_invitation_issues h =
      let (claims, c, filed, _) = create_invitation_stores h in
      let inv = new_invitation env claims body.value in
      (
        claims,
        inv,
        c,
        rw filed (ground (arith, get-put (env.new_id 0) (env.new_id 0) inv m.invitations)),
        refl,
        new_invitation-IsIssued env claims body.value,
      )

  found_again :
      (claims : Claims) (now : Time)
      → find?
          (λ i. i.token_hash == env.hex_encode (env.sha256 (new_token env)))
          (values m.invitations)
        ≡ none
      → (create_invitation env r body m).1.invitations
        ≡ put (env.new_id 0) (new_invitation env claims body.value) m.invitations
      → now ≤ env.now 0 + hour
      → get_enrollment_invitation_by_hash
          (env.hex_encode (env.sha256 (new_token env)))
          now
          (create_invitation env r body m).1
        ≡ ok (new_invitation env claims body.value)
  unfolding get_enrollment_invitation_by_hash new_invitation
  found_again claims now unseen filed early =
      let inv = new_invitation env claims body.value in
      let p = λ (i : EnrollmentInvitation). i.token_hash == inv.token_hash in
      let issued = new_invitation-IsIssued env claims body.value in
      let found = find?-put p (env.new_id 0) inv m.invitations unseen (==_self inv.token_hash) in
      let (_, is_uses, some_use) = issued.uses in
      let soon = issued.soonest in
      rw filed (rw found (redeemable_fresh now inv _ is_uses some_use issued.unused (omega arith)))

-- A handshake that passes every guard goes on to enroll.
handshake_runs :
    (env : Env) (r : Request) (agent : Decoded AgentHandshakeRequest) (m : MemoryStore)
    → (inv : EnrollmentInvitation) (key : List ℕ) → agent.failed ≡ false
    → has_fields agent.value ≡ true
    → valid_key (env.hex_decode agent.value.public_key_hex) ≡ some key
    → get_enrollment_invitation_by_hash (hash_of env agent.value) (env.now 0) m ≡ ok inv
    → handshake env r agent m ≡ enroll env r agent.value key inv m
unfolding handshake
handshake_runs env r agent m inv key parsed fields k found = ground arith

-- Under an invitation of an organization that exists, the device is registered with its key.
enroll_admits :
    (env : Env) (r : Request) (req : AgentHandshakeRequest) (m : MemoryStore)
    → (inv : EnrollmentInvitation) (key : List ℕ) (org : Organization)
    → get inv.organization_id m.orgs ≡ some org
    → let out = enroll env r req key inv m in
      (out.0.status ≡ status_created)
      × (get (env.new_id 0) out.1.devices ≡ some (new_device env req inv))
      × (get (env.new_id 0) out.1.device_creds ≡ some key)
unfolding enroll consume_enrollment_invitation get_organization register_device audit
enroll_admits env r req m inv key org here = (
  ground arith,
  ground (arith, get-put (env.new_id 0) (env.new_id 0) (new_device env req inv) m.devices),
  ground (arith, get-put (env.new_id 0) (env.new_id 0) key m.device_creds),
)

-- After an invitation is created for a tenant that exists, where no stored invitation has the hash
-- of the new token, a handshake that parses, has its fields and a valid key, gives that token
-- within the hour and uses the same library functions is answered 201; it registers the device,
-- with the key, in that tenant, PENDING where the invitation requires approval and ACTIVE where
-- not.
pub token_admits :
    (env env' : Env) (r r' : Request) (body : Decoded CreateInvitationRequest)
    → (agent : Decoded AgentHandshakeRequest) (m : MemoryStore) (claims : Claims)
    → (org : Organization) (key : List ℕ)
    → (create_invitation env r body m).0.status ≡ status_created
    → r.claims ≡ some claims
    → find?
        (λ i. i.token_hash == env.hex_encode (env.sha256 (new_token env)))
        (values m.invitations)
      ≡ none
    → get claims.organization_id m.orgs ≡ some org
    → env'.library ≡ env.library
    → env'.now 0 ≤ env.now 0 + hour
    → agent.failed ≡ false
    → agent.value.enrollment_token ≡ new_token env
    → has_fields agent.value ≡ true
    → valid_key (env'.hex_decode agent.value.public_key_hex) ≡ some key
    → let m' = (create_invitation env r body m).1 in
      let out = handshake env' r' agent m' in
      (out.0.status ≡ status_created)
      × ((dev : Device) × (get (env'.new_id 0) out.1.devices ≡ some dev)
          × (get (env'.new_id 0) out.1.device_creds ≡ some key)
          × (dev.organization_id ≡ claims.organization_id)
          × (dev.status ≡ (if or_else body.value.requires_approval true then pending else active)))
unfolding new_invitation
token_admits env env' r r' body agent m claims org key h c unseen here same early parsed token
      fields k =
    let inv = new_invitation env claims body.value in
    let m' = (create_invitation env r body m).1 in
    let (claims', c', filed', orgs) = create_invitation_stores env r body m h in
    let who : claims' ≡ claims = ground arith in
    let filed : m'.invitations ≡ put (env.new_id 0) inv m.invitations =
      filed' ∙ ap (λ x. put (env.new_id 0) (new_invitation env x body.value) m.invitations) who in
    let hashed : env'.hex_encode (env'.sha256 agent.value.enrollment_token)
        ≡ env.hex_encode (env.sha256 (new_token env)) =
      rw token (ap (λ l. l.hex_encode (l.sha256 (new_token env))) same) in
    let found : get_enrollment_invitation_by_hash
          (env'.hex_encode (env'.sha256 agent.value.enrollment_token)) (env'.now 0) m'
        ≡ ok inv =
      rw hashed (found_again env r body m claims (env'.now 0) unseen filed early) in
    let runs = handshake_runs env' r' agent m' inv key parsed fields k found in
    let (created, registered, keyed) =
      enroll_admits env' r' agent.value m' inv key org (rw orgs here) in
    rw runs (created, (new_device env' agent.value inv, registered, keyed, refl, ground arith))
