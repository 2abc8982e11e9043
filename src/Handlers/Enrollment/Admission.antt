-- ===== src/Handlers/Enrollment/Admission.antt =====
-- enrollment_handler.go: what a handshake does, on every branch.
use rd_testing_project.Base.{
  ℕ, ◌≡◌, subst, sym, ◌⊎◌, inl, inr, String, Bool, Option, some, List, ◌!=◌, ◌&&◌, nat_eq,
  string_eq, length, arith, Bool-cases, Option-cases,
}
use rd_testing_project.Base.Maps.{put, update}
use rd_testing_project.Models.{EnrollmentInvitation, Organization}
use rd_testing_project.Store.{MemoryStore, ok, Result-cases}
use rd_testing_project.Store.Users.{get_organization}
use rd_testing_project.Store.Devices.{register_device}
use rd_testing_project.Store.Invitations.{
  get_enrollment_invitation_by_hash, consume_enrollment_invitation, use_once,
}
use rd_testing_project.Http.{
  Env, Request, Decoded, Response, audit, status_created, bad_request, forbidden, internal_error,
}
use rd_testing_project.Handlers.Enrollment.{
  AgentHandshakeRequest, new_device, enroll, handshake, valid_key,
}

abbrev pub hash_of : Env → AgentHandshakeRequest → String
hash_of env req = env.hex_encode (env.sha256 req.enrollment_token)

abbrev pub has_fields : AgentHandshakeRequest → Bool
has_fields req = req.enrollment_token != "" && req.public_key_hex != "" && req.hostname != ""

valid_key_ok : (o : Option (List ℕ)) (key : List ℕ) → valid_key o ≡ some key → length key ≡ 32
valid_key_ok o key h = ground arith

module _ (env : Env) (r : Request) (body : Decoded AgentHandshakeRequest) (m : MemoryStore) where
  -- The ways in which a handshake ends.
  pub data Outcome (out : Response × MemoryStore) : Type 0 where
    refused : (out.0.status ≡ bad_request) ⊎ (out.0.status ≡ forbidden) → out.1 ≡ m → Outcome out
    stranded :
        (inv : EnrollmentInvitation)
        → get_enrollment_invitation_by_hash (hash_of env body.value) (env.now 0) m ≡ ok inv
        → out.0.status ≡ internal_error
        → out.1 ≡ record m { invitations = update inv.id use_once m.invitations }
        → Outcome out
    admitted :
        (inv : EnrollmentInvitation)
        → (key : List ℕ) (org : Organization)
        → get_enrollment_invitation_by_hash (hash_of env body.value) (env.now 0) m ≡ ok inv
        → length key ≡ 32
        → get_organization inv.organization_id m ≡ ok org
        → out.0.status ≡ status_created
        → out.1.invitations ≡ update inv.id use_once m.invitations
        → out.1.devices ≡ put (env.new_id 0) (new_device env body.value inv) m.devices
        → out.1.device_creds ≡ put (env.new_id 0) key m.device_creds
        → Outcome out

  enroll-Outcome :
      (inv : EnrollmentInvitation) (key : List ℕ)
      → get_enrollment_invitation_by_hash (hash_of env body.value) (env.now 0) m ≡ ok inv
      → length key ≡ 32
      → Outcome (enroll env r body.value key inv m)
  unfolding enroll consume_enrollment_invitation get_organization register_device audit
  enroll-Outcome inv key found sized =
      elim (Result-cases (get_organization inv.organization_id m)) [
        | inl (org, e) ↦
            admitted inv key org found sized e (ground arith) (ground arith) (ground arith)
              (ground arith)
        | inr (x, e) ↦ stranded inv found (ground arith) (ground arith)
      ]

  -- Every handshake ends in one of three ways: it is refused with 400 or 403 and changes nothing;
  -- or it finds a redeemable invitation, consumes a use, and fails with 500 since the organization
  -- is missing; or it finds one, consumes a use, and answers 201 with exactly the device of the
  -- request registered under the new id, with a key of 32 bytes.
  pub handshake-Outcome : Outcome (handshake env r body m)
  unfolding handshake
  handshake-Outcome = elim (Bool-cases body.failed) [
    | inl e ↦ refused (ground arith) (ground arith)
    | inr e ↦ elim (Bool-cases (has_fields body.value)) [
      | inr f ↦ refused (ground arith) (ground arith)
      | inl f ↦ elim (Option-cases (valid_key (env.hex_decode body.value.public_key_hex))) [
        | inl k ↦ refused (ground arith) (ground arith)
        | inr (key, k) ↦
            elim (Result-cases
              (get_enrollment_invitation_by_hash (hash_of env body.value) (env.now 0) m)) [
                | inr (x, q) ↦ refused (ground arith) (ground arith)
                | inl (inv, q) ↦
                    let runs : handshake env r body m ≡ enroll env r body.value key inv m =
                      ground arith in
                    subst Outcome (sym runs) (
                      enroll-Outcome inv key q
                        (valid_key_ok (env.hex_decode body.value.public_key_hex) key k))
              ]
      ]
    ]
  ]
