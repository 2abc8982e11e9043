-- ===== src/Handlers/Updates.antt =====
-- services/api/internal/handlers/update_handler.go: update manifests and their signatures. The
-- packages crypto/ed25519, encoding/base64 and encoding/json are the fields of Signer.
pub mod Signing
pub mod Frame
use rd_testing_project.Base.{
  ℕ, ◌+◌, ◌*◌, concat, String, Bool, true, false, Option, none, some, List, ◌==◌, ◌!=◌, ◌||◌,
  string_eq, nat_eq, length, if◌then◌else◌, pos,
}
use rd_testing_project.Models.{Time, hour}
use rd_testing_project.Http.{
  Env, Request, Decoded, Handler, ◌>>=◌, ◌>>◌, Step, respond_json, require, check, status_ok,
  bad_request, unauthorized, internal_error,
}
use rd_testing_project.Http.Bodies.{
  Body, plain, manifest, verification, UpdatePackage, AgentUpdateManifest, SignatureVerifyResponse,
}

-- json.Marshal of a package: the text, or the text of the error.
pub data Marshalled : Type 0 where
  encoded unencodable : String → Marshalled

pub record Signer : Type 0 where
  pub marshal : UpdatePackage → Marshalled  -- json.Marshal
  pub sign : List ℕ → List ℕ → List ℕ  -- ed25519.Sign: the private key, the message
  pub verify : List ℕ → List ℕ → List ℕ → Bool  -- ed25519.Verify: the public key, the message, the signature
  pub base64_encode : List ℕ → String  -- base64.StdEncoding.EncodeToString
  pub base64_decode : String → Option (List ℕ)  -- base64.StdEncoding.DecodeString

-- The keys of UpdateHandler.
pub record UpdateHandler : Type 0 where
  pub signing_key : List ℕ
  pub public_key : List ℕ

-- NewUpdateHandler: it panics where ed25519.GenerateKey fails.
abbrev pub new_update_handler : Option (List ℕ × List ℕ) → Option UpdateHandler
new_update_handler none = none
new_update_handler (some (public_key, signing_key)) =
    some (record { signing_key = signing_key; public_key = public_key })

pub record SignatureVerifyRequest : Type 0 where
  pub payload_hex : String
  pub signature_base64 : String
  pub public_key_hex : String

-- if s == "" { s = d }
abbrev default_to : String → String → String
default_to d s = if s == "" then d else s

-- A refusal of VerifySignature, with status 200.
abbrev invalid : String → Handler
invalid message =
    respond_json status_ok (verification (record { valid = false; message = message }))

-- if err != nil || len(bytes) != size { respond; return }
abbrev decode_sized : Option (List ℕ) → ℕ → String → Step (List ℕ)
decode_sized none size message k = invalid message
decode_sized (some bytes) size message k = if length bytes != size then invalid message else k bytes

abbrev decode_hex : Option (List ℕ) → String → Step (List ℕ)
decode_hex none message k = invalid message
decode_hex (some bytes) message k = k bytes

module _ (env : Env) (s : Signer) where
  unfoldable pub compute_fake_sha256 : String → String → String
  compute_fake_sha256 version platform =
      env.hex_encode
        (env.sha256 (concat "controlhub-agent-" (concat version (concat "-" platform))))

  unfoldable pub new_update_package : String → String → String → UpdatePackage
  unfolding compute_fake_sha256
  new_update_package version platform track = record {
    version = version;
    platform = platform;
    download_url = concat "https://updates.controlhub.io/agent/" (
        concat version
          (concat "/" (concat platform (concat "/controlhub-agent-" (concat version ".zip")))));
    sha256_hex = compute_fake_sha256 version platform;
    size_bytes = pos 8547328;
    changelog_url = concat "https://docs.controlhub.io/agent/changelog#v" version;
    min_api_version = "1.0.0";
    release_track = track;
  }

  module _ (h : UpdateHandler) where
    -- The manifest of a package whose JSON is given.
    unfoldable pub signed_manifest : UpdatePackage → String → AgentUpdateManifest
    signed_manifest pkg json = record {
      schema_version = "1";
      pkg = pkg;
      signature = s.base64_encode (s.sign h.signing_key (env.sha256 json));
      public_key_hex = env.hex_encode h.public_key;
      issued_at = env.now 0;
      expires_at = env.now 0 + 7 * 24 * hour;
    }

    -- The error of buildManifest, or its manifest; the organization is not looked at.
    unfoldable pub build_manifest :
        String → String → String → String → (String → Handler) → Step AgentUpdateManifest
    unfolding new_update_package signed_manifest
    build_manifest version platform track org_id failure k =
        let pkg = new_update_package version platform track in
        elim (s.marshal pkg) [
          | encoded json ↦ k (signed_manifest pkg json)
          | unencodable e ↦ failure (concat "failed to marshal package for signing: " e)
        ]

    module _ (r : Request) where
      abbrev pub platform_of : String
      platform_of = default_to "windows-x86_64" (r.query_value "platform")

      abbrev pub track_of : String
      track_of = default_to "stable" (r.query_value "track")

      unfoldable pub get_latest_update : Handler
      unfolding build_manifest
      get_latest_update = elim r.claims [
        | none ↦ respond_json unauthorized (plain "unauthorized")
        | some claims ↦
            build_manifest "1.1.0" platform_of track_of (env.uuid_text claims.organization_id)
              (λ e.
                respond_json internal_error (plain (concat "failed to build update manifest: " e)))
              (λ mf. respond_json status_ok (manifest mf))
      ]

      unfoldable pub get_version_manifest : Handler
      unfolding build_manifest
      get_version_manifest = elim r.claims [
        | none ↦ respond_json unauthorized (plain "unauthorized")
        | some claims ↦
            let version = r.path_value "version" in
            if version == ""
            then respond_json bad_request (plain "version path parameter required")
            else build_manifest version platform_of track_of (env.uuid_text claims.organization_id)
                (λ e. respond_json internal_error (
                  plain (
                    concat "failed to build manifest for version "
                      (concat version (concat ": " e)))))
                (λ mf. respond_json status_ok (manifest mf))
      ]

  -- The last test of VerifySignature.
  abbrev verdict : Bool → Handler
  verdict true =
      respond_json status_ok
        (verification (record { valid = true; message = "signature is valid" }))
  verdict false = invalid "signature verification failed: data may be tampered"

  unfoldable pub verify_signature : Decoded SignatureVerifyRequest → Handler
  verify_signature body =
      let req = body.value in
      if body.failed then respond_json bad_request (plain "invalid request body") else do
        key ←
            decode_sized (env.hex_decode req.public_key_hex) 32
              "invalid public_key_hex: must be 64 hex characters (32 bytes Ed25519 key)"
        sig ←
            decode_sized (s.base64_decode req.signature_base64) 64
              "invalid signature_base64: must decode to exactly 64 bytes"
        payload ← decode_hex (env.hex_decode req.payload_hex) "invalid payload_hex"
        verdict (s.verify key payload sig)
