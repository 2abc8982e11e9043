-- ===== src/Handlers/Updates/Signing.antt =====
-- update_handler.go: the signature of a manifest, and what VerifySignature says of it.
use rd_testing_project.Base.{
  ℕ, ◌≡◌, ◌≢◌, inl, inr, refl, String, Bool, true, false, some, List, length, string_eq, nat_eq,
  arith, text_eq_iff, Option-cases,
}
use rd_testing_project.Store.{MemoryStore}
use rd_testing_project.Http.{Env, Request, Response, Claims, Decoded, status_ok}
use rd_testing_project.Http.Bodies.{manifest, verification, AgentUpdateManifest, UpdatePackage}
use rd_testing_project.Handlers.Updates.{
  Signer, UpdateHandler, encoded, SignatureVerifyRequest, new_update_package, signed_manifest,
  build_manifest, platform_of, track_of, get_version_manifest, verify_signature,
}

abbrev pub answer : Bool → String → MemoryStore → Response × MemoryStore
answer valid message m = (
  record { status = status_ok; body = verification (record { valid = valid; message = message }) },
  m,
)

module _ (env : Env) (s : Signer) (h : UpdateHandler) where
  -- What an agent asks about a manifest, with the JSON of its package.
  abbrev pub question : AgentUpdateManifest → String → Decoded SignatureVerifyRequest
  question mf json = record {
    value = record {
      payload_hex = env.hex_encode (env.sha256 json);
      signature_base64 = mf.signature;
      public_key_hex = mf.public_key_hex;
    };
    failed = false;
  }

  signed_manifest_verifies :
      (key_size : length h.public_key ≡ 32)
      (key_hex : env.hex_decode (env.hex_encode h.public_key) ≡ some h.public_key)
      (pkg : UpdatePackage) (json : String) (m : MemoryStore)
      → env.hex_decode (env.hex_encode (env.sha256 json)) ≡ some (env.sha256 json)
      → let sig = s.sign h.signing_key (env.sha256 json) in
        length sig ≡ 64
        → s.base64_decode (s.base64_encode sig) ≡ some sig
        → s.verify h.public_key (env.sha256 json) sig ≡ true
        → verify_signature env s (question (signed_manifest env s h pkg json) json) m
          ≡ answer true "signature is valid" m
  unfolding verify_signature signed_manifest
  signed_manifest_verifies key_size key_hex pkg json m digest_hex sig_size sig_text genuine =
      ground arith

  -- A request of an authenticated caller for a version is answered with the manifest of that
  -- version's package, and VerifySignature says of the manifest's signature and public key, with
  -- the SHA-256 of the package's JSON as the payload, that the signature is valid. This holds
  -- where the package has a JSON, hex and base64 decode the texts that they made of the key, the
  -- digest and the signature, the key has 32 bytes and the signature 64, and ed25519 verifies what
  -- it signed.
  pub get_version_manifest_verifies :
      (r : Request) (claims : Claims) (m : MemoryStore) (json : String)
      (here : r.claims ≡ some claims) (named : r.path_value "version" ≢ "")
      → let pkg =
          new_update_package env s
            (r.path_value "version")
            (platform_of env s h r)
            (track_of env s h r) in
        let sig = s.sign h.signing_key (env.sha256 json) in
        s.marshal pkg ≡ encoded json
        → length h.public_key ≡ 32
        → env.hex_decode (env.hex_encode h.public_key) ≡ some h.public_key
        → env.hex_decode (env.hex_encode (env.sha256 json)) ≡ some (env.sha256 json)
        → length sig ≡ 64
        → s.base64_decode (s.base64_encode sig) ≡ some sig
        → s.verify h.public_key (env.sha256 json) sig ≡ true
        → (mf : AgentUpdateManifest) × (get_version_manifest env s h r m
            ≡ (record { status = status_ok; body = manifest mf }, m))
          × (mf.pkg ≡ pkg)
          × (verify_signature env s (question mf json) m ≡ answer true "signature is valid" m)
  unfolding get_version_manifest build_manifest
  get_version_manifest_verifies r claims m json here named text key_size key_hex digest_hex sig_size
        sig_text genuine =
      let pkg =
        new_update_package env s (r.path_value "version") (platform_of env s h r)
          (track_of env s h r) in
      (
        signed_manifest env s h pkg json,
        ground (arith, text_eq_iff (r.path_value "version") ""),
        refl,
        signed_manifest_verifies key_size key_hex pkg json m digest_hex sig_size sig_text genuine,
      )

-- VerifySignature says that a signature is valid only where the body parses, the key decodes to 32
-- bytes, the signature to 64 and the payload decodes, and ed25519 verifies the decoded signature;
-- it leaves the store as it was.
pub verify_signature-IsGenuine :
    (env : Env) (s : Signer) (body : Decoded SignatureVerifyRequest) (message : String)
    (m m' : MemoryStore)
    → verify_signature env s body m ≡ answer true message m'
    → (body.failed ≡ false)
      × (m ≡ m')
      × (key : List ℕ) × (sig : List ℕ) × (payload : List ℕ) × (env.hex_decode
            body.value.public_key_hex
          ≡ some key)
      × (length key ≡ 32)
      × (s.base64_decode body.value.signature_base64 ≡ some sig)
      × (length sig ≡ 64)
      × (env.hex_decode body.value.payload_hex ≡ some payload)
      × (s.verify key payload sig ≡ true)
unfolding verify_signature
verify_signature-IsGenuine env s body message m m' h =
    let req = body.value in
    elim (Option-cases (env.hex_decode req.public_key_hex)) [
      | inl e ↦ absurd (ground arith)
      | inr (key, e) ↦ elim (Option-cases (s.base64_decode req.signature_base64)) [
        | inl f ↦ absurd (ground arith)
        | inr (sig, f) ↦ elim (Option-cases (env.hex_decode req.payload_hex)) [
          | inl g ↦ absurd (ground arith)
          | inr (payload, g) ↦ (
            ground arith,
            ground arith,
            key,
            sig,
            payload,
            e,
            ground arith,
            f,
            ground arith,
            g,
            ground arith,
          )
        ]
      ]
    ]
