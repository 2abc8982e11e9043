-- ===== src/Tests/Updates.antt =====
-- A manifest and its signature, with packages that a test can run.
use rd_testing_project.Base.{
  ℕ, ◌≡◌, ◌≢◌, refl, String, Bool, true, false, some, List, [], ◌∷◌, ◌++◌, ◌==◌, nat_eq, string_eq,
  length, text_eq_iff, arith, if◌then◌else◌,
}
use rd_testing_project.Http.{Request, Decoded, status_ok}
use rd_testing_project.Http.Bodies.{AgentUpdateManifest, manifest}
use rd_testing_project.Handlers.Updates.{
  Signer, UpdateHandler, SignatureVerifyRequest, encoded, new_update_package, get_version_manifest,
  verify_signature,
}
use rd_testing_project.Handlers.Updates.Signing.{
  answer, question, get_version_manifest_verifies, verify_signature-IsGenuine,
}
use rd_testing_project.Tests.Fixtures.{env, request, claims_of, fleet, decoded, zeros}

abbrev same_bytes : List ℕ → List ℕ → Bool
same_bytes [] [] = true
same_bytes (x ∷ xs) (y ∷ ys) = let rest = same_bytes xs ys in if x == y then rest else false
same_bytes _ _ = false

-- A signature is the key with the message behind it.
abbrev pub signer : Signer
signer = record {
  marshal = λ pkg. encoded "package";
  sign = λ key message. key ++ message;
  verify = λ key message sig. same_bytes sig (key ++ message);
  base64_encode = λ bytes. "signature";
  base64_decode = λ text. some (zeros 64);
}

abbrev pub keys : UpdateHandler
keys = record { signing_key = zeros 32; public_key = zeros 32 }

abbrev asks : Request
asks = request (some (claims_of 1 [])) (λ name. if name == "version" then "1.2.0" else "")

has_version : ◌≢◌ {A = String} "1.2.0" ""
has_version e = absurd (ground (arith, text_eq_iff "1.2.0" ""))

get_version_manifest_verifies_example :
    (mf : AgentUpdateManifest) × (get_version_manifest env signer keys asks fleet
      ≡ (record { status = status_ok; body = manifest mf }, fleet))
    × (mf.pkg ≡ new_update_package env signer "1.2.0" "windows-x86_64" "stable")
    × (verify_signature env signer (question env signer keys mf "package") fleet
        ≡ answer true "signature is valid" fleet)
get_version_manifest_verifies_example =
    get_version_manifest_verifies env signer keys asks (claims_of 1 []) fleet "package" refl
      has_version refl refl refl refl refl refl refl

abbrev blob : Decoded SignatureVerifyRequest
blob = decoded (record { payload_hex = "p"; signature_base64 = "s"; public_key_hex = "k" })

blob_verifies : verify_signature env signer blob fleet ≡ answer true "signature is valid" fleet
unfolding verify_signature
blob_verifies = refl

verify_signature-IsGenuine_example :
    (blob.failed ≡ false)
    × (fleet ≡ fleet)
    × (key : List ℕ) × (sig : List ℕ) × (payload : List ℕ) × (env.hex_decode "k" ≡ some key)
    × (length key ≡ 32)
    × (signer.base64_decode "s" ≡ some sig)
    × (length sig ≡ 64)
    × (env.hex_decode "p" ≡ some payload)
    × (signer.verify key payload sig ≡ true)
verify_signature-IsGenuine_example =
    verify_signature-IsGenuine env signer blob "signature is valid" fleet fleet blob_verifies
