-- ===== src/Handlers/Updates/Frame.antt =====
-- update_handler.go: the handlers keep no state of their own and leave the store alone.
use rd_testing_project.Base.{◌≡◌, arith, nat_eq, string_eq}
use rd_testing_project.Store.{MemoryStore}
use rd_testing_project.Http.{Env, Request, Decoded}
use rd_testing_project.Handlers.Updates.{
  Signer, UpdateHandler, SignatureVerifyRequest, get_latest_update, get_version_manifest,
  verify_signature, build_manifest,
}

module _ (env : Env) (s : Signer) (m : MemoryStore) where
  pub get_latest_update_keeps :
      (h : UpdateHandler) (r : Request) → (get_latest_update env s h r m).1 ≡ m
  unfolding get_latest_update build_manifest
  get_latest_update_keeps h r = ground arith

  pub get_version_manifest_keeps :
      (h : UpdateHandler) (r : Request) → (get_version_manifest env s h r m).1 ≡ m
  unfolding get_version_manifest build_manifest
  get_version_manifest_keeps h r = ground arith

  pub verify_signature_keeps :
      (body : Decoded SignatureVerifyRequest) → (verify_signature env s body m).1 ≡ m
  unfolding verify_signature
  verify_signature_keeps body = ground arith
