-- ===== src/Middleware.antt =====
-- services/api/internal/middleware/rbac.go
pub mod Access
use rd_testing_project.Base.{
  ℕ, String, Bool, true, false, Option, none, some, List, [], ◌∷◌, ◌==◌, ◌!=◌, ◌||◌, ◌&&◌, nat_eq,
  string_eq, if◌then◌else◌, length, any,
}
use rd_testing_project.Models.{Time}
use rd_testing_project.Http.{
  Claims, Request, Handler, ◌>>=◌, ◌>>◌, require, check, unauthorized, forbidden,
}
use rd_testing_project.Auth.{Crypto, validate_access_token}

-- The token of a "Bearer <token>" header, by its parts.
abbrev pub token_in : Crypto → List String → Option String
token_in c (scheme ∷ token ∷ []) = if c.to_lower scheme == "bearer" then some token else none
token_in c _ = none

abbrev pub bearer : Crypto → String → Option String
bearer c header = token_in c (c.split header " ")

module _ (c : Crypto) (now : Time) (secret : String) where
  unfoldable pub authenticate : (Request → Handler) → Request → Handler
  unfolding validate_access_token
  authenticate next r = do
    check (r.authorization != "") unauthorized "Missing Authorization header"
    token ←
        require (bearer c r.authorization) unauthorized
          "Invalid Authorization header format. Expected 'Bearer <token>'"
    claims ←
        require (validate_access_token c now token secret) unauthorized
          "Invalid or expired access token"
    next (record r { claims = some claims })

abbrev pub has_perm : String → List String → Bool
has_perm required_perm = any (λ perm. perm == required_perm || perm == "*")

unfoldable pub require_permission : String → (Request → Handler) → Request → Handler
require_permission required_perm next r = do
  claims ← require r.claims unauthorized "Authentication required"
  check (has_perm required_perm claims.permissions) forbidden
      "Access forbidden: insufficient permissions"
  next r
