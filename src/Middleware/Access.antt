-- ===== src/Middleware/Access.antt =====
-- rbac.go: which requests reach the handler behind the middleware.
use rd_testing_project.Base.{
  ◌≡◌, refl, ◌≢◌, ◌⊎◌, inl, inr, String, true, false, Option, none, some, List, [], ◌∷◌, ◌==◌,
  string_eq, arith, Option-cases, Bool-cases, text_eq_iff, if◌then◌else◌, ap, ◌∙◌,
}
use rd_testing_project.Models.{Time}
use rd_testing_project.Store.{MemoryStore}
use rd_testing_project.Http.{Claims, Request, Handler, unauthorized, forbidden}
use rd_testing_project.Auth.{Crypto, validate_access_token}
use rd_testing_project.Middleware.{token_in, bearer, has_perm, authenticate, require_permission}

abbrev pub IsIn : String → List String → Type 0
IsIn x [] = ⊥
IsIn x (y ∷ ys) = (y ≡ x) ⊎ IsIn x ys

-- The claims list the permission or "*".
abbrev pub IsGranted : String → Claims → Type 0
IsGranted perm claims = IsIn perm claims.permissions ⊎ IsIn "*" claims.permissions

granted_tested :
    (perm : String) (held : List String)
    → IsIn perm held ⊎ IsIn "*" held
    → has_perm perm held ≡ true
granted_tested perm [] (inl h) = absurd h
granted_tested perm [] (inr h) = absurd h
granted_tested perm (p ∷ held) (inl (inl e)) = ground (arith, text_eq_iff p perm)
granted_tested perm (p ∷ held) (inr (inl e)) = ground (arith, text_eq_iff p "*")
granted_tested perm (p ∷ held) (inl (inr h)) = ground (arith, granted_tested perm held (inl h))
granted_tested perm (p ∷ held) (inr (inr h)) = ground (arith, granted_tested perm held (inr h))

tested_granted :
    (perm : String) (held : List String)
    → has_perm perm held ≡ true
    → IsIn perm held ⊎ IsIn "*" held
tested_granted perm [] h = absurd (ground arith)
tested_granted perm (p ∷ held) h = elim (Bool-cases (p == perm)) [
  | inl e ↦ inl (inl ((text_eq_iff p perm).0 e))
  | inr differs ↦ elim (Bool-cases (p == "*")) [
    | inl e ↦ inr (inl ((text_eq_iff p "*").0 e))
    | inr neither ↦ elim (tested_granted perm held (ground arith)) [
      | inl found ↦ inl (inr found)
      | inr any ↦ inr (inr any)
    ]
  ]
]

module _ (c : Crypto) (now : Time) (secret perm : String) (next : Request → Handler) where
  -- The request carries "<scheme> <token>" with a scheme that is "bearer" in lower case, and a token
  -- that the JWT package parses to the claims with the secret as the key of an HMAC, and calls valid.
  pub record Credential (r : Request) (claims : Claims) : Type 0 where
    pub given : r.authorization ≢ ""
    pub scheme : String
    pub token : String
    pub two_parts : c.split r.authorization " " ≡ scheme ∷ token ∷ []
    pub is_bearer : c.to_lower scheme ≡ "bearer"
    pub parsed :
        c.parse_with_claims (λ is_hmac. if is_hmac then some secret else none) now token
        ≡ some (claims, true)

  -- The claims of the request's token.
  abbrev token_claims : Request → Option Claims
  token_claims r = elim (bearer c r.authorization) [
    | none ↦ none
    | some token ↦ validate_access_token c now token secret
  ]

  carried : (r : Request) (claims : Claims) → Credential r claims → token_claims r ≡ some claims
  unfolding validate_access_token
  carried r claims k =
      let at : bearer c r.authorization ≡ some k.token =
        ap (token_in c) k.two_parts ∙ ground (arith, text_eq_iff (c.to_lower k.scheme) "bearer") in
      ground (arith, k.parsed)

  token_in_parts :
      (token : String) (parts : List String)
      → token_in c parts ≡ some token
      → (scheme : String) × (parts ≡ scheme ∷ token ∷ []) × (c.to_lower scheme ≡ "bearer")
  token_in_parts token [] h = absurd (ground arith)
  token_in_parts token (x ∷ []) h = absurd (ground arith)
  token_in_parts token (x ∷ y ∷ z ∷ more) h = absurd (ground arith)
  token_in_parts token (x ∷ y ∷ []) h = elim (Bool-cases (c.to_lower x == "bearer")) [
    | inl e ↦
        let same : y ≡ token = ground arith in
        (x, ap (λ t. x ∷ t ∷ []) same, (text_eq_iff (c.to_lower x) "bearer").0 e)
    | inr e ↦ absurd (ground arith)
  ]

  parsed_valid :
      (token : String) (claims : Claims)
      → validate_access_token c now token secret ≡ some claims
      → c.parse_with_claims (λ is_hmac. if is_hmac then some secret else none) now token
        ≡ some (claims, true)
  unfolding validate_access_token
  parsed_valid token claims h =
      elim (Option-cases
        (c.parse_with_claims (λ is_hmac. if is_hmac then some secret else none) now token)) [
          | inl e ↦ absurd (ground arith)
          | inr ((read, valid), e) ↦ elim (Bool-cases valid) [
            | inl v ↦ let same : read ≡ claims = ground arith in rw (e, v, same) refl
            | inr v ↦ absurd (ground arith)
          ]
        ]

  credential :
      (r : Request) (claims : Claims)
      → r.authorization ≢ ""
      → token_claims r ≡ some claims
      → Credential r claims
  credential r claims given h = elim (Option-cases (bearer c r.authorization)) [
    | inl e ↦ absurd (ground arith)
    | inr (token, e) ↦
        let (scheme, two, low) = token_in_parts token (c.split r.authorization " ") e in
        record {
          given = given;
          scheme = scheme;
          token = token;
          two_parts = two;
          is_bearer = low;
          parsed = parsed_valid token claims (ground arith);
        }
  ]

  abbrev pub guarded : Request → Handler
  guarded = authenticate c now secret (require_permission perm next)

  -- What the two middlewares around a handler do with a request.
  pub data Access (r : Request) (m : MemoryStore) : Type 0 where
    unknown :
        ((claims : Claims) → Credential r claims → ⊥)
        → (guarded r m).0.status ≡ unauthorized
        → (guarded r m).1 ≡ m
        → Access r m
    denied :
        (claims : Claims)
        → Credential r claims
        → (IsGranted perm claims → ⊥)
        → (guarded r m).0.status ≡ forbidden
        → (guarded r m).1 ≡ m
        → Access r m
    allowed :
        (claims : Claims)
        → Credential r claims
        → IsGranted perm claims
        → guarded r m ≡ next (record r { claims = some claims }) m
        → Access r m

  known-Access :
      (r : Request) (m : MemoryStore) (claims : Claims)
      → (r.authorization == "") ≡ false
      → token_claims r ≡ some claims
      → Credential r claims
      → Access r m
  unfolding authenticate require_permission
  known-Access r m claims e t k = elim (Bool-cases (has_perm perm claims.permissions)) [
    | inl p ↦ allowed claims k (tested_granted perm claims.permissions p) (ground arith)
    | inr p ↦
        denied claims k (λ g. absurd (ground (arith, granted_tested perm claims.permissions g)))
          (ground arith) (ground arith)
  ]

  -- A request to a handler behind Authenticate and RequirePermission is answered 401 where it
  -- carries no credential, which is an Authorization header of two parts, "bearer" in any case and
  -- a token that parses as valid under the secret; 403 where it carries one whose claims list
  -- neither the permission nor "*"; in both cases without a change. Else the handler runs on the
  -- request with the claims of the token. All this whatever the store holds.
  pub guarded-Access : (r : Request) (m : MemoryStore) → Access r m
  unfolding authenticate require_permission
  guarded-Access r m = elim (Bool-cases (r.authorization == "")) [
    | inl e ↦
        unknown (λ claims k. k.given ((text_eq_iff r.authorization "").0 e)) (ground arith)
          (ground arith)
    | inr e ↦ elim (Option-cases (token_claims r)) [
      | inl t ↦
          unknown (λ claims k. absurd (ground (arith, carried r claims k))) (ground arith)
            (ground arith)
      | inr (claims, t) ↦
          known-Access r m claims e t
            (credential r claims (λ q. absurd (ground (arith, text_eq_iff r.authorization ""))) t)
    ]
  ]
