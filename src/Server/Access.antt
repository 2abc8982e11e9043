-- ===== src/Server/Access.antt =====
-- main.go: what requests without a valid token can do.
use rd_testing_project.Base.{
  ◌≡◌, ◌∙◌, ap, sym, ◌⊎◌, inl, inr, refl, String, Bool, true, false, Option, none, some, List, [],
  ◌∷◌, ◌==◌, ◌&&◌, string_eq, any, find?, All, if◌then◌else◌, arith, Option-cases, Bool-cases,
  text_eq_iff,
}
use rd_testing_project.Store.{MemoryStore}
use rd_testing_project.Http.{Claims, Env, Handler}
use rd_testing_project.Auth.{Crypto, validate_access_token}
use rd_testing_project.Handlers.Updates.{Signer, UpdateHandler}
use rd_testing_project.Middleware.{authenticate, require_permission, has_perm, bearer}
use rd_testing_project.Server.{
  Incoming, arrived, find_in, dispatch, find_route, serve, serve_mux, cors_middleware, serve_all,
}
use rd_testing_project.Server.Routes.{
  Payload, Guard, unguarded, authed, needs, Route, routes, guarded_handler,
}

-- The routes that are meant for callers without a token.
abbrev pub public_patterns : List String
public_patterns =
    "GET /healthz" ∷ "POST /api/v1/auth/login" ∷ "POST /api/v1/auth/mfa/verify"
    ∷ "POST /api/v1/auth/refresh" ∷ "POST /api/v1/enrollment/handshake"
    ∷ "POST /api/v1/sessions/{sessionId}/consent" ∷ "POST /api/v1/agent/commands/{commandId}/result"
    ∷ "POST /api/v1/telemetry/ingest" ∷ "POST /api/v1/agent/updates/verify-signature" ∷ []

unfoldable pub is_public : String → Bool
is_public pattern = any (λ p. p == pattern) public_patterns

abbrev pub any_public : Option String → Bool
any_public none = false
any_public (some pattern) = is_public pattern

abbrev pub is_unguarded : Guard → Bool
is_unguarded unguarded = true
is_unguarded _ = false

-- What a guard asks of the claims of a token.
abbrev pub admits : Guard → Claims → Bool
admits unguarded claims = true
admits authed claims = true
admits (needs perm) claims = has_perm perm claims.permissions

abbrev keeps_out : Route → Bool
keeps_out rt = if is_unguarded rt.guard then is_public rt.pattern else true

abbrev all {ℓ} : {A : Type ℓ} → (A → Bool) → List A → Bool
all p [] = true
all p (x ∷ xs) = let rest = all p xs in p x && rest

-- What a search finds passes the search's test and every test that all elements pass.
find?-all {ℓ} :
    {A : Type ℓ} (p q : A → Bool) (xs : List A) (a : A)
    → all p xs ≡ true
    → find? q xs ≡ some a
    → (p a ≡ true) × (q a ≡ true)
find?-all p q [] a h found = cc
find?-all p q (x ∷ xs) a h found = ground (arith, find?-all p q xs a)

find_in-all :
    (p : Route → Bool) (matched : Option String) (rts : List Route) (rt : Route)
    → all p rts ≡ true
    → find_in matched rts ≡ some rt
    → (p rt ≡ true) × (matched ≡ some rt.pattern)
find_in-all p none rts rt h found = cc
find_in-all p (some pattern) rts rt h found =
    let (kept, same) = find?-all p (λ x. x.pattern == pattern) rts rt h found in
    (kept, ap some (sym ((text_eq_iff rt.pattern pattern).0 same)))

module _ (c : Crypto) (secret : String) (signer : Signer) (keys : UpdateHandler) where
  routes_keep_out :
      (env : Env) (p : Payload) → all keeps_out (routes c secret signer keys env p) ≡ true
  unfolding routes is_public
  routes_keep_out env p = refl

  -- The claims of a valid token in the request.
  abbrev pub claims_of : Incoming → Option Claims
  claims_of i = elim (bearer c (arrived i).authorization) [
    | none ↦ none
    | some token ↦ validate_access_token c i.now token secret
  ]

  -- How a request that matches a route can reach its handler.
  pub data Entry (i : Incoming) (m : MemoryStore) : Type 0 where
    kept_out : (serve c secret signer keys i m).1 ≡ m → Entry i m
    anyone : (pattern : String) → i.matched ≡ some pattern → is_public pattern ≡ true → Entry i m
    holder :
        (rt : Route) (claims : Claims)
        → find_route c secret signer keys i ≡ some rt
        → claims_of i ≡ some claims
        → admits rt.guard claims ≡ true
        → Entry i m

  guarded_handler-Entry :
      (i : Incoming) (m : MemoryStore) (rt : Route)
      → find_route c secret signer keys i ≡ some rt
      → is_unguarded rt.guard ≡ false
      → ((guarded_handler c secret signer keys i.now rt (arrived i) m).1 ≡ m)
        ⊎ ((claims : Claims) × (claims_of i ≡ some claims) × (admits rt.guard claims ≡ true))
  unfolding guarded_handler authenticate require_permission
  guarded_handler-Entry i m rt found closed = elim (Option-cases (claims_of i)) [
    | inl none_given ↦ inl (ground arith)
    | inr (claims, given) ↦ elim (Bool-cases (admits rt.guard claims)) [
      | inl may ↦ inr (claims, given, may)
      | inr may_not ↦ inl (ground arith)
    ]
  ]

  -- The route that a request matches has the guard that its pattern is meant to have.
  pub find_route-all :
      (i : Incoming) (rt : Route)
      → find_route c secret signer keys i ≡ some rt
      → (keeps_out rt ≡ true) × (i.matched ≡ some rt.pattern)
  unfolding find_route
  find_route-all i rt found =
      find_in-all keeps_out i.matched (routes c secret signer keys i.env i.payload) rt
        (routes_keep_out i.env i.payload) found

  pub cors_middleware_keeps :
      (next : Incoming → Handler) (i : Incoming) (m : MemoryStore)
      → (next i m).1 ≡ m
      → (cors_middleware c secret signer keys next i m).1 ≡ m
  unfolding cors_middleware
  cors_middleware_keeps next i m h = elim (Bool-cases (i.method == "OPTIONS")) [
    | inl e ↦ rw e refl
    | inr e ↦ rw e h
  ]

  pub serve_mux_unmatched :
      (i : Incoming) (m : MemoryStore)
      → find_route c secret signer keys i ≡ none
      → (serve_mux c secret signer keys i m).1 ≡ m
  unfolding serve_mux
  serve_mux_unmatched i m e = ap (λ rt. (dispatch c secret signer keys i rt m).1) e

  pub serve_mux_matched :
      (i : Incoming) (m : MemoryStore) (rt : Route)
      → find_route c secret signer keys i ≡ some rt
      → serve_mux c secret signer keys i m
        ≡ guarded_handler c secret signer keys i.now rt (arrived i) m
  unfolding serve_mux
  serve_mux_matched i m rt e = ap (λ found. dispatch c secret signer keys i found m) e

  -- A request to the API server leaves the store as it was, or matches one of the nine public
  -- patterns, or matches a route whose guard admits the claims of the valid token that the request
  -- carries.
  pub serve-Entry : (i : Incoming) (m : MemoryStore) → Entry i m
  unfolding serve
  serve-Entry i m = elim (Option-cases (find_route c secret signer keys i)) [
    | inl e ↦
        kept_out
          (cors_middleware_keeps (serve_mux c secret signer keys) i m (serve_mux_unmatched i m e))
    | inr (rt, e) ↦
        let (kept, same) = find_route-all i rt e in
        elim (Bool-cases (is_unguarded rt.guard)) [
          | inl public ↦ anyone rt.pattern same (ground arith)
          | inr closed ↦ elim (guarded_handler-Entry i m rt e closed) [
            | inl unchanged ↦ kept_out (
                cors_middleware_keeps (serve_mux c secret signer keys) i m
                  (ap (λ x. x.1) (serve_mux_matched i m rt e) ∙ unchanged))
            | inr (claims, given, may) ↦ holder rt claims e given may
          ]
        ]
  ]

  -- A request of a caller without a valid token to a route that is not public.
  abbrev IsStranger : Incoming → Type 0
  IsStranger i = (claims_of i ≡ none) × (any_public i.matched ≡ false)

  -- Requests that carry no valid token, to routes other than the nine public ones, leave the store
  -- as it was, in whatever number and order.
  serve_all_strangers :
      (is : List Incoming) (m : MemoryStore)
      → All IsStranger is
      → serve_all c secret signer keys is m ≡ m
  unfolding serve_all
  serve_all_strangers [] m h = refl
  serve_all_strangers (i ∷ is) m ((none_given, closed), h) = elim (serve-Entry i m) [
    | kept_out same ↦ ap (serve_all c secret signer keys is) same ∙ serve_all_strangers is m h
    | anyone pattern matched public ↦ absurd (ground arith)
    | holder rt claims found given may ↦ absurd (ground arith)
  ]
