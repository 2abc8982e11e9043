-- ===== src/Server/Reach.antt =====
-- main.go: how a request gets to a handler, and what every route's handler keeps.
use rd_testing_project.Base.{
  ◌≡◌, ◌∙◌, ap, subst, ◌⊎◌, Bool, inl, inr, refl, String, true, Option, none, some, List, [], ◌∷◌,
  ◌==◌, string_eq, find?, All, arith, Option-cases, Bool-cases,
}
use rd_testing_project.Store.{MemoryStore}
use rd_testing_project.Http.{Claims, Request}
use rd_testing_project.Auth.{Crypto}
use rd_testing_project.Handlers.Updates.{Signer, UpdateHandler}
use rd_testing_project.Middleware.{authenticate, require_permission}
use rd_testing_project.Server.{
  Incoming, arrived, find_in, find_route, serve, serve_mux, cors_middleware,
}
use rd_testing_project.Server.Routes.{Guard, Route, routes, guarded_handler}
use rd_testing_project.Server.Access.{
  admits, is_unguarded, claims_of, serve_mux_unmatched, serve_mux_matched, cors_middleware_keeps,
}

find?-first {ℓ} :
    {A : Type ℓ} (q : A → Bool) (x : A) (xs : List A) (a : A)
    → find? q (x ∷ xs) ≡ some a
    → (x ≡ a) ⊎ (find? q xs ≡ some a)
find?-first q x xs a found = elim (Bool-cases (q x)) [
  | inl e ↦ inl (ground arith)
  | inr e ↦ inr (ground arith)
]

-- What a search finds has what all elements have.
find?-All {ℓ κ} :
    {A : Type ℓ} (P : A → Type κ) (q : A → Bool) (xs : List A) (a : A)
    → All P xs
    → find? q xs ≡ some a
    → P a
find?-All P q [] a h found = absurd (ground arith)
find?-All P q (x ∷ xs) a h found = elim (find?-first q x xs a found) [
  | inl same ↦ subst P same h.0
  | inr later ↦ find?-All P q xs a h.1 later
]

find_in-All {κ} :
    (P : Route → Type κ) (matched : Option String) (rts : List Route) (rt : Route)
    → All P rts
    → find_in matched rts ≡ some rt
    → P rt
find_in-All P none rts rt h found = absurd (ground arith)
find_in-All P (some pattern) rts rt h found = find?-All P (λ x. x.pattern == pattern) rts rt h found

module _ (c : Crypto) (secret : String) (signer : Signer) (keys : UpdateHandler) where
  -- The claims in `r` are those of a valid token of the request, and pass the guard.
  abbrev pub IsLetIn : Incoming → Guard → Request → Type 0
  IsLetIn i guard r =
      (claims : Claims)
      → r.claims ≡ some claims
      → (claims_of c secret signer keys i ≡ some claims) × (admits guard claims ≡ true)

  -- A request is answered before it gets to a handler, or by the handler of its route.
  pub data Reach (i : Incoming) (m : MemoryStore) : Type 0 where
    stopped : (serve c secret signer keys i m).1 ≡ m → Reach i m
    handled :
        (rt : Route) (r : Request)
        → find_route c secret signer keys i ≡ some rt
        → IsLetIn i rt.guard r
        → serve c secret signer keys i m ≡ rt.handler r m
        → Reach i m

  -- A request that is let in to its route is handled there, and any other changes nothing.
  guarded_handler-Reach :
      (i : Incoming) (m : MemoryStore) (rt : Route)
      → ((guarded_handler c secret signer keys i.now rt (arrived i) m).1 ≡ m)
        ⊎ ((r : Request) × IsLetIn i rt.guard r
            × (guarded_handler c secret signer keys i.now rt (arrived i) m ≡ rt.handler r m))
  unfolding guarded_handler authenticate require_permission
  guarded_handler-Reach i m rt = elim (Bool-cases (is_unguarded rt.guard)) [
    | inl public ↦ inr (arrived i, (λ claims h. absurd (ground arith)), ground arith)
    | inr closed ↦ elim (Bool-cases (i.request.authorization == "")) [
      | inl absent ↦ inl (ground arith)
      | inr present ↦ elim (Option-cases (claims_of c secret signer keys i)) [
        | inl none_given ↦ inl (ground arith)
        | inr (claims, given) ↦ elim (Bool-cases (admits rt.guard claims)) [
          | inr may_not ↦ inl (ground arith)
          | inl may ↦ inr (
            record (arrived i) { claims = some claims },
            (λ held h. (ground arith, ground arith)),
            ground arith,
          )
        ]
      ]
    ]
  ]

  pub serve-Reach : (i : Incoming) (m : MemoryStore) → Reach i m
  unfolding serve
  serve-Reach i m = elim (Option-cases (find_route c secret signer keys i)) [
    | inl e ↦ stopped (
        cors_middleware_keeps c secret signer keys (serve_mux c secret signer keys) i m
          (serve_mux_unmatched c secret signer keys i m e))
    | inr (rt, e) ↦ elim (guarded_handler-Reach i m rt) [
      | inl unchanged ↦ stopped (
          cors_middleware_keeps c secret signer keys (serve_mux c secret signer keys) i m
            (ap (λ x. x.1) (serve_mux_matched c secret signer keys i m rt e) ∙ unchanged))
      | inr (r, let_in, runs) ↦ elim (Bool-cases (i.method == "OPTIONS")) [
        | inl preflight ↦ stopped (rw (cors_middleware, preflight) refl)
        | inr other ↦
            handled rt r e let_in
              (rw (cors_middleware, other) (serve_mux_matched c secret signer keys i m rt e ∙ runs))
      ]
    ]
  ]

  -- What all routes keep, the route of a request keeps.
  pub find_route-All {κ} :
      (P : Route → Type κ) (i : Incoming) (rt : Route)
      → All P (routes c secret signer keys i.env i.payload)
      → find_route c secret signer keys i ≡ some rt
      → P rt
  unfolding find_route
  find_route-All P i rt h found =
      find_in-All P i.matched (routes c secret signer keys i.env i.payload) rt h found
