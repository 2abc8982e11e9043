-- ===== src/Server/Quota.antt =====
-- main.go and enrollment_handler.go: how many devices an invitation lets in, over any sequence of
-- requests to the API server.
use rd_testing_project.Base.{
  ℕ, ◌+◌, ◌≤◌, ◌≡◌, ◌≢◌, ◌⊎◌, ◌∙◌, refl, ap, sym, subst, inl, inr, String, Bool, true, false,
  Option, none, some, List, [], ◌∷◌, ◌==◌, ◌!=◌, ◌&&◌, nat_eq, string_eq, if◌then◌else◌, pos_part,
  Bool-cases, Option-cases, arith, All, text_eq_iff,
}
use rd_testing_project.Base.Maps.{get}
use rd_testing_project.Models.{Uuid, EnrollmentInvitation}
use rd_testing_project.Store.{MemoryStore}
use rd_testing_project.Store.Invitations.Quota.{IsSound}
use rd_testing_project.Auth.{Crypto}
use rd_testing_project.Handlers.Updates.{Signer, UpdateHandler}
use rd_testing_project.Handlers.Enrollment.Quota.{
  Attempt, answer, admits, handshake-Advances, within_le, Advances,
}
use rd_testing_project.Server.{Incoming, arrived, find_route, serve, serve_mux, cors_middleware}
use rd_testing_project.Server.Routes.{guarded_handler}
use rd_testing_project.Server.Effects.{handshake_pattern}
use rd_testing_project.Server.Effects.OfRoutes.{idle, effective, serve-Served}
use rd_testing_project.Server.Invitations.{
  IsInRange, InvitationEffect-IsSound, admits_gone, answer_gone, InvitationEffect-get,
}

-- The handshake that a request is, if it is one.
abbrev attempt_of : Incoming → Attempt
attempt_of i = record { env = i.env; request = arrived i; body = i.payload.handshake_body }

abbrev matches_handshake : Option String → Bool
matches_handshake none = false
matches_handshake (some pattern) = pattern == handshake_pattern

abbrev is_handshake : Incoming → Bool
is_handshake i = i.method != "OPTIONS" && matches_handshake i.matched

-- 1 if the request is a handshake that registers a device under the invitation, and 0 if not.
unfoldable admits_one : Uuid → Incoming → MemoryStore → ℕ
admits_one id i m = if is_handshake i then admits id (attempt_of i) m else 0

module _ (c : Crypto) (secret : String) (signer : Signer) (keys : UpdateHandler) where
  -- The devices let in under an invitation by a sequence of requests.
  unfoldable pub let_in : Uuid → List Incoming → MemoryStore → ℕ
  unfolding admits_one
  let_in id [] m = 0
  let_in id (i ∷ is) m = admits_one id i m + let_in id is (serve c secret signer keys i m).1

  serve_handshake :
      (i : Incoming) (m : MemoryStore)
      → is_handshake i ≡ true
      → serve c secret signer keys i m ≡ answer (attempt_of i) m
  unfolding serve serve_mux cors_middleware find_route guarded_handler
  serve_handshake i m h = elim (Option-cases i.matched) [
    | inl e ↦ absurd (ground arith)
    | inr (pattern, e) ↦
        let right : i.matched ≡ some handshake_pattern =
          e ∙ ap some ((text_eq_iff pattern handshake_pattern).0 (ground arith)) in
        let other : i.method == "OPTIONS" ≡ false = ground arith in rw (other, right) refl
  ]

  serve_preflight :
      (i : Incoming) (m : MemoryStore)
      → i.method == "OPTIONS" ≡ true
      → (serve c secret signer keys i m).1 ≡ m
  unfolding serve cors_middleware
  serve_preflight i m e = rw e refl

  serve_keeps_invitation :
      (i : Incoming) (m : MemoryStore) (id : Uuid)
      → is_handshake i ≡ false
      → i.env.new_id 0 ≢ id
      → (get id (serve c secret signer keys i m).1.invitations ≡ get id m.invitations)
        ⊎ (get id (serve c secret signer keys i m).1.invitations ≡ none)
  serve_keeps_invitation i m id h fresh = elim (Bool-cases (i.method == "OPTIONS")) [
    | inl e ↦ inl (ap (λ x. get id x.invitations) (serve_preflight i m e))
    | inr e ↦ elim (serve-Served c secret signer keys i m) [
      | idle kept ↦ inl (ap (λ x. get id x.invitations) kept)
      | effective rt r matched _ effect ↦
          InvitationEffect-get id m (serve c secret signer keys i m).1 effect.invitations
            (λ same. ground (arith, text_eq_iff rt.pattern handshake_pattern)) fresh
    ]
  ]

  serve_invitations :
      (i : Incoming) (m : MemoryStore)
      → IsInRange i
      → IsSound m.invitations
      → IsSound (serve c secret signer keys i m).1.invitations
  serve_invitations i m fits s = elim (serve-Served c secret signer keys i m) [
    | idle kept ↦ subst IsSound (sym (ap (λ x. x.invitations) kept)) s
    | effective rt r _ _ effect ↦ InvitationEffect-IsSound effect.invitations fits s
  ]

  -- The requests draw ids other than `id`, and ask for numbers that fit Go's int.
  abbrev pub AreFresh : Uuid → List Incoming → Type 0
  AreFresh id = All (λ i. IsInRange i × (i.env.new_id 0 ≢ id))

  -- A request takes the invitation away and lets nobody in, or uses it for those that it lets in.
  abbrev Goes : Uuid → EnrollmentInvitation → Incoming → MemoryStore → Type 0
  Goes id inv i m =
      ((get id (serve c secret signer keys i m).1.invitations ≡ none) × (admits_one id i m ≡ 0))
      ⊎ Advances id (admits_one id i m) (serve c secret signer keys i m).1 inv

  serve-Goes :
      (i : Incoming) (m : MemoryStore) (id : Uuid) (inv : EnrollmentInvitation)
      → i.env.new_id 0 ≢ id
      → IsSound m.invitations
      → get id m.invitations ≡ some inv
      → Goes id inv i m
  unfolding admits_one
  serve-Goes i m id inv fresh s here = elim (Bool-cases (is_handshake i)) [
    | inl h ↦
        inr (rw (h, serve_handshake i m h) (handshake-Advances id (attempt_of i) m inv s here))
    | inr h ↦ elim (serve_keeps_invitation i m id h fresh) [
      | inl kept ↦ inr (inv, kept ∙ here, refl, ground arith)
      | inr gone ↦ inl (gone, ground arith)
    ]
  ]

  serve_gone :
      (i : Incoming) (m : MemoryStore) (id : Uuid)
      → i.env.new_id 0 ≢ id
      → get id m.invitations ≡ none
      → get id (serve c secret signer keys i m).1.invitations ≡ none
  serve_gone i m id fresh gone = elim (Bool-cases (is_handshake i)) [
    | inl h ↦ rw (serve_handshake i m h) (answer_gone id (attempt_of i) m gone)
    | inr h ↦ elim (serve_keeps_invitation i m id h fresh) [
      | inl kept ↦ kept ∙ gone
      | inr taken ↦ taken
    ]
  ]

  -- Nobody is let in under an invitation that is gone.
  let_in_gone :
      (id : Uuid) (is : List Incoming) (m : MemoryStore)
      → AreFresh id is
      → IsSound m.invitations
      → get id m.invitations ≡ none
      → let_in id is m ≡ 0
  unfolding let_in admits_one
  let_in_gone id [] m fresh s gone = refl
  let_in_gone id (i ∷ is) m ((fits, other), fresh) s gone =
      let nobody = admits_gone id (attempt_of i) m s gone in
      let later =
        let_in_gone id is (serve c secret signer keys i m).1 fresh (serve_invitations i m fits s)
          (serve_gone i m id other gone) in
      ground arith

  -- From a store whose invitations are sound (each filed under its id, with at most as many uses
  -- as its limit), over any sequence of requests to the API server whose max_uses fit Go's int and
  -- that do not draw the invitation's id for a new one, the uses of a stored invitation and the
  -- devices let in under it are together at most its limit.
  pub let_in-le-max_uses :
      (id : Uuid) (is : List Incoming) (m : MemoryStore) (inv : EnrollmentInvitation)
      → AreFresh id is
      → IsSound m.invitations
      → get id m.invitations ≡ some inv
      → pos_part inv.times_used + let_in id is m ≤ pos_part inv.max_uses
  unfolding let_in
  let_in-le-max_uses id [] m inv fresh s here =
      omega (arith, within_le inv.times_used inv.max_uses (s.within id inv here))
  let_in-le-max_uses id (i ∷ is) m inv ((fits, other), fresh) s here =
      let after = (serve c secret signer keys i m).1 in
      let sound = serve_invitations i m fits s in
      elim (serve-Goes i m id inv other s here) [
        | inl (gone, nobody) ↦ omega (
          arith,
          let_in_gone id is after fresh sound gone,
          within_le inv.times_used inv.max_uses (s.within id inv here),
        )
        | inr (inv', here', limit, more) ↦
            let ih = let_in-le-max_uses id is after inv' fresh sound here' in
            omega (arith, ap pos_part limit)
      ]
