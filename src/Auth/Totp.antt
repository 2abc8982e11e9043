-- ===== src/Auth/Totp.antt =====
-- services/api/internal/auth/totp.go
use rd_testing_project.Base.{
  ℕ, ◌+◌, ◌-◌, ◌*◌, ◌/◌, ◌%◌, ◌^◌, ◌≤◌, ◌≡◌, ap, sym, ◌∙◌, ◌⊎◌, inl, inr, String, Bool, true, false,
  Option, none, some, List, [], ◌∷◌, ◌==◌, ◌!=◌, nat_eq, string_eq, any, arith, if◌then◌else◌,
  Bool-cases, Option-cases, text_eq_iff, ◌↔◌,
}
use rd_testing_project.Base.Maps.{==_self}
use rd_testing_project.Models.{Time, second, minute}
use rd_testing_project.Http.{Decoded}
use rd_testing_project.Auth.{Crypto}

-- binary.BigEndian.PutUint64
abbrev pub big_endian : ℕ → List ℕ
big_endian n =
    n / 2 ^ 56 % 256
    ∷ n / 2 ^ 48 % 256
    ∷ n / 2 ^ 40 % 256
    ∷ n / 2 ^ 32 % 256
    ∷ n / 2 ^ 24 % 256
    ∷ n / 2 ^ 16 % 256
    ∷ n / 2 ^ 8 % 256
    ∷ n % 256
    ∷ []

-- t.Unix(), the seconds since 1970, for a time after that.
abbrev pub unix : Time → ℕ
unix t = t / second - 62135596800

-- The start of 1970.
abbrev pub epoch : Time
epoch = 62135596800 * second

-- t.Unix() / TOTPPeriod
abbrev pub counter_of : Time → ℕ
counter_of t = unix t / 30

-- The dynamic truncation of RFC 4226. The four shifted bytes have no bit in common, so that their
-- `|` is their sum.
unfoldable pub truncate : (ℕ → ℕ) → ℕ
truncate h =
    let offset = h 19 % 16 in
    (h offset % 128 * 2 ^ 24
      + h (offset + 1) % 256 * 2 ^ 16
      + h (offset + 2) % 256 * 2 ^ 8
      + h (offset + 3) % 256)
    % 1000000

step_after : (now : Time) → epoch ≤ now → counter_of (now + 30 * second) ≡ counter_of now + 1
step_after now h = omega arith

step_before :
    (now : Time) → 1 ≤ counter_of now → counter_of (now - 30 * second) + 1 ≡ counter_of now
step_before now h = omega arith

near : (a b : ℕ) → a ≤ b + 1 → b ≤ a + 1 → (a ≡ b) ⊎ ((a + 1 ≡ b) ⊎ (a ≡ b + 1))
near a b h k = ground arith

-- The time is in the 30 second step of the other, in the one before or in the one after.
abbrev pub IsNearby : Time → Time → Type 0
IsNearby issued now =
    (counter_of issued ≤ counter_of now + 1) × (counter_of now ≤ counter_of issued + 1)

module _ (c : Crypto) where
  -- GenerateTOTPSecret, with what rand.Read gives for 20 bytes.
  unfoldable pub generate_totp_secret : Decoded (List ℕ) → Option String
  generate_totp_secret drawn = if drawn.failed then none else some (c.base32_raw_encode drawn.value)

  abbrev key_of : String → Option (List ℕ)
  key_of secret =
      let s = c.to_upper (c.trim secret) in
      elim (c.base32_raw_decode s) [ some key ↦ some key | none ↦ c.base32_decode s ]

  unfoldable pub generate_totp : String → Time → Option String
  unfolding truncate
  generate_totp secret now = elim (key_of secret) [
    | none ↦ none
    | some key ↦ some (c.six_digits (truncate (c.hmac_sha1 key (big_endian (counter_of now)))))
  ]

  -- The body of the loop over the steps.
  abbrev accepts : String → String → Time → Bool
  accepts secret code now = elim (generate_totp secret now) [
    | none ↦ false
    | some expected ↦ expected == code
  ]

  unfoldable pub validate_totp : String → String → Time → Bool
  unfolding generate_totp
  validate_totp secret code now =
      let code' = c.trim code in
      if c.byte_length code' != 6
      then false
      else any (accepts secret code') (now ∷ (now - 30 * second) ∷ (now + 30 * second) ∷ [])

  -- A code depends on the 30 second step of its time alone.
  generate_totp_step :
      (secret : String) (s t : Time)
      → counter_of s ≡ counter_of t
      → generate_totp secret s ≡ generate_totp secret t
  unfolding generate_totp
  generate_totp_step secret s t h =
      ap
        (λ n. elim (key_of secret) [
          | none ↦ none
          | some key ↦ some (c.six_digits (truncate (c.hmac_sha1 key (big_endian n))))
        ])
        h

  accepts_made :
      (secret code : String) (t : Time)
      → accepts secret code t ≡ true
      → generate_totp secret t ≡ some code
  accepts_made secret code t h = elim (Option-cases (generate_totp secret t)) [
    | inl e ↦ absurd (ground arith)
    | inr (made, e) ↦ ground (arith, text_eq_iff made code)
  ]

  accepted_made :
      (secret code : String) (now : Time)
      → any (accepts secret code) (now ∷ (now - 30 * second) ∷ (now + 30 * second) ∷ []) ≡ true
      → (issued : Time) × (generate_totp secret issued ≡ some code) × IsNearby issued now
  accepted_made secret code now h = elim (Bool-cases (accepts secret code now)) [
    | inl e ↦ (now, accepts_made secret code now e, (omega arith, omega arith))
    | inr at_now ↦ elim (Bool-cases (accepts secret code (now - 30 * second))) [
      | inl e ↦
          let at = now - 30 * second in
          (at, accepts_made secret code at e, (omega arith, omega arith))
      | inr before ↦
          let at = now + 30 * second in
          (at, accepts_made secret code at (ground arith), (omega arith, omega arith))
    ]
  ]

  made_accepted :
      (secret code : String) (now issued : Time)
      → epoch ≤ now
      → generate_totp secret issued ≡ some code
      → IsNearby issued now
      → any (accepts secret code) (now ∷ (now - 30 * second) ∷ (now + 30 * second) ∷ []) ≡ true
  made_accepted secret code now issued begun made (early, late) =
      let same = λ (t : Time) (e : counter_of issued ≡ counter_of t).
        sym (generate_totp_step secret issued t e) ∙ made in
      elim (near (counter_of issued) (counter_of now) early late) [
        | inl now_step ↦ ground (arith, same now now_step, ==_self code)
        | inr (inl before) ↦
            let at = now - 30 * second in
            let e : counter_of issued ≡ counter_of at =
              omega (arith, step_before now (omega arith)) in
            ground (arith, same at e, ==_self code)
        | inr (inr after) ↦
            let at = now + 30 * second in
            ground (arith, same at (after ∙ sym (step_after now begun)), ==_self code)
      ]

  -- From a minute after the start of 1970 on, a code is accepted exactly where, without the space
  -- around it, it has six bytes and is the code that the secret gives at some time of the present
  -- 30 second step, the step before or the step after, whether or not it was used before.
  pub validate_totp_lem :
      (secret code : String) (now : Time)
      → epoch + minute ≤ now
      → (validate_totp secret code now ≡ true) ↔ (
          (c.byte_length (c.trim code) ≡ 6)
          × ((issued : Time) × (generate_totp secret issued ≡ some (c.trim code))
              × IsNearby issued now))
  unfolding validate_totp
  validate_totp_lem secret code now begun = (
    λ h. (
      ground (arith, nat_eq.same_iff (c.byte_length (c.trim code)) 6),
      accepted_made secret (c.trim code) now
          (ground (arith, nat_eq.same_iff (c.byte_length (c.trim code)) 6)),
    ),
    λ h. ground (
      arith,
      nat_eq.same_iff (c.byte_length (c.trim code)) 6,
      made_accepted secret (c.trim code) now h.1.0 (omega arith) h.1.1 h.1.2,
    ),
  )
