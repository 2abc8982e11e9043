-- ===== src/Base/Sort.antt =====
-- ORDER BY: a stable insertion sort by a test that says which of two rows may come first, and what
-- it and LIMIT leave of the rows.
use Prim.Native.Nat.{ℕ, zero, suc, ◌≤◌}
use mathlib.Core.Path.{◌≡◌, refl, ap}
use mathlib.Core.Logic.{◌⊎◌, inl, inr}
use mathlib.Core.Bool.{Bool, true}
use mathlib.Core.List.{List, [], ◌∷◌}
use native.Mathlib.Omega.{arith}
use rd_testing_project.Base.Tests.{leb, Bool-cases, if◌then◌else◌}
use rd_testing_project.Base.Lists.{length, keep, take, All}

module _ {ℓ} {A : Type ℓ} (before : A → A → Bool) where
  unfoldable pub insert_row : A → List A → List A
  insert_row x [] = x ∷ []
  insert_row x (y ∷ ys) = let rest = insert_row x ys in if before x y then x ∷ y ∷ ys else y ∷ rest

  unfoldable pub order_by : List A → List A
  unfolding insert_row
  order_by [] = []
  order_by (x ∷ xs) = insert_row x (order_by xs)

-- ORDER BY key DESC
abbrev pub newest_first {ℓ} : {A : Type ℓ} → (A → ℕ) → List A → List A
newest_first key = order_by (λ x y. leb (key y) (key x))

module _ {A : Type 0} where
  abbrev pub IsIn : A → List A → Type 0
  IsIn t [] = ⊥
  IsIn t (x ∷ xs) = (t ≡ x) ⊎ IsIn t xs

  pub keep-IsIn : (p : A → Bool) (t : A) (xs : List A) → p t ≡ true → IsIn t xs → IsIn t (keep p xs)
  keep-IsIn p t [] h i = i
  keep-IsIn p t (x ∷ xs) h (inl e) = ground arith
  keep-IsIn p t (x ∷ xs) h (inr i) = elim (Bool-cases (p x)) [
    | inl e ↦ rw e (inr (keep-IsIn p t xs h i))
    | inr e ↦ rw e (keep-IsIn p t xs h i)
  ]

  pub length-take-le : (n : ℕ) (xs : List A) → length (take n xs) ≤ n
  length-take-le zero xs = omega arith
  length-take-le (suc n) [] = omega arith
  length-take-le (suc n) (x ∷ xs) = omega (arith, length-take-le n xs)

  pub take-All : (P : A → Type 0) (n : ℕ) (xs : List A) → All P xs → All P (take n xs)
  take-All P zero xs h = tt
  take-All P (suc n) [] h = tt
  take-All P (suc n) (x ∷ xs) h = (h.0, take-All P n xs h.1)

module _ {A : Type 0} (key : A → ℕ) where
  -- Each row is at least as new as those after it.
  abbrev pub IsNewestFirst : List A → Type 0
  IsNewestFirst [] = Unit
  IsNewestFirst (x ∷ xs) = All (λ y. key y ≤ key x) xs × IsNewestFirst xs

  abbrev before : A → A → Bool
  before x y = leb (key y) (key x)

  insert_row-All :
      (P : A → Type 0) (x : A) (xs : List A) → P x → All P xs → All P (insert_row before x xs)
  unfolding insert_row
  insert_row-All P x [] h hs = (h, tt)
  insert_row-All P x (y ∷ ys) h hs = elim (Bool-cases (before x y)) [
    | inl e ↦ rw e (h, hs)
    | inr e ↦ rw e (hs.0, insert_row-All P x ys h hs.1)
  ]

  weaken : (a b : ℕ) (xs : List A) → a ≤ b → All (λ y. key y ≤ a) xs → All (λ y. key y ≤ b) xs
  weaken a b [] h hs = tt
  weaken a b (x ∷ xs) h hs = (omega (arith, hs.0), weaken a b xs h hs.1)

  insert_row-IsNewestFirst :
      (x : A) (xs : List A) → IsNewestFirst xs → IsNewestFirst (insert_row before x xs)
  unfolding insert_row
  insert_row-IsNewestFirst x [] h = (tt, tt)
  insert_row-IsNewestFirst x (y ∷ ys) h = elim (Bool-cases (before x y)) [
    | inl e ↦ rw e ((ground arith, weaken (key y) (key x) ys (ground arith) h.0), h)
    | inr e ↦ rw e (
      insert_row-All (λ z. key z ≤ key y) x ys (ground arith) h.0,
      insert_row-IsNewestFirst x ys h.1,
    )
  ]

  insert_row-IsIn :
      (t x : A) (xs : List A) → ((t ≡ x) ⊎ IsIn t xs) → IsIn t (insert_row before x xs)
  unfolding insert_row
  insert_row-IsIn t x [] h = h
  insert_row-IsIn t x (y ∷ ys) h = elim (Bool-cases (before x y)) [
    | inl e ↦ rw e h
    | inr e ↦ rw e (elim h [
      | inl same ↦ inr (insert_row-IsIn t x ys (inl same))
      | inr (inl here) ↦ inl here
      | inr (inr later) ↦ inr (insert_row-IsIn t x ys (inr later))
    ])
  ]

  pub newest_first-All : (P : A → Type 0) (xs : List A) → All P xs → All P (newest_first key xs)
  unfolding order_by
  newest_first-All P [] h = tt
  newest_first-All P (x ∷ xs) h =
      insert_row-All P x (newest_first key xs) h.0 (newest_first-All P xs h.1)

  pub newest_first-IsNewestFirst : (xs : List A) → IsNewestFirst (newest_first key xs)
  unfolding order_by
  newest_first-IsNewestFirst [] = tt
  newest_first-IsNewestFirst (x ∷ xs) =
      insert_row-IsNewestFirst x (newest_first key xs) (newest_first-IsNewestFirst xs)

  pub newest_first-IsIn : (t : A) (xs : List A) → IsIn t xs → IsIn t (newest_first key xs)
  unfolding order_by
  newest_first-IsIn t [] i = absurd i
  newest_first-IsIn t (x ∷ xs) (inl e) = insert_row-IsIn t x (newest_first key xs) (inl e)
  newest_first-IsIn t (x ∷ xs) (inr i) =
      insert_row-IsIn t x (newest_first key xs) (inr (newest_first-IsIn t xs i))

  pub take-IsNewestFirst : (n : ℕ) (xs : List A) → IsNewestFirst xs → IsNewestFirst (take n xs)
  take-IsNewestFirst zero xs h = tt
  take-IsNewestFirst (suc n) [] h = tt
  take-IsNewestFirst (suc n) (x ∷ xs) h =
      (take-All (λ y. key y ≤ key x) n xs h.0, take-IsNewestFirst n xs h.1)

  newer_than : (t x : A) (xs : List A) → All (λ y. key y ≤ key x) xs → IsIn t xs → key t ≤ key x
  newer_than t x [] h i = absurd i
  newer_than t x (y ∷ ys) h (inl e) = omega (arith, ap key e, h.0)
  newer_than t x (y ∷ ys) h (inr i) = newer_than t x ys h.1 i

  -- A row that LIMIT leaves out is at most as new as those that it lets through.
  pub take-newest :
      (t : A) (n : ℕ) (xs : List A)
      → IsNewestFirst xs
      → IsIn t xs
      → IsIn t (take n xs) ⊎ ((length (take n xs) ≡ n) × All (λ y. key t ≤ key y) (take n xs))
  take-newest t zero xs h i = inr (refl, tt)
  take-newest t (suc n) [] h i = absurd i
  take-newest t (suc n) (x ∷ xs) h (inl e) = inl (inl e)
  take-newest t (suc n) (x ∷ xs) h (inr i) = elim (take-newest t n xs h.1 i) [
    | inl found ↦ inl (inr found)
    | inr (full, newer) ↦ inr (omega arith, (newer_than t x xs h.0 i, newer))
  ]
