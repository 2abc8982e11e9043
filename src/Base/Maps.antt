-- ===== src/Base/Maps.antt =====
-- Go maps. An entry list in which a key occurs at most once (`IsKeyed`); the order of the entries
-- stands for the order, unspecified in Go, in which `range` visits them.
use mathlib.Core.Path.{◌≡◌, refl}
use mathlib.Core.Bool.{Bool, true}
use mathlib.Core.List.{List, [], ◌∷◌}
use mathlib.Core.Option
use mathlib.Core.Option.{Option, none, some}
use native.Mathlib.Omega.{arith}
use mathlib.Core.Logic.{◌≢◌, ◌⊎◌, inl, inr}
use rd_testing_project.Base.Tests.{Option-cases, Eq, ◌==◌, if◌then◌else◌}
use rd_testing_project.Base.Lists.{find?}

abbrev pub Map {ℓ κ} : Type ℓ → Type κ → Type (ℓ ⊔ κ)
Map K V = List (K × V)

module _ {ℓ κ} {K : Type ℓ} {V : Type κ} where
  -- The values in the order of `range`.
  abbrev pub values : Map K V → List V
  values [] = []
  values ((k, v) ∷ m) = v ∷ values m

module _ {ℓ κ} {K : Type ℓ} {V : Type κ} ⦃e : Eq K⦄ where
  -- m[k]
  unfoldable pub get : K → Map K V → Option V
  get k [] = none
  get k ((j, v) ∷ m) = if j == k then some v else get k m

  -- m[k] = v
  unfoldable pub put : K → V → Map K V → Map K V
  put k v [] = (k, v) ∷ []
  put k v ((j, w) ∷ m) = if j == k then (j, v) ∷ m else (j, w) ∷ put k v m

  -- delete(m, k)
  unfoldable pub delete : K → Map K V → Map K V
  delete k [] = []
  delete k ((j, w) ∷ m) = let rest = delete k m in if j == k then rest else (j, w) ∷ rest

  -- if p, exists := m[k]; exists { *p = f(*p) }
  unfoldable pub update : K → (V → V) → Map K V → Map K V
  update k f [] = []
  update k f ((j, w) ∷ m) = if j == k then (j, f w) ∷ m else (j, w) ∷ update k f m

  pub get-put :
      (j k : K) (v : V) (m : Map K V) → get j (put k v m) ≡ (if k == j then some v else get j m)
  unfolding get put
  get-put j k v [] = refl
  get-put j k v ((i, w) ∷ m) =
      ground (arith, e.same_iff k j, e.same_iff i k, e.same_iff i j, get-put j k v m)

  pub get-delete : (j k : K) (m : Map K V) → get j (delete k m) ≡ (if k == j then none else get j m)
  unfolding get delete
  get-delete j k [] = ground arith
  get-delete j k ((i, w) ∷ m) =
      ground (arith, e.same_iff k j, e.same_iff i k, e.same_iff i j, get-delete j k m)

  pub get-update :
      (j k : K) (f : V → V) (m : Map K V)
      → get j (update k f m) ≡ (if k == j then Option.map f (get j m) else get j m)
  unfolding get update
  get-update j k f [] = ground arith
  get-update j k f ((i, w) ∷ m) =
      ground (arith, e.same_iff k j, e.same_iff i k, e.same_iff i j, get-update j k f m)

pub delete-none {ℓ κ} : {K : Type ℓ} {V : Type κ} ⦃e : Eq K⦄ (k : K) → delete {V = V} k [] ≡ []
unfolding delete
delete-none k = refl

pub get-none {ℓ κ} : {K : Type ℓ} {V : Type κ} ⦃e : Eq K⦄ (k : K) → get {V = V} k [] ≡ none
unfolding get
get-none k = refl

pub ==_self {ℓ} : {K : Type ℓ} ⦃e : Eq K⦄ (k : K) → (k == k) ≡ true
==_self ⦃e⦄ k = (e.same_iff k k).1 refl

-- Every value is filed under the key that it names, and no key occurs twice.
module _ {ℓ κ} {K : Type ℓ} {V : Type κ} ⦃e : Eq K⦄ (id : V → K) where
  abbrev pub IsKeyed : Map K V → Type (ℓ ⊔ κ)
  IsKeyed [] = Unit
  IsKeyed ((k, v) ∷ m) = (id v ≡ k) × (get k m ≡ none) × IsKeyed m

  pub put-IsKeyed : (v : V) (m : Map K V) → IsKeyed m → IsKeyed (put (id v) v m)
  unfolding get put
  put-IsKeyed v [] h = (refl, refl, tt)
  put-IsKeyed v ((j, w) ∷ m) h =
      ground
        (arith, e.same_iff j (id v), e.same_iff (id v) j, get-put j (id v) v m, put-IsKeyed v m h.2)

  pub delete-IsKeyed : (k : K) (m : Map K V) → IsKeyed m → IsKeyed (delete k m)
  unfolding get delete
  delete-IsKeyed k [] h = tt
  delete-IsKeyed k ((j, w) ∷ m) h = ground (arith, get-delete j k m, delete-IsKeyed k m h.2)

  pub update-IsKeyed :
      (k : K) (f : V → V) (m : Map K V)
      → ((v : V) → id (f v) ≡ id v)
      → IsKeyed m
      → IsKeyed (update k f m)
  unfolding get update
  update-IsKeyed k f [] same h = tt
  update-IsKeyed k f ((j, w) ∷ m) same h =
      ground (arith, same w, get-update j k f m, update-IsKeyed k f m same h.2)

  pub get-IsKeyed : (k : K) (v : V) (m : Map K V) → IsKeyed m → get k m ≡ some v → id v ≡ k
  unfolding get
  get-IsKeyed k v [] h p = cc
  get-IsKeyed k v ((j, w) ∷ m) h p = ground (arith, e.same_iff j k, get-IsKeyed k v m h.2)

  -- What a `range` loop finds is what its key leads to.
  pub find?-values :
      (p : V → Bool) (v : V) (m : Map K V)
      → IsKeyed m
      → find? p (values m) ≡ some v
      → get (id v) m ≡ some v
  unfolding get
  find?-values p v [] h q = cc
  find?-values p v ((j, w) ∷ m) h q = ground (arith, e.same_iff j (id v), find?-values p v m h.2)

-- A `range` loop that finds an entry finds one that passes its test.
pub find?_passes {ℓ} :
    {A : Type ℓ} (p : A → Bool) (a : A) (xs : List A) → find? p xs ≡ some a → p a ≡ true
find?_passes p a [] q = cc
find?_passes p a (x ∷ xs) q = ground (arith, find?_passes p a xs)

-- What `m[k] = v` and an update in place leave under a key.
module _ {ℓ κ} {K : Type ℓ} {V : Type κ} ⦃e : Eq K⦄ where
  pub get-put-some :
      (j k : K) (v : V) (m : Map K V) {x : V}
      → get j (put k v m) ≡ some x
      → (x ≡ v) ⊎ (get j m ≡ some x)
  get-put-some j k v m h = ground (arith, get-put j k v m)

  pub get-update-some :
      (j k : K) (f : V → V) (m : Map K V) {x : V}
      → get j (update k f m) ≡ some x
      → (v : V) × (get j m ≡ some v) × ((x ≡ f v) ⊎ (x ≡ v))
  get-update-some j k f m {x} h = elim (Option-cases (get j m)) [
    | inl gone ↦ absurd (ground (arith, get-update j k f m))
    | inr (v, here) ↦ (v, here, ground (arith, get-update j k f m))
  ]

-- A property of every value in the map.
module _ {ℓ κ μ} {K : Type ℓ} {V : Type κ} ⦃e : Eq K⦄ (P : V → Type μ) where
  abbrev pub Everywhere : Map K V → Type (ℓ ⊔ κ ⊔ μ)
  Everywhere m = (k : K) (v : V) → get k m ≡ some v → P v

  pub put-Everywhere : (k : K) (v : V) (m : Map K V) → P v → Everywhere m → Everywhere (put k v m)
  put-Everywhere k v m new h j x q = elim (get-put-some j k v m q) [
    | inl same ↦ rw same new
    | inr old ↦ h j x old
  ]

  pub update-Everywhere :
      (k : K) (f : V → V) (m : Map K V)
      → ((v : V) → P v → P (f v))
      → Everywhere m
      → Everywhere (update k f m)
  update-Everywhere k f m keeps h j x q =
      let (v, here, cases) = get-update-some j k f m q in
      elim cases [
        | inl changed ↦ rw changed (keeps v (h j v here))
        | inr same ↦ rw same (h j v here)
      ]

-- What a `range` loop finds after `m[k] = v`, where nothing passed its test before and `v` does.
pub find?-put {ℓ κ} :
    {K : Type ℓ} {V : Type κ} ⦃e : Eq K⦄ (p : V → Bool) (k : K) (v : V) (m : Map K V)
    → find? p (values m) ≡ none
    → p v ≡ true
    → find? p (values (put k v m)) ≡ some v
unfolding put
find?-put p k v [] h q = ground arith
find?-put p k v ((j, w) ∷ m) h q = ground (arith, find?-put p k v m)

module _ {ℓ κ} {K : Type ℓ} {V : Type κ} ⦃e : Eq K⦄ where
  pub get-put_self : (k : K) (v : V) (m : Map K V) → get k (put k v m) ≡ some v
  get-put_self k v m = ground (arith, get-put k k v m, ==_self k)

  pub get-put_other : (j k : K) (v : V) (m : Map K V) → k ≢ j → get j (put k v m) ≡ get j m
  get-put_other j k v m differ = ground (arith, get-put j k v m, e.same_iff k j)

  pub get-update_self :
      (k : K) (f : V → V) (m : Map K V) → get k (update k f m) ≡ Option.map f (get k m)
  get-update_self k f m = ground (arith, get-update k k f m, ==_self k)
