-- ===== src/Postgres/Groups/Cascade.antt =====
-- Which rows ON DELETE CASCADE of device_groups takes (DeleteGroup of postgres_store.go).
use rd_testing_project.Base.{
  ℕ, zero, suc, Bool, true, false, not, none, some, Option, List, [], ◌∷◌, ◌++◌, ◌≤◌, ◌≡◌, ◌↔◌, ◌⊎◌,
  ◌==◌, ap, subst, ◌∙◌, sym, inl, inr, refl, Bool-cases, leb, keep, length, length-keep-le, nat_eq,
  arith, if◌then◌else◌,
}
use rd_testing_project.Base.Maps.{Map, ==_self}
use rd_testing_project.Models.{Uuid, DeviceGroup}
use rd_testing_project.Postgres.Groups.{among, names_one, is_below, ids_of, cascade, deleted_with}

abbrev pub IsRow : {A : Type 0} → A → List A → Type 0
IsRow x [] = ⊥
IsRow x (y ∷ ys) = (y ≡ x) ⊎ IsRow x ys

-- The group, and every group below it in the table.
pub data Below (id : Uuid) (groups : Map Uuid DeviceGroup) : Uuid → Type 0 where
  itself : Below id groups id
  child :
      {p : Uuid} (j : Uuid) (g : DeviceGroup)
      → IsRow (j, g) groups
      → g.parent_group_id ≡ some p
      → Below id groups p
      → Below id groups j

among-append :
    (j : Uuid) (xs ys : List Uuid) → among j (xs ++ ys) ≡ (if among j xs then true else among j ys)
among-append j [] ys = refl
among-append j (x ∷ xs) ys = ground (arith, among-append j xs ys)

IsRow-among :
    (j : Uuid) (g : DeviceGroup) (rows : Map Uuid DeviceGroup)
    → IsRow (j, g) rows
    → among j (ids_of rows) ≡ true
IsRow-among j g [] h = absurd h
IsRow-among j g ((i, h) ∷ rows) (inl e) =
    let same : i ≡ j = ap (λ row. row.0) e in ground (arith, nat_eq.same_iff i j)
IsRow-among j g ((i, h) ∷ rows) (inr later) = ground (arith, IsRow-among j g rows later)

among-IsRow :
    (j : Uuid) (rows : Map Uuid DeviceGroup)
    → among j (ids_of rows) ≡ true
    → (g : DeviceGroup) × IsRow (j, g) rows
among-IsRow j [] h = absurd (ground arith)
among-IsRow j ((i, g) ∷ rows) h = elim (Bool-cases (i == j)) [
  | inl e ↦ let same : i ≡ j = (nat_eq.same_iff i j).0 e in (g, inl (ap (λ k. (k, g)) same))
  | inr e ↦ let (found, later) = among-IsRow j rows (ground arith) in (found, inr later)
]

if_true : {A : Type 0} {b : Bool} (x y : A) → b ≡ true → (if b then x else y) ≡ x
if_true x y e = rw e refl

if_false : {A : Type 0} {b : Bool} (x y : A) → b ≡ false → (if b then x else y) ≡ y
if_false x y e = rw e refl

kept-IsRow :
    {A : Type 0} (p : A → Bool) (x : A) (xs : List A)
    → IsRow x (keep p xs)
    → IsRow x xs × (p x ≡ true)
kept-IsRow p x [] h = absurd h
kept-IsRow p x (y ∷ ys) h = elim (Bool-cases (p y)) [
  | inr fails ↦
      let (there, passes) =
        kept-IsRow p x ys (subst (IsRow x) (if_false (y ∷ keep p ys) (keep p ys) fails) h) in
      (inr there, passes)
  | inl passes ↦ elim (subst (IsRow x) (if_true (y ∷ keep p ys) (keep p ys) passes) h) [
    | inl e ↦ (inl e, ap p (sym e) ∙ passes)
    | inr later ↦ let (there, q) = kept-IsRow p x ys later in (inr there, q)
  ]
]

IsRow-kept :
    {A : Type 0} (p : A → Bool) (x : A) (xs : List A)
    → IsRow x xs
    → p x ≡ true
    → IsRow x (keep p xs)
IsRow-kept p x [] h q = absurd h
IsRow-kept p x (y ∷ ys) (inl e) q = rw (ap p e ∙ q) (inl e)
IsRow-kept p x (y ∷ ys) (inr later) q = elim (Bool-cases (p y)) [
  | inl passes ↦ rw passes (inr (IsRow-kept p x ys later q))
  | inr fails ↦ rw fails (IsRow-kept p x ys later q)
]

pub IsRow-keep :
    {A : Type 0} (p : A → Bool) (x : A) (xs : List A)
    → IsRow x (keep p xs) ↔ (IsRow x xs × (p x ≡ true))
IsRow-keep p x xs = (kept-IsRow p x xs, λ h. IsRow-kept p x xs h.0 h.1)

-- A round that removes no row finds none that passes.
no_row_removed :
    {A : Type 0} (p : A → Bool) (xs : List A)
    → length xs ≤ length (keep (λ x. not (p x)) xs)
    → (keep p xs ≡ []) × (keep (λ x. not (p x)) xs ≡ xs)
no_row_removed p [] h = (refl, refl)
no_row_removed p (x ∷ xs) h =
    ground (arith, length-keep-le (λ y. not (p y)) xs, no_row_removed p xs)

-- Once no row is below a deleted one, nothing more is deleted.
cascade_settled :
    (n : ℕ) (deleted : List Uuid) (rest : Map Uuid DeviceGroup)
    → keep (is_below deleted) rest ≡ []
    → keep (λ row. not (is_below deleted row)) rest ≡ rest
    → cascade n deleted rest ≡ deleted
unfolding cascade
cascade_settled zero deleted rest none_below all_left = refl
cascade_settled (suc n) deleted rest none_below all_left =
    rw (none_below, all_left) (cascade_settled n deleted rest none_below all_left)

among-cascade :
    (n : ℕ) (deleted : List Uuid) (rest : Map Uuid DeviceGroup) (j : Uuid)
    → among j deleted ≡ true
    → among j (cascade n deleted rest) ≡ true
unfolding cascade
among-cascade zero deleted rest j h = h
among-cascade (suc n) deleted rest j h =
    let hit = ids_of (keep (is_below deleted) rest) in
    among-cascade n (hit ++ deleted) (keep (λ row. not (is_below deleted row)) rest) j
      (ground (arith, among-append j hit deleted))

parent_named :
    (deleted : List Uuid) (parent : Option Uuid)
    → names_one deleted parent ≡ true
    → (p : Uuid) × (parent ≡ some p) × (among p deleted ≡ true)
parent_named deleted none h = absurd (ground arith)
parent_named deleted (some p) h = (p, refl, h)

-- Every row with a deleted parent is deleted, where the rounds are as many as the rows.
cascade_closed :
    (n : ℕ) (deleted : List Uuid) (rest : Map Uuid DeviceGroup) (j : Uuid) (g : DeviceGroup)
    → length rest ≤ n
    → IsRow (j, g) rest
    → names_one (cascade n deleted rest) g.parent_group_id ≡ true
    → among j (cascade n deleted rest) ≡ true
unfolding cascade
cascade_closed zero deleted [] j g enough row h = absurd row
cascade_closed zero deleted (r ∷ rest) j g enough row h = absurd (omega arith)
cascade_closed (suc n) deleted rest j g enough row h =
    let left = keep (λ r. not (is_below deleted r)) rest in
    let hit = ids_of (keep (is_below deleted) rest) in
    elim (Bool-cases (is_below deleted (j, g))) [
      | inl below ↦
          let now =
            IsRow-among j g (keep (is_below deleted) rest)
              (IsRow-kept (is_below deleted) (j, g) rest row below) in
          among-cascade n (hit ++ deleted) left j (ground (arith, among-append j hit deleted))
      | inr above ↦ elim (Bool-cases (leb (length rest) (length left))) [
        | inr fewer ↦
            cascade_closed n (hit ++ deleted) left j g (ground arith)
              (IsRow-kept (λ r. not (is_below deleted r)) (j, g) rest row (ground arith)) h
        | inl same ↦
            let (nobody, all_left) = no_row_removed (is_below deleted) rest (ground arith) in
            let settled = cascade_settled (suc n) deleted rest nobody all_left in
            absurd (ground (arith, ap (λ ids. names_one ids g.parent_group_id) settled))
      ]
    ]

cascade-Below :
    (id : Uuid) (groups : Map Uuid DeviceGroup) (n : ℕ) (deleted : List Uuid)
    (rest : Map Uuid DeviceGroup)
    → ((j : Uuid) → among j deleted ≡ true → Below id groups j)
    → ((row : Uuid × DeviceGroup) → IsRow row rest → IsRow row groups)
    → (j : Uuid) → among j (cascade n deleted rest) ≡ true
    → Below id groups j
unfolding cascade
cascade-Below id groups zero deleted rest known within j h = known j h
cascade-Below id groups (suc n) deleted rest known within j h =
    cascade-Below id groups n (ids_of (keep (is_below deleted) rest) ++ deleted)
      (keep (λ r. not (is_below deleted r)) rest)
      (λ k now. elim (Bool-cases (among k (ids_of (keep (is_below deleted) rest)))) [
        | inr before ↦
            known k (ground (arith, among-append k (ids_of (keep (is_below deleted) rest)) deleted))
        | inl hit ↦
            let (g, row) = among-IsRow k (keep (is_below deleted) rest) hit in
            let (there, below) = kept-IsRow (is_below deleted) (k, g) rest row in
            let (p, parent, gone) = parent_named deleted g.parent_group_id below in
            child k g (within (k, g) there) parent (known p gone)
      ])
      (λ row left. within row (kept-IsRow (λ r. not (is_below deleted r)) row rest left).0) j h

Below-among :
    (id : Uuid) (groups : Map Uuid DeviceGroup) {j : Uuid}
    → Below id groups j
    → among j (deleted_with id groups) ≡ true
unfolding deleted_with
Below-among id groups itself =
    among-cascade (length groups) (id ∷ []) groups id (ground (arith, ==_self id))
Below-among id groups (child {p} j g row parent below) =
    cascade_closed (length groups) (id ∷ []) groups j g (omega arith) row
      (rw parent (Below-among id groups below))

-- A DELETE of a row takes exactly the group and the groups below it.
pub among-deleted_with :
    (id : Uuid) (groups : Map Uuid DeviceGroup) (j : Uuid)
    → (among j (deleted_with id groups) ≡ true) ↔ Below id groups j
unfolding deleted_with
among-deleted_with id groups j = (
  cascade-Below id groups (length groups) (id ∷ []) groups
      (λ k h. elim (Bool-cases (id == k)) [
        | inl e ↦ subst (Below id groups) ((nat_eq.same_iff id k).0 e) itself
        | inr e ↦ absurd (ground arith)
      ])
      (λ row here. here) j,
  Below-among id groups,
)
