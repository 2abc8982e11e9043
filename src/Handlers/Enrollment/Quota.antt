-- ===== src/Handlers/Enrollment/Quota.antt =====
-- enrollment_handler.go: how many devices an invitation lets in, over any sequence of handshakes.
use rd_testing_project.Base.{
  ℕ, ◌+◌, ◌≤◌, ◌≡◌, refl, ap, inl, inr, false, some, List, [], ◌∷◌, ◌==◌, ◌&&◌, nat_eq,
  if◌then◌else◌, pos_part, int_inc, Bool-cases, arith, ℤ, pos, negsuc,
}
use rd_testing_project.Base.Maps.{get, update, get-update}
use rd_testing_project.Models.{Uuid, EnrollmentInvitation}
use rd_testing_project.Store.{MemoryStore, Result, ok, err}
use rd_testing_project.Store.Invitations.{get_enrollment_invitation_by_hash, use_once}
use rd_testing_project.Store.Invitations.Quota.{IsSound, IsWithin, by_hash_found, use_once-IsSound}
use rd_testing_project.Http.{Env, Request, Decoded, Response, status_created}
use rd_testing_project.Handlers.Enrollment.{AgentHandshakeRequest, handshake}
use rd_testing_project.Handlers.Enrollment.Admission.{
  refused, stranded, admitted, handshake-Outcome, hash_of,
}

-- A handshake with all that it draws from outside.
pub record Attempt : Type 0 where
  pub env : Env
  pub request : Request
  pub body : Decoded AgentHandshakeRequest

abbrev pub answer : Attempt → MemoryStore → Response × MemoryStore
answer a m = handshake a.env a.request a.body m

abbrev pub looked_up : Attempt → MemoryStore → Result EnrollmentInvitation
looked_up a m = get_enrollment_invitation_by_hash (hash_of a.env a.body.value) (a.env.now 0) m

-- 1 if the handshake registers a device under the invitation `id`, and 0 if not.
unfoldable pub admits : Uuid → Attempt → MemoryStore → ℕ
admits id a m = elim (looked_up a m) [
  | ok inv ↦ if inv.id == id && (answer a m).0.status == status_created then 1 else 0
  | err e ↦ 0
]

-- The handshakes are served one after another.
unfoldable pub serve : List Attempt → MemoryStore → MemoryStore
serve [] m = m
serve (a ∷ rest) m = serve rest (answer a m).1

unfoldable pub admissions : Uuid → List Attempt → MemoryStore → ℕ
unfolding admits
admissions id [] m = 0
admissions id (a ∷ rest) m = admits id a m + admissions id rest (answer a m).1

consumed-IsSound :
    (a : Attempt) (m : MemoryStore) (inv : EnrollmentInvitation)
    → IsSound m.invitations
    → looked_up a m ≡ ok inv
    → IsSound (update inv.id use_once m.invitations)
consumed-IsSound a m inv s h =
    let (_, filed, fits, _) = by_hash_found _ _ m inv s h in
    use_once-IsSound m.invitations inv s filed fits

-- A handshake, whatever its outcome, keeps the invitations sound: each filed under its id, with at
-- most as many uses as its limit.
pub handshake-IsSound :
    (a : Attempt) (m : MemoryStore) → IsSound m.invitations → IsSound (answer a m).1.invitations
handshake-IsSound a m s = elim (handshake-Outcome a.env a.request a.body m) [
  | refused _ same ↦ rw same s
  | stranded inv h _ same ↦ rw same (consumed-IsSound a m inv s h)
  | admitted inv key org h _ _ _ same _ _ ↦ rw same (consumed-IsSound a m inv s h)
]

-- What a handshake does to the invitation `id`: its limit stays, and its uses grow by as many as
-- the handshake admits, or more.
abbrev pub Advances : Uuid → ℕ → MemoryStore → EnrollmentInvitation → Type 0
Advances id n m inv =
    (inv' : EnrollmentInvitation) × (get id m.invitations ≡ some inv')
    × (inv'.max_uses ≡ inv.max_uses)
    × (pos_part inv.times_used + n ≤ pos_part inv'.times_used)

Advances-used :
    (id n : ℕ) (m m' : MemoryStore) (inv found : EnrollmentInvitation)
    → IsSound m.invitations
    → get id m.invitations ≡ some inv
    → get found.id m.invitations ≡ some found
    → pos_part (int_inc found.times_used) ≡ pos_part found.times_used + 1
    → n ≤ (if found.id == id then 1 else 0)
    → m'.invitations ≡ update found.id use_once m.invitations
    → Advances id n m' inv
Advances-used id n m m' inv found s here filed grows small same =
    elim (Bool-cases (found.id == id)) [
      | inl e ↦ (use_once inv, rw same (rw get-update (ground arith)), refl, ground arith)
      | inr e ↦ (inv, rw same (rw get-update (ground arith)), refl, ground arith)
    ]

admits_refused :
    (id : Uuid) (a : Attempt) (m : MemoryStore)
    → (answer a m).0.status == status_created ≡ false
    → admits id a m ≡ 0
unfolding admits
admits_refused id a m h = ground arith

admits_found :
    (id : Uuid) (a : Attempt) (m : MemoryStore) (found : EnrollmentInvitation)
    → looked_up a m ≡ ok found
    → admits id a m ≤ (if found.id == id then 1 else 0)
unfolding admits
admits_found id a m found h = ground arith

pub handshake-Advances :
    (id : Uuid) (a : Attempt) (m : MemoryStore) (inv : EnrollmentInvitation)
    → IsSound m.invitations
    → get id m.invitations ≡ some inv
    → Advances id (admits id a m) (answer a m).1 inv
handshake-Advances id a m inv s here = elim (handshake-Outcome a.env a.request a.body m) [
  | refused code same ↦
      (inv, rw same here, refl, omega (arith, admits_refused id a m (ground arith)))
  | stranded found h code same ↦
      let (_, filed, _, grows) = by_hash_found _ _ m found s h in
      Advances-used id (admits id a m) m (answer a m).1 inv found s here filed grows
        (admits_found id a m found h) (rw same)
  | admitted found key org h _ _ code same _ _ ↦
      let (_, filed, _, grows) = by_hash_found _ _ m found s h in
      Advances-used id (admits id a m) m (answer a m).1 inv found s here filed grows
        (admits_found id a m found h) same
]

pub within_le : (used max : ℤ) → IsWithin used max → pos_part used ≤ pos_part max
within_le (pos n) (pos k) w = w.0
within_le (pos n) (negsuc k) w = absurd w
within_le (negsuc n) max w = absurd w

-- From a store whose invitations are sound (each filed under its id, with at most as many uses as
-- its limit), over any sequence of handshakes, the uses of a stored invitation and the devices let
-- in under it are together at most its limit.
admissions-le-max_uses :
    (id : Uuid) (attempts : List Attempt) (m : MemoryStore) (inv : EnrollmentInvitation)
    → IsSound m.invitations
    → get id m.invitations ≡ some inv
    → pos_part inv.times_used + admissions id attempts m ≤ pos_part inv.max_uses
unfolding admissions
admissions-le-max_uses id [] m inv s here =
    omega (arith, within_le inv.times_used inv.max_uses (s.within id inv here))
admissions-le-max_uses id (a ∷ rest) m inv s here =
    let (inv', here', limit, more) = handshake-Advances id a m inv s here in
    let ih = admissions-le-max_uses id rest (answer a m).1 inv' (handshake-IsSound a m s) here' in
    omega (arith, ap pos_part limit)
