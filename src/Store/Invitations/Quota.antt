-- ===== src/Store/Invitations/Quota.antt =====
-- store.go, enrollment invitations: what a lookup by token hash promises, and the number of uses.
use rd_testing_project.Base.{
  ◌+◌, ◌≤◌, ◌<◌, ◌≡◌, refl, String, false, some, ℤ, pos, negsuc, pos_part, leb_ℤ, ltb, int_half,
  int_inc, ◌==◌, string_eq, nat_eq, find?, arith, text_eq_iff, inl, inr, Option-cases,
}
use rd_testing_project.Base.Maps.{
  Map, get, put, update, delete, values, IsKeyed, find?-values, find?_passes, get-update, get-put,
  get-delete, update-IsKeyed, put-IsKeyed, delete-IsKeyed,
}
use rd_testing_project.Models.{Uuid, Time, EnrollmentInvitation}
use rd_testing_project.Store.{MemoryStore, ok}
use rd_testing_project.Store.Invitations.{redeemable, get_enrollment_invitation_by_hash, use_once}

-- 0 ≤ used ≤ max, within the range of Go's int.
abbrev pub IsWithin : ℤ → ℤ → Type 0
IsWithin (pos n) (pos k) = (n ≤ k) × (k < int_half)
IsWithin _ _ = ⊥

abbrev pub id_of : EnrollmentInvitation → Uuid
id_of inv = inv.id

-- Every invitation is filed under its id, and none has been used more often than it allows.
pub record IsSound (invs : Map Uuid EnrollmentInvitation) : Type 0 where
  pub keyed : IsKeyed id_of invs
  pub within :
      (id : Uuid) (inv : EnrollmentInvitation)
      → get id invs ≡ some inv
      → IsWithin inv.times_used inv.max_uses

pub redeemable_ok :
    (now : Time) (inv found : EnrollmentInvitation)
    → redeemable now inv ≡ ok found
    → (inv ≡ found) × (ltb inv.expires_at now ≡ false) × (leb_ℤ inv.max_uses inv.times_used ≡ false)
redeemable_ok now inv found h = ground arith

pub by_hash_ok :
    (hash : String) (now : Time) (m : MemoryStore) (inv : EnrollmentInvitation)
    → get_enrollment_invitation_by_hash hash now m ≡ ok inv
    → (find? (λ i. i.token_hash == hash) (values m.invitations) ≡ some inv)
      × (ltb inv.expires_at now ≡ false)
      × (leb_ℤ inv.max_uses inv.times_used ≡ false)
unfolding get_enrollment_invitation_by_hash
by_hash_ok hash now m inv h =
    elim (Option-cases (find? (λ i. i.token_hash == hash) (values m.invitations))) [
      | inl e ↦ ground arith
      | inr (i, e) ↦ ground (arith, redeemable_ok now i inv)
    ]

-- An invitation with a use left has room for one more: the counter does not wrap.
pub int_inc-IsWithin :
    (used max : ℤ)
    → IsWithin used max
    → leb_ℤ max used ≡ false
    → IsWithin (int_inc used) max × (pos_part (int_inc used) ≡ pos_part used + 1)
int_inc-IsWithin (pos n) (pos k) w h = ground arith
int_inc-IsWithin (pos n) (negsuc k) w h = absurd w
int_inc-IsWithin (negsuc n) max w h = absurd w

-- A found invitation has the hash, is filed under its id and has a use left.
pub by_hash_found :
    (hash : String) (now : Time) (m : MemoryStore) (inv : EnrollmentInvitation)
    → IsSound m.invitations
    → get_enrollment_invitation_by_hash hash now m ≡ ok inv
    → (inv.token_hash ≡ hash)
      × (get inv.id m.invitations ≡ some inv)
      × IsWithin (int_inc inv.times_used) inv.max_uses
      × (pos_part (int_inc inv.times_used) ≡ pos_part inv.times_used + 1)
by_hash_found hash now m inv s h =
    let (found, fresh, room) = by_hash_ok hash now m inv h in
    let filed = find?-values id_of (λ i. i.token_hash == hash) inv m.invitations s.keyed found in
    let (fits, grows) =
      int_inc-IsWithin inv.times_used inv.max_uses (s.within inv.id inv filed) room in
    (
      (text_eq_iff inv.token_hash hash).0
          (find?_passes (λ i. i.token_hash == hash) inv (values m.invitations) found),
      filed,
      fits,
      grows,
    )

-- Consuming a use keeps the invitations sound where the invitation has one left.
pub use_once-IsSound :
    (invs : Map Uuid EnrollmentInvitation) (inv : EnrollmentInvitation)
    → IsSound invs
    → get inv.id invs ≡ some inv
    → IsWithin (int_inc inv.times_used) inv.max_uses
    → IsSound (update inv.id use_once invs)
use_once-IsSound invs inv s filed fits = record {
  keyed = update-IsKeyed id_of inv.id use_once invs (λ _. refl) s.keyed;
  within = λ id i e. ground (arith, get-update id inv.id use_once invs, s.within id i);
}

pub put-IsSound :
    (invs : Map Uuid EnrollmentInvitation) (inv : EnrollmentInvitation)
    → IsSound invs
    → IsWithin inv.times_used inv.max_uses
    → IsSound (put inv.id inv invs)
put-IsSound invs inv s fits = record {
  keyed = put-IsKeyed id_of inv invs s.keyed;
  within = λ id i e. ground (arith, get-put id inv.id inv invs, s.within id i);
}

pub delete-IsSound :
    (invs : Map Uuid EnrollmentInvitation) (id : Uuid) → IsSound invs → IsSound (delete id invs)
delete-IsSound invs id s = record {
  keyed = delete-IsKeyed id_of id invs s.keyed;
  within = λ j i e. ground (arith, get-delete j id invs, s.within j i);
}
