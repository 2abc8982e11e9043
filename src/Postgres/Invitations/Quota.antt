-- ===== src/Postgres/Invitations/Quota.antt =====
-- postgres_store.go, enrollment invitations: how often an invitation is used by concurrent requests,
-- whose statements come in any order.
use rd_testing_project.Base.{
  ℕ, suc, ◌+◌, ◌≤◌, ◌≡◌, Bool, true, false, Option, none, some, List, [], ◌∷◌, ℤ, pos, negsuc,
  pos_part, ltb_ℤ, int_inc, ◌==◌, nat_eq, ◌-◌, if◌then◌else◌, arith, inl, inr, Option-cases, String,
}
use rd_testing_project.Base.Maps.{get, get-update, get-delete}
use rd_testing_project.Models.{Uuid, EnrollmentInvitation}
use rd_testing_project.Store.{◌>>=◌, Result-cases, Result, ok, err}
use rd_testing_project.Store.Invitations.{use_once}
use rd_testing_project.Store.Invitations.Quota.{IsWithin, int_inc-IsWithin}
use rd_testing_project.Postgres.{Database, Query, state_after}
use rd_testing_project.Postgres.Invitations.{
  get_enrollment_invitation_by_hash, consume_enrollment_invitation, delete_enrollment_invitation,
}

-- The calls of the requests that redeem or revoke invitations.
pub data Call : Type 0 where
  look_up : String → Call
  consume : Uuid → Call
  revoke : Uuid → Uuid → Call

unfoldable pub perform : Query → Call → Database → Result Database
perform q (look_up hash) db = do _ ← get_enrollment_invitation_by_hash q hash db; ok db
perform q (consume inv_id) db = consume_enrollment_invitation q inv_id db
perform q (revoke org_id inv_id) db = delete_enrollment_invitation q org_id inv_id db

-- Whether the call has consumed a use of `id`.
abbrev pub is_use_of : Uuid → Call → Result Database → Bool
is_use_of id (consume inv_id) (ok db) = inv_id == id
is_use_of id (consume inv_id) (err e) = false
is_use_of id (look_up hash) r = false
is_use_of id (revoke org_id inv_id) r = false

-- How many of the calls consume a use of `id`.
unfoldable pub uses_of : Uuid → List (Query × Call) → Database → ℕ
unfolding perform
uses_of id [] db = 0
uses_of id ((q, call) ∷ calls) db =
    let r = perform q call db in
    let more = uses_of id calls (state_after db r) in if is_use_of id call r then suc more else more

abbrev invitation : Uuid → Database → Option EnrollmentInvitation
invitation id db = get id db.enrollment_invitations

abbrev IsWithinQuota : Option EnrollmentInvitation → Type 0
IsWithinQuota none = Unit
IsWithinQuota (some inv) = IsWithin inv.times_used inv.max_uses

abbrev pub uses_left : Option EnrollmentInvitation → ℕ
uses_left none = 0
uses_left (some inv) = pos_part inv.max_uses - pos_part inv.times_used

-- A use that the WHERE clause of the update lets through.
one_use :
    (used max : ℤ)
    → IsWithin used max
    → ltb_ℤ used max ≡ true
    → IsWithin (int_inc used) max
      × (1 + (pos_part max - pos_part (int_inc used)) ≤ pos_part max - pos_part used)
one_use (pos n) (pos k) w h = ground (arith, int_inc-IsWithin (pos n) (pos k) w)
one_use (pos n) (negsuc k) w h = absurd w
one_use (negsuc n) max w h = absurd w

-- A call keeps the counter within the limit, and takes a use away for each one that it consumes.
perform-IsWithinQuota :
    (id : Uuid) (q : Query) (call : Call) (db : Database)
    → IsWithinQuota (invitation id db)
    → let r = perform q call db in
      let left = invitation id (state_after db r) in
      IsWithinQuota left
      × ((if is_use_of id call r then 1 else 0) + uses_left left ≤ uses_left (invitation id db))
unfolding perform consume_enrollment_invitation delete_enrollment_invitation
perform-IsWithinQuota id q (look_up hash) db h =
    elim (Result-cases (get_enrollment_invitation_by_hash q hash db)) [
      | inl (inv, e) ↦ rw e (h, omega arith)
      | inr (f, e) ↦ rw e (h, omega arith)
    ]
perform-IsWithinQuota id q (consume inv_id) db h =
    let invs = db.enrollment_invitations in
    elim (Option-cases (get inv_id invs)) [
      | inl none_there ↦ ground arith
      | inr (inv, there) ↦ ground (
        arith,
        get-update id inv_id use_once invs,
        nat_eq.same_iff inv_id id,
        one_use inv.times_used inv.max_uses,
      )
    ]
perform-IsWithinQuota id q (revoke org_id inv_id) db h =
    ground (arith, get-delete id inv_id db.enrollment_invitations, nat_eq.same_iff inv_id id)

uses_of-le-uses_left :
    (id : Uuid) (calls : List (Query × Call)) (db : Database)
    → IsWithinQuota (invitation id db)
    → uses_of id calls db ≤ uses_left (invitation id db)
unfolding uses_of
uses_of-le-uses_left id [] db h = omega arith
uses_of-le-uses_left id ((q, call) ∷ calls) db h =
    let (kept, fewer) = perform-IsWithinQuota id q call db h in
    ground (arith, uses_of-le-uses_left id calls (state_after db (perform q call db)) kept)

-- Whatever lookups, uses and revocations of invitations concurrent requests send to the PostgreSQL
-- store, in any order, an invitation whose counter is between 0 and its limit (below 2^63) is used
-- by them, together with the uses it had, at most as often as its limit.
pub uses_of-le-max_uses :
    (id : Uuid) (calls : List (Query × Call)) (db : Database) (inv : EnrollmentInvitation)
    → get id db.enrollment_invitations ≡ some inv
    → IsWithin inv.times_used inv.max_uses
    → uses_of id calls db + pos_part inv.times_used ≤ pos_part inv.max_uses
uses_of-le-max_uses id calls db inv here within = ground (arith, uses_of-le-uses_left id calls db)
