-- ===== src/Fleet.antt =====
-- services/api/internal/store/store.go, type Store: what a store promises of its devices, as an
-- interface with laws, and the approvals and revocations of device_handler.go over it. The two
-- stores of the package are in Fleet/Memory and Fleet/Database.
pub mod Memory
pub mod Tables
use rd_testing_project.Base.{
  ◌≡◌, ◌⊎◌, inl, inr, refl, Bool, true, false, Option, none, some, List, [], ◌∷◌, ◌==◌, nat_eq,
  if◌then◌else◌, fun_ext, arith, Option-cases, Bool-cases,
}
use rd_testing_project.Models.{Uuid, Device, DeviceStatus, active, revoked, is_pending}
use rd_testing_project.Store.{Error, Result, ok, err, Result-cases}

-- The devices of all organizations: to whom a device belongs, and its status.
abbrev pub Registry : Type 0
Registry = Uuid → Option (Uuid × DeviceStatus)

-- The status of a device for one organization.
abbrev pub status_for : Uuid → Option (Uuid × DeviceStatus) → Option DeviceStatus
status_for org_id none = none
status_for org_id (some (owner, status)) = if owner == org_id then some status else none

abbrev pub assign : Uuid → Uuid → DeviceStatus → Registry → Registry
assign org_id device_id status reg j = if device_id == j then some (org_id, status) else reg j

abbrev pub status_of : Result Device → Option DeviceStatus
status_of (ok dev) = some dev.status
status_of (err e) = none

-- How an update of a status ends, by the status of the device for the caller's organization.
pub data UpdateOutcome {S : Type 0} (view : S → Registry) (org_id device_id : Uuid)
    (status : DeviceStatus) (s : S) (r : Result S) : Type 0 where
  refused :
      (e : Error)
      → status_for org_id (view s device_id) ≡ none
      → r ≡ err e
      → UpdateOutcome view org_id device_id status s r
  updated :
      (old : DeviceStatus) (s' : S)
      → status_for org_id (view s device_id) ≡ some old
      → r ≡ ok s'
      → view s' ≡ assign org_id device_id status (view s)
      → UpdateOutcome view org_id device_id status s r

pub record DeviceStore (S : Type 0) : Type 0 where
  pub view : S → Registry
  pub get_device : Uuid → Uuid → S → Result Device
  pub update_device_status : Uuid → Uuid → DeviceStatus → S → Result S
  pub get_device_lem :
      (org_id device_id : Uuid) (s : S)
      → status_of (get_device org_id device_id s) ≡ status_for org_id (view s device_id)
  pub update_device_status_lem :
      (org_id device_id : Uuid) (status : DeviceStatus) (s : S)
      → UpdateOutcome view org_id device_id status s
          (update_device_status org_id device_id status s)

-- A request of an authenticated caller of an organization.
pub data Call : Type 0 where
  approve : (org_id device_id : Uuid) → Call
  revoke : (org_id device_id : Uuid) → Call

pub data Answer : Type 0 where
  done missing conflict failed : Answer

-- The registry that the calls are meant to change.
unfoldable pub prescribe : Call → Registry → Answer × Registry
prescribe (approve org_id device_id) reg = elim (status_for org_id (reg device_id)) [
  | none ↦ (missing, reg)
  | some status ↦
      if is_pending status then (done, assign org_id device_id active reg) else (conflict, reg)
]
prescribe (revoke org_id device_id) reg = elim (status_for org_id (reg device_id)) [
  | none ↦ (failed, reg)
  | some status ↦ (done, assign org_id device_id revoked reg)
]

unfoldable pub prescribe_all : List Call → Registry → List Answer × Registry
unfolding prescribe
prescribe_all [] reg = ([], reg)
prescribe_all (call ∷ calls) reg =
    let (answer, reg') = prescribe call reg in
    let (answers, last) = prescribe_all calls reg' in (answer ∷ answers, last)

module _ {S : Type 0} (store : DeviceStore S) where
  abbrev settle : S → Result S → Answer × S
  settle s (ok s') = (done, s')
  settle s (err e) = (failed, s)

  -- The store's calls of ApproveDevice and RevokeDevice.
  unfoldable pub serve : Call → S → Answer × S
  serve (approve org_id device_id) s = elim (store.get_device org_id device_id s) [
    | err e ↦ (missing, s)
    | ok dev ↦
        if is_pending dev.status
        then settle s (store.update_device_status org_id device_id active s)
        else (conflict, s)
  ]
  serve (revoke org_id device_id) s =
      settle s (store.update_device_status org_id device_id revoked s)

  unfoldable pub serve_all : List Call → S → List Answer × S
  unfolding serve
  serve_all [] s = ([], s)
  serve_all (call ∷ calls) s =
      let (answer, s') = serve call s in
      let (answers, last) = serve_all calls s' in (answer ∷ answers, last)

  serve-refines :
      (call : Call) (s : S)
      → ((serve call s).0 ≡ (prescribe call (store.view s)).0)
        × (store.view (serve call s).1 ≡ (prescribe call (store.view s)).1)
  unfolding serve prescribe
  serve-refines (approve org_id device_id) s =
      elim (store.update_device_status_lem org_id device_id active s) [
        | refused e none_of_it r ↦ ground (arith, store.get_device_lem org_id device_id s)
        | updated old s' own r seen ↦ ground (arith, store.get_device_lem org_id device_id s)
      ]
  serve-refines (revoke org_id device_id) s =
      elim (store.update_device_status_lem org_id device_id revoked s) [
        | refused e none_of_it r ↦ ground arith
        | updated old s' own r seen ↦ ground arith
      ]

  -- A store that keeps the laws of DeviceStore answers any sequence of approvals and revocations
  -- as the registry of owners and statuses prescribes, and its view of the devices ends as that
  -- registry: an approval succeeds exactly for a pending device of the caller's organization and
  -- makes it ACTIVE, a revocation exactly for a device of the caller's organization and makes it
  -- REVOKED, and each changes no other device.
  pub serve_all-refines :
      (calls : List Call) (s : S)
      → ((serve_all calls s).0 ≡ (prescribe_all calls (store.view s)).0)
        × (store.view (serve_all calls s).1 ≡ (prescribe_all calls (store.view s)).1)
  unfolding serve_all prescribe_all
  serve_all-refines [] s = (refl, refl)
  serve_all-refines (call ∷ calls) s =
      let (same, seen) = serve-refines call s in
      let (rest, last) = serve_all-refines calls (serve call s).1 in
      (cc (same, seen, rest), cc (seen, last))
