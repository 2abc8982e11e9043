-- ===== src/Server/Devices.antt =====
-- main.go: who can change a device, over any sequence of requests to the API server.
use rd_testing_project.Base.{
  ◌≡◌, ◌≢◌, ◌⊎◌, inl, inr, refl, ap, sym, ◌∙◌, subst, String, true, some, List, [], ◌∷◌, ◌==◌,
  nat_eq, string_eq, arith, All, Bool-cases,
}
use rd_testing_project.Base.Maps.{get, get-update, get-put_other}
use rd_testing_project.Models.{Uuid, Device, DeviceStatus, pending, active, revoked}
use rd_testing_project.Store.{MemoryStore}
use rd_testing_project.Http.{Claims, Request}
use rd_testing_project.Auth.{Crypto}
use rd_testing_project.Middleware.{has_perm}
use rd_testing_project.Handlers.Updates.{Signer, UpdateHandler}
use rd_testing_project.Handlers.Enrollment.{new_device}
use rd_testing_project.Handlers.Devices.Transitions.{Change, approves, revokes, with_status}
use rd_testing_project.Handlers.Devices.Isolation.{IsRevoked}
use rd_testing_project.Server.{Incoming, serve, serve_all}
use rd_testing_project.Server.Routes.{Guard}
use rd_testing_project.Server.Access.{claims_of, admits}
use rd_testing_project.Server.Reach.{IsLetIn}
use rd_testing_project.Server.Effects.{
  DeviceEffect, same, sets, sees, enrolls, MaySet, approving, removing, mark_seen,
}
use rd_testing_project.Server.Effects.OfRoutes.{idle, effective, serve-Served}

-- The status after a decision on the device `dev` by the holder of the claims.
pub data IsDecided (claims : Claims) (dev : Device) : DeviceStatus → Type 0 where
  approved :
      has_perm "device.approve" claims.permissions ≡ true
      → dev.status ≡ pending
      → IsDecided claims dev active
  removed_by : has_perm "device.remove" claims.permissions ≡ true → IsDecided claims dev revoked

Change-active : {s t : DeviceStatus} → Change s t → t ≡ active → s ≡ pending
Change-active approves h = refl
Change-active revokes h = cc

module _ (c : Crypto) (secret : String) (signer : Signer) (keys : UpdateHandler) where
  -- The device is there, of the same organization, and its status is as it was or was decided on
  -- by the holder of a valid token of the organization with the permission for it.
  abbrev pub Follows : Incoming → Uuid → Device → MemoryStore → Type 0
  Follows i id dev m =
      (dev' : Device) × (get id m.devices ≡ some dev')
      × (dev'.organization_id ≡ dev.organization_id)
      × ((dev'.status ≡ dev.status)
          ⊎ ((claims : Claims) × (claims_of c secret signer keys i ≡ some claims)
              × (claims.organization_id ≡ dev.organization_id)
              × IsDecided claims dev dev'.status))

  decision-IsDecided :
      {guard : Guard} {status : DeviceStatus} (claims : Claims) (dev : Device)
      → MaySet guard status
      → Change dev.status status
      → admits guard claims ≡ true
      → IsDecided claims dev status
  decision-IsDecided claims dev approving ch granted = approved granted (Change-active ch refl)
  decision-IsDecided claims dev removing ch granted = removed_by granted

  -- A device that is there and none of whose fields but last_seen changed.
  followed :
      (i : Incoming) (id : Uuid) (dev dev' : Device) (m : MemoryStore)
      → get id m.devices ≡ some dev'
      → dev'.organization_id ≡ dev.organization_id
      → dev'.status ≡ dev.status
      → Follows i id dev m
  followed i id dev dev' m here org status = (dev', here, org, inl status)

  DeviceEffect-Follows :
      (i : Incoming) (guard : Guard) (r : Request) (id : Uuid) (dev : Device) (m m' : MemoryStore)
      → IsLetIn c secret signer keys i guard r
      → DeviceEffect i.env guard r m m'
      → i.env.new_id 0 ≢ id
      → get id m.devices ≡ some dev
      → Follows i id dev m'
  DeviceEffect-Follows i guard r id dev m m' let_in (same e) fresh here =
      followed i id dev dev m' (rw e here) refl refl
  DeviceEffect-Follows i guard r id dev m m' let_in (sees j now e) fresh here =
      elim (Bool-cases (j == id)) [
        | inl hit ↦
            followed i id dev (mark_seen now dev) m'
              (rw e (ground (arith, get-update id j (mark_seen now) m.devices))) refl refl
        | inr miss ↦
            followed i id dev dev m'
              (rw e (ground (arith, get-update id j (mark_seen now) m.devices))) refl refl
      ]
  DeviceEffect-Follows i guard r id dev m m' let_in (enrolls req inv org home e) fresh here =
      followed i id dev dev m'
        (rw e (get-put_other id (i.env.new_id 0) (new_device i.env req inv) m.devices fresh ∙ here))
        refl refl
  DeviceEffect-Follows i guard r id dev m m' let_in (sets claims j d status may held there own ch e)
        fresh here =
      elim (Bool-cases (j == id)) [
        | inl hit ↦
            let (valid, granted) = let_in claims held in
            let d_is_dev : d ≡ dev = ground arith in
            (
              with_status status dev,
              rw e (ground (arith, get-update id j (with_status status) m.devices)),
              refl,
              inr (
                claims,
                valid,
                sym own ∙ ap (λ x. x.organization_id) d_is_dev,
                subst (λ x. IsDecided claims x status) d_is_dev
                    (decision-IsDecided claims d may ch granted),
              ),
            )
        | inr miss ↦
            followed i id dev dev m'
              (rw e (ground (arith, get-update id j (with_status status) m.devices))) refl refl
      ]

  -- A request that does not draw the device's id for a new one leaves a stored device in its
  -- organization. It changes its status only from PENDING to ACTIVE for a valid token of that
  -- organization with device.approve, or to REVOKED for one with device.remove.
  pub serve-Follows :
      (i : Incoming) (m : MemoryStore) (id : Uuid) (dev : Device)
      → get id m.devices ≡ some dev
      → i.env.new_id 0 ≢ id
      → Follows i id dev (serve c secret signer keys i m).1
  serve-Follows i m id dev here fresh = elim (serve-Served c secret signer keys i m) [
    | idle kept ↦ followed i id dev dev (serve c secret signer keys i m).1 (rw kept here) refl refl
    | effective rt r _ let_in effect ↦
        DeviceEffect-Follows i rt.guard r id dev m (serve c secret signer keys i m).1 let_in
          effect.devices fresh here
  ]

  IsDecided-revoked :
      {claims : Claims} {dev : Device} {status : DeviceStatus}
      → IsDecided claims dev status
      → dev.status ≡ revoked
      → status ≡ revoked
  IsDecided-revoked (approved granted was) h = cc
  IsDecided-revoked (removed_by granted) h = refl

  -- A revoked device is still there and revoked after any sequence of requests to the API server,
  -- none of which draws its id for a new one.
  pub serve_all-IsRevoked :
      (is : List Incoming) (m : MemoryStore) (id : Uuid)
      → All (λ i. i.env.new_id 0 ≢ id) is
      → IsRevoked id m.devices
      → IsRevoked id (serve_all c secret signer keys is m).devices
  unfolding serve_all
  serve_all-IsRevoked [] m id fresh h = h
  serve_all-IsRevoked (i ∷ is) m id fresh (dev, here, gone) =
      let (dev', here', _, how) = serve-Follows i m id dev here fresh.0 in
      let still : dev'.status ≡ revoked = elim how [
        | inl kept ↦ kept ∙ gone
        | inr (_, _, _, decided) ↦ IsDecided-revoked decided gone
      ] in
      serve_all-IsRevoked is (serve c secret signer keys i m).1 id fresh.1 (dev', here', still)

  -- The request carries no valid token of the organization.
  abbrev pub IsForeign : Uuid → Incoming → Type 0
  IsForeign org_id i =
      (claims : Claims)
      → claims_of c secret signer keys i ≡ some claims
      → claims.organization_id ≢ org_id

  -- Any sequence of requests to the API server without a valid token of the device's organization,
  -- none of which draws its id for a new one, leaves a stored device with its organization and
  -- status.
  pub serve_all_isolates :
      (is : List Incoming) (m : MemoryStore) (id : Uuid) (dev : Device)
      → All (λ i. IsForeign dev.organization_id i × (i.env.new_id 0 ≢ id)) is
      → get id m.devices ≡ some dev
      → (dev' : Device) × (get id (serve_all c secret signer keys is m).devices ≡ some dev')
        × (dev'.organization_id ≡ dev.organization_id)
        × (dev'.status ≡ dev.status)
  unfolding serve_all
  serve_all_isolates [] m id dev foreign here = (dev, here, refl, refl)
  serve_all_isolates (i ∷ is) m id dev ((outside, fresh), foreign) here =
      let (dev', here', org, how) = serve-Follows i m id dev here fresh in
      let kept : dev'.status ≡ dev.status = elim how [
        | inl kept ↦ kept
        | inr (claims, valid, own, _) ↦ absurd (outside claims valid own)
      ] in
      let (dev'', here'', org', kept') =
        serve_all_isolates is (serve c secret signer keys i m).1 id dev'
          (subst (λ x. All (λ i. IsForeign x i × (i.env.new_id 0 ≢ id)) is) (sym org) foreign)
          here' in
      (dev'', here'', org' ∙ org, kept' ∙ kept)
