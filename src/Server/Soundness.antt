-- ===== src/Server/Soundness.antt =====
-- main.go and NewMemoryStore of store.go: what holds of every store that the API server gets to.
use rd_testing_project.Base.{
  ◌≡◌, refl, ap, sym, subst, ◌∙◌, ℕ, String, List, [], ◌∷◌, nat_eq, string_eq, arith, All,
}
use rd_testing_project.Base.Maps.{get, Everywhere}
use rd_testing_project.Models.{Time}
use rd_testing_project.Store.{MemoryStore}
use rd_testing_project.Store.Frame.{core, accounts}
use rd_testing_project.Store.Seed.{new_memory_store, demo_org, demo_device_1, demo_device_2}
use rd_testing_project.Store.Invitations.Quota
use rd_testing_project.Http.{Request}
use rd_testing_project.Auth.{Crypto}
use rd_testing_project.Handlers.Updates.{Signer, UpdateHandler}
use rd_testing_project.Handlers.Sessions.Lifecycle
use rd_testing_project.Server.{Incoming, serve, serve_all}
use rd_testing_project.Server.Invitations.{IsInRange, InvitationEffect-IsSound}
use rd_testing_project.Server.Integrity.{
  AreHoused, HasDevice, DeviceEffect-AreHoused, Effect-HasDevice,
}
use rd_testing_project.Server.Routes.{Guard}
use rd_testing_project.Server.Effects.{Effect}
use rd_testing_project.Server.Effects.OfRoutes.{idle, effective, serve-Served}

-- The invitations and the sessions are sound, the devices are housed, and each session's device is
-- there.
pub record IsSound (m : MemoryStore) : Type 0 where
  pub invitations : Quota.IsSound m.invitations
  pub sessions : Lifecycle.IsSound m.sessions
  pub devices : AreHoused m.orgs m.devices
  pub session_devices : Everywhere (HasDevice m.devices) m.sessions

kept-IsSound : {m m' : MemoryStore} → m' ≡ m → IsSound m → IsSound m'
kept-IsSound e s = subst IsSound (sym e) s

Effect-IsSound :
    (i : Incoming) (pattern : String) (g : Guard) (r : Request) (m m' : MemoryStore)
    → Effect i.env i.payload.invitation.value.max_uses pattern g r m m'
    → IsInRange i
    → IsSound m
    → IsSound m'
Effect-IsSound i pattern g r m m' effect fits s = record {
  invitations = InvitationEffect-IsSound effect.invitations fits s.invitations;
  sessions = Lifecycle.Writes-IsSound effect.sessions s.sessions;
  devices =
      subst (λ orgs. AreHoused orgs m'.devices) (sym (ap (λ a. a.orgs) effect.same_accounts))
        (DeviceEffect-AreHoused i.env g r m m' effect.devices s.devices);
  session_devices =
      Effect-HasDevice i.env i.payload.invitation.value.max_uses pattern g r m m' effect
        s.session_devices;
}

new_memory_store-IsSound : (now : ℕ → Time) → IsSound (new_memory_store now)
unfolding new_memory_store get demo_device_1 demo_device_2
new_memory_store-IsSound now = record {
  invitations = record { keyed = tt; within = λ id inv h. ground arith };
  sessions = record { keyed = tt; consistent = λ id s h. ground arith };
  devices = record {
    keyed = (refl, refl, (refl, refl, tt));
    homes = λ id dev h. (demo_org now, ground arith);
  };
  session_devices = λ id s h. absurd (ground arith);
}

module _ (c : Crypto) (secret : String) (signer : Signer) (keys : UpdateHandler) where
  serve-IsSound :
      (i : Incoming) (m : MemoryStore)
      → IsInRange i
      → IsSound m
      → IsSound (serve c secret signer keys i m).1
  serve-IsSound i m fits s = elim (serve-Served c secret signer keys i m) [
    | idle kept ↦ kept-IsSound kept s
    | effective rt r _ _ effect ↦
        Effect-IsSound i rt.pattern rt.guard r m (serve c secret signer keys i m).1 effect fits s
  ]

  accounts-serve :
      (i : Incoming) (m : MemoryStore)
      → accounts (core (serve c secret signer keys i m).1) ≡ accounts (core m)
  accounts-serve i m = elim (serve-Served c secret signer keys i m) [
    | idle kept ↦ ap (λ x. accounts (core x)) kept
    | effective rt r _ _ effect ↦ effect.same_accounts
  ]

  serve_all_invariant :
      (is : List Incoming) (m : MemoryStore)
      → All IsInRange is
      → IsSound m
      → IsSound (serve_all c secret signer keys is m)
  unfolding serve_all
  serve_all_invariant [] m fits s = s
  serve_all_invariant (i ∷ is) m fits s =
      serve_all_invariant is (serve c secret signer keys i m).1 fits.1 (serve-IsSound i m fits.0 s)

  -- Any sequence of requests to the API server leaves the organizations, the users, their roles
  -- and the permissions of the roles as they were.
  pub accounts-serve_all :
      (is : List Incoming) (m : MemoryStore)
      → accounts (core (serve_all c secret signer keys is m)) ≡ accounts (core m)
  unfolding serve_all
  accounts-serve_all [] m = refl
  accounts-serve_all (i ∷ is) m =
      accounts-serve_all is (serve c secret signer keys i m).1 ∙ accounts-serve i m

  -- From the store that a new server starts with, any sequence of requests whose max_uses fit Go's
  -- int leads to a sound store: each invitation, session and device is filed under its id, no
  -- invitation is used more often than it allows, each session has the timestamps of its status
  -- and is for a device that is there, and each device belongs to an organization that exists.
  pub serve_all-IsSound :
      (now : ℕ → Time) (is : List Incoming)
      → All IsInRange is
      → IsSound (serve_all c secret signer keys is (new_memory_store now))
  serve_all-IsSound now is fits =
      serve_all_invariant is (new_memory_store now) fits (new_memory_store-IsSound now)
