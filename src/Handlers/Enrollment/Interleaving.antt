-- ===== src/Handlers/Enrollment/Interleaving.antt =====
-- enrollment_handler.go, Handshake: the lookup of the invitation and the use of it are two calls of
-- the store, so other requests may run between them. A concurrent run is a list of such steps.
use rd_testing_project.Base.{
  ℕ, suc, ◌<◌, ◌≡◌, ◌∙◌, String, false, none, some, List, [], ◌∷◌, ◌==◌, nat_eq, string_eq, arith,
  pos, int_half, int_inc,
}
use rd_testing_project.Base.Maps.{Map, get, put, update, delete, get-put, get-delete, get-update}
use rd_testing_project.Models.{Time, EnrollmentInvitation}
use rd_testing_project.Store.{MemoryStore, ok, err}
use rd_testing_project.Store.Invitations.{
  get_enrollment_invitation_by_hash, consume_enrollment_invitation, use_once,
}
use rd_testing_project.Store.Invitations.Quota.{IsSound, by_hash_found}

-- The handshakes under way: for each one that has passed the lookup, the invitation it found.
pub record World : Type 0 where
  pub store : MemoryStore
  pub passed : Map ℕ EnrollmentInvitation

-- One atomic call of the store by the handshake `who`.
pub data Call : Type 0 where
  looks_up : (who : ℕ) (hash : String) (now : Time) → Call
  consumes : (who : ℕ) → Call

unfoldable pub step : Call → World → World
step (looks_up who hash now) w = elim (get_enrollment_invitation_by_hash hash now w.store) [
  | ok inv ↦ record w { passed = put who inv w.passed }
  | err e ↦ w
]
step (consumes who) w = elim (get who w.passed) [
  | none ↦ w
  | some inv ↦ elim (consume_enrollment_invitation inv.id w.store) [
    | ok m ↦ record { store = m; passed = delete who w.passed }
    | err e ↦ record w { passed = delete who w.passed }
  ]
]

unfoldable pub run : List Call → World → World
run [] w = w
run (c ∷ cs) w = run cs (step c w)

step-looks_up :
    (who : ℕ) (hash : String) (now : Time) (w : World) (inv : EnrollmentInvitation)
    → get_enrollment_invitation_by_hash hash now w.store ≡ ok inv
    → step (looks_up who hash now) w ≡ record w { passed = put who inv w.passed }
unfolding step
step-looks_up who hash now w inv h = ground arith

step-consumes :
    (who : ℕ) (w : World) (inv : EnrollmentInvitation)
    → get who w.passed ≡ some inv
    → step (consumes who) w ≡ record {
      store = record w.store { invitations = update inv.id use_once w.store.invitations };
      passed = delete who w.passed;
    }
unfolding step consume_enrollment_invitation
step-consumes who w inv h = ground arith

-- Two handshakes that both look an invitation up before either uses it each consume a use of it.
two_lookups_consume_two :
    (a b : ℕ) (hash : String) (now : Time) (w : World) (inv : EnrollmentInvitation)
    → (a == b) ≡ false
    → IsSound w.store.invitations
    → get_enrollment_invitation_by_hash hash now w.store ≡ ok inv
    → let w' = run (looks_up a hash now ∷ looks_up b hash now ∷ consumes a ∷ consumes b ∷ []) w in
      get inv.id w'.store.invitations
      ≡ some (record inv { times_used = int_inc (int_inc inv.times_used) })
unfolding run
two_lookups_consume_two a b hash now w inv differ s h =
    let both = record w { passed = put b inv (put a inv w.passed) } in
    let (_, filed, _, _) = by_hash_found hash now w.store inv s h in
    let used = update inv.id use_once w.store.invitations in
    let middle : World = record {
      store = record w.store { invitations = used };
      passed = delete a both.passed;
    } in
    let passed_a : get a both.passed ≡ some inv =
      ground (arith, get-put a b inv (put a inv w.passed), get-put a a inv w.passed) in
    let passed_b : get b middle.passed ≡ some inv =
      ground (arith, get-delete b a both.passed, get-put b b inv (put a inv w.passed)) in
    rw (step-looks_up a hash now w inv h) (
      rw (step-looks_up b hash now (record w { passed = put a inv w.passed }) inv h) (
        rw (step-consumes a both inv passed_a) (
          rw (step-consumes b middle inv passed_b) (
            ground (
              arith,
              get-update inv.id inv.id use_once used,
              get-update inv.id inv.id use_once w.store.invitations,
            )))))

two_more : (n : ℕ) → suc (suc n) < int_half → int_inc (int_inc (pos n)) ≡ pos (suc (suc n))
two_more n h = ground arith

-- From a sound store, two handshakes that both look up an invitation with one use left before
-- either consumes it leave it with one use more than its limit (for a limit below 2^63 - 1).
pub two_lookups_overrun :
    (a b n : ℕ) (hash : String) (now : Time) (w : World) (inv : EnrollmentInvitation)
    → (a == b) ≡ false
    → suc (suc n) < int_half
    → IsSound w.store.invitations
    → get_enrollment_invitation_by_hash hash now w.store ≡ ok inv
    → inv.times_used ≡ pos n
    → inv.max_uses ≡ pos (suc n)
    → get inv.id
        (run
          (looks_up a hash now ∷ looks_up b hash now ∷ consumes a ∷ consumes b ∷ [])
          w).store.invitations
      ≡ some (record inv { times_used = pos (suc (suc n)) })
two_lookups_overrun a b n hash now w inv differ room s h used limit =
    two_lookups_consume_two a b hash now w inv differ s h ∙ ground (arith, two_more n room)
