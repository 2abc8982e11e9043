-- ===== src/Handlers/Sessions/Frame.antt =====
-- session_handler.go: which part of the store each handler writes, and what it writes where it answers with
-- an error.
use rd_testing_project.Base.{
  ℕ, refl, String, Option, Option-cases, Bool-cases, inl, inr, some, false, ◌==◌, find?, ◌≡◌, ◌≤◌,
  arith, nat_eq, string_eq,
}
use rd_testing_project.Store.{MemoryStore, Result, Result-cases}
use rd_testing_project.Models.{Uuid, nil_uuid}
use rd_testing_project.Store.Frame.{core, IsUntouched}
use rd_testing_project.Store.Devices.{get_device}
use rd_testing_project.Store.Users.{get_organization}
use rd_testing_project.Store.Sessions.{
  get_remote_session, create_remote_session, update_remote_session_status, list_remote_sessions,
}
use rd_testing_project.Http.{Env, Request, Decoded, Handler, attempt, audit, status_ok}
use rd_testing_project.Handlers.Sessions.{
  create_session, get_session, terminate_session, handle_consent, list_sessions,
  ConsentDecisionRequest, CreateSessionRequest, TerminateSessionRequest, record_decision,
  sessions_of,
}

module _ (env : Env) (r : Request) (m : MemoryStore) where
  pub core-create_session :
      (body : Decoded CreateSessionRequest)
      → core (create_session env r body m).1
        ≡ record (core m) { sessions = (create_session env r body m).1.sessions }
  unfolding create_session get_device get_organization create_remote_session audit
  core-create_session body = ground arith

  pub create_session-IsUntouched :
      (body : Decoded CreateSessionRequest)
      → 400 ≤ (create_session env r body m).0.status
      → IsUntouched m (create_session env r body m).1
  unfolding create_session get_device get_organization create_remote_session audit
  create_session-IsUntouched body h = ground arith

  pub core-get_session : core (get_session env r m).1 ≡ core m
  unfolding get_session get_remote_session
  core-get_session = ground arith

  pub get_session-IsUntouched :
      400 ≤ (get_session env r m).0.status → IsUntouched m (get_session env r m).1
  unfolding get_session get_remote_session
  get_session-IsUntouched h = ground arith

  pub core-terminate_session :
      (body : Decoded TerminateSessionRequest)
      → core (terminate_session env r body m).1
        ≡ record (core m) { sessions = (terminate_session env r body m).1.sessions }
  unfolding terminate_session update_remote_session_status audit
  core-terminate_session body = ground arith

  pub terminate_session-IsUntouched :
      (body : Decoded TerminateSessionRequest)
      → 400 ≤ (terminate_session env r body m).0.status
      → IsUntouched m (terminate_session env r body m).1
  unfolding terminate_session update_remote_session_status audit
  terminate_session-IsUntouched body h = ground arith

  pub core-handle_consent :
      (body : Decoded ConsentDecisionRequest)
      → core (handle_consent env r body m).1
        ≡ record (core m) { sessions = (handle_consent env r body m).1.sessions }
  unfolding handle_consent record_decision update_remote_session_status list_remote_sessions audit
  core-handle_consent body = ground arith

  attempt_answers :
      (f : MemoryStore → Result MemoryStore) (k : Handler) (code : ℕ)
      → ((m' : MemoryStore) → (k m').0.status ≡ code)
      → (attempt f (λ _. k) m).0.status ≡ code
  attempt_answers f k code h = elim (Result-cases (f m)) [
    | inl (m', q) ↦ rw (attempt, q) (h m')
    | inr (x, q) ↦ rw (attempt, q) (h m)
  ]

  -- The answer does not depend on whether the decision could be written.
  record_decision_answers :
      (id : Uuid) (status : String) (reason : Option String) (k : Handler) (code : ℕ)
      → ((m' : MemoryStore) → (k m').0.status ≡ code)
      → (record_decision env r id status reason (λ _. k) m).0.status ≡ code
  unfolding record_decision
  record_decision_answers id status reason k code h =
      elim (Result-cases (update_remote_session_status nil_uuid id status reason (env.now 0) m)) [
        | inl (m', q) ↦ rw (record_decision, q) (h m')
        | inr (x, q) ↦
            rw (record_decision, q)
              (elim (Option-cases
                (find? (λ s. s.id == id) (sessions_of (list_remote_sessions nil_uuid m)))) [
                  | inl gone ↦ rw gone (h m)
                  | inr (s, here) ↦ rw here (
                      attempt_answers
                        (update_remote_session_status s.organization_id id status reason
                          (env.now 1))
                        k code h)
                ])
      ]

  handle_consent_status :
      (body : Decoded ConsentDecisionRequest) (id : Uuid)
      → env.parse_uuid (r.path_value "sessionId") ≡ some id
      → body.failed ≡ false
      → (handle_consent env r body m).0.status ≡ status_ok
  unfolding handle_consent audit
  handle_consent_status body id e f = rw (e, f) (record_decision_answers id _ _ _ 200 (λ m'. refl))

  pub handle_consent-IsUntouched :
      (body : Decoded ConsentDecisionRequest)
      → 400 ≤ (handle_consent env r body m).0.status
      → IsUntouched m (handle_consent env r body m).1
  unfolding handle_consent record_decision update_remote_session_status list_remote_sessions audit
  handle_consent-IsUntouched body h =
      elim (Option-cases (env.parse_uuid (r.path_value "sessionId"))) [
        | inl e ↦ ground arith
        | inr (id, e) ↦ elim (Bool-cases body.failed) [
          | inl f ↦ ground arith
          | inr f ↦ absurd (ground (arith, handle_consent_status body id e f, h))
        ]
      ]

  pub core-list_sessions : core (list_sessions env r m).1 ≡ core m
  unfolding list_sessions list_remote_sessions
  core-list_sessions = ground arith

  pub list_sessions-IsUntouched :
      400 ≤ (list_sessions env r m).0.status → IsUntouched m (list_sessions env r m).1
  unfolding list_sessions list_remote_sessions
  list_sessions-IsUntouched h = ground arith
