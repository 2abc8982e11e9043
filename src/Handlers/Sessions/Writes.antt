-- ===== src/Handlers/Sessions/Writes.antt =====
-- session_handler.go and UpdateRemoteSessionStatus of store.go: what one session request
-- writes to the sessions.
use rd_testing_project.Base.{
  ◌≡◌, inl, inr, String, Bool, true, Option, some, ◌==◌, nat_eq, string_eq, arith, find?,
  Option-cases, Bool-cases,
}
use rd_testing_project.Base.Maps.{Map, put, update}
use rd_testing_project.Models.{Uuid, Time, Device, RemoteSession, nil_uuid, is_active}
use rd_testing_project.Store.{MemoryStore, Error, ok, err, Result-cases}
use rd_testing_project.Store.Sessions.{
  set_status, update_remote_session_status, create_remote_session, list_remote_sessions,
}
use rd_testing_project.Store.Users.{get_organization}
use rd_testing_project.Store.Devices.{get_device}
use rd_testing_project.Http.{Env, Claims, Request, Decoded, audit}
use rd_testing_project.Handlers.Sessions.{
  CreateSessionRequest, ConsentDecisionRequest, TerminateSessionRequest, create_session,
  handle_consent, decided_status, org_of, reason_given, new_session, sessions_of, terminate_session,
  consent_required,
}

-- The statuses that the handlers write.
pub data IsWritten : String → Type 0 where
  grants : IsWritten "CONNECTED"
  denies : IsWritten "REJECTED"
  terminates : IsWritten "TERMINATED"

-- What one request does to the sessions.
pub data Writes (before : MemoryStore) (after : Map Uuid RemoteSession) : Type 0 where
  keeps : after ≡ before.sessions → Writes before after
  opens :
      (env : Env) (claims : Claims) (device_id : Uuid) (consent : Bool) (dev : Device)
      → get_device claims.organization_id device_id before ≡ ok dev
      → after ≡ put (env.new_id 0) (new_session env claims device_id consent) before.sessions
      → Writes before after
  sets :
      {status : String} (id : Uuid) (reason : String) (now : Time)
      → IsWritten status
      → after ≡ update id (set_status status (some reason) now) before.sessions
      → Writes before after

decision-IsWritten : (decision : String) → IsWritten (decided_status decision)
decision-IsWritten decision = elim (Bool-cases (decision == "DENIED")) [
  | inl e ↦ rw e denies
  | inr e ↦ rw e grants
]

module _ (env : Env) (r : Request) (m : MemoryStore) where
  pub create_session-Writes :
      (body : Decoded CreateSessionRequest) → Writes m (create_session env r body m).1.sessions
  unfolding create_session create_remote_session audit
  create_session-Writes body = elim (Option-cases r.claims) [
    | inl c ↦ keeps (ground arith)
    | inr (claims, c) ↦ elim (Option-cases (env.parse_uuid (r.path_value "deviceId"))) [
      | inl e ↦ keeps (ground arith)
      | inr (id, e) ↦ elim (Result-cases (get_device claims.organization_id id m)) [
        | inr (x, q) ↦ keeps (ground arith)
        | inl (dev, q) ↦ elim (Bool-cases (is_active dev.status)) [
          | inr idle ↦ keeps (ground arith)
          | inl live ↦
              opens env claims id
                (consent_required (get_organization claims.organization_id m)
                  body.value.require_consent)
                dev q (new_session_stored claims id dev c e q live)
        ]
      ]
    ]
  ]
    where
      new_session_stored :
          (claims : Claims) (id : Uuid) (dev : Device)
          → r.claims ≡ some claims
          → env.parse_uuid (r.path_value "deviceId") ≡ some id
          → get_device claims.organization_id id m ≡ ok dev
          → is_active dev.status ≡ true
          → (create_session env r body m).1.sessions
            ≡ put
                (env.new_id 0)
                (new_session env claims id (
                  consent_required
                    (get_organization claims.organization_id m)
                    body.value.require_consent))
                m.sessions
      new_session_stored claims id dev c e q live = ground arith

  update_status_effect :
      (org id : Uuid) (status : String) (reason : Option String) (now : Time) (n : MemoryStore)
      → update_remote_session_status org id status reason now m ≡ ok n
      → n ≡ record m { sessions = update id (set_status status reason now) m.sessions }
  unfolding update_remote_session_status
  update_status_effect org id status reason now n h = ground arith

  -- A failed update fails for every organization.
  update_status_fails :
      (id : Uuid) (status : String) (reason : Option String) (now : Time) (x : Error)
      → update_remote_session_status nil_uuid id status reason now m ≡ err x
      → (org : Uuid) (later : Time)
      → update_remote_session_status org id status reason later m ≡ err x
  unfolding update_remote_session_status
  update_status_fails id status reason now x h org later = ground arith

  pub terminate_session-Writes :
      (body : Decoded TerminateSessionRequest)
      → Writes m (terminate_session env r body m).1.sessions
  unfolding terminate_session audit
  terminate_session-Writes body = elim (Option-cases (env.parse_uuid (r.path_value "sessionId"))) [
    | inl e ↦ keeps (ground arith)
    | inr (id, e) ↦
        elim (Result-cases (
          update_remote_session_status (org_of r.claims) id "TERMINATED"
            (some (reason_given body.value.reason)) (env.now 0) m)) [
              | inl (n, q) ↦
                  sets id (reason_given body.value.reason) (env.now 0) terminates
                    (ground (arith, update_status_effect _ _ _ _ _ _ q))
              | inr (x, q) ↦ keeps (ground arith)
            ]
  ]

  pub handle_consent-Writes :
      (body : Decoded ConsentDecisionRequest) → Writes m (handle_consent env r body m).1.sessions
  unfolding handle_consent audit
  handle_consent-Writes body = elim (Option-cases (env.parse_uuid (r.path_value "sessionId"))) [
    | inl e ↦ keeps (ground arith)
    | inr (id, e) ↦ elim (Bool-cases body.failed) [
      | inl f ↦ keeps (ground arith)
      | inr f ↦
          elim (Result-cases (
            update_remote_session_status nil_uuid id (decided_status body.value.decision)
              (some body.value.reason) (env.now 0) m)) [
                | inl (n, q) ↦
                    sets id body.value.reason (env.now 0) (decision-IsWritten body.value.decision)
                      (ground (arith, update_status_effect _ _ _ _ _ _ q))
                | inr (x, q) ↦
                    elim (Option-cases
                      (find? (λ s. s.id == id) (sessions_of (list_remote_sessions nil_uuid m)))) [
                        | inl gone ↦ keeps (ground arith)
                        | inr (s, found) ↦ keeps (
                            ground (
                              arith,
                              update_status_fails id _ _ (env.now 0) x q s.organization_id
                                  (env.now 1),
                            ))
                      ]
              ]
    ]
  ]
