-- ===== src/Handlers/Sessions/Lifecycle.antt =====
-- session_handler.go and UpdateRemoteSessionStatus of store.go: the status of a session and its
-- timestamps, over any sequence of session requests.
use rd_testing_project.Base.{
  ◌≡◌, ◌⊎◌, inl, inr, refl, String, Bool, true, false, Option, none, some, List, [], ◌∷◌, is_some,
  nat_eq, string_eq, arith,
}
use rd_testing_project.Base.Maps.{
  Map, get, put, update, IsKeyed, put-IsKeyed, update-IsKeyed, put-Everywhere, update-Everywhere,
}
use rd_testing_project.Models.{Uuid, Time, RemoteSession}
use rd_testing_project.Store.{MemoryStore}
use rd_testing_project.Store.Sessions.{set_status}
use rd_testing_project.Http.{Env, Claims, Request, Decoded, Handler}
use rd_testing_project.Handlers.Sessions.{
  CreateSessionRequest, ConsentDecisionRequest, TerminateSessionRequest, create_session,
  get_session, handle_consent, new_session, terminate_session, list_sessions,
}
use rd_testing_project.Handlers.Sessions.Writes.{
  Writes, keeps, opens, sets, IsWritten, grants, denies, terminates, create_session-Writes,
  handle_consent-Writes, terminate_session-Writes,
}

abbrev pub session_id_of : RemoteSession → Uuid
session_id_of s = s.id

-- The statuses of models.go, and the timestamps that each calls for.
pub data IsConsistent (s : RemoteSession) : Type 0 where
  requested :
      s.session_status ≡ "REQUESTED"
      → s.started_at ≡ none
      → s.ended_at ≡ none
      → s.termination_reason ≡ none
      → IsConsistent s
  connected : s.session_status ≡ "CONNECTED" → is_some s.started_at ≡ true → IsConsistent s
  ended :
      (s.session_status ≡ "REJECTED") ⊎ (s.session_status ≡ "TERMINATED")
      → is_some s.ended_at ≡ true
      → is_some s.termination_reason ≡ true
      → IsConsistent s

pub record IsSound (sessions : Map Uuid RemoteSession) : Type 0 where
  pub keyed : IsKeyed session_id_of sessions
  pub consistent : (id : Uuid) (s : RemoteSession) → get id sessions ≡ some s → IsConsistent s

set_status-id :
    (status : String) (reason : Option String) (now : Time) (s : RemoteSession)
    → (set_status status reason now s).id ≡ s.id
unfolding set_status
set_status-id status reason now s = ground arith

set_status-IsConsistent :
    {status : String} (reason : String) (now : Time) (s : RemoteSession)
    → IsWritten status
    → IsConsistent (set_status status (some reason) now s)
unfolding set_status
set_status-IsConsistent reason now s grants = connected (ground arith) (ground arith)
set_status-IsConsistent reason now s denies = ended (inl refl) refl refl
set_status-IsConsistent reason now s terminates = ended (inr refl) refl refl

update-IsSound :
    {status : String} (id : Uuid) (reason : String) (now : Time) (sessions : Map Uuid RemoteSession)
    → IsWritten status
    → IsSound sessions
    → IsSound (update id (set_status status (some reason) now) sessions)
update-IsSound {status} id reason now sessions w s =
    let f = set_status status (some reason) now in
    record {
      keyed =
          update-IsKeyed session_id_of id f sessions (set_status-id status (some reason) now)
            s.keyed;
      consistent =
          update-Everywhere IsConsistent id f sessions
            (λ x _. set_status-IsConsistent reason now x w) s.consistent;
    }

put-IsSound :
    (new : RemoteSession) (sessions : Map Uuid RemoteSession)
    → IsConsistent new
    → IsSound sessions
    → IsSound (put new.id new sessions)
put-IsSound new sessions c s = record {
  keyed = put-IsKeyed session_id_of new sessions s.keyed;
  consistent = put-Everywhere IsConsistent new.id new sessions c s.consistent;
}

new_session-IsConsistent :
    (env : Env) (claims : Claims) (device_id : Uuid) (consent : Bool)
    → IsConsistent (new_session env claims device_id consent)
unfolding new_session
new_session-IsConsistent env claims device_id true = requested refl refl refl refl
new_session-IsConsistent env claims device_id false = connected refl refl

pub Writes-IsSound :
    {before : MemoryStore} {after : Map Uuid RemoteSession}
    → Writes before after
    → IsSound before.sessions
    → IsSound after
unfolding new_session
Writes-IsSound (keeps e) s = rw e s
Writes-IsSound {before} (opens env claims device_id consent dev _ e) s = rw e (
    put-IsSound (new_session env claims device_id consent) before.sessions
      (new_session-IsConsistent env claims device_id consent) s)
Writes-IsSound {before} (sets id reason now w e) s =
    rw e (update-IsSound id reason now before.sessions w s)

-- A request to the session endpoints, with all that it draws from outside.
pub data SessionCall : Type 0 where
  creates : Env → Request → Decoded CreateSessionRequest → SessionCall
  consents : Env → Request → Decoded ConsentDecisionRequest → SessionCall
  ends : Env → Request → Decoded TerminateSessionRequest → SessionCall
  reads : Env → Request → SessionCall
  lists : Env → Request → SessionCall

unfoldable pub serve_one : SessionCall → Handler
serve_one (creates env r body) = create_session env r body
serve_one (consents env r body) = handle_consent env r body
serve_one (ends env r body) = terminate_session env r body
serve_one (reads env r) = get_session env r
serve_one (lists env r) = list_sessions env r

unfoldable pub serve : List SessionCall → MemoryStore → MemoryStore
serve [] m = m
serve (c ∷ cs) m = serve cs (serve_one c m).1

serve_one-Writes : (c : SessionCall) (m : MemoryStore) → Writes m (serve_one c m).1.sessions
unfolding serve_one get_session list_sessions
serve_one-Writes (creates env r body) m = create_session-Writes env r m body
serve_one-Writes (consents env r body) m = handle_consent-Writes env r m body
serve_one-Writes (ends env r body) m = terminate_session-Writes env r m body
serve_one-Writes (reads env r) m = keeps (ground arith)
serve_one-Writes (lists env r) m = keeps (ground arith)

-- From sessions that are each filed under their id with the timestamps that their status calls
-- for, any sequence of session requests leaves them so: REQUESTED has no timestamp, CONNECTED has
-- a start, REJECTED and TERMINATED have an end and a reason.
pub serve-IsSound :
    (calls : List SessionCall) (m : MemoryStore)
    → IsSound m.sessions
    → IsSound (serve calls m).sessions
unfolding serve
serve-IsSound [] m s = s
serve-IsSound (c ∷ cs) m s =
    serve-IsSound cs (serve_one c m).1 (Writes-IsSound (serve_one-Writes c m) s)
