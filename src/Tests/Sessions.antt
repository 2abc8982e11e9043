-- ===== src/Tests/Sessions.antt =====
-- Session requests on the fleet.
use rd_testing_project.Base.{
  Bool, ◌≡◌, refl, none, some, [], ◌∷◌, arith, nat_eq, string_eq, false, ◌==◌, text_eq_iff,
  if◌then◌else◌, inr,
}
use rd_testing_project.Base.Maps.{get}
use rd_testing_project.Models.{Uuid, Device, RemoteSession, active}
use rd_testing_project.Store.Devices.{get_device}
use rd_testing_project.Store.Sessions.{create_remote_session}
use rd_testing_project.Http.{Request, Claims, Decoded, audit, status_ok}
use rd_testing_project.Handlers.Sessions.{
  CreateSessionRequest, ConsentDecisionRequest, TerminateSessionRequest, create_session,
  handle_consent,
}
use rd_testing_project.Handlers.Sessions.Consent.{
  Asks, IsOpened, IsSessionOf, create_session_guarded, handle_consent_reopens,
}
use rd_testing_project.Handlers.Sessions.Lifecycle.{
  creates, consents, ends, serve, serve-IsSound, IsSound, IsConsistent, ended,
}
use rd_testing_project.Tests.Fixtures.{env, request, claims_of, fleet, ended_session, decoded}

abbrev operator : Request
operator =
    request (some (claims_of 1 ("device.remote" ∷ [])))
      (λ k. if◌then◌else◌ (k == "deviceId") "desktop" "session")

abbrev stranger : Request
stranger = request (some (claims_of 2 ("device.remote" ∷ []))) (λ _. "session")

abbrev anonymous : Request
anonymous = request none (λ _. "session")

abbrev silent : Decoded CreateSessionRequest
silent = decoded (record { mode = "VIEW_ONLY"; require_consent = some false })

abbrev granted : Decoded ConsentDecisionRequest
granted = decoded (record { decision = "GRANTED"; reason = "" })

abbrev leaving : Decoded TerminateSessionRequest
leaving = decoded (record { reason = "" })

ended_session-IsConsistent :
    (id : Uuid) (s : RemoteSession) → get id fleet.sessions ≡ some s → IsConsistent s
unfolding get
ended_session-IsConsistent id s e = ended (inr (ground arith)) (ground arith) (ground arith)

fleet-IsSound : IsSound fleet.sessions
unfolding get
fleet-IsSound = record { keyed = (refl, refl, tt); consistent = ended_session-IsConsistent }

serve-IsSound_example :
    IsSound
      (serve
        (creates env operator silent
          ∷ consents env anonymous granted
          ∷ ends env stranger leaving
          ∷ [])
        fleet).sessions
serve-IsSound_example =
    serve-IsSound
      (creates env operator silent
        ∷ consents env anonymous granted
        ∷ ends env stranger leaving
        ∷ [])
      fleet fleet-IsSound

create_session_guarded_example :
    (claims : Claims) × (id : Uuid) × (dev : Device) × (operator.claims ≡ some claims)
    × (env.parse_uuid (operator.path_value "deviceId") ≡ some id)
    × (get id fleet.devices ≡ some dev)
    × (dev.organization_id ≡ claims.organization_id)
    × (dev.status ≡ active)
    × ((asked : Bool) × (s : RemoteSession) × Asks (some false) claims.organization_id fleet asked
        × (get 500 (create_session env operator silent fleet).1.sessions ≡ some s)
        × IsOpened asked (env.now 0) s
        × IsSessionOf claims id s)
unfolding create_session get get_device create_remote_session audit
create_session_guarded_example = create_session_guarded env operator fleet silent refl

handle_consent_reopens_example :
    (s' : RemoteSession) × (get 31 (handle_consent env anonymous granted fleet).1.sessions
      ≡ some s')
    × (s'.session_status ≡ "CONNECTED")
    × (s'.ended_at ≡ some 20)
    × ((handle_consent env anonymous granted fleet).0.status ≡ status_ok)
unfolding get
handle_consent_reopens_example =
    handle_consent_reopens env anonymous fleet granted 31 ended_session refl refl
      (λ e. ground (arith, text_eq_iff "GRANTED" "DENIED")) refl
