-- ===== src/Handlers/Sessions/Consent.antt =====
-- session_handler.go: who opens a session, and what a consent decision or a termination may do to
-- a session that is over or belongs to another tenant.
use rd_testing_project.Base.{
  ◌≡◌, ◌≢◌, refl, Option, Bool, true, none, inl, inr, false, some, nat_eq, string_eq, arith,
  text_eq_iff, Option-cases,
}
use rd_testing_project.Base.Maps.{get, get-put, get-update}
use rd_testing_project.Models.{
  Uuid, Time, Device, Dict, Value, bool, null, text, number, timestamp, array, object, Organization,
  RemoteSession, active,
}
use rd_testing_project.Store.{MemoryStore, ok, Result-cases}
use rd_testing_project.Store.Sessions.{
  set_status, update_remote_session_status, create_remote_session,
}
use rd_testing_project.Store.Users.{get_organization}
use rd_testing_project.Store.Devices.{get_device}
use rd_testing_project.Http.{Env, Request, Claims, Decoded, audit, status_created, status_ok}
use rd_testing_project.Handlers.Sessions.{
  CreateSessionRequest, ConsentDecisionRequest, TerminateSessionRequest, create_session,
  handle_consent, terminate_session, new_session, reason_given, consent_required, org_setting,
  bool_of,
}

-- The setting "require_remote_consent" of an organization that exists, where it is a Boolean.
abbrev pub OrgSays : Uuid → Bool → MemoryStore → Type 0
OrgSays org_id b m =
    (org : Organization) × (settings : Dict) × (get_organization org_id m ≡ ok org)
    × (org.settings ≡ some settings)
    × (get "require_remote_consent" settings ≡ some (bool b))

-- What decides whether the endpoint is asked: the request where it says so, then the setting of the
-- organization, and else it is asked.
pub data Asks (wish : Option Bool) (org_id : Uuid) (m : MemoryStore) : Bool → Type 0 where
  by_request : (b : Bool) → wish ≡ some b → Asks wish org_id m b
  by_org : (b : Bool) → wish ≡ none → OrgSays org_id b m → Asks wish org_id m b
  by_default : wish ≡ none → ((b : Bool) → OrgSays org_id b m → ⊥) → Asks wish org_id m true

-- A session that waits for consent, or one that is connected at once.
abbrev pub IsOpened : Bool → Time → RemoteSession → Type 0
IsOpened true now s = (s.session_status ≡ "REQUESTED") × (s.started_at ≡ none)
IsOpened false now s = (s.session_status ≡ "CONNECTED") × (s.started_at ≡ some now)

bool_of_lem : (v : Option Value) (b : Bool) → bool_of v ≡ some b → v ≡ some (bool b)
bool_of_lem (some (bool x)) b h = ground arith
bool_of_lem none b h = absurd (ground arith)
bool_of_lem (some null) b h = absurd (ground arith)
bool_of_lem (some (text x)) b h = absurd (ground arith)
bool_of_lem (some (number x)) b h = absurd (ground arith)
bool_of_lem (some (timestamp x)) b h = absurd (ground arith)
bool_of_lem (some (array x)) b h = absurd (ground arith)
bool_of_lem (some (object x)) b h = absurd (ground arith)

abbrev pub IsSessionOf : Claims → Uuid → RemoteSession → Type 0
IsSessionOf claims id s =
    (s.organization_id ≡ claims.organization_id)
    × (s.operator_user_id ≡ claims.user_id)
    × (s.device_id ≡ id)
    × (s.ended_at ≡ none)

setting_says :
    (org_id : Uuid) (m : MemoryStore) (b : Bool)
    → org_setting (get_organization org_id m) ≡ some b
    → OrgSays org_id b m
setting_says org_id m b h = elim (Result-cases (get_organization org_id m)) [
  | inr (x, e) ↦ absurd (ground arith)
  | inl (org, e) ↦ elim (Option-cases org.settings) [
    | inl q ↦ absurd (ground arith)
    | inr (settings, q) ↦
        (org, settings, e, q, bool_of_lem (get "require_remote_consent" settings) b (ground arith))
  ]
]

says_setting :
    (org_id : Uuid) (m : MemoryStore) (b : Bool)
    → OrgSays org_id b m
    → org_setting (get_organization org_id m) ≡ some b
says_setting org_id m b (org, settings, found, given, here) = ground arith

consent_required-Asks :
    (wish : Option Bool) (org_id : Uuid) (m : MemoryStore)
    → Asks wish org_id m (consent_required (get_organization org_id m) wish)
unfolding consent_required
consent_required-Asks (some b) org_id m = by_request b refl
consent_required-Asks none org_id m =
    elim (Option-cases (org_setting (get_organization org_id m))) [
      | inl e ↦
          rw e (by_default refl (λ b says. absurd (ground (arith, says_setting org_id m b says))))
      | inr (b, e) ↦ rw e (by_org b refl (setting_says org_id m b e))
    ]

new_session-IsOpened :
    (env : Env) (claims : Claims) (id : Uuid) (b : Bool)
    → IsOpened b (env.now 0) (new_session env claims id b)
unfolding new_session
new_session-IsOpened env claims id true = (refl, refl)
new_session-IsOpened env claims id false = (refl, refl)

new_session-IsSessionOf :
    (env : Env) (claims : Claims) (id : Uuid) (b : Bool)
    → IsSessionOf claims id (new_session env claims id b)
unfolding new_session
new_session-IsSessionOf env claims id b = (refl, refl, refl, refl)

module _ (env : Env) (r : Request) (m : MemoryStore) where
  -- A session request is answered 201 only for an authenticated caller, for a device that the path
  -- names, that the caller's organization owns and that is ACTIVE. What is then stored under the
  -- new id is a session of that caller, organization and device. It is REQUESTED and not started
  -- where consent is asked for, else CONNECTED and started. The request decides that where it says
  -- whether to ask, even against the organization's setting, which decides where the request is
  -- silent; with neither, consent is asked for.
  pub create_session_guarded :
      (body : Decoded CreateSessionRequest)
      → (create_session env r body m).0.status ≡ status_created
      → (claims : Claims) × (id : Uuid) × (dev : Device) × (r.claims ≡ some claims)
        × (env.parse_uuid (r.path_value "deviceId") ≡ some id)
        × (get id m.devices ≡ some dev)
        × (dev.organization_id ≡ claims.organization_id)
        × (dev.status ≡ active)
        × ((asked : Bool) × (s : RemoteSession) × Asks body.value.require_consent
              claims.organization_id m asked
            × (get (env.new_id 0) (create_session env r body m).1.sessions ≡ some s)
            × IsOpened asked (env.now 0) s
            × IsSessionOf claims id s)
  unfolding create_session create_remote_session audit get_device
  create_session_guarded body h = elim (Option-cases r.claims) [
    | inl c ↦ absurd (ground arith)
    | inr (claims, c) ↦ elim (Option-cases (env.parse_uuid (r.path_value "deviceId"))) [
      | inl e ↦ absurd (ground arith)
      | inr (id, e) ↦ elim (Option-cases (get id m.devices)) [
        | inl q ↦ absurd (ground arith)
        | inr (dev, q) ↦
            let org_id = claims.organization_id in
            let asked = consent_required (get_organization org_id m) body.value.require_consent in
            let s = new_session env claims id asked in
            (
              claims,
              id,
              dev,
              c,
              e,
              q,
              ground arith,
              ground arith,
              (
                asked,
                s,
                consent_required-Asks body.value.require_consent org_id m,
                ground (arith, get-put (env.new_id 0) (env.new_id 0) s m.sessions),
                new_session-IsOpened env claims id asked,
                new_session-IsSessionOf env claims id asked,
              ),
            )
      ]
    ]
  ]

  -- A decision that parses and is not DENIED, whoever sends it, is answered 200 and turns a stored
  -- session of any status into a CONNECTED one, and leaves its end as it was recorded.
  pub handle_consent_reopens :
      (body : Decoded ConsentDecisionRequest) (id : Uuid) (s : RemoteSession)
      → env.parse_uuid (r.path_value "sessionId") ≡ some id
      → body.failed ≡ false
      → body.value.decision ≢ "DENIED"
      → get id m.sessions ≡ some s
      → (s' : RemoteSession) × (get id (handle_consent env r body m).1.sessions ≡ some s')
        × (s'.session_status ≡ "CONNECTED")
        × (s'.ended_at ≡ s.ended_at)
        × ((handle_consent env r body m).0.status ≡ status_ok)
  unfolding handle_consent update_remote_session_status set_status audit
  handle_consent_reopens body id s e f d here = (
    set_status "CONNECTED" (some body.value.reason) (env.now 0) s,
    ground (
      arith,
      text_eq_iff body.value.decision "DENIED",
      get-update id id (set_status "CONNECTED" (some body.value.reason) (env.now 0)) m.sessions,
    ),
    ground arith,
    ground arith,
    ground (arith, text_eq_iff body.value.decision "DENIED"),
  )

  -- A termination of a stored session, by a caller of any organization or of none, marks it
  -- TERMINATED with the present time as its end.
  terminate_session_any_tenant :
      (body : Decoded TerminateSessionRequest) (id : Uuid) (s : RemoteSession)
      → env.parse_uuid (r.path_value "sessionId") ≡ some id
      → get id m.sessions ≡ some s
      → (s' : RemoteSession) × (get id (terminate_session env r body m).1.sessions ≡ some s')
        × (s'.session_status ≡ "TERMINATED")
        × (s'.organization_id ≡ s.organization_id)
        × (s'.ended_at ≡ some (env.now 0))
  unfolding terminate_session update_remote_session_status set_status audit
  terminate_session_any_tenant body id s e here =
      let f = set_status "TERMINATED" (some (reason_given body.value.reason)) (env.now 0) in
      (f s, ground (arith, get-update id id f m.sessions), ground arith, ground arith, ground arith)
