-- ===== src/Store/Sessions.antt =====
-- store.go: remote sessions.
use rd_testing_project.Base.{
  String, Option, some, List, ◌&&◌, ◌||◌, ◌==◌, not, nat_eq, string_eq, keep, is_some,
  if◌then◌else◌,
}
use rd_testing_project.Base.Maps.{get, put, update, values}
use rd_testing_project.Models.{Uuid, Time, RemoteSession}
use rd_testing_project.Store.{MemoryStore, Result, ok, or_not_found, of_tenant, ◌>>=◌}

unfoldable pub create_remote_session : RemoteSession → MemoryStore → Result MemoryStore
create_remote_session session m = ok (record m { sessions = put session.id session m.sessions })

unfoldable pub get_remote_session : Uuid → Uuid → MemoryStore → Result RemoteSession
get_remote_session org_id session_id m =
    of_tenant (λ s. s.organization_id) org_id (get session_id m.sessions)

-- What UpdateRemoteSessionStatus writes to the session.
unfoldable pub set_status : String → Option String → Time → RemoteSession → RemoteSession
set_status status reason now s =
    let s' = record s { session_status = status } in
    let s'' =
      if status == "CONNECTED" && not (is_some s'.started_at)
      then record s' { started_at = some now }
      else s' in
    if status == "TERMINATED" || status == "REJECTED"
    then record s'' { ended_at = some now; termination_reason = reason }
    else s''

-- The organization is not looked at, and neither is the session's present status.
unfoldable pub update_remote_session_status :
    Uuid → Uuid → String → Option String → Time → MemoryStore → Result MemoryStore
update_remote_session_status org_id session_id status reason now m = do
  _ ← or_not_found (get session_id m.sessions)
  ok (record m { sessions = update session_id (set_status status reason now) m.sessions })

unfoldable pub list_remote_sessions : Uuid → MemoryStore → Result (List RemoteSession)
list_remote_sessions org_id m = ok (keep (λ s. s.organization_id == org_id) (values m.sessions))
