-- ===== src/Postgres/Sessions.antt =====
-- postgres_store.go: remote sessions.
use rd_testing_project.Base.{
  String, not, Option, none, some, List, ◌&&◌, ◌||◌, ◌==◌, nat_eq, string_eq, if◌then◌else◌, keep,
  is_some,
}
use rd_testing_project.Base.Maps.{get, put, update, values}
use rd_testing_project.Base.Sort.{newest_first}
use rd_testing_project.Models.{Uuid, Time, RemoteSession}
use rd_testing_project.Store.{unauthorized, Result}
use rd_testing_project.Postgres.{
  Database, Query, query_row, query_all, exec, exec_affecting, of_org, has,
}

abbrev pub org_of_session : RemoteSession → Uuid
org_of_session s = s.organization_id

abbrev stored_time : Query → Option Time → Option Time
stored_time q none = none
stored_time q (some t) = some (q.timestamptz t)

-- The SET clause of UpdateRemoteSessionStatus.
unfoldable pub set_status : Query → String → Option String → RemoteSession → RemoteSession
set_status q status reason s = record s {
  session_status = status;
  termination_reason = reason;
  started_at =
      if status == "CONNECTED" && not (is_some s.started_at) then some q.now else s.started_at;
  ended_at = if status == "REJECTED" || status == "TERMINATED" then some q.now else s.ended_at;
}

module _ (q : Query) where
  unfoldable pub create_remote_session : RemoteSession → Database → Result Database
  create_remote_session session db =
      exec (q.down 0)
        (not (has session.id db.remote_sessions)
          && has session.organization_id db.organizations
          && has session.device_id db.devices
          && has session.operator_user_id db.users)
        (record db {
          remote_sessions =
              put session.id
                (record session {
                  started_at = stored_time q session.started_at;
                  ended_at = stored_time q session.ended_at;
                  created_at = q.now;
                })
                db.remote_sessions;
        })

  unfoldable pub get_remote_session : Uuid → Uuid → Database → Result RemoteSession
  get_remote_session org_id session_id db =
      query_row (q.down 0) unauthorized
        (of_org org_of_session org_id (get session_id db.remote_sessions))

  unfoldable pub update_remote_session_status :
      Uuid → Uuid → String → Option String → Database → Result Database
  unfolding set_status
  update_remote_session_status org_id session_id status reason db =
      exec_affecting (q.down 0) unauthorized
        (is_some (of_org org_of_session org_id (get session_id db.remote_sessions)))
        (record db {
          remote_sessions = update session_id (set_status q status reason) db.remote_sessions;
        })

  unfoldable pub list_remote_sessions : Uuid → Database → Result (List RemoteSession)
  list_remote_sessions org_id db = query_all (q.down 0) (
      newest_first (λ (s : RemoteSession). s.created_at)
        (keep (λ s. s.organization_id == org_id) (values db.remote_sessions)))
