-- ===== src/Postgres/Audit.antt =====
-- postgres_store.go: the audit log, oldest entry first.
use rd_testing_project.Base.{
  List, [], ◌∷◌, ◌++◌, ◌&&◌, ◌||◌, ◌==◌, nat_eq, keep, take, ℤ, pos, pos_part, ltb_ℤ,
}
use rd_testing_project.Base.Sort.{newest_first}
use rd_testing_project.Models.{Uuid, AuditLog}
use rd_testing_project.Store.{Result}
use rd_testing_project.Postgres.{
  Database, Query, query_all, exec, has, has_or_null, address, is_address,
}

module _ (q : Query) where
  abbrev pub inserted_log : AuditLog → AuditLog
  inserted_log log = record log {
    id = q.serial;
    ip_address = address q log.ip_address;
    metadata = q.jsonb log.metadata;
    created_at = q.now;
  }

  -- ip_address is an INET column.
  unfoldable pub insert_audit_log : AuditLog → Database → Result Database
  insert_audit_log log db =
      exec (q.down 0)
        (has log.organization_id db.organizations
          && has_or_null log.actor_user_id db.users
          && is_address q log.ip_address)
        (record db { audit_logs = db.audit_logs ++ inserted_log log ∷ [] })

  -- A negative LIMIT is an error.
  unfoldable pub list_audit_logs : Uuid → ℤ → Database → Result (List AuditLog)
  list_audit_logs org_id limit db = query_all (q.down 0 || ltb_ℤ limit (pos 0)) (
      take (pos_part limit) (
        newest_first (λ (a : AuditLog). a.created_at)
          (keep (λ a. a.organization_id == org_id) db.audit_logs)))
