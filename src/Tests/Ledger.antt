-- ===== src/Tests/Ledger.antt =====
-- The audit log of the fleet.
use rd_testing_project.Base.{ℕ, ◌≡◌, refl, none, [], ◌∷◌, ◌++◌, arith, nat_eq, pos}
use rd_testing_project.Models.{AuditLog}
use rd_testing_project.Store.{MemoryStore, ok}
use rd_testing_project.Store.Audit.{insert_audit_log, list_audit_logs}
use rd_testing_project.Store.Audit.Ledger.{
  list_audit_logs_lem, IsNumbered, insert_audit_log-IsNumbered,
}
use rd_testing_project.Tests.Fixtures.{fleet}

abbrev entry : ℕ → ℕ → AuditLog
entry id org_id = record {
  id = pos id;
  organization_id = org_id;
  actor_user_id = none;
  action = "device.approved";
  resource_type = "device";
  resource_id = "11";
  ip_address = none;
  user_agent = none;
  status = "SUCCESS";
  metadata = none;
  created_at = 7;
}

abbrev ledger : MemoryStore
ledger = record fleet { audit_logs = entry 1 1 ∷ entry 2 2 ∷ entry 3 1 ∷ [] }

list_audit_logs_lem_example : list_audit_logs 1 (pos 2) ledger ≡ ok (entry 3 1 ∷ entry 1 1 ∷ [])
list_audit_logs_lem_example = list_audit_logs_lem 1 2 ledger

insert_audit_log-IsNumbered_example :
    (m' : MemoryStore) × (new : AuditLog) × (insert_audit_log (entry 0 2) 9 ledger ≡ ok m')
    × (m'.audit_logs ≡ ledger.audit_logs ++ new ∷ [])
    × IsNumbered m'.audit_logs
insert_audit_log-IsNumbered_example =
    insert_audit_log-IsNumbered (entry 0 2) 9 ledger (omega arith) (refl, (refl, (refl, tt)))
