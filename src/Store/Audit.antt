-- ===== src/Store/Audit.antt =====
-- store.go: the audit log, oldest entry first.
pub mod Ledger
use rd_testing_project.Base.{
  ℕ, suc, ◌+◌, List, [], ◌∷◌, ◌++◌, reverse, length, ◌==◌, nat_eq, ltb_ℤ, ℤ, pos, of_bits, ◌%◌,
  int_mod, if◌then◌else◌,
}
use rd_testing_project.Models.{Uuid, Time, AuditLog}
use rd_testing_project.Store.{MemoryStore, Result, ok}

unfoldable pub insert_audit_log : AuditLog → Time → MemoryStore → Result MemoryStore
insert_audit_log log now m = ok (record m {
  audit_logs =
      m.audit_logs
      ++ record log { id = of_bits ((length m.audit_logs + 1) % int_mod); created_at = now } ∷ [];
})

-- The loop from the newest entry down; `found` counts what `result` holds.
unfoldable pub collect : Uuid → ℤ → ℕ → List AuditLog → List AuditLog
collect org_id limit found [] = []
collect org_id limit found (log ∷ older) =
    let mine = log.organization_id == org_id in
    let rest = collect org_id limit (if mine then suc found else found) older in
    if ltb_ℤ (pos found) limit then (if mine then log ∷ rest else rest) else []

unfoldable pub list_audit_logs : Uuid → ℤ → MemoryStore → Result (List AuditLog)
unfolding collect
list_audit_logs org_id limit m = ok (collect org_id limit 0 (reverse m.audit_logs))
