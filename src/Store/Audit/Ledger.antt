-- ===== src/Store/Audit/Ledger.antt =====
-- store.go, the audit log: what a listing holds, and how the entries are numbered.
use rd_testing_project.Base.{
  ℕ, zero, suc, ◌+◌, ◌<◌, ◌≡◌, refl, ap, Bool, List, [], ◌∷◌, ◌++◌, reverse, length, keep, take,
  ◌==◌, nat_eq, pos, of_bits, ◌%◌, int_mod, int_half, arith,
}
use rd_testing_project.Models.{Uuid, Time, AuditLog}
use rd_testing_project.Store.{MemoryStore, ok}
use rd_testing_project.Store.Audit.{insert_audit_log, collect, list_audit_logs}

abbrev pub of_org : Uuid → AuditLog → Bool
of_org org_id log = log.organization_id == org_id

collect_lem :
    (org_id : Uuid) (limit found room : ℕ) (logs : List AuditLog)
    → limit ≡ found + room
    → collect org_id (pos limit) found logs ≡ take room (keep (of_org org_id) logs)
unfolding collect
collect_lem org_id limit found zero [] e = refl
collect_lem org_id limit found (suc room) [] e = refl
collect_lem org_id limit found zero (log ∷ older) e = ground arith
collect_lem org_id limit found (suc room) (log ∷ older) e = ground (
  arith,
  collect_lem org_id limit (suc found) room older (omega arith),
  collect_lem org_id limit found (suc room) older e,
)

-- A listing of the audit log holds the newest entries of the organization, newest first, up to the
-- limit.
pub list_audit_logs_lem :
    (org_id : Uuid) (limit : ℕ) (m : MemoryStore)
    → list_audit_logs org_id (pos limit) m
      ≡ ok (take limit (keep (of_org org_id) (reverse m.audit_logs)))
unfolding list_audit_logs
list_audit_logs_lem org_id limit m =
    ap ok (collect_lem org_id limit 0 limit (reverse m.audit_logs) (omega arith))

-- Entry number n, from 1, has the id n.
abbrev IsNumberedFrom : ℕ → List AuditLog → Type 0
IsNumberedFrom n [] = Unit
IsNumberedFrom n (log ∷ logs) = (log.id ≡ pos (suc n)) × IsNumberedFrom (suc n) logs

abbrev pub IsNumbered : List AuditLog → Type 0
IsNumbered = IsNumberedFrom 0

numbered_append :
    (n : ℕ) (logs : List AuditLog) (log : AuditLog)
    → IsNumberedFrom n logs
    → log.id ≡ pos (n + length logs + 1)
    → IsNumberedFrom n (logs ++ log ∷ [])
numbered_append n [] log h e = (ground arith, tt)
numbered_append n (x ∷ logs) log h e = (h.0, numbered_append (suc n) logs log h.1 (ground arith))

-- An insertion into a log of fewer than 2^63 - 1 entries numbered 1, 2, 3, ... in order adds one
-- entry at the end, keeps the earlier ones and keeps the numbering.
pub insert_audit_log-IsNumbered :
    (log : AuditLog) (now : Time) (m : MemoryStore)
    → length m.audit_logs + 1 < int_half
    → IsNumbered m.audit_logs
    → (m' : MemoryStore) × (new : AuditLog) × (insert_audit_log log now m ≡ ok m')
      × (m'.audit_logs ≡ m.audit_logs ++ new ∷ [])
      × IsNumbered m'.audit_logs
unfolding insert_audit_log
insert_audit_log-IsNumbered log now m room h =
    let new : AuditLog = record log {
      id = of_bits ((length m.audit_logs + 1) % int_mod);
      created_at = now;
    } in
    (
      record m { audit_logs = m.audit_logs ++ new ∷ [] },
      new,
      refl,
      refl,
      numbered_append 0 m.audit_logs new h (ground arith),
    )
