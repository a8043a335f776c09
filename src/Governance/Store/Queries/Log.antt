-- ===== src/Governance/Store/Queries/Log.antt =====
-- crates/waf-governance/src/store.rs: the queries that read the audit log. The table is the list of its rows by
-- ascending `seq`, none of which is negative.
use light_waf.Prelude.{ℕ, ◌&&◌, List, [], ◌∷◌, ◌++◌, take, filterb, leb, ltb, if◌then◌else◌}
use light_waf.Governance.Audit.{AuditRecord}
use light_waf.Governance.Store.{Database, Result, ok}

-- `ORDER BY seq DESC`
abbrev descending : List AuditRecord → List AuditRecord
descending [] = []
descending (r ∷ rows) = descending rows ++ (r ∷ [])

unfoldable pub recent_audit : ℕ → Database → Result (List AuditRecord) × Database
recent_audit limit d = (ok (take limit (descending d.audit_log)), d)

unfoldable pub all_audit_ordered : Database → Result (List AuditRecord) × Database
all_audit_ordered d = (ok d.audit_log, d)

unfoldable pub audit_between : ℕ → ℕ → Database → Result (List AuditRecord) × Database
audit_between from to d =
    (ok (filterb (λ (r : AuditRecord). leb from r.ts && leb r.ts to) d.audit_log), d)

unfoldable pub audit_since : ℕ → ℕ → Database → Result (List AuditRecord) × Database
audit_since after limit d =
    (ok (take limit (filterb (λ (r : AuditRecord). ltb after r.seq) d.audit_log)), d)

-- `COALESCE(max(seq), 0)`
abbrev max_seq : List AuditRecord → ℕ
max_seq [] = 0
max_seq (r ∷ rows) = let rest = max_seq rows in if ltb rest r.seq then r.seq else rest

unfoldable pub audit_max_seq : Database → Result ℕ × Database
audit_max_seq d = (ok (max_seq d.audit_log), d)
