-- ===== src/Examples/Rows.antt =====
-- The deletion of old rows.
use frpilot.Prelude.{ℕ, ◌≡◌, [], ◌∷◌}
use frpilot.Exec.{ok, calm}
use frpilot.Store.History.{History, AuditLog, cleanup_retention}
use frpilot.Store.Retained.{Retained, cleaned, cleanup_retention-Retained}

abbrev logged_at : ℕ → AuditLog
logged_at now = record {
  id = 1;
  ts = now;
  user_id = 1;
  username = "alice";
  action = "login";
  target = "";
  detail = "";
}

-- One row of the audit log is older than 30 days.
abbrev logged : History ℕ
logged = record {
  audit_logs = logged_at 100 ∷ record (logged_at 4000000) { id = 2 } ∷ [];
  next_audit = 3;
  health_reports = [];
  next_report = 1;
  ai_diagnostics = [];
  next_diagnostic = 1;
  metrics = [];
  traffic = [];
  collect_logs = 100 ∷ [];
}

cleanup_retention-Retained_example :
    let c = cleanup_retention 5000000 (calm logged) in
    Retained 5000000 logged c.1.rows × (c.0 ≡ ok tt → c.1.rows ≡ cleaned 5000000 logged)
cleanup_retention-Retained_example = cleanup_retention-Retained 5000000 (calm logged)
