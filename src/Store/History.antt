-- ===== src/Store/History.antt =====
-- internal/store/audit.go, health.go, ai.go and retention.go, and the deletion of metrics.go: rows that
-- are appended, listed newest first, and deleted by age. A table lists its rows in the order of their
-- ids, which AUTOINCREMENT gives out in ascending order.
use frpilot.Prelude.{
  ℕ, suc, ◌-◌, ◌*◌, ℤ, pos, is_positive, String, str_eq, Bool, true, false, if◌then◌else◌, not,
  ◌==◌, ◌&&◌, ltb, leb, Option, none, some, List, [], ◌∷◌, ◌++◌, keep, take, find?,
}
use frpilot.Exec.{ok, not_found, Exec, pure, fail, query, execute, ignore, ◌>>=◌, ◌>>◌}
use frpilot.Traffic.{TrafficPoint}
use frpilot.Collector.Snapshots.{MetricPoint}

pub record AuditLog : Type 0 where
  pub id : ℕ
  pub ts : ℕ
  pub user_id : ℕ
  pub username : String
  pub action : String
  pub target : String
  pub detail : String

pub record HealthRow : Type 0 where
  pub id : ℕ
  pub ts : ℕ
  pub machine_id : ℕ
  pub machine : String
  pub score : ℤ
  pub overall : String
  pub items_json : String

pub record AiDiagnostic : Type 0 where
  pub id : ℕ
  pub ts : ℕ
  pub machine_id : ℕ
  pub machine : String
  pub overall : String
  pub score : ℤ
  pub text : String
  pub flagged : Bool

-- `next` is the id that a row gets next; of collect_logs only the times matter here.
pub record History (F : Type 0) : Type 0 where
  pub audit_logs : List AuditLog
  pub next_audit : ℕ
  pub health_reports : List HealthRow
  pub next_report : ℕ
  pub ai_diagnostics : List AiDiagnostic
  pub next_diagnostic : ℕ
  pub metrics : List (MetricPoint F)
  pub traffic : List (TrafficPoint F)
  pub collect_logs : List ℕ

-- `if limit <= 0 || limit > most { limit = usual }`
abbrev pub limit_or : ℤ → (most usual : ℕ) → ℕ
limit_or (pos n) most usual = if n == 0 then usual else if ltb most n then usual else n
limit_or (ℤ.negsuc n) most usual = usual

-- ORDER BY id DESC
unfoldable pub newest_first {ℓ} : {A : Type ℓ} → List A → List A
newest_first [] = []
newest_first (x ∷ xs) = newest_first xs ++ x ∷ []

-- 30 days before, which is after the time 0.
abbrev pub cutoff : ℕ → ℕ
cutoff now = now - 30 * 86400

abbrev pub is_kept : ℕ → ℕ → Bool
is_kept now ts = leb (cutoff now) ts

module _ {F : Type 0} where
  -- Log
  unfoldable pub log :
      ℕ → (user_id : ℕ) (username action target detail : String) → Exec (History F) (Unit {0})
  log now user_id username action target detail = execute (λ s. (
    ok tt,
    record s {
      audit_logs =
          s.audit_logs
          ++ (record {
            id = s.next_audit;
            ts = now;
            user_id = user_id;
            username = username;
            action = action;
            target = target;
            detail = detail;
          })
            ∷ [];
      next_audit = suc s.next_audit;
    },
  ))

  unfoldable pub list_audit : ℤ → Exec (History F) (List AuditLog)
  unfolding newest_first
  list_audit limit = query (λ s. take (limit_or limit 500 100) (newest_first s.audit_logs))

  -- The id of the report is the result.
  unfoldable pub save_health_report : HealthRow → Exec (History F) ℕ
  save_health_report r = execute (λ s. (
    ok s.next_report,
    record s {
      health_reports = s.health_reports ++ record r { id = s.next_report } ∷ [];
      next_report = suc s.next_report;
    },
  ))

  unfoldable pub list_health_reports : (machine : ℤ) → ℤ → Exec (History F) (List HealthRow)
  unfolding newest_first
  list_health_reports machine limit = query (λ s. take (limit_or limit 100 20) (
      newest_first (
        if is_positive machine
        then keep (λ r. frpilot.Prelude.pos_part machine == r.machine_id) s.health_reports
        else s.health_reports)))

  abbrev or_not_found : Option HealthRow → Exec (History F) HealthRow
  or_not_found none = fail not_found
  or_not_found (some r) = pure r

  unfoldable pub get_health_report : ℕ → Exec (History F) HealthRow
  get_health_report i = do
    row ← query (λ s. find? (λ r. r.id == i) s.health_reports)
    or_not_found row

  unfoldable pub save_diagnostic : AiDiagnostic → Exec (History F) ℕ
  save_diagnostic r = execute (λ s. (
    ok s.next_diagnostic,
    record s {
      ai_diagnostics = s.ai_diagnostics ++ record r { id = s.next_diagnostic } ∷ [];
      next_diagnostic = suc s.next_diagnostic;
    },
  ))

  unfoldable pub list_diagnostics : (machine : ℤ) → ℤ → Exec (History F) (List AiDiagnostic)
  unfolding newest_first
  list_diagnostics machine limit = query (λ s. take (limit_or limit 50 10) (
      newest_first (
        if is_positive machine
        then keep (λ r. frpilot.Prelude.pos_part machine == r.machine_id) s.ai_diagnostics
        else s.ai_diagnostics)))

  unfoldable pub cleanup_metrics : ℕ → Exec (History F) (Unit {0})
  cleanup_metrics now =
      execute (λ s. (ok tt, record s { metrics = keep (λ r. is_kept now r.ts) s.metrics }))

  unfoldable pub cleanup_traffic : ℕ → Exec (History F) (Unit {0})
  cleanup_traffic now =
      execute (λ s. (ok tt, record s { traffic = keep (λ r. is_kept now r.ts) s.traffic }))

  -- The statements of CleanupRetention.
  abbrev pub deletions : ℕ → List (History F → History F)
  deletions now =
      (λ s. record s { metrics = keep (λ r. is_kept now r.ts) s.metrics })
      ∷ (λ s. record s { traffic = keep (λ r. is_kept now r.ts) s.traffic })
      ∷ (λ s. record s { audit_logs = keep (λ r. is_kept now r.ts) s.audit_logs })
      ∷ (λ s. record s { health_reports = keep (λ r. is_kept now r.ts) s.health_reports })
      ∷ (λ s. record s { ai_diagnostics = keep (λ r. is_kept now r.ts) s.ai_diagnostics })
      ∷ (λ s. record s { collect_logs = keep (is_kept now) s.collect_logs })
      ∷ []

  unfoldable pub delete_loop : List (History F → History F) → Exec (History F) (Unit {0})
  delete_loop [] = pure tt
  delete_loop (g ∷ gs) = do execute (λ s. (ok tt, g s)); delete_loop gs

  -- The checkpoint at the end changes no row.
  unfoldable pub cleanup_retention : ℕ → Exec (History F) (Unit {0})
  unfolding delete_loop
  cleanup_retention now = do delete_loop (deletions now); ignore (execute (λ s. (ok tt, s)))
