-- ===== src/Health/Run.antt =====
-- internal/actions/health.go: RunHealth.
use frpilot.Prelude.{
  ℕ, ◌+◌, ◌-◌, String, Option, List, [], ◌∷◌, ◌++◌, leb, if◌then◌else◌, ℤ, negsuc,
}
use frpilot.Exec.{Result, ok, err}
use frpilot.Floats.{Floats}
use frpilot.Health.{Sample, Thresholds, HealthItem, HealthReport}
use frpilot.Health.Checks.{
  check_age, check_cpu, check_load, check_mem, check_disks, check_gpu, check_security, check_tunnel,
}

-- The row of the table `snapshots`.
pub record Snapshot : Type 0 where
  pub ts : ℕ
  pub text : String

unfoldable pub deductions : List HealthItem → ℕ
deductions [] = 0
deductions (it ∷ its) = it.score + deductions its

unfoldable pub grade : ℕ → String
grade score = if leb 90 score then "pass" else if leb 70 score then "warn" else "fail"

module _ (fl : Floats) (rkhunter_age : String → Option ℤ) (clam_db_age : String → ℤ) where
  unfoldable pub health_items : ℕ → ℕ → Sample fl.F → Thresholds fl.F → List HealthItem
  unfolding check_age check_cpu check_load check_mem check_disks check_gpu check_security
      check_tunnel
  health_items now ts x th =
      check_age fl now ts th
      ++ check_cpu fl x.sys th
      ++ check_load fl x.sys
      ++ check_mem fl x.sys th
      ++ check_disks fl (fl.of_int (negsuc 0)) x.sys.disk th
      ++ check_gpu fl x.gpu th
      ++ check_security fl rkhunter_age clam_db_age x.security th
      ++ check_tunnel fl x.tunnel_up

  -- The score and the verdict; `score < 0` is set to 0, which subtraction on ℕ does.
  unfoldable pub report : ℕ → String → List HealthItem → HealthReport
  unfolding deductions grade
  report now name its = record {
    ts = now;
    machine = name;
    score = 100 - deductions its;
    overall = grade (100 - deductions its);
    items = its;
  }

  -- `snap` is GetSnapshot's answer, `decode` is json.Unmarshal on the text of the snapshot.
  unfoldable pub run_health :
      (String → Result (Sample fl.F))
      → ℕ
      → String
      → Thresholds fl.F
      → Result Snapshot
      → Result HealthReport
  unfolding health_items report
  run_health decode now name th (err e) = err e
  run_health decode now name th (ok snap) = elim (decode snap.text) [
    | err e ↦ err e
    | ok x ↦ ok (report now name (health_items now snap.ts x th))
  ]
