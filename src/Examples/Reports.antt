-- ===== src/Examples/Reports.antt =====
-- A health report of a machine whose disk is full and whose tunnel is down.
use frpilot.Prelude.{ℕ, ◌≡◌, refl, String, true, false, Option, none, [], ◌∷◌, ℤ, pos, count}
use frpilot.Exec.{Result, ok}
use frpilot.Health.{Sample, Thresholds, HealthReport}
use frpilot.Health.Run.{Snapshot, health_items, run_health, report}
use frpilot.Health.Grades.{IsGraded, run_health-IsGraded}
use frpilot.Health.Counts.{fails_in, in_category, health_items-counts}
use frpilot.Examples.{whole}

abbrev thresholds : Thresholds ℕ
thresholds = record {
  cpu_warn = 70;
  cpu_fail = 85;
  mem_warn = 80;
  mem_fail = 90;
  disk_warn = 75;
  disk_fail = 85;
  gpu_temp_warn = 75;
  gpu_temp_fail = 85;
  gpu_mem_warn = 85;
  gpu_mem_fail = 95;
  clam_db_max_days = pos 7;
  snapshot_max_age = pos 10;
}

abbrev measured : Sample ℕ
measured = record {
  sys = record {
    cpu = 12;
    load1 = 1;
    cpu_cores = pos 8;
    mem_total = pos 1000;
    mem_avail = pos 600;
    disk = record { mount = "/"; use_pct = 97 } ∷ record { mount = "/home"; use_pct = 20 } ∷ [];
  };
  gpu = record { present = false; temp = 0; mem_used = pos 0; mem_total = pos 0 };
  security =
      record { name = "clamav-daemon"; installed = true; active = "active"; version = "" } ∷ [];
  tunnel_up = false;
}

abbrev no_age : String → Option ℤ
no_age s = none

abbrev fresh : String → ℤ
fresh s = pos 1

abbrev stored : Result Snapshot
stored = ok (record { ts = 90; text = "{}" })

abbrev made : HealthReport
made =
    report whole no_age fresh 100 "lab" (health_items whole no_age fresh 100 90 measured thresholds)

made_ok : run_health whole no_age fresh (λ s. ok measured) 100 "lab" thresholds stored ≡ ok made
unfolding run_health
made_ok = refl

run_health-IsGraded_example : IsGraded made
run_health-IsGraded_example =
    run_health-IsGraded whole no_age fresh (λ s. ok measured) 100 "lab" thresholds stored made
      made_ok

health_items-counts_example :
    let its = health_items whole no_age fresh 100 90 measured thresholds in
    (count (fails_in "disk") its
      ≡ count (λ d. whole.le thresholds.disk_fail d.use_pct) measured.sys.disk)
    × (count (fails_in "network") its ≡ 1)
    × (count (in_category "security") its ≡ 1)
health_items-counts_example = health_items-counts whole no_age fresh thresholds 100 90 measured
