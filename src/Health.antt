-- ===== src/Health.antt =====
-- internal/actions/health.go: the data that RunHealth reads and the report that it makes. The
-- checks are in Health/Checks, RunHealth in Health/Run, the proofs in the other modules below.
pub mod Checks
pub mod Run
pub mod Grades
pub mod Counts
use frpilot.Prelude.{ℕ, String, Bool, List, ℤ}

-- The fields of the snapshot's JSON, F being float64.
pub record Mount (F : Type 0) : Type 0 where
  pub mount : String
  pub use_pct : F

pub record Sys (F : Type 0) : Type 0 where
  pub cpu : F
  pub load1 : F
  pub cpu_cores : ℤ
  pub mem_total : ℤ
  pub mem_avail : ℤ
  pub disk : List (Mount F)

pub record Gpu (F : Type 0) : Type 0 where
  pub present : Bool
  pub temp : F
  pub mem_used : ℤ
  pub mem_total : ℤ

pub record Tool : Type 0 where
  pub name : String
  pub installed : Bool
  pub active : String
  pub version : String

pub record Sample (F : Type 0) : Type 0 where
  pub sys : Sys F
  pub gpu : Gpu F
  pub security : List Tool
  pub tunnel_up : Bool

-- config.HealthThresholds
pub record Thresholds (F : Type 0) : Type 0 where
  pub cpu_warn : F
  pub cpu_fail : F
  pub mem_warn : F
  pub mem_fail : F
  pub disk_warn : F
  pub disk_fail : F
  pub gpu_temp_warn : F
  pub gpu_temp_fail : F
  pub gpu_mem_warn : F
  pub gpu_mem_fail : F
  pub clam_db_max_days : ℤ
  pub snapshot_max_age : ℤ

-- Without the text of the detail.
pub record HealthItem : Type 0 where
  pub category : String
  pub status : String
  pub title : String
  pub score : ℕ

pub record HealthReport : Type 0 where
  pub ts : ℕ
  pub machine : String
  pub score : ℕ
  pub overall : String
  pub items : List HealthItem
