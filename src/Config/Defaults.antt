-- ===== src/Config/Defaults.antt =====
-- internal/config/config.go: DefaultConfig and applyDefaults.
use frpilot.Prelude.{
  ℕ, ℤ, pos, negsuc, is_positive, String, str_eq, Bool, true, false, if◌then◌else◌, ltb, ◌||◌, [],
}
use frpilot.Floats.{Floats}
use frpilot.Health.{Thresholds}
use frpilot.Qos.Plan.{QosConfig}
use frpilot.Config.{FrpsConfig, AppConfig}

abbrev pub no_frps : FrpsConfig
no_frps = record {
  dashboard_url = "";
  dashboard_user = "";
  dashboard_pass = "";
  ssh_host = "";
  ssh_port = pos 0;
  ssh_user = "";
  ssh_pass = "";
  token = "";
  config_path = "";
}

-- `x < n` of an int
abbrev pub int_below : ℕ → ℤ → Bool
int_below n (pos m) = ltb m n
int_below n (negsuc m) = true

-- `if s == "" { s = d }`
abbrev pub text_or : String → String → String
text_or s d = if str_eq s "" then d else s

-- `if x <= 0 { x = d }`
abbrev pub int_or : ℤ → ℤ → ℤ
int_or x d = if is_positive x then x else d

abbrev pub is_mode : String → Bool
is_mode s = str_eq s "off" || str_eq s "auto" || str_eq s "manual"

-- The two tests of the mode, one after the other.
abbrev pub mode_or : String → String → String
mode_or s d = let s' = text_or s d in if is_mode s' then s' else d

module _ (fl : Floats) where
  open fl use {F, of_int, lt, le}

  abbrev pub num : ℕ → F
  num n = of_int (pos n)

  -- DefaultConfig; `path` is filepath.Join(dataDir, "config.json").
  unfoldable pub default_config : (dir path : String) → AppConfig F
  default_config dir path = record {
    listen_addr = "0.0.0.0:8443";
    data_dir = dir;
    config_path = path;
    frps = no_frps;
    registration = "open";
    session_ttl_days = pos 7;
    session_grace_minutes = pos 5;
    login_max_fails = pos 5;
    login_lock_minute = pos 10;
    login_ip_max_fails = pos 15;
    login_window_min = pos 15;
    health = record {
      cpu_warn = num 70;
      cpu_fail = num 85;
      mem_warn = num 80;
      mem_fail = num 90;
      disk_warn = num 75;
      disk_fail = num 85;
      gpu_temp_warn = num 75;
      gpu_temp_fail = num 85;
      gpu_mem_warn = num 85;
      gpu_mem_fail = num 95;
      clam_db_max_days = pos 7;
      snapshot_max_age = pos 10;
    };
    cleanup_custom = [];
    qos = record {
      mode = "off";
      budget_out_mbps = num 3;
      budget_in_mbps = num 0;
      active_kbps = num 1;
      hysteresis_sec = pos 45;
      interface = "";
      manual = [];
    };
    ai = record { enabled = false; provider_url = ""; model = ""; timeout_sec = pos 60 };
    tls = record { enabled = false; cert = ""; key = "" };
    version = "";
  }

  -- `if x <= 0 { x = d }` of a float64
  abbrev pub float_or : F → F → F
  float_or x d = if le x (num 0) then d else x

  unfoldable pub health_defaults : Thresholds F → Thresholds F → Thresholds F
  health_defaults h d = record {
    cpu_warn = float_or h.cpu_warn d.cpu_warn;
    cpu_fail = float_or h.cpu_fail d.cpu_fail;
    mem_warn = float_or h.mem_warn d.mem_warn;
    mem_fail = float_or h.mem_fail d.mem_fail;
    disk_warn = float_or h.disk_warn d.disk_warn;
    disk_fail = float_or h.disk_fail d.disk_fail;
    gpu_temp_warn = float_or h.gpu_temp_warn d.gpu_temp_warn;
    gpu_temp_fail = float_or h.gpu_temp_fail d.gpu_temp_fail;
    gpu_mem_warn = float_or h.gpu_mem_warn d.gpu_mem_warn;
    gpu_mem_fail = float_or h.gpu_mem_fail d.gpu_mem_fail;
    clam_db_max_days = int_or h.clam_db_max_days d.clam_db_max_days;
    snapshot_max_age = int_or h.snapshot_max_age d.snapshot_max_age;
  }

  -- A negative budget in one direction resets both.
  abbrev pub is_bad_budget : QosConfig F → Bool
  is_bad_budget q = lt q.budget_out_mbps (num 0) || lt q.budget_in_mbps (num 0)

  unfoldable pub qos_defaults : QosConfig F → QosConfig F → QosConfig F
  qos_defaults q d = record q {
    mode = mode_or q.mode d.mode;
    budget_out_mbps = if is_bad_budget q then d.budget_out_mbps else q.budget_out_mbps;
    budget_in_mbps = if is_bad_budget q then num 0 else q.budget_in_mbps;
    active_kbps = float_or q.active_kbps d.active_kbps;
    hysteresis_sec = if int_below 15 q.hysteresis_sec then d.hysteresis_sec else q.hysteresis_sec;
  }

  unfoldable pub apply_defaults : AppConfig F → AppConfig F → AppConfig F
  unfolding health_defaults qos_defaults
  apply_defaults c d = record c {
    listen_addr = text_or c.listen_addr d.listen_addr;
    registration = text_or c.registration d.registration;
    session_ttl_days = int_or c.session_ttl_days d.session_ttl_days;
    session_grace_minutes = int_or c.session_grace_minutes d.session_grace_minutes;
    login_max_fails = int_or c.login_max_fails d.login_max_fails;
    login_lock_minute = int_or c.login_lock_minute d.login_lock_minute;
    login_ip_max_fails = int_or c.login_ip_max_fails d.login_ip_max_fails;
    login_window_min = int_or c.login_window_min d.login_window_min;
    qos = qos_defaults c.qos d.qos;
    frps = record c.frps { ssh_port = int_or c.frps.ssh_port d.frps.ssh_port };
    health = health_defaults c.health d.health;
    ai = record c.ai { timeout_sec = int_or c.ai.timeout_sec d.ai.timeout_sec };
  }
