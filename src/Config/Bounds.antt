-- ===== src/Config/Bounds.antt =====
-- The ranges that a configuration has once applyDefaults has filled it in.
use frpilot.Prelude.{
  ◌≡◌, refl, pos, is_positive, String, str_eq, true, false, inl, inr, Bool-cases, arith, ℤ, negsuc,
}
use frpilot.Floats.{Floats}
use frpilot.Health.{Thresholds}
use frpilot.Qos.Plan.{QosConfig}
use frpilot.Config.{AppConfig}
use frpilot.Config.Defaults.{
  num, default_config, health_defaults, qos_defaults, apply_defaults, text_or, int_or, mode_or,
  float_or, is_mode, int_below, is_bad_budget,
}
use frpilot.Config.Ranges.{Compares, IsAbove, HealthInRange, QosInRange, InRange, apply_defaults-id}

module _ (fl : Floats) where
  open fl use {F, of_int, lt, le}

  text_or_some : (s d : String) → str_eq d "" ≡ false → str_eq (text_or s d) "" ≡ false
  text_or_some s d h = ground arith

  int_or-positive : (x d : ℤ) → is_positive d ≡ true → is_positive (int_or x d) ≡ true
  int_or-positive x d h = ground arith

  mode_or-is_mode : (s d : String) → is_mode d ≡ true → is_mode (mode_or s d) ≡ true
  mode_or-is_mode s d h = elim (Bool-cases (is_mode (text_or s d))) [
    | inl e ↦ rw e e
    | inr e ↦ rw e h
  ]

  float_or-IsAbove : (x d : F) → IsAbove fl d → IsAbove fl (float_or fl x d)
  float_or-IsAbove x d h = elim (Bool-cases (le x (num fl 0))) [ inl e ↦ rw e h | inr e ↦ rw e e ]

  port_or-low : (x : ℤ) → int_below 0 (int_or x (pos 0)) ≡ false
  port_or-low (pos n) = ground arith
  port_or-low (negsuc n) = refl

  health_defaults-InRange :
      (h d : Thresholds F) → HealthInRange fl d → HealthInRange fl (health_defaults fl h d)
  unfolding health_defaults
  health_defaults-InRange h d r = record {
    cpu_warn = float_or-IsAbove h.cpu_warn d.cpu_warn r.cpu_warn;
    cpu_fail = float_or-IsAbove h.cpu_fail d.cpu_fail r.cpu_fail;
    mem_warn = float_or-IsAbove h.mem_warn d.mem_warn r.mem_warn;
    mem_fail = float_or-IsAbove h.mem_fail d.mem_fail r.mem_fail;
    disk_warn = float_or-IsAbove h.disk_warn d.disk_warn r.disk_warn;
    disk_fail = float_or-IsAbove h.disk_fail d.disk_fail r.disk_fail;
    gpu_temp_warn = float_or-IsAbove h.gpu_temp_warn d.gpu_temp_warn r.gpu_temp_warn;
    gpu_temp_fail = float_or-IsAbove h.gpu_temp_fail d.gpu_temp_fail r.gpu_temp_fail;
    gpu_mem_warn = float_or-IsAbove h.gpu_mem_warn d.gpu_mem_warn r.gpu_mem_warn;
    gpu_mem_fail = float_or-IsAbove h.gpu_mem_fail d.gpu_mem_fail r.gpu_mem_fail;
    clam_db_max_days = int_or-positive h.clam_db_max_days d.clam_db_max_days r.clam_db_max_days;
    snapshot_max_age = int_or-positive h.snapshot_max_age d.snapshot_max_age r.snapshot_max_age;
  }

  qos_defaults-InRange :
      (q d : QosConfig F) → Compares fl → QosInRange fl d → QosInRange fl (qos_defaults fl q d)
  unfolding qos_defaults
  qos_defaults-InRange q d facts r = record {
    mode = mode_or-is_mode q.mode d.mode r.mode;
    budgets = elim (Bool-cases (is_bad_budget fl q)) [
      | inl e ↦ rw e (rw (facts.not_below 0) (ground arith))
      | inr e ↦ rw e e
    ];
    active_kbps = float_or-IsAbove q.active_kbps d.active_kbps r.active_kbps;
    hysteresis_sec = elim (Bool-cases (int_below 15 q.hysteresis_sec)) [
      | inl e ↦ rw e r.hysteresis_sec
      | inr e ↦ rw e e
    ];
  }

  pub default_config-InRange :
      (dir path : String) → Compares fl → InRange fl (default_config fl dir path)
  unfolding default_config
  default_config-InRange dir path facts = record {
    listen_addr = refl;
    registration = refl;
    session_ttl_days = refl;
    session_grace_minutes = refl;
    login_max_fails = refl;
    login_lock_minute = refl;
    login_ip_max_fails = refl;
    login_window_min = refl;
    ssh_port = refl;
    health = record {
      cpu_warn = facts.above 69;
      cpu_fail = facts.above 84;
      mem_warn = facts.above 79;
      mem_fail = facts.above 89;
      disk_warn = facts.above 74;
      disk_fail = facts.above 84;
      gpu_temp_warn = facts.above 74;
      gpu_temp_fail = facts.above 84;
      gpu_mem_warn = facts.above 84;
      gpu_mem_fail = facts.above 94;
      clam_db_max_days = refl;
      snapshot_max_age = refl;
    };
    qos = record {
      mode = refl;
      budgets = rw (facts.not_below 3, facts.not_below 0) refl;
      active_kbps = facts.above 0;
      hysteresis_sec = refl;
    };
    timeout_sec = refl;
  }

  apply_defaults-InRange :
      (c d : AppConfig F)
      → Compares fl
      → InRange fl d
      → d.frps.ssh_port ≡ pos 0
      → InRange fl (apply_defaults fl c d)
  unfolding apply_defaults
  apply_defaults-InRange c d facts r port = record {
    listen_addr = text_or_some c.listen_addr d.listen_addr r.listen_addr;
    registration = text_or_some c.registration d.registration r.registration;
    session_ttl_days = int_or-positive c.session_ttl_days d.session_ttl_days r.session_ttl_days;
    session_grace_minutes =
        int_or-positive c.session_grace_minutes d.session_grace_minutes r.session_grace_minutes;
    login_max_fails = int_or-positive c.login_max_fails d.login_max_fails r.login_max_fails;
    login_lock_minute = int_or-positive c.login_lock_minute d.login_lock_minute r.login_lock_minute;
    login_ip_max_fails =
        int_or-positive c.login_ip_max_fails d.login_ip_max_fails r.login_ip_max_fails;
    login_window_min = int_or-positive c.login_window_min d.login_window_min r.login_window_min;
    ssh_port = rw port (port_or-low c.frps.ssh_port);
    health = health_defaults-InRange c.health d.health r.health;
    qos = qos_defaults-InRange c.qos d.qos facts r.qos;
    timeout_sec = int_or-positive c.ai.timeout_sec d.ai.timeout_sec r.timeout_sec;
  }

  -- Whatever the file held, a configuration that is filled in with the defaults is in range: the
  -- texts of the address and the registration are not empty, the limits, times, thresholds and the
  -- activity threshold are above zero, the mode of shaping is one of the three, no budget is
  -- negative, the hysteresis is at least 15 seconds, and the SSH port is not negative. Filling it in
  -- a second time changes nothing. It is assumed how the float64 of a whole number compares with
  -- zero.
  pub apply_defaults-default_config :
      (c : AppConfig F) (dir path : String)
      → Compares fl
      → let d = default_config fl dir path in
        InRange fl (apply_defaults fl c d)
        × (apply_defaults fl (apply_defaults fl c d) d ≡ apply_defaults fl c d)
  unfolding default_config
  apply_defaults-default_config c dir path facts =
      let d = default_config fl dir path in
      let r = apply_defaults-InRange c d facts (default_config-InRange dir path facts) refl in
      (r, apply_defaults-id fl (apply_defaults fl c d) d refl r)
