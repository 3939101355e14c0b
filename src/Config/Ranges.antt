-- ===== src/Config/Ranges.antt =====
-- The ranges of a configuration (internal/config/config.go), which applyDefaults leaves as it is.
use frpilot.Prelude.{
  ℕ, suc, ◌≡◌, pos, is_positive, String, str_eq, true, false, inl, inr, Bool-cases, arith, subst,
  eq_iff, ℤ, negsuc,
}
use frpilot.Floats.{Floats}
use frpilot.Health.{Thresholds}
use frpilot.Qos.Plan.{QosConfig}
use frpilot.Config.{AppConfig}
use frpilot.Config.Defaults.{
  num, health_defaults, qos_defaults, apply_defaults, text_or, int_or, mode_or, float_or, is_mode,
  int_below, is_bad_budget,
}

module _ (fl : Floats) where
  open fl use {F, of_int, lt, le}

  -- How the float64 of a whole number compares with zero.
  pub record Compares : Type 0 where
    pub above : (n : ℕ) → le (num fl (suc n)) (num fl 0) ≡ false
    pub not_below : (n : ℕ) → lt (num fl n) (num fl 0) ≡ false

  abbrev pub IsAbove : F → Type 0
  IsAbove x = le x (num fl 0) ≡ false

  pub record HealthInRange (h : Thresholds F) : Type 0 where
    pub cpu_warn : IsAbove h.cpu_warn
    pub cpu_fail : IsAbove h.cpu_fail
    pub mem_warn : IsAbove h.mem_warn
    pub mem_fail : IsAbove h.mem_fail
    pub disk_warn : IsAbove h.disk_warn
    pub disk_fail : IsAbove h.disk_fail
    pub gpu_temp_warn : IsAbove h.gpu_temp_warn
    pub gpu_temp_fail : IsAbove h.gpu_temp_fail
    pub gpu_mem_warn : IsAbove h.gpu_mem_warn
    pub gpu_mem_fail : IsAbove h.gpu_mem_fail
    pub clam_db_max_days : is_positive h.clam_db_max_days ≡ true
    pub snapshot_max_age : is_positive h.snapshot_max_age ≡ true

  pub record QosInRange (q : QosConfig F) : Type 0 where
    pub mode : is_mode q.mode ≡ true
    pub budgets : is_bad_budget fl q ≡ false
    pub active_kbps : IsAbove q.active_kbps
    pub hysteresis_sec : int_below 15 q.hysteresis_sec ≡ false

  pub record InRange (c : AppConfig F) : Type 0 where
    pub listen_addr : str_eq c.listen_addr "" ≡ false
    pub registration : str_eq c.registration "" ≡ false
    pub session_ttl_days : is_positive c.session_ttl_days ≡ true
    pub session_grace_minutes : is_positive c.session_grace_minutes ≡ true
    pub login_max_fails : is_positive c.login_max_fails ≡ true
    pub login_lock_minute : is_positive c.login_lock_minute ≡ true
    pub login_ip_max_fails : is_positive c.login_ip_max_fails ≡ true
    pub login_window_min : is_positive c.login_window_min ≡ true
    pub ssh_port : int_below 0 c.frps.ssh_port ≡ false
    pub health : HealthInRange c.health
    pub qos : QosInRange c.qos
    pub timeout_sec : is_positive c.ai.timeout_sec ≡ true

  text_or-id : (s d : String) → str_eq s "" ≡ false → text_or s d ≡ s
  text_or-id s d h = rw h

  int_or-id : (x d : ℤ) → is_positive x ≡ true → int_or x d ≡ x
  int_or-id x d h = rw h

  float_or-id : (x d : F) → IsAbove x → float_or fl x d ≡ x
  float_or-id x d h = rw h

  mode_or-id : (s d : String) → is_mode s ≡ true → mode_or s d ≡ s
  mode_or-id s d h = elim (Bool-cases (str_eq s "")) [
    | inl e ↦
        let none_set : false ≡ true = subst (λ t. is_mode t ≡ true) ((eq_iff s "").0 e) h in cc
    | inr e ↦ rw (e, h)
  ]

  port_or-id : (x : ℤ) → int_below 0 x ≡ false → int_or x (pos 0) ≡ x
  port_or-id (pos n) h = ground arith
  port_or-id (negsuc n) h = cc

  -- Thresholds in range are left as they are.
  health_defaults-id : (h d : Thresholds F) → HealthInRange h → health_defaults fl h d ≡ h
  unfolding health_defaults
  health_defaults-id h d r = cc (
    float_or-id h.cpu_warn d.cpu_warn r.cpu_warn,
    float_or-id h.cpu_fail d.cpu_fail r.cpu_fail,
    float_or-id h.mem_warn d.mem_warn r.mem_warn,
    float_or-id h.mem_fail d.mem_fail r.mem_fail,
    float_or-id h.disk_warn d.disk_warn r.disk_warn,
    float_or-id h.disk_fail d.disk_fail r.disk_fail,
    float_or-id h.gpu_temp_warn d.gpu_temp_warn r.gpu_temp_warn,
    float_or-id h.gpu_temp_fail d.gpu_temp_fail r.gpu_temp_fail,
    float_or-id h.gpu_mem_warn d.gpu_mem_warn r.gpu_mem_warn,
    float_or-id h.gpu_mem_fail d.gpu_mem_fail r.gpu_mem_fail,
    int_or-id h.clam_db_max_days d.clam_db_max_days r.clam_db_max_days,
    int_or-id h.snapshot_max_age d.snapshot_max_age r.snapshot_max_age,
  )

  qos_defaults-id : (q d : QosConfig F) → QosInRange q → qos_defaults fl q d ≡ q
  unfolding qos_defaults
  qos_defaults-id q d r =
      rw (r.budgets, r.hysteresis_sec)
        (cc
          (mode_or-id q.mode d.mode r.mode, float_or-id q.active_kbps d.active_kbps r.active_kbps))

  -- A configuration in range is left as it is, by defaults whose port is zero.
  pub apply_defaults-id :
      (c d : AppConfig F) → d.frps.ssh_port ≡ pos 0 → InRange c → apply_defaults fl c d ≡ c
  unfolding apply_defaults
  apply_defaults-id c d port r =
      let port_kept : int_or c.frps.ssh_port d.frps.ssh_port ≡ c.frps.ssh_port =
        rw port (port_or-id c.frps.ssh_port r.ssh_port) in
      cc (
        text_or-id c.listen_addr d.listen_addr r.listen_addr,
        text_or-id c.registration d.registration r.registration,
        int_or-id c.session_ttl_days d.session_ttl_days r.session_ttl_days,
        int_or-id c.session_grace_minutes d.session_grace_minutes r.session_grace_minutes,
        int_or-id c.login_max_fails d.login_max_fails r.login_max_fails,
        int_or-id c.login_lock_minute d.login_lock_minute r.login_lock_minute,
        int_or-id c.login_ip_max_fails d.login_ip_max_fails r.login_ip_max_fails,
        int_or-id c.login_window_min d.login_window_min r.login_window_min,
        int_or-id c.ai.timeout_sec d.ai.timeout_sec r.timeout_sec,
        health_defaults-id c.health d.health r.health,
        qos_defaults-id c.qos d.qos r.qos,
        port_kept,
      )
