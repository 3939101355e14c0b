-- ===== src/Config.antt =====
-- internal/config/config.go: the data of the configuration. The functions are in Config/Defaults
-- (DefaultConfig, applyDefaults), Config/Secrets (internal/config/secrets.go and the settings table
-- of internal/store/machines.go) and Config/Manager (Update, persist, LoadOrCreateAt); the proofs in
-- the other modules below.
pub mod Defaults
pub mod Ranges
pub mod Bounds
pub mod Secrets
pub mod Manager
pub mod Atomic
pub mod Stored
pub mod Restart
pub mod Reload
use frpilot.Prelude.{ℤ, String, Bool, List}
use frpilot.Health.{Thresholds}
use frpilot.Qos.Plan.{QosConfig}
use frpilot.Tasks.Items.{CustomCleanupItem}

pub record FrpsConfig : Type 0 where
  pub dashboard_url : String
  pub dashboard_user : String
  pub dashboard_pass : String
  pub ssh_host : String
  pub ssh_port : ℤ
  pub ssh_user : String
  pub ssh_pass : String
  pub token : String
  pub config_path : String

pub record TlsConfig : Type 0 where
  pub enabled : Bool
  pub cert : String
  pub key : String

pub record AiConfig : Type 0 where
  pub enabled : Bool
  pub provider_url : String
  pub model : String
  pub timeout_sec : ℤ

-- F is float64.
pub record AppConfig (F : Type 0) : Type 0 where
  pub listen_addr : String
  pub data_dir : String
  pub config_path : String
  pub frps : FrpsConfig
  pub registration : String
  pub session_ttl_days : ℤ
  pub session_grace_minutes : ℤ
  pub login_max_fails : ℤ
  pub login_lock_minute : ℤ
  pub login_ip_max_fails : ℤ
  pub login_window_min : ℤ
  pub health : Thresholds F
  pub cleanup_custom : List CustomCleanupItem
  pub qos : QosConfig F
  pub ai : AiConfig
  pub tls : TlsConfig
  pub version : String
