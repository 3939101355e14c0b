-- ===== src/Web/Settings.antt =====
-- internal/web/handlers.go: handleSaveSettings. A reply is its status code; the audit log is left
-- out.
use text.Mathlib.Text.{starts_with}
use frpilot.Prelude.{
  ℕ, ℤ, pos, is_positive, String, str_eq, Bool, if◌then◌else◌, not, ◌&&◌, ◌||◌, Option, none, some,
  List, [], ◌∷◌,
}
use frpilot.Prelude.Text.{trim_space}
use frpilot.Floats.{Floats}
use frpilot.Cipher.{Cipher, encrypt_secret}
use frpilot.Exec.{Result, ok, err, Exec, pure, ignore, attempt, peek, ◌>>=◌, ◌>>◌}
use frpilot.Health.{Thresholds}
use frpilot.Qos.Plan.{ManualItem, QosConfig}
use frpilot.Tasks.Items.{CustomCleanupItem}
use frpilot.Config.{FrpsConfig, AiConfig, AppConfig}
use frpilot.Config.Defaults.{num, int_below, is_mode}
use frpilot.Config.Secrets.{World, SecretKey, set_setting}
use frpilot.Config.Manager.{Json, update}

pub record FrpsReq : Type 0 where
  pub dashboard_url : Option String
  pub dashboard_user : Option String
  pub dashboard_pass : Option String
  pub ssh_host : Option String
  pub ssh_port : Option ℤ
  pub ssh_user : Option String
  pub ssh_pass : Option String
  pub config_path : Option String
  pub token : Option String

pub record AiReq : Type 0 where
  pub enabled : Option Bool
  pub provider_url : Option String
  pub model : Option String
  pub timeout_sec : Option ℤ
  pub api_key : Option String

-- saveSettingsReq. A list of cleanup items that is missing is `none`.
pub record SettingsReq (F : Type 0) : Type 0 where
  pub registration : Option String
  pub frps : FrpsReq
  pub health : Option (Thresholds F)
  pub cleanup_custom : Option (List CustomCleanupItem)
  pub qos : Option (QosConfig F)
  pub ai : Option AiReq

-- `if p != nil { x = *p }`
abbrev pub given {ℓ} : {A : Type ℓ} → Option A → A → A
given none old = old
given (some v) old = v

-- `if p != nil { x = strings.TrimSpace(*p) }`
abbrev pub given_text : Option String → String → String
given_text none old = old
given_text (some v) old = trim_space v

-- A new secret, and not what the page shows in its place.
abbrev pub is_new_secret : String → Bool
is_new_secret v = not (str_eq v "") && not (starts_with v "••") && not (starts_with v "****")

abbrev pub given_secret : Option String → String → String
given_secret none old = old
given_secret (some v) old = if is_new_secret v then v else old

abbrev pub given_timeout : Option ℤ → ℤ → ℤ
given_timeout none old = old
given_timeout (some t) old = if is_positive t then t else old

abbrev pub is_registration : String → Bool
is_registration s = str_eq s "open" || str_eq s "approval" || str_eq s "closed"

unfoldable pub frps_with : FrpsReq → FrpsConfig → FrpsConfig
frps_with r f = record {
  dashboard_url = given_text r.dashboard_url f.dashboard_url;
  dashboard_user = given_text r.dashboard_user f.dashboard_user;
  dashboard_pass = given_secret r.dashboard_pass f.dashboard_pass;
  ssh_host = given_text r.ssh_host f.ssh_host;
  ssh_port = given r.ssh_port f.ssh_port;
  ssh_user = given_text r.ssh_user f.ssh_user;
  ssh_pass = given_secret r.ssh_pass f.ssh_pass;
  token = given_secret r.token f.token;
  config_path = given_text r.config_path f.config_path;
}

unfoldable pub ai_with : Option AiReq → AiConfig → AiConfig
ai_with none a = a
ai_with (some r) a = record {
  enabled = given r.enabled a.enabled;
  provider_url = given_text r.provider_url a.provider_url;
  model = given_text r.model a.model;
  timeout_sec = given_timeout r.timeout_sec a.timeout_sec;
}

module _ (fl : Floats) where
  open fl use {F, lt, le}

  -- `if x < 0 { x = 0 }`
  abbrev pub floor_zero : F → F
  floor_zero x = if lt x (num fl 0) then num fl 0 else x

  abbrev pub floored : ManualItem F → ManualItem F
  floored it = record it { out_mbps = floor_zero it.out_mbps; in_mbps = floor_zero it.in_mbps }

  abbrev pub is_cap : ManualItem F → Bool
  is_cap it =
      not (str_eq it.name "")
      && (lt (num fl 0) (floor_zero it.out_mbps) || lt (num fl 0) (floor_zero it.in_mbps))

  -- The loop that keeps the caps.
  unfoldable pub manual_with : List (ManualItem F) → List (ManualItem F)
  manual_with [] = []
  manual_with (it ∷ items) =
      let rest = manual_with items in if is_cap it then floored it ∷ rest else rest

  unfoldable pub qos_with : Option (QosConfig F) → QosConfig F → QosConfig F
  unfolding manual_with
  qos_with none old = old
  qos_with (some q) old = record q {
    mode = if is_mode q.mode then q.mode else "off";
    budget_out_mbps = floor_zero q.budget_out_mbps;
    budget_in_mbps = floor_zero q.budget_in_mbps;
    active_kbps = if le q.active_kbps (num fl 0) then num fl 1 else q.active_kbps;
    hysteresis_sec = if int_below 15 q.hysteresis_sec then pos 45 else q.hysteresis_sec;
    manual = manual_with q.manual;
  }

  -- The function that handleSaveSettings hands to Update.
  unfoldable pub settings_with : String → SettingsReq F → AppConfig F → AppConfig F
  unfolding frps_with ai_with qos_with
  settings_with registration r c = record c {
    registration = registration;
    frps = frps_with r.frps c.frps;
    health = given r.health c.health;
    cleanup_custom = given r.cleanup_custom c.cleanup_custom;
    ai = ai_with r.ai c.ai;
    qos = qos_with r.qos c.qos;
  }

  abbrev pub new_api_key : Option AiReq → Option String
  new_api_key none = none
  new_api_key (some r) = elim r.api_key [
    | none ↦ none
    | some v ↦ if is_new_secret v then some v else none
  ]

  module _ {B : Type 0} (k : Cipher) where
    unfoldable pub save_api_key : ℕ → Option String → Exec (World F B) ℕ
    save_api_key nonce none = pure 200
    save_api_key nonce (some v) = elim (encrypt_secret k nonce v) [
      | err e ↦ pure 500
      | ok enc ↦ do ignore (set_setting "ai_api_key" enc); pure 200
    ]

    abbrev after_update : ℕ → Option String → Result (Unit {0}) → Exec (World F B) ℕ
    after_update nonce key (err e) = pure 500
    after_update nonce key (ok u) = save_api_key nonce key

    -- From the call of Update on. `nonce` are the nonces of the hook's secrets, `key_nonce` is that
    -- of the API key.
    unfoldable pub save_settings :
        Json F B
        → (nonce : SecretKey → ℕ) (order : List SecretKey) (key_nonce : ℕ) → SettingsReq F
        → String
        → Exec (World F B) ℕ
    unfolding settings_with save_api_key
    save_settings json nonce order key_nonce r registration = do
      done ← attempt (update k json nonce order (settings_with registration r))
      after_update key_nonce (new_api_key r.ai) done

    unfoldable pub handle_save_settings :
        Json F B
        → (nonce : SecretKey → ℕ) (order : List SecretKey) (key_nonce : ℕ) → SettingsReq F
        → Exec (World F B) ℕ
    unfolding save_settings
    handle_save_settings json nonce order key_nonce r = do
      current ← peek (λ w. w.memory)
      let registration = given r.registration current.registration
      if is_registration registration
          then save_settings json nonce order key_nonce r registration
          else pure 400
