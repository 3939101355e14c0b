-- ===== src/Registry/Frps.antt =====
-- internal/registry/registry.go: AutoDetectFrpsInfo and VerifyFrpsTokenBaseline. Each connection
-- starts with no commands sent.
use frpilot.Prelude.{
  ℕ, zero, ℤ, pos, String, str_eq, Bool, if◌then◌else◌, ◌||◌, Option, none, some, List, [], ◌∷◌,
}
use frpilot.Prelude.Maps.{Map, get}
use frpilot.Prelude.Text.{◌⧺◌}
use frpilot.Cipher.{Cipher}
use frpilot.Exec.{
  Result, ok, err, dial_failed, command_failed, token_drift, no_frps_path, no_frps_ssh, Exec, pure,
  fail, peek, ◌>>=◌,
}
use frpilot.Tasks.Remote.{Sent, Remote}
use frpilot.Config.{FrpsConfig, AppConfig}
use frpilot.Config.Secrets.{World, SecretKey}
use frpilot.Config.Manager.{Json, update}
use frpilot.Sshx.FrpsFile.{
  run_of, find_frps_config_path, extract_frps_config_values, verify_token_in_frps_ini,
}
use frpilot.Registry.{first_non_empty}

-- `if port == 0 { port = 22 }`
abbrev pub port_or_22 : ℤ → ℤ
port_or_22 (pos zero) = pos 22
port_or_22 p = p

abbrev default_token_value : String
default_token_value = "12345"

-- vals[k], empty where it is missing.
abbrev value_of : Option String → String
value_of none = ""
value_of (some v) = v

unfoldable pub either_value : (k k' last : String) → Map String → String
either_value k k' last vals =
    first_non_empty (value_of (get k vals) ∷ value_of (get k' vals) ∷ last ∷ [])

-- The token of the file, or the default one.
unfoldable pub token_of : Map String → String
token_of vals = first_non_empty (value_of (get "token" vals) ∷ default_token_value ∷ [])

-- The function that is handed to Update.
unfoldable pub detected : {F : Type 0} → String → Map String → AppConfig F → AppConfig F
unfolding either_value token_of
detected path vals c =
    let port = either_value "dashboard_port" "dashboardPort" "" vals in
    let f = c.frps in
    record c {
      frps = record f {
        config_path = path;
        dashboard_url = if str_eq port "" then "" else "http://127.0.0.1:" ⧺ port;
        dashboard_user = either_value "dashboard_user" "dashboardUser" "" vals;
        dashboard_pass = either_value "dashboard_pwd" "dashboardPwd" "" vals;
        token = token_of vals;
      };
    }

unfoldable pub detected_fields : String → Map String → Map String
unfolding either_value token_of
detected_fields path vals =
    ("configPath", path)
    ∷ ("bindPort", either_value "bind_port" "bindPort" "" vals)
    ∷ ("dashboardPort", either_value "dashboard_port" "dashboardPort" "" vals)
    ∷ ("dashboardUser", either_value "dashboard_user" "dashboardUser" "" vals)
    ∷ ("token", token_of vals)
    ∷ []

abbrev pub cat_of : String → Sent
cat_of path = run_of ("cat \"" ⧺ path ⧺ "\"")

module _ {F B : Type 0} (k : Cipher) (json : Json F B) (nonce : SecretKey → ℕ)
    (order : List SecretKey) where
  unfoldable pub detect_at : Remote → Option String × List Sent → Exec (World F B) (Map String)
  unfolding detected detected_fields
  detect_at r (none, sent) = fail no_frps_path
  detect_at r (some path, sent) =
      let a = r.reply sent (cat_of path) in
      let vals = extract_frps_config_values a.out in
      if a.failed
      then fail command_failed
      else (update k json nonce order (detected path vals) >>= λ u.
          pure (detected_fields path vals))

  unfoldable pub auto_detect_frps_info : Remote → Exec (World F B) (Map String)
  unfolding detect_at
  auto_detect_frps_info r = do
    f ← peek (λ w. w.memory.frps)
    if str_eq f.ssh_host "" || str_eq f.ssh_user ""
        then fail no_frps_ssh
        else (if r.dial f.ssh_host (port_or_22 f.ssh_port) f.ssh_user f.ssh_pass
            then detect_at r (find_frps_config_path r)
            else fail dial_failed)

abbrev checked : Result (Bool × String) → Result String
checked (err e) = err e
checked (ok (same, token)) = if same then ok token else err token_drift

abbrev verify_at : Remote → String → Option String × List Sent → Result String
verify_at r baseline (none, sent) = err no_frps_path
verify_at r baseline (some path, sent) = checked (verify_token_in_frps_ini r sent path baseline)

unfoldable pub verify_frps_token_baseline : Remote → FrpsConfig → Result String
verify_frps_token_baseline r f =
    if r.dial f.ssh_host (port_or_22 f.ssh_port) f.ssh_user f.ssh_pass
    then verify_at r f.token
        (if str_eq f.config_path "" then find_frps_config_path r else (some f.config_path, []))
    else err dial_failed
