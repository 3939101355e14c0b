-- ===== src/Examples/Detection.antt =====
-- The detection of an frps configuration and the verification of its token.
use frpilot.Prelude.{
  ℕ, ◌≡◌, refl, String, str_eq, true, false, if◌then◌else◌, none, some, [], ◌∷◌, List, pos,
}
use frpilot.Prelude.Maps.{Map}
use frpilot.Prelude.Text.{◌⧺◌}
use frpilot.Exec.{Result, ok, Disk, calm}
use frpilot.Config.{FrpsConfig, AppConfig}
use frpilot.Config.Secrets.{World}
use frpilot.Tasks.Remote.{Remote}
use frpilot.Sshx.FrpsFile.{run_of, ps_command, token_command}
use frpilot.Registry.Frps.{auto_detect_frps_info, verify_frps_token_baseline}
use frpilot.Registry.Drift.{detect-verify}
use frpilot.Examples.{clear}
use frpilot.Examples.Settings.{as_is, first, all_keys, nonces}

abbrev ini : String
ini = "[common]\nbind_port = 7000\ndashboard_port = 7500\ntoken = abc"

abbrev toml : String
toml = "auth.token = \"other\"\n"

abbrev ini_path : String
ini_path = "/etc/frp/frps.ini"

-- The files of the host.
abbrev frps_host : Remote
frps_host = record {
  dial = λ host port user pass. true;
  reply = λ before s. record {
    out =
        if str_eq s.command ps_command
        then ini_path
        else if str_eq s.command (token_command ini_path)
        then ini ⧺ "\n" ⧺ toml
        else ini ⧺ "\n";
    err_out = "";
    failed = false;
  };
}

abbrev reachable : World ℕ (AppConfig ℕ)
reachable = record {
  memory = record first {
    frps = record first.frps { ssh_host = "frps.example"; ssh_user = "root"; ssh_pass = "pw" };
  };
  hooked = true;
  files = [];
  temp = none;
  settings = [];
}

detect-verify_example :
    verify_frps_token_baseline frps_host
      (auto_detect_frps_info clear as_is nonces all_keys frps_host
        (calm reachable)).1.rows.memory.frps
    ≡ ok "abc"
unfolding frpilot.Sshx.FrpsFile.find_frps_config_path frpilot.Prelude.Text.trim_space
    frpilot.Prelude.Text.contains token_command auto_detect_frps_info frpilot.Exec.◌>>=◌
    frpilot.Config.Manager.update frpilot.Registry.first_non_empty frpilot.Prelude.Maps.get
    frpilot.Sshx.FrpsFile.extract_frps_config_values frpilot.Prelude.Text.split_by
    frpilot.Prelude.Text.cut_at frpilot.Prelude.Maps.put frpilot.Cipher.encrypt_secret
detect-verify_example =
    detect-verify clear as_is nonces all_keys frps_host (calm reachable) ini_path
      (run_of ps_command ∷ []) _ ini toml refl refl refl refl refl
