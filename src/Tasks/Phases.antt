-- ===== src/Tasks/Phases.antt =====
-- internal/actions/scan.go: the phases of a scan and the labels of the modes.
use frpilot.Prelude.Text.{◌⧺◌}
use frpilot.Prelude.{ℕ, suc, ◌/◌, ◌%◌, String, str_eq, if◌then◌else◌, ltb, ◌==◌, List, [], ◌∷◌}

pub record ScanPhase : Type 0 where
  pub label : String
  pub cmd : String
  pub timeout : ℕ
  pub marker : String

abbrev pub guarded_cmd : String → String → String → String
guarded_cmd check run marker =
    "if " ⧺ check ⧺ " >/dev/null 2>&1; then " ⧺ run ⧺ " 2>&1; else echo '" ⧺ marker
    ⧺ "'; fi; exit 0"

abbrev pub digit : ℕ → String
digit n =
    if n == 0
    then "0"
    else if n == 1
    then "1"
    else if n == 2
    then "2"
    else if n == 3
    then "3"
    else if n == 4
    then "4"
    else if n == 5
    then "5"
    else if n == 6
    then "6"
    else if n == 7
    then "7"
    else if n == 8
    then "8"
    else "9"

-- %d of a number below 100
abbrev pub decimal : ℕ → String
decimal n = if ltb n 10 then digit n else digit (n / 10) ⧺ digit (n % 10)

-- The loop of dirPhases from the i-th of n directories.
abbrev pub dir_phases : ℕ → ℕ → ℕ → List String → List ScanPhase
dir_phases i n per_dir_timeout [] = []
dir_phases i n per_dir_timeout (d ∷ ds) =
    record {
      label = "扫描 " ⧺ d ⧺ "（" ⧺ decimal (suc i) ⧺ "/" ⧺ decimal n ⧺ "）";
      cmd =
          guarded_cmd "command -v clamscan"
            ("clamscan -r -i --max-filesize=128M --max-scansize=512M " ⧺ d) "__NO_CLAMAV__";
      timeout = per_dir_timeout;
      marker = "__NO_CLAMAV__";
    }
    ∷ dir_phases (suc i) n per_dir_timeout ds

abbrev pub quick_dirs : List String
quick_dirs = "/etc" ∷ "/home" ∷ "/tmp" ∷ "/opt" ∷ "/usr/local" ∷ "/root" ∷ "/var/www" ∷ []

abbrev pub full_dirs : List String
full_dirs =
    "/bin" ∷ "/boot" ∷ "/etc" ∷ "/home" ∷ "/lib" ∷ "/lib64" ∷ "/media" ∷ "/mnt" ∷ "/opt" ∷ "/root"
    ∷ "/sbin" ∷ "/srv" ∷ "/tmp" ∷ "/usr" ∷ "/var" ∷ []

-- The timeouts are in seconds.
abbrev pub scan_phases : String → List ScanPhase
scan_phases mode =
    if str_eq mode "quick"
    then dir_phases 0 7 480 quick_dirs
    else if str_eq mode "full"
    then dir_phases 0 15 1800 full_dirs
    else if str_eq mode "update"
    then (record {
      label = "更新 ClamAV 病毒库";
      cmd =
          guarded_cmd "command -v freshclam"
            "freshclam --stdout -l /tmp/frpm-freshclam.log; rm -f /tmp/frpm-freshclam.log"
            "__NO_FRESHCLAM__";
      timeout = 600;
      marker = "__NO_FRESHCLAM__";
    }
        ∷ [])
    else (record {
      label = "rkhunter 检查";
      cmd =
          guarded_cmd "command -v rkhunter"
            "rkhunter --check --skip-keypress --nocolors --no-version-check" "__NO_RKHUNTER__";
      timeout = 600;
      marker = "__NO_RKHUNTER__";
    }
        ∷ record {
          label = "chkrootkit 检查";
          cmd = guarded_cmd "command -v chkrootkit" "chkrootkit" "__NO_CHKROOTKIT__";
          timeout = 600;
          marker = "__NO_CHKROOTKIT__";
        }
        ∷ [])

abbrev pub scan_mode_label : String → String
scan_mode_label mode =
    if str_eq mode "quick"
    then "ClamAV 快速扫描"
    else if str_eq mode "full"
    then "ClamAV 全盘扫描"
    else if str_eq mode "rootkit"
    then "Rootkit 检查"
    else if str_eq mode "update"
    then "更新病毒库"
    else ""
