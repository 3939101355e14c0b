-- ===== src/Tasks/Scan.antt =====
-- internal/actions/scan.go: scanMachine and the goroutine of StartScan.

use text.Mathlib.Text.{starts_with}
use frpilot.Prelude.{
  ℕ, suc, pos, String, str_eq, Bool, true, if◌then◌else◌, ◌&&◌, ltb, Option, none, some, List, [],
  ◌∷◌, ◌++◌, length,
}
use frpilot.Cipher.{Cipher}
use frpilot.Floats.{Floats}
use frpilot.Exec.{ok, err}
use frpilot.Store.Machines.{Machine}
use frpilot.Tasks.{Task, TaskProgress, TaskResult}
use frpilot.Tasks.Remote.{Sent, Answer, Remote, ssh_host, secrets}
use frpilot.Tasks.Cleanup.{result_of, advance}
use frpilot.Prelude.Text.{◌⧺◌}
use frpilot.Tasks.Phases.{ScanPhase, scan_phases, scan_mode_label}

-- strings.Contains
unfoldable pub contains : String → String → Bool
contains String.[] t = str_eq t ""
contains (String.◌∷◌ c s) t = if starts_with (String.◌∷◌ c s) t then true else contains s t

-- The output, and the error output after a line feed if there is some.
abbrev pub raw_of : Answer → String
raw_of a = if str_eq a.err_out "" then a.out else a.out ⧺ "\n" ⧺ a.err_out

abbrev pub phase_command : String → ScanPhase → Sent
phase_command sudo_pass ph = record {
  sudo = true;
  password = sudo_pass;
  command = ph.cmd;
  timeout = ph.timeout;
}

module _ (fl : Floats) where
  -- `report` of StartScan: no more than 99 before the last machine is done.
  unfoldable pub report : Machine → String → fl.F → Option TaskProgress → Option TaskProgress
  report m label frac none = none
  report m label frac (some p) =
      let pct =
        fl.mul
          (fl.div (fl.add (fl.of_int (pos p.done_machines)) frac)
            (fl.of_int (pos p.total_machines)))
          (fl.of_int (pos 100)) in
      some (record p {
        current = m.name;
        phase = label;
        pct = fl.to_int (
            if fl.lt (fl.of_int (pos 99)) pct && ltb p.done_machines p.total_machines
            then fl.of_int (pos 99)
            else pct);
      })

  -- The loop over the phases from the i-th of n: the status, the commands sent, the progress.
  unfoldable pub run_phases :
      Remote
      → Machine
      → String
      → List Sent
      → ℕ
      → ℕ
      → List ScanPhase
      → Option TaskProgress
      → String × List Sent × Option TaskProgress
  unfolding report contains
  run_phases r m sudo_pass before i n [] p = ("ok", [], p)
  run_phases r m sudo_pass before i n (ph ∷ phs) p =
      let p' = report m ph.label (fl.div (fl.of_int (pos i)) (fl.of_int (pos n))) p in
      let s = phase_command sudo_pass ph in
      let a = r.reply before s in
      let (status, sent, p'') = run_phases r m sudo_pass (before ++ s ∷ []) (suc i) n phs p' in
      if contains (raw_of a) ph.marker
      then ("skipped", s ∷ [], p')
      else if a.failed
      then ("failed", s ∷ [], p')
      else (status, s ∷ sent, p'')

  unfoldable pub scan_machine :
      Cipher
      → Remote
      → String
      → Machine
      → String
      → Option TaskProgress
      → TaskResult × List Sent × Option TaskProgress
  unfolding secrets run_phases
  scan_machine k r host m mode p =
      let result = result_of m mode (scan_mode_label mode) in
      elim (secrets k m) [
        | err e ↦ (result "failed", [], p)
        | ok (pass, sudo) ↦
            let p' = report m "正在连接并检测扫描工具" (fl.of_int (pos 0)) p in
            let phases = scan_phases mode in
            let (status, sent, p'') = run_phases r m sudo [] 0 (length phases) phases p' in
            if r.dial (ssh_host host) m.tunnel_port m.ssh_user pass
            then (result status, sent, p'')
            else (result "failed", [], p')
      ]

  unfoldable pub scan_loop :
      Cipher → Remote → String → String → Task → List Machine → Task × List (Machine × List Sent)
  unfolding scan_machine advance
  scan_loop k r host mode task [] = (task, [])
  scan_loop k r host mode task (m ∷ ms) =
      let (res, sent, p) = scan_machine k r host m mode task.progress in
      let (done, log) =
        scan_loop k r host mode
          (record task { progress = advance fl p; results = task.results ++ res ∷ [] }) ms in
      (done, (m, sent) ∷ log)

  unfoldable pub run_scan :
      Cipher → Remote → String → String → Task → List Machine → Task × List (Machine × List Sent)
  unfolding scan_loop
  run_scan k r host mode task ms =
      let (done, log) = scan_loop k r host mode task ms in (record done { status = "done" }, log)
