-- ===== src/Tasks/Cleanup.antt =====
-- internal/actions/cleanup.go: runOnMachine, Preview and the goroutine of StartCleanup.
use frpilot.Prelude.{
  ℕ, suc, ℤ, pos, String, str_eq, Bool, true, false, if◌then◌else◌, not, ◌&&◌, Option, none, some,
  List, [], ◌∷◌, ◌++◌,
}
use frpilot.Cipher.{Cipher}
use frpilot.Floats.{Floats}
use frpilot.Exec.{
  Result, ok, err, dial_failed, no_credentials, Exec, from_result, fail, pure, ◌>>=◌,
}
use frpilot.Store.Machines.{Machine, Fleet, get_machine_by_id}
use frpilot.Tasks.{CleanupItem, Task, TaskProgress, TaskResult}
use frpilot.Tasks.Items.{CustomCleanupItem, effective_items, select_items}
use frpilot.Tasks.Remote.{Sent, Answer, Remote, ssh_host, secrets}

abbrev pub result_of : Machine → String → String → String → TaskResult
result_of m item_id item_name status = record {
  machine_id = m.id;
  machine = m.name;
  item_id = item_id;
  item_name = item_name;
  status = status;
}

abbrev pub status_of : Answer → String
status_of a = if a.failed then "failed" else "ok"

-- Whether an item needs sudo on the machine.
abbrev pub needs_sudo : Machine → CleanupItem → Bool
needs_sudo m it = it.requires_root && not (str_eq m.ssh_user "root")

abbrev pub command_of : Machine → String → CleanupItem → Sent
command_of m sudo_pass it =
    if needs_sudo m it
    then record { sudo = true; password = sudo_pass; command = it.command; timeout = it.timeout }
    else record { sudo = false; password = ""; command = it.command; timeout = it.timeout }

-- The loop over the items: the results, and the commands that are sent.
unfoldable pub run_items :
    Remote → Machine → String → List Sent → List CleanupItem → List TaskResult × List Sent
run_items r m sudo_pass before [] = ([], [])
run_items r m sudo_pass before (it ∷ its) =
    let skip = needs_sudo m it && str_eq sudo_pass "" in
    let s = command_of m sudo_pass it in
    let status = if skip then "skipped" else status_of (r.reply before s) in
    let (results, sent) = run_items r m sudo_pass (if skip then before else before ++ s ∷ []) its in
    (result_of m it.id it.name status ∷ results, if skip then sent else s ∷ sent)

abbrev pub connected :
    Remote
    → String
    → Machine
    → Result (String × String)
    → (String → List TaskResult × List Sent)
    → Result (List TaskResult) × List Sent
connected r host m (err e) f = (err e, [])
connected r host m (ok (pass, sudo)) f =
    if r.dial (ssh_host host) m.tunnel_port m.ssh_user pass
    then (ok (f sudo).0, (f sudo).1)
    else (err dial_failed, [])

unfoldable pub run_on_machine :
    Cipher → Remote → String → Machine → List CleanupItem → Result (List TaskResult) × List Sent
unfolding secrets run_items
run_on_machine k r host m items =
    connected r host m (secrets k m) (λ sudo. run_items r m sudo [] items)

abbrev pub preview_of : Machine → String → CleanupItem → Sent
preview_of m sudo_pass it =
    if needs_sudo m it
    then record { sudo = true; password = sudo_pass; command = it.preview_cmd; timeout = 30 }
    else record { sudo = false; password = ""; command = it.preview_cmd; timeout = 30 }

unfoldable pub preview_items :
    Remote → Machine → String → List Sent → List CleanupItem → List TaskResult × List Sent
preview_items r m sudo_pass before [] = ([], [])
preview_items r m sudo_pass before (it ∷ its) =
    let skip = if str_eq it.preview_cmd "" then true else needs_sudo m it && str_eq sudo_pass "" in
    let s = preview_of m sudo_pass it in
    let status = if skip then "skipped" else status_of (r.reply before s) in
    let (results, sent) =
      preview_items r m sudo_pass (if skip then before else before ++ s ∷ []) its in
    (result_of m it.id it.name status ∷ results, if skip then sent else s ∷ sent)

unfoldable pub preview :
    Cipher
    → Remote
    → String
    → List CustomCleanupItem
    → ℕ
    → List String
    → Exec Fleet (List TaskResult × List Sent)
unfolding secrets preview_items select_items effective_items
preview k r host custom machine_id item_ids = do
  m ← get_machine_by_id machine_id
  if str_eq m.ssh_user "" then fail no_credentials else do
    let items = select_items (effective_items custom) item_ids
    let (res, sent) = connected r host m (secrets k m) (λ sudo. preview_items r m sudo [] items)
    results ← from_result res
    pure (results, sent)

module _ (fl : Floats) where
  -- `int(float64(a) / float64(b) * 100)`
  abbrev pub percent_done : ℕ → ℕ → ℤ
  percent_done a b =
      fl.to_int (fl.mul (fl.div (fl.of_int (pos a)) (fl.of_int (pos b))) (fl.of_int (pos 100)))

  unfoldable pub advance : Option TaskProgress → Option TaskProgress
  advance none = none
  advance (some p) = some (record p {
    done_machines = suc p.done_machines;
    pct = percent_done (suc p.done_machines) p.total_machines;
  })

  unfoldable pub at_machine : String → String → Option TaskProgress → Option TaskProgress
  at_machine name phase none = none
  at_machine name phase (some p) = some (record p { current = name; phase = phase })

  -- What the machine adds to the results: its own, or one that says that it failed.
  abbrev pub machine_results : Machine → Result (List TaskResult) → List TaskResult
  machine_results m (ok rs) = rs
  machine_results m (err e) = result_of m "" "连接" "failed" ∷ []

  -- The loop over the machines, with the commands sent to each.
  unfoldable pub cleanup_loop :
      Cipher
      → Remote
      → String
      → List CleanupItem
      → Task
      → List Machine
      → Task × List (Machine × List Sent)
  unfolding run_on_machine advance at_machine
  cleanup_loop k r host items task [] = (task, [])
  cleanup_loop k r host items task (m ∷ ms) =
      let p = at_machine m.name "正在执行清理项" task.progress in
      let (res, sent) = run_on_machine k r host m items in
      let (done, log) =
        cleanup_loop k r host items
          (record task { progress = advance p; results = task.results ++ machine_results m res })
          ms in
      (done, (m, sent) ∷ log)

  unfoldable pub run_cleanup :
      Cipher
      → Remote
      → String
      → List CleanupItem
      → Task
      → List Machine
      → Task × List (Machine × List Sent)
  unfolding cleanup_loop
  run_cleanup k r host items task ms =
      let (done, log) = cleanup_loop k r host items task ms in
      (record done { status = "done" }, log)
