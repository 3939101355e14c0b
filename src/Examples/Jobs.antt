-- ===== src/Examples/Jobs.antt =====
-- Tasks: a cleanup and a scan of two machines, and the manager.
use frpilot.Prelude.{
  ◌≡◌, ◌≤◌, ◌⊎◌, refl, true, false, ◌&&◌, some, List, [], ◌∷◌, ◌++◌, pos, arith, any, All,
}
use frpilot.Exec.{calm}
use frpilot.Store.Machines.{Machine, Fleet, new_machine}
use frpilot.Tasks.{Task, TaskProgress, TaskResult, TaskManager}
use frpilot.Tasks.Items.{effective_items, select_items}
use frpilot.Tasks.Manager.{has_id, new_task_manager, new_task}
use frpilot.Tasks.Remote.{Remote}
use frpilot.Tasks.Cleanup.{run_cleanup}
use frpilot.Tasks.Scan.{run_scan}
use frpilot.Tasks.Cap.{IsManaged}
use frpilot.Tasks.Newest.{new_task-newest}
use frpilot.Tasks.Locked.{
  Call, cleans, scans, lacks_machines, is_started, call_all, outcomes, call_all-lacks_machines,
}
use frpilot.Tasks.Whitelist.{is_command_of, is_chosen, run_cleanup-permitted}
use frpilot.Tasks.Finish.{Accounted, run_cleanup_complete}
use frpilot.Tasks.Scanned.{Scanned, run_scan_complete}
use frpilot.Examples.{whole, clear, plain}

abbrev lab : Machine
lab = record (new_machine 1 "lab" (pos 6001) 100) { ssh_user = "root"; ssh_pass_enc = "pw" }

abbrev gpu : Machine
gpu = record (new_machine 2 "gpu" (pos 6002) 100) { ssh_user = "bob"; ssh_pass_enc = "pw" }

abbrev fleet : Fleet
fleet = record { machines = lab ∷ gpu ∷ []; next_machine = 3 }

-- Every machine lets in, and every command succeeds.
abbrev willing : Remote
willing = record {
  dial = λ host port user pass. true;
  reply = λ before s. record { out = "done"; err_out = ""; failed = false };
}

abbrev progress : TaskProgress
progress = record {
  total_machines = 2;
  done_machines = 0;
  current = "lab";
  phase = "准备中";
  pct = pos 0;
}

abbrev task : Task
task = record {
  id = 1;
  kind = "cleanup";
  status = "running";
  created_at = 100;
  operator_id = 1;
  operator = "alice";
  progress = some progress;
  results = [];
}

abbrev both : List Machine
both = lab ∷ gpu ∷ []

new_task_manager-IsManaged : IsManaged new_task_manager
new_task_manager-IsManaged = record {
  numbered = tt;
  distinct = tt;
  positive = omega arith;
  capped = omega arith;
}

new_task-newest_example :
    let (t, tm') = new_task "scan" 100 1 "alice" new_task_manager in
    IsManaged tm'
    × (any (has_id t.id) tm'.tasks ≡ true)
    × All
        (λ u. (any (has_id u.id) tm'.tasks ≡ true) ⊎ All (λ v. u.id ≤ v.id) new_task_manager.tasks)
        new_task_manager.tasks
new_task-newest_example =
    new_task-newest "scan" 100 1 "alice" new_task_manager new_task_manager-IsManaged

abbrev one_task : TaskManager
one_task = record { tasks = task ∷ []; next_id = 2; locked = false }

abbrev calls : List Call
calls =
    scans 100 (1 ∷ []) "quick" 1 "alice" (calm fleet)
    ∷ cleans [] 200 [] [] 1 "alice" (calm fleet)
    ∷ []

abbrev later_calls : List Call
later_calls = cleans [] 300 (1 ∷ []) [] 1 "alice" (calm fleet) ∷ []

call_all-lacks_machines_example :
    let tm' = call_all plain calls one_task in
    (tm'.locked ≡ any lacks_machines calls)
    × ((any lacks_machines calls ≡ false)
        ⊎ ((call_all plain later_calls tm' ≡ tm')
            × (any is_started (outcomes plain later_calls tm') ≡ false)))
call_all-lacks_machines_example = call_all-lacks_machines plain calls later_calls one_task refl

run_cleanup-permitted_example :
    let its = effective_items [] in
    All
      (λ e.
        All
          (λ s. any (λ it. is_command_of e.0 s it && is_chosen ("journal" ∷ []) it) its ≡ true)
          e.1)
      (run_cleanup whole clear willing "" (select_items its ("journal" ∷ [])) task both).1
run_cleanup-permitted_example =
    run_cleanup-permitted whole clear willing "" [] ("journal" ∷ []) task both

run_cleanup_complete_example :
    let its = effective_items [] in
    let done = (run_cleanup whole clear willing "" its task both).0 in
    (done.status ≡ "done")
    × (rs : List TaskResult) × (q : TaskProgress) × (done.results ≡ task.results ++ rs)
    × Accounted its both rs
    × (done.progress ≡ some q)
    × (q.done_machines ≡ q.total_machines)
run_cleanup_complete_example =
    run_cleanup_complete whole clear willing "" (effective_items []) both task progress refl refl
      refl

run_scan_complete_example :
    let done = (run_scan whole clear willing "" "quick" task both).0 in
    (done.status ≡ "done")
    × (rs : List TaskResult) × (q : TaskProgress) × (done.results ≡ task.results ++ rs)
    × Scanned whole clear willing "" both rs
    × (done.progress ≡ some q)
    × (q.done_machines ≡ q.total_machines)
run_scan_complete_example =
    run_scan_complete whole clear willing "" "quick" both task progress refl refl refl
