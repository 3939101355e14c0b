-- ===== src/Tasks/Manager.antt =====
-- internal/actions/cleanup.go and scan.go: newTaskLocked, newTask, ListTasks, and the part of
-- StartCleanup and StartScan before the goroutine.
use frpilot.Prelude.{
  ℕ, zero, suc, String, str_eq, Bool, true, false, if◌then◌else◌, Option, none, some, List, [], ◌∷◌,
  ◌++◌, ◌==◌, ◌||◌, not, find?, keep, length, map, ltb, ℤ, pos, negsuc, take,
}
use frpilot.Prelude.Text.{trim_space}
use frpilot.Platform.{Platform}
use frpilot.Exec.{
  Error, Result, ok, err, no_items, no_targets, unknown_mode, no_credentials, Disk, Exec, pure,
  fail, ◌>>=◌,
}
use frpilot.Store.Machines.{Machine, Fleet, get_machine_by_id}
use frpilot.Tasks.{Task, TaskManager}
use frpilot.Tasks.Items.{CustomCleanupItem, effective_items, select_items}

abbrev pub new_task_manager : TaskManager
new_task_manager = record { tasks = []; next_id = 1; locked = false }

abbrev pub has_id : ℕ → Task → Bool
has_id i t = t.id == i

-- The loop `if oldest == 0 || id < oldest`.
unfoldable pub oldest_id : ℕ → List Task → ℕ
oldest_id oldest [] = oldest
oldest_id oldest (t ∷ ts) = oldest_id (if oldest == 0 || ltb t.id oldest then t.id else oldest) ts

unfoldable pub evict : List Task → List Task
unfolding oldest_id
evict ts =
    if ltb 50 (length ts) then (let o = oldest_id 0 ts in keep (λ t. not (has_id o t)) ts) else ts

unfoldable pub new_task : String → ℕ → ℕ → String → TaskManager → Task × TaskManager
unfolding evict
new_task kind now op_id op_name tm =
    let task : Task = record {
      id = tm.next_id;
      kind = kind;
      status = "running";
      created_at = now;
      operator_id = op_id;
      operator = op_name;
      progress = none;
      results = [];
    } in
    (task, record tm { next_id = suc tm.next_id; tasks = evict (tm.tasks ++ task ∷ []) })

-- The pass of the inner loop: `ids[j] > ids[i]` swaps the two.
unfoldable pub sift : ℕ → List ℕ → ℕ × List ℕ
sift x [] = (x, [])
sift x (y ∷ ys) =
    let (m, rest) = sift (if ltb x y then y else x) ys in (m, (if ltb x y then x else y) ∷ rest)

-- The outer loop, from the position at which n ids are left.
unfoldable pub sort_down : ℕ → List ℕ → List ℕ
unfolding sift
sort_down n [] = []
sort_down zero (x ∷ xs) = x ∷ xs
sort_down (suc n) (x ∷ xs) = let (m, rest) = sift x xs in m ∷ sort_down n rest

unfoldable pub page_size : ℤ → ℕ
page_size (pos zero) = 10
page_size (pos (suc n)) = if ltb 50 (suc n) then 10 else suc n
page_size (negsuc n) = 10

-- The ids of the tasks that ListTasks returns, in its order.
unfoldable pub list_task_ids : ℤ → TaskManager → List ℕ
unfolding sort_down page_size
list_task_ids limit tm =
    take (page_size limit) (sort_down (length tm.tasks) (map (λ t. t.id) tm.tasks))

unfoldable pub list_tasks : ℤ → TaskManager → List (Option Task)
unfolding list_task_ids
list_tasks limit tm = map (λ i. find? (has_id i) tm.tasks) (list_task_ids limit tm)

-- The loop that looks up the machines.
unfoldable pub find_targets : List ℕ → Exec Fleet (List Machine)
find_targets [] = pure []
find_targets (i ∷ is) = do
  m ← get_machine_by_id i
  if str_eq m.ssh_user "" then fail no_credentials else do ms ← find_targets is; pure (m ∷ ms)

-- How a call ends: with an error, with a task, in a panic on `machines[0]` of an empty slice, or
-- not at all, waiting for `mu`.
pub data Outcome : Type 0 where
  refused : Error → Outcome
  started : Task → Outcome
  panicked blocked : Outcome

abbrev pub preparing : Task → List Machine → Machine → Task
preparing t ms m = record t {
  progress = some (record {
    total_machines = length ms;
    done_machines = 0;
    current = m.name;
    phase = "准备中";
    pct = pos 0;
  });
}

-- `tasks` holds pointers: a change of the task shows in the map.
unfoldable pub replace_task : Task → TaskManager → TaskManager
replace_task t tm = record tm { tasks = map (λ u. if has_id t.id u then t else u) tm.tasks }

-- The registration of a cleanup, which holds `mu` while it evaluates `machines[0]`.
unfoldable pub register_cleanup :
    ℕ → ℕ → String → List Machine → TaskManager → Outcome × TaskManager
unfolding new_task replace_task
register_cleanup now op_id op_name machines tm =
    if tm.locked
    then (blocked, tm)
    else (let (task, tm') = new_task "cleanup" now op_id op_name tm in
        elim machines [
          | [] ↦ (panicked, record tm' { locked = true })
          | ◌∷◌ m ms ↦ let t = preparing task (m ∷ ms) m in (started t, replace_task t tm')
        ])

abbrev pub answer :
    Result (List Machine)
    → (List Machine → TaskManager → Outcome × TaskManager)
    → TaskManager
    → Outcome × TaskManager
answer (ok ms) f tm = f ms tm
answer (err e) f tm = (refused e, tm)

unfoldable pub start_cleanup :
    List CustomCleanupItem
    → ℕ
    → List ℕ
    → List String
    → ℕ
    → String
    → TaskManager
    → Disk Fleet
    → (Outcome × TaskManager) × Disk Fleet
unfolding select_items effective_items find_targets register_cleanup
start_cleanup custom now machine_ids item_ids op_id op_name tm d =
    elim (select_items (effective_items custom) item_ids) [
      | [] ↦ ((refused no_items, tm), d)
      | ◌∷◌ it its ↦
          let (r, d') = find_targets machine_ids d in
          (answer r (register_cleanup now op_id op_name) tm, d')
    ]

abbrev pub is_scan_mode : String → Bool
is_scan_mode mode =
    str_eq mode "quick" || str_eq mode "full" || str_eq mode "rootkit" || str_eq mode "update"

unfoldable pub register_scan : ℕ → ℕ → String → List Machine → TaskManager → Outcome × TaskManager
unfolding new_task replace_task
register_scan now op_id op_name [] tm = (refused no_targets, tm)
register_scan now op_id op_name (m ∷ ms) tm =
    if tm.locked
    then (blocked, tm)
    else (let (task, tm') = new_task "scan" now op_id op_name tm in
        let t = preparing task (m ∷ ms) m in (started t, replace_task t tm'))

unfoldable pub start_scan :
    Platform
    → ℕ
    → List ℕ
    → String
    → ℕ
    → String
    → TaskManager
    → Disk Fleet
    → (Outcome × TaskManager) × Disk Fleet
unfolding find_targets register_scan
start_scan p now machine_ids mode op_id op_name tm d =
    if not (is_scan_mode (p.to_lower (trim_space mode)))
    then ((refused unknown_mode, tm), d)
    else (let (r, d') = find_targets machine_ids d in
        (answer r (register_scan now op_id op_name) tm, d'))
