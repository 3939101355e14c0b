-- ===== src/Tasks/Starting.antt =====
-- How a call of StartCleanup or StartScan ends.
use frpilot.Prelude.{
  ℕ, ◌≡◌, refl, subst, sym, String, str_eq, false, not, List, [], ◌∷◌, arith, All, inl, inr, ◌⊎◌,
  Bool-cases, length,
}
use frpilot.Prelude.Text.{trim_space}
use frpilot.Platform.{Platform}
use frpilot.Exec.{
  Error, Result, ok, err, no_items, no_targets, unknown_mode, Disk, Result-cases, ◌>>=◌,
}
use frpilot.Store.Machines.{Machine, Fleet, get_machine_by_id}
use frpilot.Tasks.{CleanupItem, Task, TaskManager}
use frpilot.Tasks.Items.{CustomCleanupItem, effective_items, select_items}
use frpilot.Tasks.Manager.{
  new_task, find_targets, Outcome, refused, started, register_cleanup, register_scan, start_cleanup,
  start_scan, answer, is_scan_mode, replace_task,
}

-- The machines that are found are as many as the ids, and each has an SSH user.
find_targets-found :
    (is : List ℕ) (d : Disk Fleet) (ms : List Machine)
    → (find_targets is d).0 ≡ ok ms
    → (length ms ≡ length is) × All (λ m. str_eq m.ssh_user "" ≡ false) ms
unfolding find_targets ◌>>=◌
find_targets-found [] d [] h = (refl, tt)
find_targets-found [] d (m ∷ ms) h = absurd (ground arith)
find_targets-found (i ∷ is) d ms h = elim (Result-cases (get_machine_by_id i d).0) [
  | inr (x, e) ↦ absurd (ground arith)
  | inl (m, e) ↦
      let d' = (get_machine_by_id i d).1 in
      elim (Result-cases (find_targets is d').0) [
        | inr (x, f) ↦ absurd (ground arith)
        | inl (ns, f) ↦
            let g = find_targets-found is d' ns f in
            let w : (str_eq m.ssh_user "" ≡ false) × (ms ≡ m ∷ ns) = ground arith in
            subst (λ ms. (length ms ≡ length (i ∷ is)) × All (λ m. str_eq m.ssh_user "" ≡ false) ms)
              (sym w.1) (omega (arith, g.0), (w.0, g.1))
      ]
]

-- A call left the lock free, and ended with an error and no change, or with a task.
abbrev pub IsUsable : TaskManager → Outcome × TaskManager → Type 0
IsUsable tm r =
    (r.1.locked ≡ false)
    × (((e : Error) × (r.0 ≡ refused e) × (r.1 ≡ tm)) ⊎ ((t : Task) × (r.0 ≡ started t)))

register_cleanup-IsUsable :
    (now op : ℕ) (name : String) (m : Machine) (ms : List Machine) (tm : TaskManager)
    → tm.locked ≡ false
    → IsUsable tm (register_cleanup now op name (m ∷ ms) tm)
unfolding register_cleanup new_task replace_task
register_cleanup-IsUsable now op name m ms tm free = rw free (refl, inr (_, refl))

register_scan-IsUsable :
    (now op : ℕ) (name : String) (ms : List Machine) (tm : TaskManager)
    → tm.locked ≡ false
    → IsUsable tm (register_scan now op name ms tm)
unfolding register_scan new_task replace_task
register_scan-IsUsable now op name [] tm free = (free, inl (no_targets, refl, refl))
register_scan-IsUsable now op name (m ∷ ms) tm free = rw free (refl, inr (_, refl))

answer-IsUsable :
    (r : Result (List Machine)) (f : List Machine → TaskManager → Outcome × TaskManager)
    (tm : TaskManager)
    → tm.locked ≡ false
    → ((ms : List Machine) → r ≡ ok ms → IsUsable tm (f ms tm))
    → IsUsable tm (answer r f tm)
answer-IsUsable (ok ms) f tm free h = h ms refl
answer-IsUsable (err e) f tm free h = (free, inl (e, refl, refl))

pub List-cases :
    (its : List CleanupItem)
    → (its ≡ []) ⊎ ((it : CleanupItem) × (rest : List CleanupItem) × (its ≡ it ∷ rest))
List-cases [] = inl refl
List-cases (it ∷ its) = inr (it, its, refl)

-- A call of StartCleanup for at least one machine, at a time when the lock is free, leaves it free;
-- it ends with a task or with an error, which leaves the manager as it was, and not in a panic.
pub start_cleanup-IsUsable :
    (custom : List CustomCleanupItem) (now i : ℕ) (is : List ℕ) (ids : List String) (op : ℕ)
    (name : String) (tm : TaskManager) (d : Disk Fleet)
    → tm.locked ≡ false
    → IsUsable tm (start_cleanup custom now (i ∷ is) ids op name tm d).0
unfolding start_cleanup
start_cleanup-IsUsable custom now i is ids op name tm d free =
    elim (List-cases (select_items (effective_items custom) ids)) [
      | inl e ↦ rw (start_cleanup, e) (free, inl (no_items, refl, refl))
      | inr (it, its, e) ↦
          rw (start_cleanup, e)
            (answer-IsUsable (find_targets (i ∷ is) d).0 (register_cleanup now op name) tm free
              (λ ms h. some_machine ms (find_targets-found (i ∷ is) d ms h).0))
    ]
  where
    some_machine :
        (ms : List Machine)
        → length ms ≡ length (i ∷ is)
        → IsUsable tm (register_cleanup now op name ms tm)
    some_machine [] l = absurd (omega (arith, l))
    some_machine (m ∷ ms) l = register_cleanup-IsUsable now op name m ms tm free

-- A call of StartScan, at a time when the lock is free, leaves it free; it ends with a task or with
-- an error, which leaves the manager as it was.
pub start_scan-IsUsable :
    (p : Platform) (now : ℕ) (is : List ℕ) (mode : String) (op : ℕ) (name : String)
    (tm : TaskManager) (d : Disk Fleet)
    → tm.locked ≡ false
    → IsUsable tm (start_scan p now is mode op name tm d).0
unfolding start_scan
start_scan-IsUsable p now is mode op name tm d free =
    elim (Bool-cases (not (is_scan_mode (p.to_lower (trim_space mode))))) [
      | inl e ↦ rw e (free, inl (unknown_mode, refl, refl))
      | inr e ↦ rw e (
          answer-IsUsable (find_targets is d).0 (register_scan now op name) tm free
            (λ ms h. register_scan-IsUsable now op name ms tm free))
    ]
