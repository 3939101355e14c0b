-- ===== src/Tasks/Locked.antt =====
-- Sequences of calls of StartCleanup and StartScan: what a panic with `mu` held does to later calls.
use frpilot.Prelude.{
  ℕ, ◌≡◌, refl, ◌∙◌, ap, String, Bool, true, false, not, ◌&&◌, List, [], ◌∷◌, any, inl, inr, ◌⊎◌,
  Bool-cases,
}
use frpilot.Prelude.Text.{trim_space}
use frpilot.Platform.{Platform}
use frpilot.Exec.{Result, ok, err, pure, Disk}
use frpilot.Store.Machines.{Machine, Fleet}
use frpilot.Tasks.{TaskManager}
use frpilot.Tasks.Items.{CustomCleanupItem, effective_items, select_items}
use frpilot.Tasks.Manager.{
  Outcome, refused, started, panicked, blocked, answer, find_targets, register_cleanup,
  register_scan, start_cleanup, start_scan, is_scan_mode,
}
use frpilot.Tasks.Starting.{List-cases, start_cleanup-IsUsable, start_scan-IsUsable}

-- A call with its arguments, the time, and the database that it meets.
pub data Call : Type 0 where
  cleans :
      List CustomCleanupItem
      → (now : ℕ) (machine_ids : List ℕ) (item_ids : List String) (op : ℕ) (name : String)
      → Disk Fleet
      → Call
  scans :
      (now : ℕ) (machine_ids : List ℕ) (mode : String) (op : ℕ) (name : String) → Disk Fleet → Call

abbrev pub is_empty {ℓ} : {A : Type ℓ} → List A → Bool
is_empty [] = true
is_empty (x ∷ xs) = false

-- A cleanup with items to run but without machines.
abbrev pub lacks_machines : Call → Bool
lacks_machines (cleans custom now machine_ids item_ids op name d) =
    is_empty machine_ids && not (is_empty (select_items (effective_items custom) item_ids))
lacks_machines (scans now machine_ids mode op name d) = false

abbrev pub is_started : Outcome → Bool
is_started (started t) = true
is_started (refused e) = false
is_started panicked = false
is_started blocked = false

module _ (p : Platform) where
  unfoldable pub call : Call → TaskManager → Outcome × TaskManager
  call (cleans custom now is ids op name d) tm = (start_cleanup custom now is ids op name tm d).0
  call (scans now is mode op name d) tm = (start_scan p now is mode op name tm d).0

  unfoldable pub call_all : List Call → TaskManager → TaskManager
  unfolding call
  call_all [] tm = tm
  call_all (c ∷ cs) tm = call_all cs (call c tm).1

  -- How the calls of a sequence end.
  unfoldable pub outcomes : List Call → TaskManager → List Outcome
  unfolding call
  outcomes [] tm = []
  outcomes (c ∷ cs) tm = (call c tm).0 ∷ outcomes cs (call c tm).1

  -- A call changed nothing and started no task.
  abbrev IsHeld : TaskManager → Outcome × TaskManager → Type 0
  IsHeld tm r = (r.1 ≡ tm) × (is_started r.0 ≡ false)

  answer-IsHeld :
      (r : Result (List Machine)) (f : List Machine → TaskManager → Outcome × TaskManager)
      (tm : TaskManager)
      → ((ms : List Machine) → IsHeld tm (f ms tm))
      → IsHeld tm (answer r f tm)
  answer-IsHeld (ok ms) f tm h = h ms
  answer-IsHeld (err e) f tm h = (refl, refl)

  register_scan-IsHeld :
      (now op : ℕ) (name : String) (tm : TaskManager)
      → tm.locked ≡ true
      → (ms : List Machine) → IsHeld tm (register_scan now op name ms tm)
  unfolding register_scan
  register_scan-IsHeld now op name tm held [] = (refl, refl)
  register_scan-IsHeld now op name tm held (m ∷ ms) = rw held (refl, refl)

  call-IsHeld : (c : Call) (tm : TaskManager) → tm.locked ≡ true → IsHeld tm (call c tm)
  unfolding call start_cleanup register_cleanup start_scan
  call-IsHeld (cleans custom now is ids op name d) tm held =
      elim (List-cases (select_items (effective_items custom) ids)) [
        | inl e ↦ rw (call, start_cleanup, e) (refl, refl)
        | inr (it, its, e) ↦
            rw (call, start_cleanup, e)
              (answer-IsHeld (find_targets is d).0 (register_cleanup now op name) tm
                (λ ms. rw (register_cleanup, held) (refl, refl)))
      ]
  call-IsHeld (scans now is mode op name d) tm held =
      elim (Bool-cases (not (is_scan_mode (p.to_lower (trim_space mode))))) [
        | inl e ↦ rw (call, start_scan, e) (refl, refl)
        | inr e ↦
            rw (call, start_scan, e)
              (answer-IsHeld (find_targets is d).0 (register_scan now op name) tm
                (register_scan-IsHeld now op name tm held))
      ]

  call-locked :
      (c : Call) (tm : TaskManager) → tm.locked ≡ false → (call c tm).1.locked ≡ lacks_machines c
  unfolding call start_cleanup register_cleanup find_targets pure
  call-locked (cleans custom now [] ids op name d) tm free =
      elim (List-cases (select_items (effective_items custom) ids)) [
        | inl e ↦ rw (call, start_cleanup, e) free
        | inr (it, its, e) ↦ rw (call, start_cleanup, e, register_cleanup, free) refl
      ]
  call-locked (cleans custom now (i ∷ is) ids op name d) tm free =
      (start_cleanup-IsUsable custom now i is ids op name tm d free).0
  call-locked (scans now is mode op name d) tm free =
      (start_scan-IsUsable p now is mode op name tm d free).0

  call_all-held :
      (cs : List Call) (tm : TaskManager)
      → tm.locked ≡ true
      → (call_all cs tm ≡ tm) × (any is_started (outcomes cs tm) ≡ false)
  unfolding call_all outcomes
  call_all-held [] tm held = (refl, refl)
  call_all-held (c ∷ cs) tm held =
      let (same, none) = call-IsHeld c tm held in rw (same, none) (call_all-held cs tm held)

  call_all-locked :
      (cs : List Call) (tm : TaskManager)
      → tm.locked ≡ false
      → (call_all cs tm).locked ≡ any lacks_machines cs
  unfolding call_all
  call_all-locked [] tm free = free
  call_all-locked (c ∷ cs) tm free = elim (Bool-cases (lacks_machines c)) [
    | inl e ↦ rw e (
        ap (λ t. t.locked) (call_all-held cs (call c tm).1 (call-locked c tm free ∙ e)).0
        ∙ call-locked c tm free
        ∙ e)
    | inr e ↦ rw e (call_all-locked cs (call c tm).1 (call-locked c tm free ∙ e))
  ]

  -- From a time at which the lock is free, a sequence of calls leaves it held exactly when one of
  -- them is a cleanup with items to run but without machines. If one is, then of the calls that
  -- follow none starts a task or changes the manager.
  pub call_all-lacks_machines :
      (before after : List Call) (tm : TaskManager)
      → tm.locked ≡ false
      → let tm' = call_all before tm in
        (tm'.locked ≡ any lacks_machines before)
        × ((any lacks_machines before ≡ false)
            ⊎ ((call_all after tm' ≡ tm') × (any is_started (outcomes after tm') ≡ false)))
  call_all-lacks_machines before after tm free =
      let locked = call_all-locked before tm free in
      (
        locked,
        elim (Bool-cases (any lacks_machines before)) [
          | inl e ↦ inr (call_all-held after (call_all before tm) (locked ∙ e))
          | inr e ↦ inl e
        ],
      )
