-- ===== src/Collector/Covered.antt =====
-- Each key of `loops` has a running loop.
use frpilot.Prelude.{
  ℕ, zero, suc, ◌≡◌, ◌⊎◌, refl, subst, ◌∙◌, Bool, true, false, if◌then◌else◌, not, ◌==◌, ==_iff,
  ◌&&◌, ◌||◌, List, [], ◌∷◌, ◌++◌, any, inl, inr, arith, Bool-cases,
}
use frpilot.Store.Machines.{Machine}
use frpilot.Collector.{
  Actor, waits, collects, turns_off, rereads, syncs, Collector, is_collecting, add_loop,
  delete_loop, start_loop, sync_machine, start, advance, move_at, Event, moves, writes,
  collects_now, stops, step, run,
}

abbrev pub has_loop : ℕ → List ℕ → Bool
has_loop i loops = any (λ j. j == i) loops

-- A goroutine that runs `loop` for the machine.
abbrev pub is_loop_of : ℕ → Actor → Bool
is_loop_of i (waits j) = j == i
is_loop_of i (collects l j) = if l then j == i else false
is_loop_of i (turns_off l j) = if l then j == i else false
is_loop_of i (rereads j) = false
is_loop_of i (syncs j b) = false

pub any-append {ℓ} :
    {A : Type ℓ} (p : A → Bool) (xs ys : List A) → any p (xs ++ ys) ≡ (any p xs || any p ys)
any-append p [] ys = refl
any-append p (x ∷ xs) ys = ground (arith, any-append p xs ys)

pub has_loop-add : (i j : ℕ) (ls : List ℕ) → has_loop i (add_loop j ls) ≡ (j == i || has_loop i ls)
has_loop-add i j ls = elim (Bool-cases (j == i)) [
  | inl e ↦ let same : j ≡ i = (==_iff j i).0 e in rw same (ground arith)
  | inr e ↦ ground arith
]

pub has_loop-delete :
    (i j : ℕ) (ls : List ℕ) → has_loop i (delete_loop j ls) ≡ (not (j == i) && has_loop i ls)
has_loop-delete i j [] = ground arith
has_loop-delete i j (l ∷ ls) = ground (arith, has_loop-delete i j ls)

module _ (i : ℕ) where
  -- If the machine is a key, one of these goroutines or of those just started is its loop.
  abbrev Covers : List Actor → Collector → Type 0
  Covers gs c =
      has_loop i c.loops ≡ true → (any (is_loop_of i) gs || any (is_loop_of i) c.actors) ≡ true

  sync_machine-Covers :
      (j : ℕ) (enabled : Bool) (gs : List Actor) (c : Collector)
      → Covers gs c
      → Covers gs (sync_machine j enabled c)
  unfolding sync_machine is_collecting start_loop
  sync_machine-Covers j enabled gs c h =
      ground (arith, h, has_loop-add i j c.loops, has_loop-delete i j c.loops, ==_iff j i)

  advance-Covers :
      (flag : Bool) (a : Actor) (gs : List Actor) (c : Collector)
      → c.stopped ≡ false
      → Covers (a ∷ gs) c
      → Covers ((advance flag a c).0 ++ gs) (advance flag a c).1
  unfolding advance is_collecting
  advance-Covers flag (waits j) gs c s h = elim (Bool-cases (has_loop j c.loops)) [
    | inl e ↦ rw (advance, s, e) h
    | inr e ↦
        rw (advance, s, e)
          (λ m. elim (Bool-cases (j == i)) [
            | inl t ↦
                let same : j ≡ i = (==_iff j i).0 t in
                absurd (cc (subst (λ k. has_loop k c.loops ≡ false) same e))
            | inr t ↦ rw t at (h m)
          ])
  ]
  advance-Covers true (collects true j) gs c s h = h
  advance-Covers true (collects false j) gs c s h = h
  advance-Covers false (collects true j) gs c s h = elim (Bool-cases (c.is_enabled j)) [
    | inl e ↦ rw (advance, e) h
    | inr e ↦ rw (advance, e) h
  ]
  advance-Covers false (collects false j) gs c s h = elim (Bool-cases (c.is_enabled j)) [
    | inl e ↦ rw (advance, e) h
    | inr e ↦ rw (advance, e) h
  ]
  advance-Covers flag (turns_off true j) gs c s h = sync_machine-Covers j false (waits j ∷ gs) c h
  advance-Covers flag (turns_off false j) gs c s h = sync_machine-Covers j false gs c h
  advance-Covers true (rereads j) gs c s h = h
  advance-Covers false (rereads j) gs c s h = h
  advance-Covers flag (syncs j b) gs c s h = sync_machine-Covers j b gs c h

  move_at-Covers :
      (n : ℕ) (flag : Bool) (gs : List Actor) (c : Collector)
      → c.stopped ≡ false
      → Covers gs c
      → Covers (move_at n flag gs c).0 (move_at n flag gs c).1
  unfolding move_at
  move_at-Covers n flag [] c s h = h
  move_at-Covers zero flag (a ∷ gs) c s h = advance-Covers flag a gs c s h
  move_at-Covers (suc n) flag (a ∷ gs) c s h = elim (Bool-cases (is_loop_of i a)) [
    | inl e ↦ λ m. rw e refl
    | inr e ↦
        λ m. let h' : Covers gs c = λ x. rw e at (h x) in rw e (move_at-Covers n flag gs c s h' m)
  ]

  -- If the machine is a key, a goroutine runs its loop.
  abbrev pub IsCovered : Collector → Type 0
  IsCovered c = has_loop i c.loops ≡ true → any (is_loop_of i) c.actors ≡ true

  -- Until Stop is called.
  abbrev WhileRunning : Collector → Type 0
  WhileRunning c = (c.stopped ≡ true) ⊎ IsCovered c

  sync-stopped : (j : ℕ) (b : Bool) (c : Collector) → (sync_machine j b c).stopped ≡ c.stopped
  unfolding sync_machine start_loop
  sync-stopped j b c = ground arith

  advance-stopped :
      (flag : Bool) (a : Actor) (c : Collector) → (advance flag a c).1.stopped ≡ c.stopped
  unfolding advance
  advance-stopped flag (waits j) c = ground arith
  advance-stopped flag (collects l j) c = ground arith
  advance-stopped flag (turns_off l j) c = sync-stopped j false c
  advance-stopped flag (rereads j) c = ground arith
  advance-stopped flag (syncs j b) c = sync-stopped j b c

  move_at-stopped :
      (n : ℕ) (flag : Bool) (gs : List Actor) (c : Collector)
      → (move_at n flag gs c).1.stopped ≡ c.stopped
  unfolding move_at
  move_at-stopped n flag [] c = refl
  move_at-stopped zero flag (a ∷ gs) c = advance-stopped flag a c
  move_at-stopped (suc n) flag (a ∷ gs) c = move_at-stopped n flag gs c

  step-WhileRunning : (e : Event) (c : Collector) → WhileRunning c → WhileRunning (step e c)
  unfolding step
  step-WhileRunning (moves n flag) c (inl s) =
      inl (move_at-stopped n flag c.actors (record c { actors = [] }) ∙ s)
  step-WhileRunning (moves n flag) c (inr h) = elim (Bool-cases c.stopped) [
    | inl s ↦ inl (move_at-stopped n flag c.actors (record c { actors = [] }) ∙ s)
    | inr s ↦ inr (λ m.
        let r = move_at n flag c.actors (record c { actors = [] }) in
        let started =
          move_at-Covers n flag c.actors (record c { actors = [] }) s (λ x. ground (arith, h x))
            m in
        rw (any-append (is_loop_of i) r.1.actors r.0) (ground (arith, started)))
  ]
  step-WhileRunning (writes j b) c h = h
  step-WhileRunning (collects_now j) c h = h
  step-WhileRunning stops c h = inl refl

  run-WhileRunning : (es : List Event) (c : Collector) → WhileRunning c → WhileRunning (run es c)
  unfolding run
  run-WhileRunning [] c h = h
  run-WhileRunning (e ∷ es) c h = run-WhileRunning es (step e c) (step-WhileRunning e c h)

  start_loop-IsCovered : (j : ℕ) (c : Collector) → IsCovered c → IsCovered (start_loop j c)
  unfolding start_loop
  start_loop-IsCovered j c h = ground (arith, h, has_loop-add i j c.loops)

  start-IsCovered : (ms : List Machine) (c : Collector) → IsCovered c → IsCovered (start ms c)
  unfolding start
  start-IsCovered [] c h = h
  start-IsCovered (m ∷ ms) c h = start-IsCovered ms _ (elim (Bool-cases m.enabled) [
    | inl e ↦ rw e (start_loop-IsCovered m.id c h)
    | inr e ↦ rw e h
  ])

-- New, over a table with this column.
abbrev pub fresh : (ℕ → Bool) → Collector
fresh is_enabled = record { loops = []; actors = []; is_enabled = is_enabled; stopped = false }

-- However the loops, the requests that switch machines on and off, and manual collections
-- interleave after Start, and whichever reads of the table fail: as long as Stop has not been called,
-- a loop runs for each machine that IsCollecting reports.
pub run-IsCovered :
    (ms : List Machine) (is_enabled : ℕ → Bool) (es : List Event) (i : ℕ)
    → (run es (start ms (fresh is_enabled))).stopped ≡ false
    → is_collecting i (run es (start ms (fresh is_enabled))) ≡ true
    → any (is_loop_of i) (run es (start ms (fresh is_enabled))).actors ≡ true
unfolding is_collecting
run-IsCovered ms is_enabled es i running m =
    elim (run-WhileRunning i es (start ms (fresh is_enabled))
      (inr (start-IsCovered i ms (fresh is_enabled) (λ x. absurd (cc))))) [
        | inl s ↦ absurd (cc)
        | inr h ↦ h m
      ]
