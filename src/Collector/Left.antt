-- ===== src/Collector/Left.antt =====
-- The loops of a machine that has been switched off end.
use frpilot.Prelude.{
  ℕ, ◌+◌, ◌*◌, ◌≤◌, ◌≡◌, refl, false, if◌then◌else◌, ◌==◌, List, [], ◌∷◌, count, count-append, All,
  arith,
}
use frpilot.Collector.{
  Actor, waits, collects, turns_off, rereads, syncs, Collector, move_at, Event, moves, writes,
  collects_now, stops, step, run,
}
use frpilot.Collector.Covered.{is_loop_of, any-append}
use frpilot.Collector.Leaving.{
  is_request_of, moves_left, weight, weight-append, loops_of, turn_at, IsOff, move_at-Moved,
}

module _ (i : ℕ) where
  abbrev pub turn : Event → Collector → ℕ
  turn (moves n flag) c = turn_at i n c.actors
  turn (writes j b) c = 0
  turn (collects_now j) c = 0
  turn stops c = 0

  -- How many moves of a run are moves of loops of the machine.
  unfoldable pub turns : List Event → Collector → ℕ
  turns [] c = 0
  turns (e ∷ es) c = turn e c + turns es (step e c)

  -- The event writes no switch of the machine.
  abbrev pub LeavesAlone : Event → Type 0
  LeavesAlone (moves n flag) = Unit
  LeavesAlone (writes j b) = (j == i) ≡ false
  LeavesAlone (collects_now j) = Unit
  LeavesAlone stops = Unit

  -- Switched off in the table and in the map, with no request under way.
  abbrev pub OffNow : Collector → Type 0
  OffNow c = IsOff i c.actors (record c { actors = [] })

  step-Moved :
      (e : Event) (c : Collector)
      → LeavesAlone e
      → OffNow c
      → OffNow (step e c)
        × (weight i (step e c).actors + turn e c ≤ weight i c.actors)
        × (loops_of i (step e c).actors ≤ loops_of i c.actors)
  unfolding step
  step-Moved (moves n flag) c alone off =
      let r = move_at n flag c.actors (record c { actors = [] }) in
      let (off', less, fewer) = move_at-Moved i n flag c.actors (record c { actors = [] }) off in
      (
        record {
          unlisted = off'.unlisted;
          disabled = off'.disabled;
          quiet =
              rw (any-append (is_request_of i) r.1.actors r.0)
                (ground (arith, off'.calm, off'.quiet));
          calm = refl;
        },
        omega (arith, weight-append i r.1.actors r.0),
        omega (arith, count-append (is_loop_of i) r.1.actors r.0),
      )
  step-Moved (writes j b) c alone off = (
    record {
      unlisted = off.unlisted;
      disabled = ground (arith, alone, off.disabled);
      quiet = ground (arith, alone, off.quiet);
      calm = refl;
    },
    omega arith,
    ground arith,
  )
  step-Moved (collects_now j) c alone off = (
    record { unlisted = off.unlisted; disabled = off.disabled; quiet = off.quiet; calm = refl },
    omega arith,
    ground arith,
  )
  step-Moved stops c alone off = (
    record { unlisted = off.unlisted; disabled = off.disabled; quiet = off.quiet; calm = refl },
    omega arith,
    ground arith,
  )

  run-weight :
      (es : List Event) (c : Collector)
      → All LeavesAlone es
      → OffNow c
      → (weight i (run es c).actors + turns es c ≤ weight i c.actors)
        × (loops_of i (run es c).actors ≤ loops_of i c.actors)
  unfolding run turns
  run-weight [] c alone off = (omega arith, omega arith)
  run-weight (e ∷ es) c alone off =
      let (off', less, fewer) = step-Moved e c alone.0 off in
      let (lighter, rest) = run-weight es (step e c) alone.1 off' in (omega arith, omega arith)

  moves_left-bounds :
      (a : Actor)
      → ((if is_loop_of i a then 1 else 0) ≤ moves_left i a)
        × (moves_left i a ≤ 3 * (if is_loop_of i a then 1 else 0))
  moves_left-bounds (waits j) = ground arith
  moves_left-bounds (collects l j) = ground arith
  moves_left-bounds (turns_off l j) = ground arith
  moves_left-bounds (rereads j) = omega arith
  moves_left-bounds (syncs j b) = omega arith

  weight-bounds :
      (gs : List Actor)
      → (count (is_loop_of i) gs ≤ weight i gs) × (weight i gs ≤ 3 * count (is_loop_of i) gs)
  weight-bounds [] = omega arith
  weight-bounds (a ∷ gs) =
      let (low, high) = moves_left-bounds a in
      let (lows, highs) = weight-bounds gs in (omega arith, omega arith)

  -- A machine is switched off in the table, it is not in `loops`, no request for it is under way,
  -- and none comes: however goroutines interleave, its loops never become more, and its loops that
  -- are left and the moves that its loops have made are together at most three times the loops that
  -- it had.
  pub run-leaves :
      (es : List Event) (c : Collector)
      → All LeavesAlone es
      → OffNow c
      → (count (is_loop_of i) (run es c).actors ≤ count (is_loop_of i) c.actors)
        × (count (is_loop_of i) (run es c).actors + turns es c ≤ 3 * count (is_loop_of i) c.actors)
  run-leaves es c alone off =
      let (lighter, fewer) = run-weight es c alone off in
      (fewer, omega (arith, lighter, weight-bounds (run es c).actors, weight-bounds c.actors))
