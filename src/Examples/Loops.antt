-- ===== src/Examples/Loops.antt =====
-- Collection loops of one machine.
use frpilot.Prelude.{ℕ, ◌+◌, ◌*◌, ◌≤◌, ◌≡◌, refl, Bool, true, false, [], ◌∷◌, List, any, count, pos}
use frpilot.Store.Machines.{Machine, new_machine}
use frpilot.Collector.{
  Collector, waits, collects, advance, start, run, is_collecting, moves, writes, Event,
}
use frpilot.Collector.Covered.{is_loop_of, fresh, run-IsCovered}
use frpilot.Collector.Left.{turns, run-leaves}
use frpilot.Collector.Races.{race, run-race}

abbrev monitored : Machine
monitored = record (new_machine 4 "lab" (pos 6000) 100) { enabled = true }

abbrev all_on : ℕ → Bool
all_on i = true

-- The collection ends, a ticker fires, and a request switches the machine off.
abbrev some_events : List Event
some_events = moves 0 false ∷ moves 0 false ∷ writes 4 false ∷ moves 0 false ∷ []

run-IsCovered_example :
    any (is_loop_of 4) (run some_events (start (monitored ∷ []) (fresh all_on))).actors ≡ true
unfolding run start
run-IsCovered_example = run-IsCovered (monitored ∷ []) all_on some_events 4 refl refl

-- Two loops of a machine that was switched off, on, and off again.
abbrev two_loops : Collector
two_loops = record {
  loops = [];
  actors = waits 4 ∷ waits 4 ∷ [];
  is_enabled = λ i. false;
  stopped = false;
}

run-leaves_example :
    (count (is_loop_of 4) (run (moves 1 false ∷ moves 0 false ∷ []) two_loops).actors
      ≤ count (is_loop_of 4) two_loops.actors)
    × (count (is_loop_of 4) (run (moves 1 false ∷ moves 0 false ∷ []) two_loops).actors
          + turns 4 (moves 1 false ∷ moves 0 false ∷ []) two_loops
        ≤ 3 * count (is_loop_of 4) two_loops.actors)
run-leaves_example =
    run-leaves 4 (moves 1 false ∷ moves 0 false ∷ []) two_loops (tt, (tt, tt))
      (record { unlisted = refl; disabled = refl; quiet = refl; calm = refl })

abbrev one_loop : Collector
one_loop = record { loops = 4 ∷ []; actors = waits 4 ∷ []; is_enabled = all_on; stopped = false }

run-race_example :
    let c' = run (race 4) one_loop in
    (c'.is_enabled 4 ≡ true)
    × (is_collecting 4 c' ≡ false)
    × (c'.actors ≡ one_loop.actors)
    × (advance false (waits 4) c' ≡ ([], c'))
    × (advance false (collects true 4) c' ≡ (waits 4 ∷ [], c'))
unfolding is_collecting
run-race_example = run-race 4 false one_loop refl
