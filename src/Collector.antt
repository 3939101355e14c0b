-- ===== src/Collector.antt =====
-- internal/collector/collector.go: the collection loops, their set `loops`, and how they interleave
-- with the requests that switch the monitoring of a machine on and off (handleMachineEnable and
-- handleCollectNow of internal/web/handlers.go). What a collection does between the reading of the
-- machine and its end is in Collector/Round.
pub mod Covered
pub mod Leaving
pub mod Left
pub mod Races
pub mod Modules
pub mod Tools
pub mod Reported
pub mod Listings
pub mod Parser
pub mod Sections
pub mod Scripts
pub mod Rates
pub mod Snapshots
pub mod Round
pub mod Outcome
pub mod Kept
use frpilot.Prelude.{
  ℕ, zero, suc, Bool, true, false, if◌then◌else◌, not, ◌==◌, ◌&&◌, List, [], ◌∷◌, ◌++◌, keep, any,
  length,
}
use frpilot.Store.Machines.{Machine}

-- Where a goroutine stands: a loop that waits for its tickers; a collection, of a loop or of one
-- request, about to read the machine; one that has read that it is switched off, about to call
-- SyncMachine; and a request that has written the switch, about to read the machine again, and one
-- that has read it, about to call SyncMachine.
pub data Actor : Type 0 where
  waits : (id : ℕ) → Actor
  collects turns_off : (is_loop : Bool) (id : ℕ) → Actor
  rereads : (id : ℕ) → Actor
  syncs : (id : ℕ) → Bool → Actor

-- `loops` are the keys of the map, and `is_enabled` is the column of the table.
pub record Collector : Type 0 where
  pub loops : List ℕ
  pub actors : List Actor
  pub is_enabled : ℕ → Bool
  pub stopped : Bool

unfoldable pub is_collecting : ℕ → Collector → Bool
is_collecting i c = any (λ j. j == i) c.loops

unfoldable pub count_loops : Collector → ℕ
count_loops c = length c.loops

-- c.loops[id] = struct{}{}
abbrev pub add_loop : ℕ → List ℕ → List ℕ
add_loop i loops = if any (λ j. j == i) loops then loops else i ∷ loops

-- delete(c.loops, id)
abbrev pub delete_loop : ℕ → List ℕ → List ℕ
delete_loop i loops = keep (λ j. not (j == i)) loops

-- startLoop; a loop begins with a collection.
unfoldable pub start_loop : ℕ → Collector → Collector
start_loop i c = record c { loops = add_loop i c.loops; actors = collects true i ∷ c.actors }

-- SyncMachine for a machine with this id and switch.
unfoldable pub sync_machine : ℕ → Bool → Collector → Collector
unfolding is_collecting start_loop
sync_machine i enabled c =
    if enabled
    then (if is_collecting i c then c else start_loop i c)
    else record c { loops = delete_loop i c.loops }

-- Start, on the machines of the table.
unfoldable pub start : List Machine → Collector → Collector
unfolding start_loop
start [] c = c
start (m ∷ ms) c = start ms (if m.enabled then start_loop m.id c else c)

-- The end of a collection: a loop waits again, and a request is over.
abbrev pub done : Bool → ℕ → List Actor
done is_loop i = if is_loop then waits i ∷ [] else []

-- The next move of a goroutine, which is taken out of `actors`: what takes its place. `flag` decides
-- what it cannot see: for a loop that waits, whether `select` takes a closed stopCh, and for a
-- collection, whether the machine cannot be read.
unfoldable pub advance : Bool → Actor → Collector → List Actor × Collector
unfolding is_collecting sync_machine
advance flag (waits i) c =
    if c.stopped && flag
    then ([], c)
    else if is_collecting i c
    then (collects true i ∷ [], c)
    else ([], c)
advance flag (collects is_loop i) c =
    if flag
    then (done is_loop i, c)
    else if c.is_enabled i
    then (done is_loop i, c)
    else (turns_off is_loop i ∷ [], c)
advance flag (turns_off is_loop i) c = (done is_loop i, sync_machine i false c)
advance flag (rereads i) c = if flag then ([], c) else (syncs i (c.is_enabled i) ∷ [], c)
advance flag (syncs i enabled) c = ([], sync_machine i enabled c)

-- The goroutine at place `n` moves; those that it starts are put first.
abbrev pub put_first : List Actor → Collector → Collector
put_first others c = record c { actors = c.actors ++ others }

unfoldable pub move_at : ℕ → Bool → List Actor → Collector → List Actor × Collector
unfolding advance
move_at n flag [] c = ([], c)
move_at zero flag (a ∷ others) c = let (out, c') = advance flag a c in (out ++ others, c')
move_at (suc n) flag (a ∷ others) c =
    let (others', c') = move_at n flag others c in (a ∷ others', c')

-- A goroutine moves; a request writes the switch of a machine; one asks for a collection; and Stop.
pub data Event : Type 0 where
  moves : (place : ℕ) → Bool → Event
  writes : (id : ℕ) → Bool → Event
  collects_now : (id : ℕ) → Event
  stops : Event

unfoldable pub step : Event → Collector → Collector
unfolding move_at
step (moves n flag) c =
    let (actors, c') = move_at n flag c.actors (record c { actors = [] }) in put_first actors c'
step (writes i enabled) c = record c {
  is_enabled = λ j. if j == i then enabled else c.is_enabled j;
  actors = rereads i ∷ c.actors;
}
step (collects_now i) c = record c { actors = collects false i ∷ c.actors }
step stops c = record c { stopped = true }

unfoldable pub run : List Event → Collector → Collector
unfolding step
run [] c = c
run (e ∷ es) c = run es (step e c)
