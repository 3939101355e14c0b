-- ===== src/Collector/Races.antt =====
-- Two requests on one machine whose calls of SyncMachine come in the other order than their writes.
use frpilot.Prelude.{
  ℕ, ◌≡◌, refl, ap, ◌∙◌, Bool, true, false, ◌&&◌, Bool-cases, inl, inr, if◌then◌else◌, ◌==◌, ==_iff,
  List, [], ◌∷◌,
}
use frpilot.Collector.{
  Actor, waits, collects, syncs, Collector, is_collecting, sync_machine, delete_loop, advance,
  move_at, Event, moves, writes, step, run,
}
use frpilot.Collector.Covered.{has_loop, has_loop-delete}

-- One request switches the machine off, the next switches it on and syncs, and then the first syncs.
abbrev pub race : ℕ → List Event
race i =
    writes i false
    ∷ moves 0 false
    ∷ writes i true
    ∷ moves 0 false
    ∷ moves 0 false
    ∷ moves 0 false
    ∷ []

abbrev written : ℕ → Bool → Collector → Collector
written i b c = record c { is_enabled = λ j. if j == i then b else c.is_enabled j }

requested :
    (i : ℕ) (b : Bool) (c : Collector)
    → step (moves 0 false) (step (writes i b) c)
      ≡ record (written i b c) { actors = syncs i b ∷ c.actors }
unfolding step move_at advance
requested i b c =
    ap
      (λ t. record (written i b c) {
        actors = syncs i (if t then b else c.is_enabled i) ∷ c.actors;
      })
      ((==_iff i i).1 refl)

synced_on :
    (i : ℕ) (gs : List Actor) (c : Collector)
    → is_collecting i c ≡ true
    → step (moves 0 false) (record c { actors = syncs i true ∷ gs }) ≡ record c { actors = gs }
unfolding step move_at advance sync_machine is_collecting
synced_on i gs c h = rw (step, move_at, advance, sync_machine, is_collecting, h) refl

synced_off :
    (i : ℕ) (gs : List Actor) (c : Collector)
    → step (moves 0 false) (record c { actors = syncs i false ∷ gs })
      ≡ record c { loops = delete_loop i c.loops; actors = gs }
unfolding step move_at advance sync_machine
synced_off i gs c = refl

raced :
    (i : ℕ) (c : Collector)
    → is_collecting i c ≡ true
    → run (race i) c ≡ record (written i true (written i false c)) { loops = delete_loop i c.loops }
unfolding run is_collecting
raced i c h =
    let c1 = written i false c in
    let c2 = written i true c1 in
    let gs = syncs i false ∷ c.actors in
    ap
      (λ x.
        step (moves 0 false) (step (moves 0 false) (step (moves 0 false) (step (writes i true) x))))
      (requested i false c)
    ∙ ap (λ x. step (moves 0 false) (step (moves 0 false) x))
        (requested i true (record c1 { actors = gs }))
    ∙ ap (step (moves 0 false)) (synced_on i gs c2 h)
    ∙ synced_off i c.actors c2

waits-ends :
    (i : ℕ) (flag : Bool) (c : Collector)
    → is_collecting i c ≡ false
    → advance flag (waits i) c ≡ ([], c)
unfolding advance
waits-ends i flag c off = elim (Bool-cases (c.stopped && flag)) [
  | inl e ↦ rw (advance, e) refl
  | inr e ↦ rw (advance, e, off) refl
]

collects-waits :
    (i : ℕ) (flag : Bool) (c : Collector)
    → c.is_enabled i ≡ true
    → advance flag (collects true i) c ≡ (waits i ∷ [], c)
unfolding advance
collects-waits i true c on = refl
collects-waits i false c on = rw (advance, on) refl

-- A machine that is monitored is switched off and on again by two requests that interleave: when
-- both have ended, the table has it switched on, but it is not in `loops`, and no goroutine has been
-- added or has ended. If a loop of the machine that waits moves next, it ends; and if one that
-- collects moves next, it waits, and `loops` stays without the machine.
pub run-race :
    (i : ℕ) (flag : Bool) (c : Collector)
    → is_collecting i c ≡ true
    → let c' = run (race i) c in
      (c'.is_enabled i ≡ true)
      × (is_collecting i c' ≡ false)
      × (c'.actors ≡ c.actors)
      × (advance flag (waits i) c' ≡ ([], c'))
      × (advance flag (collects true i) c' ≡ (waits i ∷ [], c'))
unfolding is_collecting
run-race i flag c h =
    let self : (i == i) ≡ true = (==_iff i i).1 refl in
    let e = raced i c h in
    let on : (run (race i) c).is_enabled i ≡ true = ap (λ x. x.is_enabled i) e ∙ rw self refl in
    let off : is_collecting i (run (race i) c) ≡ false =
      ap (λ x. has_loop i x.loops) e ∙ has_loop-delete i i c.loops ∙ rw self refl in
    (
      on,
      off,
      ap (λ x. x.actors) e,
      waits-ends i flag (run (race i) c) off,
      collects-waits i flag (run (race i) c) on,
    )
