-- ===== src/Collector/Leaving.antt =====
-- What one move does to the loops of a machine that has been switched off.
use frpilot.Prelude.{
  ℕ, zero, suc, ◌+◌, ◌≤◌, ◌≡◌, subst, ap, ◌∙◌, Bool, true, false, if◌then◌else◌, ◌==◌, ==_iff, ◌&&◌,
  List, [], ◌∷◌, ◌++◌, any, count, inl, inr, arith, Bool-cases,
}
use frpilot.Collector.{
  Actor, waits, collects, turns_off, rereads, syncs, Collector, is_collecting, start_loop,
  sync_machine, advance, move_at,
}
use frpilot.Collector.Covered.{has_loop, is_loop_of, has_loop-add, has_loop-delete}

module _ (i : ℕ) where
  -- A request that has written the switch of the machine and has not ended.
  abbrev pub is_request_of : Actor → Bool
  is_request_of (rereads j) = j == i
  is_request_of (syncs j b) = j == i
  is_request_of (waits j) = false
  is_request_of (collects l j) = false
  is_request_of (turns_off l j) = false

  -- How many moves a loop of the machine has left.
  abbrev pub moves_left : Actor → ℕ
  moves_left (waits j) = if j == i then 1 else 0
  moves_left (collects l j) = if l then (if j == i then 3 else 0) else 0
  moves_left (turns_off l j) = if l then (if j == i then 2 else 0) else 0
  moves_left (rereads j) = 0
  moves_left (syncs j b) = 0

  abbrev pub weight : List Actor → ℕ
  weight [] = 0
  weight (a ∷ gs) = moves_left a + weight gs

  pub weight-append : (gs hs : List Actor) → weight (gs ++ hs) ≡ weight gs + weight hs
  weight-append [] hs = omega arith
  weight-append (a ∷ gs) hs = omega (arith, weight-append gs hs)

  -- How many loops of the machine there are.
  abbrev pub loops_of : List Actor → ℕ
  loops_of gs = count (is_loop_of i) gs

  -- Whether the goroutine at the place is a loop of the machine.
  abbrev pub turn_at : ℕ → List Actor → ℕ
  turn_at n [] = 0
  turn_at zero (a ∷ gs) = if is_loop_of i a then 1 else 0
  turn_at (suc n) (a ∷ gs) = turn_at n gs

  -- Switched off in the table and in the map, with no request under way among these goroutines.
  pub record IsOff (gs : List Actor) (c : Collector) : Type 0 where
    pub unlisted : has_loop i c.loops ≡ false
    pub disabled : c.is_enabled i ≡ false
    pub quiet : any is_request_of gs ≡ false
    pub calm : any is_request_of c.actors ≡ false

  -- After a move: still off, each move of a loop used one up, and there are no more loops.
  abbrev pub Moved : ℕ → List Actor → Collector → List Actor → Collector → Type 0
  Moved n gs c gs' c' =
      IsOff gs' c'
      × (weight gs' + weight c'.actors + n ≤ weight gs + weight c.actors)
      × (loops_of gs' + loops_of c'.actors ≤ loops_of gs + loops_of c.actors)

  -- SyncMachine for another machine, or one that is switched off.
  sync_machine-off :
      (j : ℕ) (b : Bool) (c : Collector)
      → has_loop i c.loops ≡ false
      → any is_request_of c.actors ≡ false
      → (j == i && b) ≡ false
      → let c' = sync_machine j b c in
        (has_loop i c'.loops ≡ false)
        × (c'.is_enabled ≡ c.is_enabled)
        × (any is_request_of c'.actors ≡ false)
        × (weight c'.actors ≡ weight c.actors)
        × (loops_of c'.actors ≡ loops_of c.actors)
  unfolding sync_machine is_collecting start_loop
  sync_machine-off j true c u q other = ground (arith, has_loop-add i j c.loops)
  sync_machine-off j false c u q other = ground (arith, has_loop-delete i j c.loops)

  sync_machine-Moved :
      (j : ℕ) (b : Bool) (n : ℕ) (gs gs' : List Actor) (c : Collector)
      → IsOff gs c
      → (j == i && b) ≡ false
      → any is_request_of gs' ≡ false
      → weight gs' + n ≤ weight gs
      → loops_of gs' ≤ loops_of gs
      → Moved n gs c gs' (sync_machine j b c)
  sync_machine-Moved j b n gs gs' c off other quiet less fewer =
      let (unlisted, enabled, calm, same, alike) =
        sync_machine-off j b c off.unlisted off.calm other in
      (
        record {
          unlisted = unlisted;
          disabled = ap (λ f. f i) enabled ∙ off.disabled;
          quiet = quiet;
          calm = calm;
        },
        omega (arith, same),
        omega (arith, alike),
      )

  same-Moved :
      (n : ℕ) (gs gs' : List Actor) (c : Collector)
      → IsOff gs c
      → any is_request_of gs' ≡ false
      → weight gs' + n ≤ weight gs
      → loops_of gs' ≤ loops_of gs
      → Moved n gs c gs' c
  same-Moved n gs gs' c off quiet less fewer = (
    record { unlisted = off.unlisted; disabled = off.disabled; quiet = quiet; calm = off.calm },
    omega arith,
    omega arith,
  )

  advance-Moved :
      (flag : Bool) (a : Actor) (gs : List Actor) (c : Collector)
      → IsOff (a ∷ gs) c
      → Moved
          (if is_loop_of i a then 1 else 0)
          (a ∷ gs)
          c
          ((advance flag a c).0 ++ gs)
          (advance flag a c).1
  unfolding advance is_collecting
  advance-Moved flag (waits j) gs c off =
      let gone =
        same-Moved (if j == i then 1 else 0) (waits j ∷ gs) gs c off off.quiet (omega arith)
          (ground arith) in
      elim (Bool-cases (c.stopped && flag)) [
        | inl s ↦ rw (advance, s) gone
        | inr s ↦ elim (Bool-cases (has_loop j c.loops)) [
          | inr e ↦ rw (advance, s, e) gone
          | inl e ↦ elim (Bool-cases (j == i)) [
            | inl t ↦
                let same : j ≡ i = (==_iff j i).0 t in
                absurd (cc (subst (λ k. has_loop k c.loops ≡ true) same e))
            | inr t ↦
                rw (advance, s, e)
                  (same-Moved _ (waits j ∷ gs) (collects true j ∷ gs) c off off.quiet
                    (ground (arith, t)) (ground arith))
          ]
        ]
      ]
  advance-Moved true (collects true j) gs c off =
      same-Moved _ (collects true j ∷ gs) (waits j ∷ gs) c off off.quiet (ground arith)
        (ground arith)
  advance-Moved true (collects false j) gs c off =
      same-Moved _ (collects false j ∷ gs) gs c off off.quiet (omega arith) (ground arith)
  advance-Moved false (collects true j) gs c off = elim (Bool-cases (c.is_enabled j)) [
    | inl e ↦
        rw (advance, e)
          (same-Moved _ (collects true j ∷ gs) (waits j ∷ gs) c off off.quiet (ground arith)
            (ground arith))
    | inr e ↦
        rw (advance, e)
          (same-Moved _ (collects true j ∷ gs) (turns_off true j ∷ gs) c off off.quiet
            (ground arith) (ground arith))
  ]
  advance-Moved false (collects false j) gs c off = elim (Bool-cases (c.is_enabled j)) [
    | inl e ↦
        rw (advance, e)
          (same-Moved _ (collects false j ∷ gs) gs c off off.quiet (omega arith) (ground arith))
    | inr e ↦
        rw (advance, e)
          (same-Moved _ (collects false j ∷ gs) (turns_off false j ∷ gs) c off off.quiet
            (omega arith) (ground arith))
  ]
  advance-Moved flag (turns_off true j) gs c off =
      sync_machine-Moved j false _ (turns_off true j ∷ gs) (waits j ∷ gs) c off (ground arith)
        off.quiet (ground arith) (ground arith)
  advance-Moved flag (turns_off false j) gs c off =
      sync_machine-Moved j false _ (turns_off false j ∷ gs) gs c off (ground arith) off.quiet
        (omega arith) (ground arith)
  advance-Moved true (rereads j) gs c off =
      same-Moved _ (rereads j ∷ gs) gs c off (ground (arith, off.quiet)) (omega arith)
        (ground arith)
  advance-Moved false (rereads j) gs c off =
      same-Moved _ (rereads j ∷ gs) (syncs j (c.is_enabled j) ∷ gs) c off off.quiet (omega arith)
        (ground arith)
  advance-Moved flag (syncs j b) gs c off =
      sync_machine-Moved j b _ (syncs j b ∷ gs) gs c off (ground (arith, off.quiet))
        (ground (arith, off.quiet)) (omega arith) (ground arith)

  pub move_at-Moved :
      (n : ℕ) (flag : Bool) (gs : List Actor) (c : Collector)
      → IsOff gs c
      → Moved (turn_at n gs) gs c (move_at n flag gs c).0 (move_at n flag gs c).1
  unfolding move_at
  move_at-Moved n flag [] c off = (off, omega arith, omega arith)
  move_at-Moved zero flag (a ∷ gs) c off = advance-Moved flag a gs c off
  move_at-Moved (suc n) flag (a ∷ gs) c off =
      let kept : IsOff gs c = record {
        unlisted = off.unlisted;
        disabled = off.disabled;
        quiet = ground (arith, off.quiet);
        calm = off.calm;
      } in
      let (off', less, fewer) = move_at-Moved n flag gs c kept in
      (
        record {
          unlisted = off'.unlisted;
          disabled = off'.disabled;
          quiet = ground (arith, off.quiet, off'.quiet);
          calm = off'.calm;
        },
        omega arith,
        ground (arith, fewer),
      )
