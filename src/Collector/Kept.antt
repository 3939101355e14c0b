-- ===== src/Collector/Kept.antt =====
-- What a collection saves, and what a fast one keeps of the slow modules.
use frpilot.Prelude.{
  ◌≡◌, ◌⊎◌, refl, sym, ap, subst, ◌∙◌, ℕ, ℤ, String, Bool, true, false, Option, none, some, find?,
  find?-test, ◌++◌, inl, inr, Bool-cases, Option-cases, List, [], ◌∷◌, ==_iff, ◌==◌,
}
use frpilot.Cipher.{Cipher}
use frpilot.Floats.{Floats}
use frpilot.Exec.{calm, calm_at, Result, ok, Disk, Result-cases, ◌>>=◌}
use frpilot.Store.Machines.{Machine, has_id, get_machine_by_id, touch_machine}
use frpilot.Tasks.Remote.{Remote, ssh_host, secrets}
use frpilot.Collector.Parser.{Strconv}
use frpilot.Collector.Scripts.{fast_script}
use frpilot.Collector.Snapshots.{
  Slow, Report, SnapshotRow, Snapshots, Station, save_snapshot, save_metric_for, get_snapshot,
  put_snapshot, find_snapshot,
}
use frpilot.Collector.Round.{
  sudo_of, save_round, connect_round, collect, try_slow, kept_slow, ask, gpu_or, kept_of, no_slow,
  or_no_slow,
}

find_snapshot-put :
    {B : Type 0} (row : SnapshotRow B) (rows : List (SnapshotRow B))
    → find_snapshot row.machine_id (put_snapshot row rows) ≡ some row
find_snapshot-put row [] = rw ((==_iff row.machine_id row.machine_id).1 refl) refl
find_snapshot-put row (r ∷ rows) = elim (Bool-cases (r.machine_id == row.machine_id)) [
  | inl e ↦ rw (e, (==_iff row.machine_id row.machine_id).1 refl) refl
  | inr e ↦ rw (e, e) (find_snapshot-put row rows)
]

module _ {B : Type 0} (fl : Floats) (conv : Strconv fl.F) (json : Snapshots fl.F B)
    (r : Remote) where
  open fl use {F}

  abbrev row_of : ℕ → ℕ → Report F → SnapshotRow B
  row_of i now p = record { machine_id = i; ts = now; content = json.marshal p }

  -- The slow modules of a report.
  abbrev HasModules : Report F → Slow F → Type 0
  HasModules p q =
      (p.gpu ≡ gpu_or fl conv json r q.gpu)
      × (p.security ≡ q.security)
      × (p.cron ≡ q.cron)
      × (p.ports ≡ q.ports)

  abbrev kept_at : Option (SnapshotRow B) → Slow F
  kept_at none = no_slow
  kept_at (some row) = kept_of fl conv json r (ok row)

  abbrev Saved : ℕ → ℕ → Bool → Station F B → Station F B → Type 0
  Saved i now slow s s' =
      (p : Report F) × (s'.snapshots ≡ put_snapshot (row_of i now p) s.snapshots)
      × (slow ≡ false → HasModules p (kept_at (find_snapshot i s.snapshots)))

  -- A run on a database without faults.
  abbrev CalmSaved : ℕ → ℕ → Bool → Station F B → Result (Unit {0}) × Disk (Station F B) → Type 0
  CalmSaved i now slow s c =
      (c.1 ≡ calm_at c.1.rows c.1.count) × (c.0 ≡ ok tt → Saved i now slow s c.1.rows)

  save_round-CalmSaved :
      (tunnel : String → ℤ → Bool) (now : ℕ) (host : String) (m : Machine) (sudo_pass : String)
      (slow : Bool) (out : String) (s : Station F B) (n : ℕ)
      → CalmSaved m.id now slow s
          (save_round fl conv json r tunnel now host m sudo_pass slow out (calm_at s n))
  unfolding save_round ◌>>=◌ try_slow kept_slow ask touch_machine save_snapshot save_metric_for
      get_snapshot frpilot.Store.Machines.touch_if
  save_round-CalmSaved tunnel now host m sudo_pass true out s n =
      (refl, λ o. (_, refl, λ e. absurd (cc)))
  save_round-CalmSaved tunnel now host m sudo_pass false out s n =
      elim (Option-cases (find_snapshot m.id s.snapshots)) [
        | inl e ↦ rw (e) (refl, λ o. (_, refl, λ f. (refl, refl, refl, refl)))
        | inr (row, e) ↦ rw (e) (refl, λ o. (_, refl, λ f. (refl, refl, refl, refl)))
      ]

  connect_round-CalmSaved :
      (tunnel : String → ℤ → Bool) (now : ℕ) (host : String) (m : Machine) (slow : Bool)
      (p : String × String) (s : Station F B) (n : ℕ)
      → CalmSaved m.id now slow s
          (connect_round fl conv json r tunnel now host m slow p (calm_at s n))
  unfolding connect_round ◌>>=◌ ask touch_machine frpilot.Store.Machines.touch_if
  connect_round-CalmSaved tunnel now host m slow (pass, sudo_pass) s n =
      elim (Bool-cases (r.dial host m.tunnel_port m.ssh_user pass)) [
        | inr e ↦ rw e (refl, λ o. absurd (cc))
        | inl e ↦ elim (Bool-cases (r.reply s.sent (sudo_of sudo_pass fast_script)).failed) [
          | inl f ↦ rw (e, f) (refl, λ o. absurd (cc))
          | inr f ↦
              rw (e, f)
                (save_round-CalmSaved tunnel now host m sudo_pass slow _
                  (record s {
                    dials = ℕ.suc s.dials;
                    sent = s.sent ++ sudo_of sudo_pass fast_script ∷ [];
                  })
                  n)
        ]
      ]

  collect-CalmSaved :
      (k : Cipher) (tunnel : String → ℤ → Bool) (now : ℕ) (host : String) (i : ℕ) (slow : Bool)
      (s : Station F B) (n : ℕ)
      → CalmSaved i now slow s (collect fl conv json r k tunnel now host i slow (calm_at s n))
  unfolding collect ◌>>=◌ get_machine_by_id frpilot.Store.Machines.scan_machine
  collect-CalmSaved k tunnel now host i slow s n =
      elim (Option-cases (find? (has_id i) s.fleet.machines)) [
        | inl e ↦ rw (get_machine_by_id, e) (refl, λ o. absurd (cc))
        | inr (m, e) ↦ elim (Bool-cases m.enabled) [
          | inr off ↦ rw (get_machine_by_id, e, off) (refl, λ o. absurd (cc))
          | inl on ↦ elim (Result-cases (secrets k m)) [
            | inr (x, bad) ↦ rw (get_machine_by_id, e, on, bad) (refl, λ o. absurd (cc))
            | inl (p, good) ↦
                let same : m.id ≡ i =
                  (==_iff m.id i).0 (find?-test (has_id i) s.fleet.machines m e) in
                rw (get_machine_by_id, e, on, good)
                  (subst
                    (λ j. CalmSaved j now slow s (
                      connect_round fl conv json r tunnel now (ssh_host host) m slow p
                        (calm_at s (ℕ.suc n))))
                    same (connect_round-CalmSaved tunnel now (ssh_host host) m slow p s (ℕ.suc n)))
          ]
        ]
      ]

  abbrev modules_of : Report F → Slow F
  modules_of p = record { gpu = some p.gpu; security = p.security; cron = p.cron; ports = p.ports }

  -- Two snapshots of a machine that agree on the slow modules.
  abbrev pub SameModules : ℕ → ℕ → ℕ → Station F B → Station F B → Type 0
  SameModules i now now' s s' =
      (p : Report F) × (p' : Report F) × (find_snapshot i s.snapshots ≡ some (row_of i now p))
      × (find_snapshot i s'.snapshots ≡ some (row_of i now' p'))
      × ((json.marshal p ≡ json.empty)
          ⊎ ((p'.gpu ≡ p.gpu)
              × (p'.security ≡ p.security)
              × (p'.cron ≡ p.cron)
              × (p'.ports ≡ p.ports)))

  -- When a collection of a machine succeeds, fast or slow, and the next one is fast and succeeds too,
  -- each leaves its own snapshot of the machine, and the second has the same GPU, security software,
  -- scheduled tasks and ports as the first. It is assumed that no statement faults, and that the
  -- slow modules of a snapshot are read from its JSON as they were, unless the first report could not
  -- be printed, where its snapshot is empty.
  pub collect-SameModules :
      (k : Cipher) (tunnel : String → ℤ → Bool) (now now' : ℕ) (host : String) (i : ℕ) (slow : Bool)
      (s : Station F B)
      → ((p : Report F)
          → (json.marshal p ≡ json.empty) ⊎ (json.unmarshal (json.marshal p) ≡ some (modules_of p)))
      → let c = collect fl conv json r k tunnel now host i slow (calm s) in
        let c' = collect fl conv json r k tunnel now' host i false c.1 in
        c.0 ≡ ok tt → c'.0 ≡ ok tt → SameModules i now now' c.1.rows c'.1.rows
  collect-SameModules k tunnel now now' host i slow s reads o o' =
      let c = collect fl conv json r k tunnel now host i slow (calm s) in
      let (same, saved) = collect-CalmSaved k tunnel now host i slow s 0 in
      let (p, e, _) = saved o in
      let found : find_snapshot i c.1.rows.snapshots ≡ some (row_of i now p) =
        ap (find_snapshot i) e ∙ find_snapshot-put (row_of i now p) s.snapshots in
      let Goal = λ (d : Disk (Station F B)).
        let c' = collect fl conv json r k tunnel now' host i false d in
        c'.0 ≡ ok tt → SameModules i now now' c.1.rows c'.1.rows in
      subst Goal (sym same)
        (λ o2.
          let (same', saved') = collect-CalmSaved k tunnel now' host i false c.1.rows c.1.count in
          let (p', e', kept) = saved' o2 in
          let (gpu, security, cron, ports) =
            subst (λ w. HasModules p' (kept_at w)) found (kept refl) in
          (
            p,
            p',
            found,
            ap (find_snapshot i) e' ∙ find_snapshot-put (row_of i now' p') c.1.rows.snapshots,
            elim (reads p) [
              | inl failed ↦ inl failed
              | inr read ↦
                  let same_slow = ap (or_no_slow fl conv json r) read in
                  inr (
                    gpu ∙ ap (λ q. gpu_or fl conv json r q.gpu) same_slow,
                    security ∙ ap (λ q. q.security) same_slow,
                    cron ∙ ap (λ q. q.cron) same_slow,
                    ports ∙ ap (λ q. q.ports) same_slow,
                  )
            ],
          ))
        o'
