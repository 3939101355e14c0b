-- ===== src/Collector/Outcome.antt =====
-- The result of a collection, and what a failed one leaves alone.
use frpilot.Prelude.{
  ◌≡◌, refl, ◌⊎◌, Option-cases, ℕ, ℤ, String, Bool, true, false, if◌then◌else◌, Option, none, some,
  find?, inl, inr, Bool-cases, List,
}
use frpilot.Cipher.{Cipher}
use frpilot.Floats.{Floats}
use frpilot.Exec.{
  Result, ok, err, storage, not_found, dial_failed, monitoring_off, command_failed, Disk,
  Result-cases, ◌>>=◌, tick,
}
use frpilot.Store.Machines.{Machine, has_id, get_machine_by_id, touch_machine}
use frpilot.Tasks.Remote.{Sent, Remote, ssh_host, secrets}
use frpilot.Collector.Parser.{Strconv}
use frpilot.Collector.Scripts.{fast_script}
use frpilot.Collector.Snapshots.{Snapshots, Station}
use frpilot.Collector.Round.{sudo_of, save_round, connect_round, collect, try_slow, kept_slow, ask}

-- Whether the fast metrics of a machine with these passwords can be had.
abbrev pub contact :
    Remote → List Sent → String → Machine → Result (String × String) → Result (Unit {0})
contact r sent host m (err e) = err e
contact r sent host m (ok (pass, sudo_pass)) =
    if r.dial host m.tunnel_port m.ssh_user pass
    then (if (r.reply sent (sudo_of sudo_pass fast_script)).failed
        then err command_failed
        else ok tt)
    else err dial_failed

abbrev pub contact_row : Cipher → Remote → List Sent → String → Option Machine → Result (Unit {0})
contact_row k r sent host none = err not_found
contact_row k r sent host (some m) =
    if m.enabled then contact r sent host m (secrets k m) else err monitoring_off

module _ {B : Type 0} (fl : Floats) (conv : Strconv fl.F) (json : Snapshots fl.F B)
    (r : Remote) where
  open fl use {F}

  save_round_ok :
      (tunnel : String → ℤ → Bool) (now : ℕ) (host : String) (m : Machine) (sudo_pass : String)
      (slow : Bool) (out : String) (d : Disk (Station F B))
      → (save_round fl conv json r tunnel now host m sudo_pass slow out d).0 ≡ ok tt
  unfolding save_round ◌>>=◌ try_slow kept_slow ask touch_machine
  save_round_ok tunnel now host m sudo_pass true out d = refl
  save_round_ok tunnel now host m sudo_pass false out d = refl

  -- What is saved of a collection.
  abbrev pub SameRows : Station F B → Station F B → Type 0
  SameRows s s' = (s'.snapshots ≡ s.snapshots) × (s'.metrics ≡ s.metrics) × (s'.frames ≡ s.frames)

  abbrev AllSaved : Station F B → Result (Unit {0}) × Disk (Station F B) → Type 0
  AllSaved s c = (c.0 ≡ ok tt) ⊎ SameRows s c.1.rows

  connect_round-contact :
      (tunnel : String → ℤ → Bool) (now : ℕ) (host : String) (m : Machine) (slow : Bool)
      (p : String × String) (d : Disk (Station F B))
      → let c = connect_round fl conv json r tunnel now host m slow p d in
        (c.0 ≡ contact r d.rows.sent host m (ok p)) × AllSaved d.rows c
  unfolding connect_round ◌>>=◌ ask touch_machine
  connect_round-contact tunnel now host m slow (pass, sudo_pass) d =
      elim (Bool-cases (r.dial host m.tunnel_port m.ssh_user pass)) [
        | inr e ↦ rw e (refl, inr (refl, refl, refl))
        | inl e ↦ elim (Bool-cases (r.reply d.rows.sent (sudo_of sudo_pass fast_script)).failed) [
          | inl f ↦ rw (e, f) (refl, inr (refl, refl, refl))
          | inr f ↦ rw (e, f, save_round_ok) (refl, inl refl)
        ]
      ]

  -- A collection, whichever statements fault, succeeds exactly when the machine can be read, is
  -- switched on, its passwords open, it accepts the connection, and the fast script does not fail;
  -- else it has the error of the first of these. When it does not succeed, the snapshots, the history
  -- and the frames of the last collection stay as they were. A machine that is switched off is not
  -- connected to and gets no command.
  pub collect-contact_row :
      (k : Cipher) (tunnel : String → ℤ → Bool) (now : ℕ) (host : String) (i : ℕ) (slow : Bool)
      (d : Disk (Station F B))
      → let c = collect fl conv json r k tunnel now host i slow d in
        let row = find? (has_id i) d.rows.fleet.machines in
        (c.0 ≡ (
          if d.fault d.count then err storage else contact_row k r d.rows.sent (ssh_host host) row))
        × AllSaved d.rows c
        × ((m : Machine)
            → row ≡ some m
            → m.enabled ≡ false
            → (c.1.rows.dials ≡ d.rows.dials) × (c.1.rows.sent ≡ d.rows.sent))
  unfolding collect ◌>>=◌ get_machine_by_id frpilot.Store.Machines.scan_machine
  collect-contact_row k tunnel now host i slow d = elim (Bool-cases (d.fault d.count)) [
    | inl t ↦ rw (get_machine_by_id, t) (refl, inr (refl, refl, refl), λ m e o. (refl, refl))
    | inr t ↦ elim (Option-cases (find? (has_id i) d.rows.fleet.machines)) [
      | inl e ↦ rw (get_machine_by_id, t, e) (refl, inr (refl, refl, refl), λ m o off. (refl, refl))
      | inr (m, e) ↦ elim (Bool-cases m.enabled) [
        | inr off ↦
            rw (get_machine_by_id, t, e, off)
              (refl, inr (refl, refl, refl), λ m o off. (refl, refl))
        | inl on ↦ elim (Result-cases (secrets k m)) [
          | inr (x, bad) ↦
              rw (get_machine_by_id, t, e, on, bad)
                (refl, inr (refl, refl, refl), λ m o off. (refl, refl))
          | inl (p, good) ↦
              let (result, rows) =
                connect_round-contact tunnel now (ssh_host host) m slow p (tick d) in
              rw (get_machine_by_id, t, e, on, good) (result, rows, λ m' o off. absurd (cc))
        ]
      ]
    ]
  ]
