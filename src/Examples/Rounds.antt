-- ===== src/Examples/Rounds.antt =====
-- Two collections of one machine.
use frpilot.Prelude.{ℕ, pos, ◌≡◌, ◌⊎◌, refl, Bool, true, false, none, some, [], ◌∷◌, inr}
use frpilot.Exec.{Result, ok, err, storage, calm, Disk}
use frpilot.Store.Machines.{Machine, Fleet, new_machine, has_id}
use frpilot.Tasks.Remote.{Remote, ssh_host}
use frpilot.Collector.Parser.{Strconv}
use frpilot.Collector.Snapshots.{Slow, Snapshots, Station}
use frpilot.Collector.Round.{no_slow, collect}
use frpilot.Collector.Outcome.{contact_row, SameRows, collect-contact_row}
use frpilot.Collector.Kept.{SameModules, collect-SameModules}
use frpilot.Examples.{whole, clear}

abbrev lab : Machine
lab = record (new_machine 1 "lab" (pos 6001) 100) {
  ssh_user = "root";
  ssh_pass_enc = "pw";
  enabled = true;
}

abbrev station : Station ℕ (Slow ℕ)
station = record {
  fleet = record { machines = lab ∷ []; next_machine = 2 };
  snapshots = [];
  metrics = [];
  frames = record { prev_stat = λ i. ""; prev_net = λ i. none };
  collector = record { loops = 1 ∷ []; actors = []; is_enabled = λ i. true; stopped = false };
  dials = 0;
  sent = [];
}

-- Every machine lets in, and answers each script with the same lines.
abbrev open_host : Remote
open_host = record {
  dial = λ host port user pass. true;
  reply = λ before s. record {
    out = "===HOSTNAME===\nlab\nMISSING ufw\nCRON root true";
    err_out = "";
    failed = false;
  };
}

abbrev no_numbers : Strconv ℕ
no_numbers = record { parse_float = λ t. (0, false); parse_int = λ t. pos 0; atoi = λ t. pos 0 }

-- A text is what a fast round reads of it.
abbrev kept_json : Snapshots ℕ (Slow ℕ)
kept_json = record {
  marshal = λ p. record { gpu = some p.gpu; security = p.security; cron = p.cron; ports = p.ports };
  unmarshal = some;
  empty = no_slow;
}

abbrev at_lab : ℕ → Bool → Disk (Station ℕ (Slow ℕ)) → Result (Unit {0}) × Disk (Station ℕ (Slow ℕ))
at_lab now slow d =
    collect whole no_numbers kept_json open_host clear (λ host port. true) now "frps.example" 1 slow
      d

collect-contact_row_example :
    let c = at_lab 200 true (calm station) in
    (c.0 ≡ contact_row clear open_host [] (ssh_host "frps.example") (some lab))
    × ((c.0 ≡ ok tt) ⊎ SameRows whole no_numbers kept_json open_host station c.1.rows)
    × ((m : Machine)
        → some lab ≡ some m
        → m.enabled ≡ false
        → (c.1.rows.dials ≡ 0) × (c.1.rows.sent ≡ []))
collect-contact_row_example =
    collect-contact_row whole no_numbers kept_json open_host clear (λ host port. true) 200
      "frps.example" 1 true (calm station)

collect-SameModules_example :
    SameModules whole no_numbers kept_json open_host 1 200 230
      (at_lab 200 true (calm station)).1.rows
      (at_lab 230 false (at_lab 200 true (calm station)).1).1.rows
unfolding collect frpilot.Exec.◌>>=◌ frpilot.Store.Machines.get_machine_by_id
    frpilot.Store.Machines.touch_machine
collect-SameModules_example =
    collect-SameModules whole no_numbers kept_json open_host clear (λ host port. true) 200 230
      "frps.example" 1 true station (λ p. inr refl) refl refl
