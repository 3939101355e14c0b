-- ===== src/Examples/Shaping.antt =====
-- Shaping: class ids, a plan and what is applied.
use frpilot.Prelude.{
  ◌⊎◌, eq_iff, ◌&&◌, ℕ, ◌≡◌, ◌≢◌, refl, String, str_ne, true, false, if◌then◌else◌, none, some,
  List, [], ◌∷◌, pos, inr, arith, map, count, ◌==◌, leb,
}
use frpilot.Prelude.Maps.{Map, get, has}
use frpilot.Qos.State.{
  ClassState, MachineSample, out_dir, in_dir, Service, new, class_id, release_if_unused, applied,
}
use frpilot.Qos.Activity.{update_active}
use frpilot.Qos.Plan.{QosConfig, desired, bps, is_sharing}
use frpilot.Qos.Apply.{apply_direction}
use frpilot.Qos.Reconcile.{Round, reconcile}
use frpilot.Qos.Ids.{IdsValid, release-collides}
use frpilot.Qos.Shares.{shares, desired-fair, desired-apart}
use frpilot.Qos.Applied.{OneEach, apply_direction-applied}
use frpilot.Qos.Rounds.{Idle, reconcile-Idle}
use frpilot.Qos.Hysteresis.{set_judged, update_active-judged}
use frpilot.Examples.{whole}

abbrev quiet : Service ℕ
quiet = new (λ n. none)

quiet-IdsValid : IdsValid quiet
unfolding new get
quiet-IdsValid = record {
  below = λ n i e. absurd (ground arith);
  apart = λ n m i e f. absurd (ground arith);
  start = omega arith;
}

abbrev y_name : String
y_name = "y"

-- Two machines with ids, of which none is shaped.
abbrev two_ids : Service ℕ
two_ids = record quiet { ids = ("a", 2) ∷ ("b", 3) ∷ []; next_id = 4 }

two_ids-IdsValid : IdsValid two_ids
unfolding get
two_ids-IdsValid = record {
  below = λ n i e. ground arith;
  apart = λ n m i e f. ground (arith, eq_iff "a" n, eq_iff "b" n, eq_iff "a" m, eq_iff "b" m);
  start = omega arith;
}

a_id : get "a" two_ids.ids ≡ some 2
unfolding get
a_id = refl

release-collides_example :
    let s' = (class_id "y" (class_id "x" (release_if_unused "a" two_ids)).1).1 in
    (y_name ≢ "b") × (get "b" s'.ids ≡ some 3) × (get "y" s'.ids ≡ some 3)
unfolding get has new
release-collides_example =
    release-collides "a" "b" "x" "y" 2 two_ids refl refl refl refl refl refl refl refl

abbrev lab : MachineSample ℕ
lab = record {
  name = "lab";
  port = pos 6001;
  online = true;
  rate_in = 5000;
  rate_out = 0;
  active = true;
}

abbrev gpu : MachineSample ℕ
gpu = record {
  name = "gpu";
  port = pos 6002;
  online = true;
  rate_in = 0;
  rate_out = 9000;
  active = true;
}

abbrev samples : List (MachineSample ℕ)
samples = lab ∷ gpu ∷ []

abbrev config : QosConfig ℕ
config = record {
  mode = "auto";
  budget_out_mbps = 3;
  budget_in_mbps = 0;
  active_kbps = 1;
  hysteresis_sec = pos 45;
  interface = "eth0";
  manual = [];
}

desired-fair_example :
    let p = (desired whole out_dir samples config quiet).0 in
    let n = count (is_sharing whole) samples in
    (p.enabled ≡ (if leb 3 0 then false else if n == 0 then false else true))
    × (p.root ≡ (if p.enabled then bps whole 3 else 0))
    × (((p.enabled && shares whole "lab" samples ≡ false) × (get "lab" p.classes ≡ none))
        ⊎ ((p.enabled && shares whole "lab" samples ≡ true)
            × (k : ClassState ℕ) × (get "lab" p.classes ≡ some k)
            × (k.rate ≡ whole.div (bps whole 3) (whole.of_int (pos n)))))
desired-fair_example = desired-fair whole out_dir samples config quiet "lab" refl

abbrev lab_class : ClassState ℕ
lab_class = record { id = 2; rate = 1500000; port = pos 6001 }

lab_planned : get "lab" (desired whole out_dir samples config quiet).0.classes ≡ some lab_class
unfolding get desired frpilot.Prelude.Maps.put class_id new
lab_planned = refl

desired-apart_example : IdsValid (desired whole out_dir samples config quiet).1 × (lab.name ≡ "lab")
desired-apart_example =
    desired-apart whole out_dir samples config quiet "lab" "lab" lab_class lab_class quiet-IdsValid
      lab_planned lab_planned refl

abbrev wanted : Map (ClassState ℕ)
wanted = ("lab", record { id = 2; rate = 1500000; port = pos 6001 }) ∷ []

wanted-OneEach : OneEach wanted
unfolding has
wanted-OneEach = (refl, tt)

apply_direction-applied_example :
    let s' = apply_direction "eth0" out_dir 3000000 wanted 100 quiet in
    ((n : String) → get n (applied out_dir s') ≡ get n wanted)
    × (applied in_dir s' ≡ applied in_dir quiet)
apply_direction-applied_example =
    apply_direction-applied "eth0" out_dir 3000000 wanted 100 quiet wanted-OneEach

abbrev lost : Round
lost = record { route = none; dashboard = inr "refused"; now = 100 }

reconcile-Idle_example : Idle whole (reconcile whole config lost two_ids)
reconcile-Idle_example = reconcile-Idle whole config lost two_ids (inr ("refused", refl))

update_active-judged_example :
    (update_active whole 1024 (pos 45) 100 samples quiet).0
    ≡ map (set_judged whole 1024 (pos 45) 100 quiet.last_active) samples
update_active-judged_example =
    update_active-judged whole 1024 (pos 45) 100 quiet samples
      (((λ e. (str_ne "gpu" "lab" "gpu" refl refl e)), tt), (tt, tt))
