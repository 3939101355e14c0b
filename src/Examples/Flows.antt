-- ===== src/Examples/Flows.antt =====
-- A poll of two proxies and the marking of their flows.
use frpilot.Prelude.{ℕ, ◌≡◌, false, [], ◌∷◌, pos, map, ◌⊎◌, none, some, arith}
use frpilot.Exec.{ok}
use frpilot.Traffic.{ProxyData, ProxyFlow, TrafficPoint, Monitor, detect_anomalies}
use frpilot.Traffic.Means.{marked, detect_anomalies-marked}
use frpilot.Traffic.Latest.{Snapshot, entries, with_percents, latest}
use frpilot.Traffic.Top.{Ordered, IsTop, latest-IsTop}
use frpilot.Examples.{whole}

abbrev lab : ProxyData
lab = record { name = "lab"; in_bytes = pos 60000000; out_bytes = pos 30; status = "online" }

abbrev gpu : ProxyData
gpu = record { name = "gpu"; in_bytes = pos 10; out_bytes = pos 30; status = "offline" }

abbrev before : Monitor ℕ
before = record { prev_totals = ("lab", (pos 0, pos 0)) ∷ []; last_sample = []; anomaly = [] }

abbrev point : TrafficPoint ℕ
point = record {
  ts = 100;
  proxy = "lab";
  machine_id = 1;
  in_bytes = pos 0;
  out_bytes = pos 0;
  rate_in = 200000;
  rate_out = 0;
}

abbrev flow : ProxyFlow ℕ
flow = record {
  proxy = "lab";
  machine_id = 1;
  in_bytes = pos 60000000;
  out_bytes = pos 30;
  rate_in = 2000000;
  rate_out = 1;
  pct_in = 0;
  pct_out = 0;
  anomaly = false;
}

detect_anomalies-marked_example :
    (detect_anomalies whole (ok (point ∷ point ∷ point ∷ [])) (flow ∷ []) before).0
    ≡ map (marked whole (point ∷ point ∷ point ∷ [])) (flow ∷ [])
detect_anomalies-marked_example =
    detect_anomalies-marked whole point (point ∷ point ∷ []) (flow ∷ []) before

number_order : Ordered whole (λ x. x) (λ a. Unit)
number_order = record {
  lt_irrefl = λ a. ground arith;
  lt_asym = λ a b h. ground arith;
  not-lt_trans = λ a b c _ _ _ h k. ground arith;
}

abbrev sampled : Monitor ℕ
sampled = record {
  prev_totals = [];
  last_sample = ("lab", flow) ∷ ("gpu", record flow { proxy = "gpu"; rate_in = 9000000 }) ∷ [];
  anomaly = [];
}

latest-IsTop_example :
    ((entries sampled.last_sample ≡ []) × ((latest whole (λ x. x) 500 sampled).0 ≡ none))
    ⊎ ((snap : Snapshot ℕ) × ((latest whole (λ x. x) 500 sampled).0 ≡ some snap)
        × IsTop whole (λ x. x) snap.top snap.flows
        × ((total_in : ℕ) × (total_out : ℕ) × (snap.flows
              ≡ map
                  (with_percents whole (λ x. x) total_in total_out)
                  (entries sampled.last_sample))))
latest-IsTop_example =
    latest-IsTop whole (λ x. x) (λ a. Unit) 500 sampled number_order (tt, (tt, tt))
