-- ===== src/Traffic/Latest.antt =====
-- internal/traffic/traffic.go: Latest. A flow of the snapshot is the one that `last_sample` points
-- to, so the percentages are stored there too.
use frpilot.Prelude.{
  ℕ, ℤ, pos, is_positive, Bool, if◌then◌else◌, ◌||◌, Option, none, some, List, [], ◌∷◌, map, keep,
  count,
}
use frpilot.Prelude.Maps.{Map}
use frpilot.Floats.{Floats}
use frpilot.Traffic.{ProxyFlow, Monitor}

pub record Snapshot (F : Type 0) : Type 0 where
  pub ts : ℕ
  pub total_in : ℤ
  pub total_out : ℤ
  pub rate_in_sum : F
  pub rate_out_sum : F
  pub flows : List (ProxyFlow F)
  pub top : ProxyFlow F
  pub anomalies : List (ProxyFlow F)
  pub online : ℕ

-- The values that the range gives.
abbrev pub entries : {V : Type 0} → Map V → List V
entries [] = []
entries ((k, v) ∷ m) = v ∷ entries m

abbrev map_entries : {V : Type 0} → (V → V) → Map V → Map V
map_entries g [] = []
map_entries g ((k, v) ∷ m) = (k, g v) ∷ map_entries g m

module _ (fl : Floats) where
  open fl use {F, add}

  abbrev pub total_rate : ProxyFlow F → F
  total_rate f = add f.rate_in f.rate_out

module _ (fl : Floats) (round1 : fl.F → fl.F) where
  open fl use {F, of_int, to_int, add, mul, div, lt}

  -- The sums of the first loop.
  unfoldable pub sum_of : (ProxyFlow F → F) → List (ProxyFlow F) → F → F
  sum_of value [] acc = acc
  sum_of value (f ∷ fs) acc = sum_of value fs (add acc (value f))

  abbrev pub is_live : ProxyFlow F → Bool
  is_live f = lt (of_int (pos 0)) (total_rate fl f) || is_positive f.in_bytes

  abbrev pub percent : F → F → F → F
  percent total part old =
      if lt (of_int (pos 0)) total then round1 (mul (div part total) (of_int (pos 100))) else old

  abbrev pub with_percents : F → F → ProxyFlow F → ProxyFlow F
  with_percents total_in total_out f = record f {
    pct_in = percent total_in (of_int f.in_bytes) f.pct_in;
    pct_out = percent total_out (of_int f.out_bytes) f.pct_out;
  }

  -- The loop for the main direction: the first flow with the highest rate.
  unfoldable pub best_of : ProxyFlow F → List (ProxyFlow F) → ProxyFlow F
  best_of best [] = best
  best_of best (f ∷ fs) = best_of (if lt (total_rate fl best) (total_rate fl f) then f else best) fs

  unfoldable pub snapshot : ℕ → ProxyFlow F → List (ProxyFlow F) → F → F → Snapshot F
  unfolding sum_of best_of
  snapshot now f fs total_in total_out =
      let flows = map (with_percents total_in total_out) (f ∷ fs) in
      record {
        ts = now;
        total_in = to_int total_in;
        total_out = to_int total_out;
        rate_in_sum = round1 (sum_of (λ g. g.rate_in) (f ∷ fs) (of_int (pos 0)));
        rate_out_sum = round1 (sum_of (λ g. g.rate_out) (f ∷ fs) (of_int (pos 0)));
        flows = flows;
        top =
            best_of (with_percents total_in total_out f)
              (map (with_percents total_in total_out) fs);
        anomalies = keep (λ g. g.anomaly) flows;
        online = count is_live (f ∷ fs);
      }

  abbrev pub latest_of : ℕ → List (ProxyFlow F) → Monitor F → Option (Snapshot F) × Monitor F
  latest_of now [] s = (none, s)
  latest_of now (f ∷ fs) s =
      let total_in = sum_of (λ g. of_int g.in_bytes) (f ∷ fs) (of_int (pos 0)) in
      let total_out = sum_of (λ g. of_int g.out_bytes) (f ∷ fs) (of_int (pos 0)) in
      (
        some (snapshot now f fs total_in total_out),
        record s { last_sample = map_entries (with_percents total_in total_out) s.last_sample },
      )

  unfoldable pub latest : ℕ → Monitor F → Option (Snapshot F) × Monitor F
  unfolding snapshot
  latest now s = latest_of now (entries s.last_sample) s
