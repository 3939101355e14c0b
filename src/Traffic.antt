-- ===== src/Traffic.antt =====
-- internal/traffic/traffic.go: pollWithProxies and detectAnomalies, with the row of
-- internal/store/traffic.go. The snapshot for the page is in Traffic/Latest; the ticker is left out.
pub mod Means
pub mod Polls
pub mod Latest
pub mod Top
use frpilot.Prelude.{
  ℕ, suc, ◌+◌, ℤ, pos, ◌-ℤ◌, wrap64, String, str_eq, Bool, true, false, if◌then◌else◌, not, ◌&&◌,
  ◌||◌, leb, Option, none, some, List, [], ◌∷◌, ◌++◌, map, keep,
}
use frpilot.Prelude.Maps.{Map, get, put}
use frpilot.Exec.{Result, ok, err, storage}
use frpilot.Floats.{Floats}

pub record ProxyData : Type 0 where
  pub name : String
  pub in_bytes : ℤ
  pub out_bytes : ℤ
  pub status : String

pub record ProxyFlow (F : Type 0) : Type 0 where
  pub proxy : String
  pub machine_id : ℕ
  pub in_bytes : ℤ
  pub out_bytes : ℤ
  pub rate_in : F
  pub rate_out : F
  pub pct_in : F
  pub pct_out : F
  pub anomaly : Bool

pub record TrafficPoint (F : Type 0) : Type 0 where
  pub ts : ℕ
  pub proxy : String
  pub machine_id : ℕ
  pub in_bytes : ℤ
  pub out_bytes : ℤ
  pub rate_in : F
  pub rate_out : F

pub record Monitor (F : Type 0) : Type 0 where
  pub prev_totals : Map (ℤ × ℤ)
  pub last_sample : Map (ProxyFlow F)
  pub anomaly : Map Bool

module _ (fl : Floats) where
  open fl use {F, of_int, add, mul, div, lt}

  -- Bytes per second over `PollInterval`, 30 seconds; none at the first poll of a proxy and after
  -- a counter fell.
  unfoldable pub flow_rates : Option (ℤ × ℤ) → ProxyData → F × F
  flow_rates none p = (of_int (pos 0), of_int (pos 0))
  flow_rates (some prev) p =
      let r_in = div (of_int (wrap64 (p.in_bytes -ℤ prev.0))) (of_int (pos 30)) in
      let r_out = div (of_int (wrap64 (p.out_bytes -ℤ prev.1))) (of_int (pos 30)) in
      if lt r_in (of_int (pos 0)) || lt r_out (of_int (pos 0))
      then (of_int (pos 0), of_int (pos 0))
      else (r_in, r_out)

  unfoldable pub flow_of : ℕ → ProxyData → F × F → ProxyFlow F
  flow_of machine p r = record {
    proxy = p.name;
    machine_id = machine;
    in_bytes = p.in_bytes;
    out_bytes = p.out_bytes;
    rate_in = r.0;
    rate_out = r.1;
    pct_in = of_int (pos 0);
    pct_out = of_int (pos 0);
    anomaly = false;
  }

  -- The loop over the proxies; `machine` is machineIDByName.
  unfoldable pub poll_loop :
      (String → ℕ) → List ProxyData → Monitor F → List (ProxyFlow F) × Monitor F
  unfolding flow_rates flow_of
  poll_loop machine [] s = ([], s)
  poll_loop machine (p ∷ ps) s =
      let online = str_eq p.status "online" in
      let f = flow_of (machine p.name) p (flow_rates (get p.name s.prev_totals) p) in
      let (flows, s') = poll_loop machine ps (
        if online
        then record s {
          prev_totals = put p.name (p.in_bytes, p.out_bytes) s.prev_totals;
          last_sample = put p.name f s.last_sample;
        }
        else s) in
      (if online then f ∷ flows else flows, s')

  unfoldable pub point_of : ℕ → ProxyFlow F → TrafficPoint F
  point_of now f = record {
    ts = now;
    proxy = f.proxy;
    machine_id = f.machine_id;
    in_bytes = f.in_bytes;
    out_bytes = f.out_bytes;
    rate_in = f.rate_in;
    rate_out = f.rate_out;
  }

  abbrev pub is_counted : TrafficPoint F → Bool
  is_counted h = not (lt h.rate_in (of_int (pos 0)) || lt h.rate_out (of_int (pos 0)))

  abbrev pub or_zeros : Option (F × F) → F × F
  or_zeros none = (of_int (pos 0), of_int (pos 0))
  or_zeros (some a) = a

  abbrev pub or_zero : Option ℕ → ℕ
  or_zero none = 0
  or_zero (some n) = n

  -- The loop that sums the rates and counts the points of each proxy.
  unfoldable pub sum_up : List (TrafficPoint F) → Map (F × F) → Map ℕ → Map (F × F) × Map ℕ
  sum_up [] sums counts = (sums, counts)
  sum_up (h ∷ hs) sums counts =
      let a = or_zeros (get h.proxy sums) in
      let used = is_counted h in
      sum_up hs (if used then put h.proxy (add a.0 h.rate_in, add a.1 h.rate_out) sums else sums)
        (if used then put h.proxy (suc (or_zero (get h.proxy counts))) counts else counts)

  -- One direction: the mean is above 1e5 bytes per second, and the rate above five times the mean.
  abbrev pub is_surge : F → ℕ → F → Bool
  is_surge sum n rate =
      let mean = div sum (of_int (pos n)) in
      lt (of_int (pos 100000)) mean && lt (mul mean (of_int (pos 5))) rate

  abbrev pub is_anomaly : F × F → ℕ → ProxyFlow F → Bool
  is_anomaly sums n f = leb 3 n && (is_surge sums.0 n f.rate_in || is_surge sums.1 n f.rate_out)

  -- The loop that marks the flows. A flow is shared with `last_sample`.
  unfoldable pub mark_flows :
      Map (F × F) → Map ℕ → List (ProxyFlow F) → Monitor F → List (ProxyFlow F) × Monitor F
  mark_flows sums counts [] s = ([], s)
  mark_flows sums counts (f ∷ fs) s =
      let a = is_anomaly (or_zeros (get f.proxy sums)) (or_zero (get f.proxy counts)) f in
      let f' : ProxyFlow F = record f { anomaly = a } in
      let (rest, s') = mark_flows sums counts fs (record s {
        anomaly = put f.proxy a s.anomaly;
        last_sample = put f.proxy f' s.last_sample;
      }) in
      (f' ∷ rest, s')

  -- `history` is what GetTrafficHistory returns for the last hour.
  unfoldable pub detect_anomalies :
      Result (List (TrafficPoint F))
      → List (ProxyFlow F)
      → Monitor F
      → List (ProxyFlow F) × Monitor F
  unfolding sum_up mark_flows
  detect_anomalies (err e) flows s = (flows, s)
  detect_anomalies (ok []) flows s = (flows, s)
  detect_anomalies (ok (h ∷ hs)) flows s =
      let (sums, counts) = sum_up (h ∷ hs) [] [] in mark_flows sums counts flows s

  -- The rows of the last hour. They are in the order of their times, since each poll appends its own.
  abbrev pub recent : ℕ → List (TrafficPoint F) → List (TrafficPoint F)
  recent now rows = keep (λ h. leb now (h.ts + 3600)) rows

  -- pollWithProxies on the table `traffic_history`; whether SaveTraffic commits and whether
  -- GetTrafficHistory answers is decided by `saves` and `reads`.
  unfoldable pub poll_with_proxies :
      (String → ℕ)
      → ℕ
      → (saves reads : Bool) → List ProxyData
      → List (TrafficPoint F)
      → Monitor F
      → List (TrafficPoint F) × Monitor F
  unfolding poll_loop point_of detect_anomalies
  poll_with_proxies machine now saves reads ps rows s =
      let (flows, s') = poll_loop machine ps s in
      let rows' = if saves then rows ++ map (point_of now) flows else rows in
      let history = if reads then ok (recent now rows') else err storage in
      (rows', (detect_anomalies history flows s').1)
