-- ===== src/Traffic/Means.antt =====
-- Which flows are marked: the maps of sums and counts against the points of one proxy.
use frpilot.Prelude.{
  ℕ, suc, ◌+◌, ◌≡◌, refl, ap, ap₂, ◌∙◌, String, str_eq, eq_iff, Bool, if◌then◌else◌, ◌&&◌, List, [],
  ◌∷◌, arith, inl, inr, Bool-cases, map, count, pos,
}
use frpilot.Prelude.Maps.{Map, get, put, get-put, get-nil}
use frpilot.Exec.{ok}
use frpilot.Floats.{Floats}
use frpilot.Traffic.{
  ProxyFlow, TrafficPoint, Monitor, is_counted, or_zeros, or_zero, sum_up, is_anomaly, mark_flows,
  detect_anomalies,
}

module _ (fl : Floats) where
  open fl use {F, of_int, add}

  -- A point of the proxy that counts.
  abbrev pub is_of : String → TrafficPoint F → Bool
  is_of n h = is_counted fl h && str_eq h.proxy n

  -- The rates of those points, added in their order.
  pub total : String → F × F → List (TrafficPoint F) → F × F
  total n acc [] = acc
  total n acc (h ∷ hs) =
      total n (if is_of n h then (add acc.0 h.rate_in, add acc.1 h.rate_out) else acc) hs

  -- One point, for the sum and for the number.
  sum_step :
      (n : String) (h : TrafficPoint F) (sums : Map (F × F))
      → or_zeros fl (
          get n (
            if is_counted fl h
            then put h.proxy
                (
                  add (or_zeros fl (get h.proxy sums)).0 h.rate_in,
                  add (or_zeros fl (get h.proxy sums)).1 h.rate_out,
                )
                sums
            else sums))
        ≡ (if is_of n h
            then (
              add (or_zeros fl (get n sums)).0 h.rate_in,
              add (or_zeros fl (get n sums)).1 h.rate_out,
            )
            else or_zeros fl (get n sums))
  sum_step n h sums = elim (Bool-cases (is_counted fl h)) [
    | inr u ↦ rw u refl
    | inl u ↦ elim (Bool-cases (str_eq h.proxy n)) [
      | inl e ↦
          rw (u, e, get-put h.proxy n, e)
            (ap
              (λ k. (
                add (or_zeros fl (get k sums)).0 h.rate_in,
                add (or_zeros fl (get k sums)).1 h.rate_out,
              ))
              ((eq_iff h.proxy n).0 e))
      | inr e ↦ rw (u, e, get-put h.proxy n, e) refl
    ]
  ]

  count_step :
      (n : String) (h : TrafficPoint F) (counts : Map ℕ)
      → or_zero fl (
          get n (
            if is_counted fl h
            then put h.proxy (suc (or_zero fl (get h.proxy counts))) counts
            else counts))
        ≡ or_zero fl (get n counts) + (if is_of n h then 1 else 0)
  count_step n h counts = elim (Bool-cases (is_counted fl h)) [
    | inr u ↦ rw u (omega arith)
    | inl u ↦ elim (Bool-cases (str_eq h.proxy n)) [
      | inl e ↦
          rw (u, e, get-put h.proxy n, e)
            (ap (λ k. suc (or_zero fl (get k counts))) ((eq_iff h.proxy n).0 e) ∙ omega arith)
      | inr e ↦ rw (u, e, get-put h.proxy n, e) (omega arith)
    ]
  ]

  sum_up-total :
      (n : String) (hs : List (TrafficPoint F)) (sums : Map (F × F)) (counts : Map ℕ)
      → or_zeros fl (get n (sum_up fl hs sums counts).0) ≡ total n (or_zeros fl (get n sums)) hs
  unfolding sum_up total
  sum_up-total n [] sums counts = refl
  sum_up-total n (h ∷ hs) sums counts =
      let a = or_zeros fl (get h.proxy sums) in
      let used = is_counted fl h in
      let sums' = if used then put h.proxy (add a.0 h.rate_in, add a.1 h.rate_out) sums else sums in
      let counts' =
        if used then put h.proxy (suc (or_zero fl (get h.proxy counts))) counts else counts in
      sum_up-total n hs sums' counts' ∙ ap (λ acc. total n acc hs) (sum_step n h sums)

  sum_up-count :
      (n : String) (hs : List (TrafficPoint F)) (sums : Map (F × F)) (counts : Map ℕ)
      → or_zero fl (get n (sum_up fl hs sums counts).1)
        ≡ or_zero fl (get n counts) + count (is_of n) hs
  unfolding sum_up
  sum_up-count n [] sums counts = omega arith
  sum_up-count n (h ∷ hs) sums counts =
      let a = or_zeros fl (get h.proxy sums) in
      let used = is_counted fl h in
      let sums' = if used then put h.proxy (add a.0 h.rate_in, add a.1 h.rate_out) sums else sums in
      let counts' =
        if used then put h.proxy (suc (or_zero fl (get h.proxy counts))) counts else counts in
      omega (arith, sum_up-count n hs sums' counts', count_step n h counts)

  -- A flow with the mark that the points of its proxy justify.
  abbrev pub marked : List (TrafficPoint F) → ProxyFlow F → ProxyFlow F
  marked hs f = record f {
    anomaly =
        is_anomaly fl (total f.proxy (of_int (pos 0), of_int (pos 0)) hs) (count (is_of f.proxy) hs)
          f;
  }

  mark_flows-map :
      (sums : Map (F × F)) (counts : Map ℕ) (hs : List (TrafficPoint F))
      → ((n : String) → or_zeros fl (get n sums) ≡ total n (of_int (pos 0), of_int (pos 0)) hs)
      → ((n : String) → or_zero fl (get n counts) ≡ count (is_of n) hs)
      → (flows : List (ProxyFlow F)) (s : Monitor F)
      → (mark_flows fl sums counts flows s).0 ≡ map (marked hs) flows
  unfolding mark_flows
  mark_flows-map sums counts hs a b [] s = refl
  mark_flows-map sums counts hs a b (f ∷ fs) s =
      ap₂ (λ (m : Bool) (r : List (ProxyFlow F)). record f { anomaly = m } ∷ r)
        (ap₂ (λ (t : F × F) (n : ℕ). is_anomaly fl t n f) (a f.proxy) (b f.proxy))
        (mark_flows-map sums counts hs a b fs _)

  -- With some points of the last hour at hand, a flow is marked exactly when its proxy has at least
  -- three points without a negative rate, and in one direction the mean of their rates is above 1e5
  -- bytes per second and the rate of the flow above five times that mean; nothing else of the flows
  -- changes.
  pub detect_anomalies-marked :
      (h : TrafficPoint F) (hs : List (TrafficPoint F)) (flows : List (ProxyFlow F)) (s : Monitor F)
      → (detect_anomalies fl (ok (h ∷ hs)) flows s).0 ≡ map (marked (h ∷ hs)) flows
  unfolding detect_anomalies
  detect_anomalies-marked h hs flows s =
      let r = sum_up fl (h ∷ hs) [] [] in
      mark_flows-map r.0 r.1 (h ∷ hs)
        (λ n.
          sum_up-total n (h ∷ hs) [] []
          ∙ ap (λ o. total n (or_zeros fl o) (h ∷ hs)) (get-nil {V = F × F} n))
        (λ n.
          sum_up-count n (h ∷ hs) [] []
          ∙ ap (λ o. or_zero fl o + count (is_of n) (h ∷ hs)) (get-nil {V = ℕ} n)
          ∙ omega arith)
        flows s
