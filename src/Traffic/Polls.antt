-- ===== src/Traffic/Polls.antt =====
-- The flows of one poll.
use frpilot.Prelude.{
  ℕ, ◌≡◌, ◌≢◌, refl, ap, ap₂, ◌∙◌, ℤ, String, str_eq, eq_iff, Bool, Option, List, [], ◌∷◌, arith,
  inl, inr, Bool-cases, map, keep, All, Distinct,
}
use frpilot.Prelude.Maps.{Map, get, put, get-put}
use frpilot.Floats.{Floats}
use frpilot.Traffic.{ProxyData, ProxyFlow, Monitor, flow_rates, flow_of, poll_loop}

abbrev pub is_up : ProxyData → Bool
is_up p = str_eq p.status "online"

module _ (fl : Floats) (machine : String → ℕ) where
  open fl use {F}

  -- The flow of a proxy against the totals of the last poll.
  abbrev pub measured : Map (ℤ × ℤ) → ProxyData → ProxyFlow F
  measured totals p = flow_of fl (machine p.name) p (flow_rates fl (get p.name totals) p)

  measured-other :
      (k : String) (v : ℤ × ℤ) (m : Map (ℤ × ℤ)) (ps : List ProxyData)
      → All (λ p. p.name ≢ k) ps
      → map (measured (put k v m)) (keep is_up ps) ≡ map (measured m) (keep is_up ps)
  measured-other k v m [] a = refl
  measured-other k v m (p ∷ ps) a = elim (Bool-cases (is_up p)) [
    | inr e ↦ rw e (measured-other k v m ps a.1)
    | inl e ↦ rw e (
        ap₂
          (λ (o : Option (ℤ × ℤ)) (r : List (ProxyFlow F)).
            flow_of fl (machine p.name) p (flow_rates fl o p) ∷ r)
          (ground (arith, get-put k p.name v m, eq_iff k p.name, a.0))
          (measured-other k v m ps a.1))
  ]

  -- A poll of proxies with distinct names gives one flow for each that is online, in order, whose
  -- rates are measured against the totals from before the poll.
  pub poll_loop-measured :
      (ps : List ProxyData) (s : Monitor F)
      → Distinct (λ p. p.name) ps
      → (poll_loop fl machine ps s).0 ≡ map (measured s.prev_totals) (keep is_up ps)
  unfolding poll_loop
  poll_loop-measured [] s d = refl
  poll_loop-measured (p ∷ ps) s d = elim (Bool-cases (is_up p)) [
    | inr e ↦ rw e (poll_loop-measured ps s d.1)
    | inl e ↦ rw e (
        ap (λ r. measured s.prev_totals p ∷ r)
          (poll_loop-measured ps _ d.1
            ∙ measured-other p.name (p.in_bytes, p.out_bytes) s.prev_totals ps d.0))
  ]
