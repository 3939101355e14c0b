-- ===== src/Traffic/Top.antt =====
-- The main direction of a snapshot.
use frpilot.Prelude.{
  ℕ, ◌≡◌, ◌⊎◌, refl, sym, subst, true, false, if◌then◌else◌, Option, none, some, List, [], ◌∷◌, map,
  All, inl, inr, Bool-cases,
}
use frpilot.Floats.{Floats}
use frpilot.Traffic.{ProxyFlow, Monitor}
use frpilot.Traffic.Latest.{
  Snapshot, entries, total_rate, with_percents, best_of, snapshot, latest, latest_of,
}

abbrev pub IsIn : {A : Type 0} → A → List A → Type 0
IsIn x [] = ⊥
IsIn x (y ∷ ys) = (x ≡ y) ⊎ IsIn x ys

module _ (fl : Floats) (round1 : fl.F → fl.F) where
  open fl use {F, lt}

  -- How `<` orders the values of a kind, such as the values of float64 other than NaN.
  pub record Ordered (Num : F → Type 0) : Type 0 where
    pub lt_irrefl : (a : F) → lt a a ≡ false
    pub lt_asym : (a b : F) → lt a b ≡ true → lt b a ≡ false
    pub not-lt_trans :
        (a b c : F) → Num a → Num b → Num c → lt a b ≡ false → lt b c ≡ false → lt a c ≡ false

  -- The rate of a flow in both directions together is of the kind.
  abbrev pub HasRate : (F → Type 0) → ProxyFlow F → Type 0
  HasRate Num f = Num (total_rate fl f)

  -- No flow has a higher rate.
  abbrev pub IsTop : ProxyFlow F → List (ProxyFlow F) → Type 0
  IsTop top flows =
      IsIn top flows × All (λ f. lt (total_rate fl top) (total_rate fl f) ≡ false) flows

  best_of-le :
      {Num : F → Type 0} (best : ProxyFlow F) (fs : List (ProxyFlow F))
      → Ordered Num
      → HasRate Num best
      → All (HasRate Num) fs
      → (b : ProxyFlow F) → HasRate Num b
      → lt (total_rate fl best) (total_rate fl b) ≡ false
      → lt (total_rate fl (best_of fl round1 best fs)) (total_rate fl b) ≡ false
  unfolding best_of
  best_of-le best [] o n ns b nb h = h
  best_of-le best (f ∷ fs) o n ns b nb h =
      elim (Bool-cases (lt (total_rate fl best) (total_rate fl f))) [
        | inl e ↦
            rw e (
              best_of-le f fs o ns.0 ns.1 b nb (o.not-lt_trans _ _ _ ns.0 n nb (o.lt_asym _ _ e) h))
        | inr e ↦ rw e (best_of-le best fs o n ns.1 b nb h)
      ]

  best_of-IsTop :
      {Num : F → Type 0} (best : ProxyFlow F) (fs : List (ProxyFlow F))
      → Ordered Num
      → All (HasRate Num) (best ∷ fs)
      → IsTop (best_of fl round1 best fs) (best ∷ fs)
  unfolding best_of
  best_of-IsTop best [] o ns = (inl refl, (o.lt_irrefl _, tt))
  best_of-IsTop best (f ∷ fs) o (n, ns) =
      elim (Bool-cases (lt (total_rate fl best) (total_rate fl f))) [
        | inl e ↦
            let (there, (first, rest)) = best_of-IsTop f fs o ns in
            let same : (if lt (total_rate fl best) (total_rate fl f) then f else best) ≡ f =
              rw e refl in
            subst (λ b. IsTop (best_of fl round1 b fs) (best ∷ f ∷ fs)) (sym same)
              (inr there, (best_of-le f fs o ns.0 ns.1 best n (o.lt_asym _ _ e), (first, rest)))
        | inr e ↦
            let (there, (first, rest)) = best_of-IsTop best fs o (n, ns.1) in
            let same : (if lt (total_rate fl best) (total_rate fl f) then f else best) ≡ best =
              rw e refl in
            subst (λ b. IsTop (best_of fl round1 b fs) (best ∷ f ∷ fs)) (sym same)
              (
                elim there [ inl h ↦ inl h | inr h ↦ inr (inr h) ],
                (first, (best_of-le best fs o n ns.1 f ns.0 e, rest)),
              )
      ]

  abbrev FromFlows : List (ProxyFlow F) → Option (Snapshot F) → Type 0
  FromFlows fs found =
      ((fs ≡ []) × (found ≡ none))
      ⊎ ((snap : Snapshot F) × (found ≡ some snap)
          × IsTop snap.top snap.flows
          × ((total_in : F) × (total_out : F) × (snap.flows
                ≡ map (with_percents fl round1 total_in total_out) fs)))

  -- The percentages are no part of the rate.
  with_percents-HasRate :
      (Num : F → Type 0) (i o : F) (fs : List (ProxyFlow F))
      → All (HasRate Num) fs
      → All (HasRate Num) (map (with_percents fl round1 i o) fs)
  with_percents-HasRate Num i o [] h = tt
  with_percents-HasRate Num i o (f ∷ fs) h = (h.0, with_percents-HasRate Num i o fs h.1)

  latest_of-FromFlows :
      (Num : F → Type 0) (now : ℕ) (fs : List (ProxyFlow F)) (s : Monitor F)
      → Ordered Num
      → All (HasRate Num) fs
      → FromFlows fs (latest_of fl round1 now fs s).0
  unfolding snapshot
  latest_of-FromFlows Num now [] s o n = inl (refl, refl)
  latest_of-FromFlows Num now (f ∷ fs) s o n =
      inr (_, refl, best_of-IsTop _ _ o (with_percents-HasRate Num _ _ (f ∷ fs) n), (_, _, refl))

  -- Latest gives a snapshot exactly when some proxy has been sampled. Its main direction is one of
  -- its flows, none of which has a higher rate in both directions together; and its flows are those
  -- of the last samples, in the order of the range, with new percentages only. It is assumed that
  -- the rates in both directions together are of a kind, such as the float64 values that are not NaN,
  -- whose values `<` orders.
  pub latest-IsTop :
      (Num : F → Type 0) (now : ℕ) (s : Monitor F)
      → Ordered Num
      → All (HasRate Num) (entries s.last_sample)
      → ((entries s.last_sample ≡ []) × ((latest fl round1 now s).0 ≡ none))
        ⊎ ((snap : Snapshot F) × ((latest fl round1 now s).0 ≡ some snap)
            × IsTop snap.top snap.flows
            × ((total_in : F) × (total_out : F) × (snap.flows
                  ≡ map (with_percents fl round1 total_in total_out) (entries s.last_sample))))
  unfolding latest
  latest-IsTop Num now s o n = latest_of-FromFlows Num now (entries s.last_sample) s o n
