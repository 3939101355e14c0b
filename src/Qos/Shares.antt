-- ===== src/Qos/Shares.antt =====
-- What `desired` plans: the equal shares of the automatic mode, the caps of the manual mode, and
-- the ids of the classes.
use frpilot.Prelude.{
  Option-cases, none, ◌⊎◌, ℤ, pos, ◌≡◌, refl, String, str_eq, eq_iff, Bool, true, false,
  if◌then◌else◌, ◌==◌, ◌&&◌, some, List, [], ◌∷◌, inl, inr, arith, any, count, Bool-cases,
}
use frpilot.Prelude.Maps.{Map, get, has, get-put, get-nil, has-nil}
use frpilot.Floats.{Floats}
use frpilot.Qos.State.{ClassState, MachineSample, Dir, Service, class_id}
use frpilot.Qos.Plan.{
  ManualItem, QosConfig, bps, budget_of, cap_of, is_sharing, is_capped, port_or_zero, want,
  auto_loop, manual_loop, auto_plan, desired, online_samples,
}
use frpilot.Qos.Ids.{IdsValid, class_id-IdsValid, class_id-get, class_id-keeps}

module _ (fl : Floats) where
  open fl use {F, of_int, mul, div, lt, le}

  -- A machine of the name shares the budget.
  abbrev pub shares : String → List (MachineSample F) → Bool
  shares n = any (λ m. is_sharing fl m && str_eq m.name n)

  auto_loop-has :
      (n : String) (share : F) (ms : List (MachineSample F)) (res : Map (ClassState F))
      (s : Service F)
      → has n (auto_loop fl share ms res s).0 ≡ (if shares n ms then true else has n res)
  unfolding auto_loop has
  auto_loop-has n share [] res s = refl
  auto_loop-has n share (m ∷ ms) res s = elim (Bool-cases (is_sharing fl m)) [
    | inl e ↦ ground (
      arith,
      auto_loop-has n share ms (want fl m.name share m.port res s).0
          (want fl m.name share m.port res s).1,
      get-put m.name n (record { id = (class_id m.name s).0; rate = share; port = m.port }) res,
    )
    | inr e ↦ ground (arith, auto_loop-has n share ms res s)
  ]

  abbrev AllRates : F → Map (ClassState F) → Type 0
  AllRates share res = (n : String) (c : ClassState F) → get n res ≡ some c → c.rate ≡ share

  want-rate :
      (b : Bool) (name : String) (share : F) (port : ℤ) (res : Map (ClassState F)) (s : Service F)
      → AllRates share res
      → AllRates share (if b then want fl name share port res s else (res, s)).0
  unfolding want
  want-rate true name share port res s h = λ n c g. ground (
    arith,
    h n c,
    get-put name n (record { id = (class_id name s).0; rate = share; port = port }) res,
  )
  want-rate false name share port res s h = h

  auto_loop-rate :
      (share : F) (ms : List (MachineSample F)) (res : Map (ClassState F)) (s : Service F)
      → AllRates share res
      → AllRates share (auto_loop fl share ms res s).0
  unfolding auto_loop
  auto_loop-rate share [] res s h = h
  auto_loop-rate share (m ∷ ms) res s h =
      let st = if is_sharing fl m then want fl m.name share m.port res s else (res, s) in
      auto_loop-rate share ms st.0 st.1 (want-rate (is_sharing fl m) m.name share m.port res s h)

  -- What the automatic mode plans for a name: nothing, or a class with the share.
  auto_class :
      (name : String) (share : F) (ms : List (MachineSample F)) (s : Service F)
      → let res = (auto_loop fl share ms [] s).0 in
        ((shares name ms ≡ false) × (get name res ≡ none))
        ⊎ ((shares name ms ≡ true)
            × (k : ClassState F) × (get name res ≡ some k)
            × (k.rate ≡ share))
  unfolding has
  auto_class name share ms s =
      let res = (auto_loop fl share ms [] s).0 in
      let h : has name res ≡ shares name ms =
        ground (arith, auto_loop-has name share ms [] s, has-nil (ClassState F) name) in
      elim (Option-cases (get name res)) [
        | inl e ↦ inl (ground (arith, h), e)
        | inr (k, e) ↦ inr (
          ground (arith, h),
          k,
          e,
          auto_loop-rate share ms [] s
              (λ m d e'. absurd (ground (arith, get-nil {V = ClassState F} m))) name k e,
        )
      ]

  -- In the automatic mode a direction is shaped exactly when its budget is positive and some
  -- machine is online and active. Then the root class has the whole budget, exactly the machines
  -- that are online and active have a class, and the rate of each is the budget divided by their
  -- number; otherwise no machine has a class.
  pub desired-fair :
      (dir : Dir) (samples : List (MachineSample F)) (c : QosConfig F) (s : Service F)
      (name : String)
      → str_eq c.mode "manual" ≡ false
      → let p = (desired fl dir samples c s).0 in
        let n = count (is_sharing fl) samples in
        let budget = budget_of fl dir c in
        (p.enabled ≡ (if le budget (of_int (pos 0)) then false else if n == 0 then false else true))
        × (p.root ≡ (if p.enabled then bps fl budget else of_int (pos 0)))
        × (((p.enabled && shares name samples ≡ false) × (get name p.classes ≡ none))
            ⊎ ((p.enabled && shares name samples ≡ true)
                × (k : ClassState F) × (get name p.classes ≡ some k)
                × (k.rate ≡ div (bps fl budget) (of_int (pos n)))))
  unfolding desired auto_plan
  desired-fair dir samples c s name h =
      let n = count (is_sharing fl) samples in
      let share = div (bps fl (budget_of fl dir c)) (of_int (pos n)) in
      elim (Bool-cases (le (budget_of fl dir c) (of_int (pos 0)))) [
        | inl e ↦ rw (h, e) (refl, refl, inl (refl, get-nil {V = ClassState F} name))
        | inr e ↦ elim (Bool-cases (n == 0)) [
          | inl z ↦ rw (h, e, z) (refl, refl, inl (refl, get-nil {V = ClassState F} name))
          | inr z ↦ rw (h, e, z) (refl, refl, auto_class name share samples s)
        ]
      ]

  -- Every planned class has the id that classID records for its machine.
  abbrev Recorded : Map (ClassState F) → Service F → Type 0
  Recorded res s = (n : String) (c : ClassState F) → get n res ≡ some c → get n s.ids ≡ some c.id

  want-Recorded :
      (b : Bool) (name : String) (rate : F) (port : ℤ) (res : Map (ClassState F)) (s : Service F)
      → IdsValid s
      → Recorded res s
      → let st = if b then want fl name rate port res s else (res, s) in
        IdsValid st.1 × Recorded st.0 st.1
  unfolding want
  want-Recorded true name rate port res s v h = (
    class_id-IdsValid name s v,
    λ n c g.
        let made : ClassState F = record { id = (class_id name s).0; rate = rate; port = port } in
        elim (Bool-cases (str_eq name n)) [
          | inl e ↦ ground (arith, get-put name n made res, class_id-get name s, eq_iff name n)
          | inr e ↦ class_id-keeps name n c.id s (h n c (ground (arith, get-put name n made res)))
        ],
  )
  want-Recorded false name rate port res s v h = (v, h)

  auto_loop-Recorded :
      (share : F) (ms : List (MachineSample F)) (res : Map (ClassState F)) (s : Service F)
      → IdsValid s
      → Recorded res s
      → let st = auto_loop fl share ms res s in IdsValid st.1 × Recorded st.0 st.1
  unfolding auto_loop
  auto_loop-Recorded share [] res s v h = (v, h)
  auto_loop-Recorded share (m ∷ ms) res s v h =
      let st = if is_sharing fl m then want fl m.name share m.port res s else (res, s) in
      let w = want-Recorded (is_sharing fl m) m.name share m.port res s v h in
      auto_loop-Recorded share ms st.0 st.1 w.0 w.1

  manual_loop-Recorded :
      (dir : Dir) (online : Map (MachineSample F)) (items : List (ManualItem F))
      (res : Map (ClassState F)) (enabled : Bool) (s : Service F)
      → IdsValid s
      → Recorded res s
      → let st = manual_loop fl dir online items res enabled s in
        IdsValid st.1 × Recorded st.0.0 st.1
  unfolding manual_loop
  manual_loop-Recorded dir online [] res enabled s v h = (v, h)
  manual_loop-Recorded dir online (it ∷ items) res enabled s v h =
      let m = get it.name online in
      let x = cap_of fl dir it in
      let capped = is_capped fl x m in
      let st = if capped then want fl it.name (bps fl x) (port_or_zero fl m) res s else (res, s) in
      let w = want-Recorded capped it.name (bps fl x) (port_or_zero fl m) res s v h in
      manual_loop-Recorded dir online items st.0 (if capped then true else enabled) st.1 w.0 w.1

  nothing-Recorded : (s : Service F) → Recorded [] s
  nothing-Recorded s = λ n c g. absurd (ground (arith, get-nil {V = ClassState F} n))

  desired-Recorded :
      (dir : Dir) (samples : List (MachineSample F)) (c : QosConfig F) (s : Service F)
      → IdsValid s
      → let p = desired fl dir samples c s in IdsValid p.1 × Recorded p.0.classes p.1
  unfolding desired
  desired-Recorded dir samples c s v =
      let n = count (is_sharing fl) samples in
      let budget = budget_of fl dir c in
      let m =
        manual_loop-Recorded dir (online_samples fl samples []) c.manual [] false s v
          (nothing-Recorded s) in
      let a =
        auto_loop-Recorded (div (bps fl budget) (of_int (pos n))) samples [] s v
          (nothing-Recorded s) in
      elim (Bool-cases (str_eq c.mode "manual")) [
        | inl e ↦ rw e m
        | inr e ↦ elim (Bool-cases (le budget (of_int (pos 0)))) [
          | inl z ↦ rw (e, auto_plan, z) (v, nothing-Recorded s)
          | inr z ↦ elim (Bool-cases (n == 0)) [
            | inl o ↦ rw (e, auto_plan, z, o) (v, nothing-Recorded s)
            | inr o ↦ rw (e, auto_plan, z, o) a
          ]
        ]
      ]

  -- While the ids are apart, two names that a plan gives one class are one name, in either mode, and
  -- where a plan has a class the ids are apart after it.
  pub desired-apart :
      (dir : Dir) (samples : List (MachineSample F)) (c : QosConfig F) (s : Service F)
      (n m : String) (x y : ClassState F)
      → IdsValid s
      → get n (desired fl dir samples c s).0.classes ≡ some x
      → get m (desired fl dir samples c s).0.classes ≡ some y
      → x.id ≡ y.id
      → IdsValid (desired fl dir samples c s).1 × (n ≡ m)
  desired-apart dir samples c s n m x y v g h e =
      let r = desired-Recorded dir samples c s v in
      (r.0, r.0.apart n m x.id (r.1 n x g) (rw e (r.1 m y h)))
