-- ===== src/Qos/Hysteresis.antt =====
-- Who counts as active after updateActive.
use frpilot.Prelude.{
  ℕ, ℤ, ◌≡◌, ◌≢◌, refl, ap, ap₂, sym, ◌∙◌, String, eq_iff, Bool, true, false, if◌then◌else◌, ◌&&◌,
  ◌||◌, Option, none, some, List, [], ◌∷◌, arith, All, All-both, Distinct, map,
}
use frpilot.Prelude.Maps.{Map, get, put, get-put, get-delete}
use frpilot.Floats.{Floats}
use frpilot.Qos.State.{MachineSample, Service}
use frpilot.Qos.Activity.{
  online_map, is_online, is_recent, mark, mark_all, drop_offline, fill_in, update_active,
}

module _ (fl : Floats) where
  open fl use {F, add, lt}

  -- Online, and either above the threshold now or active within the hysteresis window.
  abbrev pub judged : F → ℤ → ℕ → Map ℕ → MachineSample F → Bool
  judged threshold hysteresis now last m =
      m.online
      && (lt threshold (add m.rate_in m.rate_out) || is_recent fl now hysteresis (get m.name last))

  abbrev pub set_judged : F → ℤ → ℕ → Map ℕ → MachineSample F → MachineSample F
  set_judged threshold hysteresis now last m = record m {
    active = judged threshold hysteresis now last m;
  }

  abbrev flag : Option Bool → Bool
  flag o = elim o [ some b ↦ b | none ↦ false ]

  module _ (threshold : F) (hysteresis : ℤ) (now : ℕ) where
    mark_self :
        (m : MachineSample F) (s : Service F)
        → m.online && flag (get m.name (mark fl threshold hysteresis now m s).active)
          ≡ judged threshold hysteresis now s.last_active m
    unfolding mark
    mark_self m s = ground (
      arith,
      get-put m.name m.name true s.active,
      get-delete m.name m.name s.active,
      eq_iff m.name m.name,
    )

    mark-other :
        (m : MachineSample F) (n : String) (s : Service F)
        → m.name ≢ n
        → (get n (mark fl threshold hysteresis now m s).active ≡ get n s.active)
          × (get n (mark fl threshold hysteresis now m s).last_active ≡ get n s.last_active)
    unfolding mark
    mark-other m n s h = ground (
      arith,
      get-put m.name n true s.active,
      get-delete m.name n s.active,
      get-put m.name n now s.last_active,
      eq_iff m.name n,
    )

    mark_all-absent :
        (ms : List (MachineSample F)) (n : String) (s : Service F)
        → All (λ m. m.name ≢ n) ms
        → get n (mark_all fl threshold hysteresis now ms s).active ≡ get n s.active
    unfolding mark_all
    mark_all-absent [] n s h = refl
    mark_all-absent (m ∷ ms) n s h =
        mark_all-absent ms n (mark fl threshold hysteresis now m s) h.1 ∙ (mark-other m n s h.0).0

    judged-mark :
        (x m : MachineSample F) (s : Service F)
        → x.name ≢ m.name
        → judged threshold hysteresis now (mark fl threshold hysteresis now x s).last_active m
          ≡ judged threshold hysteresis now s.last_active m
    judged-mark x m s h = rw ((mark-other x m.name s h).1)

    marked :
        (ms : List (MachineSample F)) (s : Service F)
        → Distinct (λ m. m.name) ms
        → All
            (λ m.
              m.online && flag (get m.name (mark_all fl threshold hysteresis now ms s).active)
              ≡ judged threshold hysteresis now s.last_active m)
            ms
    unfolding mark_all
    marked [] s d = tt
    marked (x ∷ ms) s d = (
      ap (λ o. x.online && flag o)
            (mark_all-absent ms x.name (mark fl threshold hysteresis now x s) d.0)
          ∙ mark_self x s,
      All-both (λ y. y.name ≢ x.name) _ _ ms d.0
          (marked ms (mark fl threshold hysteresis now x s) d.1)
          (λ m n e. e ∙ judged-mark x m s (λ q. n (sym q))),
    )

  drop_offline-get :
      (online : Map Bool) (n : String) (m : Map Bool)
      → get n (drop_offline fl online m) ≡ (if is_online fl online n then get n m else none)
  unfolding drop_offline get
  drop_offline-get online n [] = ground arith
  drop_offline-get online n ((k, v) ∷ m) = ground (arith, drop_offline-get online n m, eq_iff k n)

  online_map-absent :
      (ms : List (MachineSample F)) (n : String) (acc : Map Bool)
      → All (λ m. m.name ≢ n) ms
      → get n (online_map fl ms acc) ≡ get n acc
  unfolding online_map
  online_map-absent [] n acc h = refl
  online_map-absent (m ∷ ms) n acc h =
      online_map-absent ms n (put m.name m.online acc) h.1
      ∙ ground (arith, get-put m.name n m.online acc, h.0, eq_iff m.name n)

  online_map-get :
      (ms : List (MachineSample F)) (acc : Map Bool)
      → Distinct (λ m. m.name) ms
      → All (λ m. get m.name (online_map fl ms acc) ≡ some m.online) ms
  unfolding online_map
  online_map-get [] acc d = tt
  online_map-get (m ∷ ms) acc d = (
    online_map-absent ms m.name (put m.name m.online acc) d.0
        ∙ ground (arith, get-put m.name m.name m.online acc, eq_iff m.name m.name),
    online_map-get ms (put m.name m.online acc) d.1,
  )

  module _ (threshold : F) (hysteresis : ℤ) (now : ℕ) (s : Service F) where
    fill_in-judged :
        (active : Map Bool) (ms : List (MachineSample F))
        → All (λ m. is_online fl active m.name ≡ judged threshold hysteresis now s.last_active m) ms
        → fill_in fl active ms ≡ map (set_judged threshold hysteresis now s.last_active) ms
    unfolding fill_in
    fill_in-judged active [] h = refl
    fill_in-judged active (m ∷ ms) h =
        ap₂ (λ (b : Bool) (r : List (MachineSample F)). record m { active = b } ∷ r) h.0
          (fill_in-judged active ms h.1)

    kept-flag :
        (online act : Map Bool) (m : MachineSample F)
        → get m.name online ≡ some m.online
        → is_online fl (drop_offline fl online act) m.name ≡ m.online && flag (get m.name act)
    kept-flag online act m e = ground (arith, drop_offline-get online m.name act)

    -- Among samples of distinct names a machine counts as active exactly when it is online and
    -- either above the threshold or, by the last time that it was above it, within the hysteresis
    -- window; nothing else of the samples changes.
    pub update_active-judged :
        (ms : List (MachineSample F))
        → Distinct (λ m. m.name) ms
        → (update_active fl threshold hysteresis now ms s).0
          ≡ map (set_judged threshold hysteresis now s.last_active) ms
    unfolding update_active
    update_active-judged ms d =
        let active = (mark_all fl threshold hysteresis now ms s).active in
        let online = online_map fl ms [] in
        fill_in-judged (drop_offline fl online active) ms (
          All-both (λ m. get m.name online ≡ some m.online) _ _ ms (online_map-get ms [] d)
            (marked threshold hysteresis now ms s d) (λ m e j. kept-flag online active m e ∙ j))
