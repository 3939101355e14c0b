-- ===== src/Qos/Activity.antt =====
-- internal/qos/qos.go: sample and updateActive.
use frpilot.Prelude.{
  ℕ, ◌+◌, ℤ, pos, pos_part, neg_part, ◌-ℤ◌, wrap64, is_positive, String, str_eq, Bool, true, false,
  if◌then◌else◌, leb, ◌&&◌, ◌||◌, not, Option, none, some, List, [], ◌∷◌,
}
use frpilot.Prelude.Maps.{Map, get, put, delete}
use frpilot.Floats.{Floats}
use frpilot.Qos.State.{MachineSample, Service}

-- frpsapi.Proxy, as the dashboard reports it.
pub record Proxy : Type 0 where
  pub name : String
  pub remote_port : ℤ
  pub status : String
  pub today_in : ℤ
  pub today_out : ℤ

module _ (fl : Floats) where
  open fl use {F, of_int, add, div, lt}

  abbrev zero_rate : F
  zero_rate = of_int (pos 0)

  -- Bytes per second over `PollInterval`, 15 seconds.
  abbrev per_second : ℤ → F
  per_second n = div (of_int n) (of_int (pos 15))

  -- The rates since the last poll: none at the first poll of a proxy, for one that is offline, and
  -- after a counter fell, when frps was restarted.
  unfoldable pub rates : Option (ℤ × ℤ) → Bool → Proxy → F × F
  rates none online p = (zero_rate, zero_rate)
  rates (some prev) online p =
      let r_in = per_second (wrap64 (p.today_in -ℤ prev.0)) in
      let r_out = per_second (wrap64 (p.today_out -ℤ prev.1)) in
      if online && not (lt r_in zero_rate || lt r_out zero_rate)
      then (r_in, r_out)
      else (zero_rate, zero_rate)

  abbrev sample_of : Proxy → F × F → MachineSample F
  sample_of p r = record {
    name = p.name;
    port = p.remote_port;
    online = str_eq p.status "online";
    rate_in = r.0;
    rate_out = r.1;
    active = false;
  }

  abbrev with_total : Proxy → Service F → Service F
  with_total p s = record s { prev_totals = put p.name (p.today_in, p.today_out) s.prev_totals }

  -- The loop of `sample` over the proxies.
  unfoldable pub sample_loop : List Proxy → Service F → List (MachineSample F) × Service F
  unfolding rates
  sample_loop [] s = ([], s)
  sample_loop (p ∷ ps) s =
      let fixed = is_positive p.remote_port in
      let (rest, s') = sample_loop ps (if fixed then with_total p s else s) in
      if fixed
      then (sample_of p (rates (get p.name s.prev_totals) (str_eq p.status "online") p) ∷ rest, s')
      else (rest, s')

  -- Whether the last sample of the name was online; a name without a sample counts as offline.
  unfoldable pub online_map : List (MachineSample F) → Map Bool → Map Bool
  online_map [] m = m
  online_map (x ∷ xs) m = online_map xs (put x.name x.online m)

  abbrev pub is_online : Map Bool → String → Bool
  is_online m name = elim (get name m) [ some b ↦ b | none ↦ false ]

  -- now.Sub(la) <= hysteresis
  abbrev pub is_recent : ℕ → ℤ → Option ℕ → Bool
  is_recent now hysteresis none = false
  is_recent now hysteresis (some t) = leb (now + neg_part hysteresis) (t + pos_part hysteresis)

  -- The turn of the first loop of `updateActive` for one sample.
  unfoldable pub mark : F → ℤ → ℕ → MachineSample F → Service F → Service F
  mark threshold hysteresis now m s =
      if not m.online
      then s
      else if lt threshold (add m.rate_in m.rate_out)
      then record s {
        active = put m.name true s.active;
        last_active = put m.name now s.last_active;
      }
      else if is_recent now hysteresis (get m.name s.last_active)
      then record s { active = put m.name true s.active }
      else record s { active = delete m.name s.active }

  unfoldable pub mark_all : F → ℤ → ℕ → List (MachineSample F) → Service F → Service F
  unfolding mark
  mark_all threshold hysteresis now [] s = s
  mark_all threshold hysteresis now (m ∷ ms) s =
      mark_all threshold hysteresis now ms (mark threshold hysteresis now m s)

  -- The loops that forget what is no longer online.
  unfoldable pub drop_offline {ℓ} : {V : Type ℓ} → Map Bool → Map V → Map V
  drop_offline online [] = []
  drop_offline online ((k, v) ∷ m) =
      let rest = drop_offline online m in if is_online online k then (k, v) ∷ rest else rest

  unfoldable pub fill_in : Map Bool → List (MachineSample F) → List (MachineSample F)
  fill_in active [] = []
  fill_in active (m ∷ ms) = record m { active = is_online active m.name } ∷ fill_in active ms

  -- updateActive
  unfoldable pub update_active :
      F → ℤ → ℕ → List (MachineSample F) → Service F → List (MachineSample F) × Service F
  unfolding mark_all online_map drop_offline fill_in
  update_active threshold hysteresis now samples s =
      let marked = mark_all threshold hysteresis now samples s in
      let online = online_map samples [] in
      let active = drop_offline online marked.active in
      (
        fill_in active samples,
        record marked { active = active; last_active = drop_offline online marked.last_active },
      )
