-- ===== src/Qos/Plan.antt =====
-- internal/qos/qos.go: desired, with the configuration of internal/config/config.go that it reads.
use frpilot.Prelude.{
  ℤ, pos, String, str_eq, Bool, true, false, if◌then◌else◌, ◌==◌, ◌&&◌, Option, none, some, List,
  [], ◌∷◌, count,
}
use frpilot.Prelude.Maps.{Map, get, put}
use frpilot.Floats.{Floats}
use frpilot.Qos.State.{ClassState, MachineSample, Dir, out_dir, in_dir, Service, class_id}

pub record ManualItem (F : Type 0) : Type 0 where
  pub name : String
  pub out_mbps : F
  pub in_mbps : F

pub record QosConfig (F : Type 0) : Type 0 where
  pub mode : String
  pub budget_out_mbps : F
  pub budget_in_mbps : F
  pub active_kbps : F
  pub hysteresis_sec : ℤ
  pub interface : String
  pub manual : List (ManualItem F)

-- The wanted classes, the rate of the root class, and whether the direction is shaped.
pub record Plan (F : Type 0) : Type 0 where
  pub classes : Map (ClassState F)
  pub root : F
  pub enabled : Bool

module _ (fl : Floats) where
  open fl use {F, of_int, mul, div, lt, le}

  abbrev pub bps : F → F
  bps mbps = mul mbps (of_int (pos 1000000))

  -- The samples that are online, by name; a later sample of a name takes the place of an earlier.
  unfoldable pub online_samples :
      List (MachineSample F) → Map (MachineSample F) → Map (MachineSample F)
  online_samples [] m = m
  online_samples (x ∷ xs) m = online_samples xs (if x.online then put x.name x m else m)

  abbrev pub cap_of : Dir → ManualItem F → F
  cap_of out_dir it = it.out_mbps
  cap_of in_dir it = it.in_mbps

  abbrev pub budget_of : Dir → QosConfig F → F
  budget_of out_dir c = c.budget_out_mbps
  budget_of in_dir c = c.budget_in_mbps

  abbrev pub is_capped : F → Option (MachineSample F) → Bool
  is_capped v none = false
  is_capped v (some m) = lt (of_int (pos 0)) v

  abbrev pub port_or_zero : Option (MachineSample F) → ℤ
  port_or_zero none = pos 0
  port_or_zero (some m) = m.port

  -- `res[name] = &classState{id: s.classID(name), rate: rate, port: port}`
  unfoldable pub want :
      String → F → ℤ → Map (ClassState F) → Service F → Map (ClassState F) × Service F
  want name rate port res s =
      let (i, s') = class_id name s in
      (put name (record { id = i; rate = rate; port = port }) res, s')

  -- The loop over the manual caps.
  unfoldable pub manual_loop :
      Dir
      → Map (MachineSample F)
      → List (ManualItem F)
      → Map (ClassState F)
      → Bool
      → Service F
      → (Map (ClassState F) × Bool) × Service F
  unfolding want
  manual_loop dir online [] res enabled s = ((res, enabled), s)
  manual_loop dir online (it ∷ items) res enabled s =
      let m = get it.name online in
      let v = cap_of dir it in
      let capped = is_capped v m in
      let (res', s') = if capped then want it.name (bps v) (port_or_zero m) res s else (res, s) in
      manual_loop dir online items res' (if capped then true else enabled) s'

  abbrev pub is_sharing : MachineSample F → Bool
  is_sharing m = m.online && m.active

  -- The loop over the machines that share the budget.
  unfoldable pub auto_loop :
      F → List (MachineSample F) → Map (ClassState F) → Service F → Map (ClassState F) × Service F
  unfolding want
  auto_loop share [] res s = (res, s)
  auto_loop share (m ∷ ms) res s =
      let (res', s') = if is_sharing m then want m.name share m.port res s else (res, s) in
      auto_loop share ms res' s'

  abbrev no_plan : Plan F
  no_plan = record { classes = []; root = of_int (pos 0); enabled = false }

  unfoldable pub manual_plan :
      Dir → List (MachineSample F) → QosConfig F → Service F → Plan F × Service F
  unfolding online_samples manual_loop
  manual_plan dir samples c s =
      let ((res, enabled), s') = manual_loop dir (online_samples samples []) c.manual [] false s in
      (record { classes = res; root = bps (of_int (pos 100000)); enabled = enabled }, s')

  unfoldable pub auto_plan :
      Dir → List (MachineSample F) → QosConfig F → Service F → Plan F × Service F
  unfolding auto_loop
  auto_plan dir samples c s =
      let budget = budget_of dir c in
      let n = count is_sharing samples in
      let (res, s') = auto_loop (div (bps budget) (of_int (pos n))) samples [] s in
      if le budget (of_int (pos 0))
      then (no_plan, s)
      else if n == 0
      then (no_plan, s)
      else (record { classes = res; root = bps budget; enabled = true }, s')

  -- desired
  unfoldable pub desired :
      Dir → List (MachineSample F) → QosConfig F → Service F → Plan F × Service F
  unfolding manual_plan auto_plan
  desired dir samples c s =
      if str_eq c.mode "manual" then manual_plan dir samples c s else auto_plan dir samples c s
