-- ===== src/Qos/Reconcile.antt =====
-- internal/qos/qos.go: reconcile, the round of the control loop, with detectDefaultIface, and Stop.
use frpilot.Prelude.{
  ℕ, pos, String, str_eq, if◌then◌else◌, Option, none, some, List, [], ◌∷◌, ◌⊎◌, inl, inr,
}
use frpilot.Floats.{Floats}
use frpilot.Qos.State.{MachineSample, Dir, out_dir, in_dir, Service, set_err}
use frpilot.Qos.Activity.{Proxy, sample_loop, update_active}
use frpilot.Qos.Plan.{QosConfig, Plan, desired}
use frpilot.Qos.Apply.{apply_direction, clear_direction, cleanup_all}

-- The field after the first "dev" that has one, or the empty text.
unfoldable pub field_after_dev : List String → String
field_after_dev [] = ""
field_after_dev (f ∷ []) = ""
field_after_dev (f ∷ g ∷ fs) = if str_eq f "dev" then g else field_after_dev (g ∷ fs)

-- What a round meets: the fields that `ip route show default` prints, or its failure, and the
-- proxies of the frps dashboard, or the error of asking for them.
pub record Round : Type 0 where
  pub route : Option (List String)
  pub dashboard : List Proxy ⊎ String
  pub now : ℕ

-- detectDefaultIface
unfoldable pub detect_default_iface : Option (List String) → String
unfolding field_after_dev
detect_default_iface none = ""
detect_default_iface (some fields) = field_after_dev fields

abbrev pub no_iface : String
no_iface = "无法检测整形接口（请手动指定接口）"

module _ (fl : Floats) where
  open fl use {F, of_int, mul}

  unfoldable pub find_iface : QosConfig F → Round → Service F → Service F
  find_iface c e s =
      if str_eq s.iface ""
      then record s {
        iface = if str_eq c.interface "" then detect_default_iface e.route else c.interface;
      }
      else s

  abbrev pub settle : Dir → Plan F → ℕ → Service F → Service F
  settle dir p now s =
      if p.enabled
      then apply_direction s.iface dir p.root p.classes now s
      else clear_direction s.iface dir now s

  -- From the samples on.
  unfoldable pub shape : List (MachineSample F) → QosConfig F → ℕ → Service F → Service F
  shape samples c now s =
      let (samples', s1) =
        update_active fl (mul c.active_kbps (of_int (pos 1024))) c.hysteresis_sec now samples s in
      let (plan_out, s2) = desired fl out_dir samples' c s1 in
      let (plan_in, s3) = desired fl in_dir samples' c s2 in
      settle in_dir plan_in now (settle out_dir plan_out now (record s3 { last_err = none }))

  abbrev pub poll : QosConfig F → Round → List Proxy ⊎ String → Service F → Service F
  poll c e (inr msg) s = cleanup_all e.now (set_err (some msg) s)
  poll c e (inl proxies) s =
      let (samples, s') = sample_loop fl proxies s in shape samples c e.now s'

  -- reconcile
  unfoldable pub reconcile : QosConfig F → Round → Service F → Service F
  unfolding find_iface shape
  reconcile c e s =
      let s' = find_iface c e s in
      if str_eq s'.iface ""
      then cleanup_all e.now (set_err (some no_iface) s')
      else if str_eq c.mode "off"
      then set_err none (cleanup_all e.now s')
      else poll c e e.dashboard s'
