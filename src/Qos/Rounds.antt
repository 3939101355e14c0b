-- ===== src/Qos/Rounds.antt =====
-- The rounds of the control loop that shape nothing.
use frpilot.Prelude.{
  ℕ, ◌≡◌, String, str_eq, true, Option, none, some, [], inl, inr, ◌⊎◌, arith, Bool-cases,
}
use frpilot.Floats.{Floats}
use frpilot.Qos.State.{Service, set_err}
use frpilot.Qos.Plan.{QosConfig}
use frpilot.Qos.Apply.{cleanup_all}
use frpilot.Qos.Reconcile.{Round, reconcile, find_iface, no_iface}
use frpilot.Qos.Cleared.{cleanup_all-Core}

module _ (fl : Floats) where
  open fl use {F}

  -- Nothing is shaped, and nobody counts as active.
  pub record Idle (s : Service F) : Type 0 where
    pub no_out : s.applied_out ≡ []
    pub no_in : s.applied_in ≡ []
    pub no_active : s.active ≡ []
    pub no_last : s.last_active ≡ []

  cleanup_all-Idle : (now : ℕ) (s : Service F) → Idle (cleanup_all now s)
  cleanup_all-Idle now s = ground (arith, cleanup_all-Core now s)

  set_err-Idle : (o : Option String) (s : Service F) → Idle s → Idle (set_err o s)
  unfolding set_err
  set_err-Idle none s h = ground arith
  set_err-Idle (some t) s h = ground arith

  -- A round with shaping switched off, without an interface, or whose dashboard cannot be read ends
  -- with no class recorded as applied and no machine active, whichever commands fail.
  pub reconcile-Idle :
      (c : QosConfig F) (e : Round) (s : Service F)
      → ((str_eq c.mode "off" ≡ true) ⊎ (str_eq (find_iface fl c e s).iface "" ≡ true))
        ⊎ ((msg : String) × (e.dashboard ≡ inr msg))
      → Idle (reconcile fl c e s)
  unfolding reconcile
  reconcile-Idle c e s h =
      let s' = find_iface fl c e s in
      let a = cleanup_all-Idle e.now (set_err (some no_iface) s') in
      let b = set_err-Idle none (cleanup_all e.now s') (cleanup_all-Idle e.now s') in
      elim (Bool-cases (str_eq s'.iface "")) [
        | inl i ↦ rw (i, reconcile) a
        | inr i ↦ elim (Bool-cases (str_eq c.mode "off")) [
          | inl m ↦ rw (i, m, reconcile) b
          | inr m ↦ elim h [
            | inl (inl o) ↦ absurd (ground arith)
            | inl (inr o) ↦ absurd (ground arith)
            | inr (msg, d) ↦
                rw (i, m, d, reconcile) (cleanup_all-Idle e.now (set_err (some msg) s'))
          ]
        ]
      ]
