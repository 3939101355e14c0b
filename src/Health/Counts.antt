-- ===== src/Health/Counts.antt =====
-- What the items of a health report say of the mount points, the tunnel and the security tools.
use frpilot.Prelude.{
  ℕ, ◌+◌, ◌≡◌, refl, String, str_eq, Bool, if◌then◌else◌, ◌&&◌, Option, List, [], ◌∷◌, ◌++◌, ℤ,
  negsuc, arith, count, count-append, length, inl, inr, Option-cases,
}
use frpilot.Floats.{Floats}
use frpilot.Health.{Mount, Sys, Gpu, Tool, Sample, Thresholds, HealthItem}
use frpilot.Health.Checks.{
  check_age, check_cpu, check_load, check_mem, check_mount, check_disks, check_gpu, check_tool,
  check_tools, check_security, check_tunnel,
}
use frpilot.Health.Run.{health_items}

abbrev pub in_category : String → HealthItem → Bool
in_category c it = str_eq it.category c

abbrev pub fails_in : String → HealthItem → Bool
fails_in c it = str_eq it.category c && str_eq it.status "fail"

-- n failed items on disks, m on the network, and k items on security tools.
abbrev Counts : ℕ → ℕ → ℕ → List HealthItem → Type 0
Counts n m k its =
    (count (fails_in "disk") its ≡ n)
    × (count (fails_in "network") its ≡ m)
    × (count (in_category "security") its ≡ k)

Counts-append :
    {n m k n' m' k' : ℕ} (xs ys : List HealthItem)
    → Counts n m k xs
    → Counts n' m' k' ys
    → Counts (n + n') (m + m') (k + k') (xs ++ ys)
Counts-append xs ys a b = (
  omega (arith, count-append (fails_in "disk") xs ys, a.0, b.0),
  omega (arith, count-append (fails_in "network") xs ys, a.1, b.1),
  omega (arith, count-append (in_category "security") xs ys, a.2, b.2),
)

module _ (fl : Floats) (ra : String → Option ℤ) (ca : String → ℤ) (th : Thresholds fl.F) where
  -- Whether a mount point is used up to the failure threshold.
  abbrev is_full : Mount fl.F → Bool
  is_full d = fl.le th.disk_fail d.use_pct

  age-Counts : (now ts : ℕ) → Counts 0 0 0 (check_age fl now ts th)
  unfolding check_age
  age-Counts now ts = ground arith

  cpu-Counts : (s : Sys fl.F) → Counts 0 0 0 (check_cpu fl s th)
  unfolding check_cpu
  cpu-Counts s = ground arith

  load-Counts : (s : Sys fl.F) → Counts 0 0 0 (check_load fl s)
  unfolding check_load
  load-Counts s = ground arith

  mem-Counts : (s : Sys fl.F) → Counts 0 0 0 (check_mem fl s th)
  unfolding check_mem
  mem-Counts s = ground arith

  mount-Counts : (d : Mount fl.F) → Counts (if is_full d then 1 else 0) 0 0 (check_mount fl d th)
  unfolding check_mount
  mount-Counts d = ground arith

  disks-Counts :
      (m : fl.F) (ds : List (Mount fl.F)) → Counts (count is_full ds) 0 0 (check_disks fl m ds th)
  unfolding check_disks
  disks-Counts m [] = ground arith
  disks-Counts m (d ∷ ds) =
      Counts-append (check_mount fl d th) _ (mount-Counts d)
        (disks-Counts (if fl.lt m d.use_pct then d.use_pct else m) ds)

  gpu-Counts : (g : Gpu fl.F) → Counts 0 0 0 (check_gpu fl g th)
  unfolding check_gpu
  gpu-Counts g = ground arith

  tool-Counts : (s : Tool) → Counts 0 0 1 (check_tool fl ra ca s th)
  unfolding check_tool
  tool-Counts s = elim (Option-cases (ra s.version)) [
    | inl e ↦ ground arith
    | inr (n, e) ↦ ground arith
  ]

  tools-Counts : (ss : List Tool) → Counts 0 0 (length ss) (check_tools fl ra ca ss th)
  unfolding check_tools
  tools-Counts [] = (refl, refl, refl)
  tools-Counts (s ∷ ss) =
      let r = Counts-append (check_tool fl ra ca s th) _ (tool-Counts s) (tools-Counts ss) in
      (omega (arith, r.0), omega (arith, r.1), omega (arith, r.2))

  -- One item for each tool, or one that says that there is no data.
  abbrev tool_items : List Tool → ℕ
  tool_items [] = 1
  tool_items (s ∷ ss) = length (s ∷ ss)

  security-Counts : (ss : List Tool) → Counts 0 0 (tool_items ss) (check_security fl ra ca ss th)
  unfolding check_security
  security-Counts [] = (refl, refl, refl)
  security-Counts (s ∷ ss) = tools-Counts (s ∷ ss)

  tunnel-Counts : (up : Bool) → Counts 0 (if up then 0 else 1) 0 (check_tunnel fl up)
  unfolding check_tunnel
  tunnel-Counts up = ground arith

-- The items of a report: the failed ones on disks are as many as the mount points whose usage is
-- at the failure threshold or above; on the network one failed exactly if the tunnel is down; and
-- there is one item for each security tool, or a single one if there is no data on tools.
pub health_items-counts :
    (fl : Floats) (ra : String → Option ℤ) (ca : String → ℤ) (th : Thresholds fl.F) (now ts : ℕ)
    (x : Sample fl.F)
    → let its = health_items fl ra ca now ts x th in
      (count (fails_in "disk") its ≡ count (λ d. fl.le th.disk_fail d.use_pct) x.sys.disk)
      × (count (fails_in "network") its ≡ (if x.tunnel_up then 0 else 1))
      × (count (in_category "security") its
          ≡ elim x.security [ [] ↦ 1 | ◌∷◌ s ss ↦ length (s ∷ ss) ])
unfolding health_items
health_items-counts fl ra ca th now ts x =
    let a = Counts-append _ _ (age-Counts fl ra ca th now ts) (cpu-Counts fl ra ca th x.sys) in
    let b = Counts-append _ _ a (load-Counts fl ra ca th x.sys) in
    let c = Counts-append _ _ b (mem-Counts fl ra ca th x.sys) in
    let d = Counts-append _ _ c (disks-Counts fl ra ca th (fl.of_int (negsuc 0)) x.sys.disk) in
    let e = Counts-append _ _ d (gpu-Counts fl ra ca th x.gpu) in
    let f = Counts-append _ _ e (security-Counts fl ra ca th x.security) in
    let r = Counts-append _ _ f (tunnel-Counts fl ra ca th x.tunnel_up) in
    (omega (arith, r.0), omega (arith, r.1), omega (arith, r.2))
