-- ===== src/Health/Grades.antt =====
-- The score and the verdict of a health report, from the numbers of its failed and warning items.
use frpilot.Prelude.{
  ℕ, ◌+◌, ◌-◌, ◌*◌, ◌≤◌, ◌<◌, ◌≡◌, ◌↔◌, refl, String, str_eq, str_ne, eq_iff, Bool, true, false,
  if◌then◌else◌, Option, List, [], ◌∷◌, ◌++◌, ℤ, negsuc, sym, arith, subst, count, All, inl, inr,
  Option-cases,
}
use frpilot.Exec.{Result, ok, err, Result-cases}
use frpilot.Floats.{Floats}
use frpilot.Health.{Mount, Sys, Gpu, Tool, Sample, Thresholds, HealthItem, HealthReport}
use frpilot.Health.Checks.{
  check_age, check_cpu, check_load, check_mem, check_disks, check_gpu, check_tool, check_tools,
  check_security, check_tunnel,
}
use frpilot.Health.Run.{Snapshot, deductions, grade, health_items, report, run_health}

abbrev pub has_status : String → HealthItem → Bool
has_status s it = str_eq it.status s

-- An item's score is the one of its status.
abbrev IsScored : HealthItem → Type 0
IsScored it =
    it.score ≡ (if has_status "fail" it then 10 else if has_status "warn" it then 3 else 0)

All-append : (xs ys : List HealthItem) → All IsScored xs → All IsScored ys → All IsScored (xs ++ ys)
All-append [] ys a b = b
All-append (x ∷ xs) ys a b = (a.0, All-append xs ys a.1 b)

not_both : (s : String) → str_eq s "fail" ≡ true → str_eq s "warn" ≡ false
not_both s e = subst (λ t. str_eq t "warn" ≡ false) (sym ((eq_iff s "fail").0 e)) refl

deductions-scored :
    (its : List HealthItem)
    → All IsScored its
    → deductions its ≡ 10 * count (has_status "fail") its + 3 * count (has_status "warn") its
unfolding deductions
deductions-scored [] a = omega arith
deductions-scored (it ∷ its) a = ground (arith, deductions-scored its a.1, not_both it.status)

module _ (fl : Floats) (ra : String → Option ℤ) (ca : String → ℤ) where
  age-IsScored : (now ts : ℕ) (th : Thresholds fl.F) → All IsScored (check_age fl now ts th)
  unfolding check_age
  age-IsScored now ts th = ground arith

  cpu-IsScored : (s : Sys fl.F) (th : Thresholds fl.F) → All IsScored (check_cpu fl s th)
  unfolding check_cpu
  cpu-IsScored s th = ground arith

  load-IsScored : (s : Sys fl.F) → All IsScored (check_load fl s)
  unfolding check_load
  load-IsScored s = ground arith

  mem-IsScored : (s : Sys fl.F) (th : Thresholds fl.F) → All IsScored (check_mem fl s th)
  unfolding check_mem
  mem-IsScored s th = ground arith

  disks-IsScored :
      (m : fl.F) (ds : List (Mount fl.F)) (th : Thresholds fl.F)
      → All IsScored (check_disks fl m ds th)
  unfolding check_disks
  disks-IsScored m [] th = ground arith
  disks-IsScored m (d ∷ ds) th =
      ground (arith, disks-IsScored (if fl.lt m d.use_pct then d.use_pct else m) ds th)

  gpu-IsScored : (g : Gpu fl.F) (th : Thresholds fl.F) → All IsScored (check_gpu fl g th)
  unfolding check_gpu
  gpu-IsScored g th = ground arith

  tool-IsScored : (s : Tool) (th : Thresholds fl.F) → All IsScored (check_tool fl ra ca s th)
  unfolding check_tool
  tool-IsScored s th = elim (Option-cases (ra s.version)) [
    | inl e ↦ ground arith
    | inr (n, e) ↦ ground arith
  ]

  tools-IsScored :
      (ss : List Tool) (th : Thresholds fl.F) → All IsScored (check_tools fl ra ca ss th)
  unfolding check_tools
  tools-IsScored [] th = tt
  tools-IsScored (s ∷ ss) th =
      All-append (check_tool fl ra ca s th) (check_tools fl ra ca ss th) (tool-IsScored s th)
        (tools-IsScored ss th)

  security-IsScored :
      (ss : List Tool) (th : Thresholds fl.F) → All IsScored (check_security fl ra ca ss th)
  unfolding check_security
  security-IsScored [] th = ground arith
  security-IsScored (s ∷ ss) th = tools-IsScored (s ∷ ss) th

  tunnel-IsScored : (up : Bool) → All IsScored (check_tunnel fl up)
  unfolding check_tunnel
  tunnel-IsScored up = ground arith

  items-IsScored :
      (now ts : ℕ) (x : Sample fl.F) (th : Thresholds fl.F)
      → All IsScored (health_items fl ra ca now ts x th)
  unfolding health_items
  items-IsScored now ts x th =
      let a = All-append _ _ (age-IsScored now ts th) (cpu-IsScored x.sys th) in
      let b = All-append _ _ a (load-IsScored x.sys) in
      let c = All-append _ _ b (mem-IsScored x.sys th) in
      let d = All-append _ _ c (disks-IsScored (fl.of_int (negsuc 0)) x.sys.disk th) in
      let e = All-append _ _ d (gpu-IsScored x.gpu th) in
      let f = All-append _ _ e (security-IsScored x.security th) in
      All-append _ _ f (tunnel-IsScored x.tunnel_up)

abbrev pub IsGraded : HealthReport → Type 0
IsGraded r =
    let penalty = 10 * count (has_status "fail") r.items + 3 * count (has_status "warn") r.items in
    (r.score ≡ 100 - penalty)
    × ((r.overall ≡ "pass") ↔ (penalty ≤ 10))
    × ((r.overall ≡ "fail") ↔ (30 < penalty))
    × ((r.overall ≡ "warn") ↔ ((10 < penalty) × (penalty ≤ 30)))

report-IsGraded :
    (fl : Floats) (ra : String → Option ℤ) (ca : String → ℤ) (now : ℕ) (name : String)
    (its : List HealthItem)
    → All IsScored its
    → IsGraded (report fl ra ca now name its)
unfolding report grade
report-IsGraded fl ra ca now name its a = ground (
  arith,
  deductions-scored its a,
  str_ne "fail" "pass" "fail" refl refl,
  str_ne "warn" "pass" "warn" refl refl,
  str_ne "pass" "warn" "pass" refl refl,
  str_ne "fail" "warn" "fail" refl refl,
  str_ne "pass" "fail" "pass" refl refl,
  str_ne "warn" "fail" "warn" refl refl,
)

-- A report that RunHealth makes has the score 100 less ten for each failed item and three for each
-- warning, but at least 0; its verdict is "pass" exactly when that penalty is at most 10, "fail"
-- exactly when it is over 30, and "warn" exactly when it is between.
pub run_health-IsGraded :
    (fl : Floats) (ra : String → Option ℤ) (ca : String → ℤ)
    (decode : String → Result (Sample fl.F)) (now : ℕ) (name : String) (th : Thresholds fl.F)
    (snap : Result Snapshot) (r : HealthReport)
    → run_health fl ra ca decode now name th snap ≡ ok r
    → IsGraded r
unfolding run_health
run_health-IsGraded fl ra ca decode now name th (err e) r h = absurd (ground arith)
run_health-IsGraded fl ra ca decode now name th (ok snap) r h =
    elim (Result-cases (decode snap.text)) [
      | inr (e, f) ↦ absurd (ground arith)
      | inl (x, f) ↦
          let its = health_items fl ra ca now snap.ts x th in
          let g : report fl ra ca now name its ≡ r = ground arith in
          subst IsGraded g
            (report-IsGraded fl ra ca now name its (items-IsScored fl ra ca now snap.ts x th))
    ]
