-- ===== src/Tasks/Scanned.antt =====
-- What a scan has done when its goroutine ends.
use mathlib.Core.List.{append_assoc, append-nil}
use frpilot.Prelude.{
  ℕ, suc, pos, ◌+◌, ◌≡◌, ◌⊎◌, refl, sym, ◌∙◌, ap, subst, String, Option, some, List, [], ◌∷◌, ◌++◌,
  arith, inl, inr, Bool-cases, length,
}
use frpilot.Cipher.{Cipher}
use frpilot.Floats.{Floats}
use frpilot.Exec.{Result-cases}
use frpilot.Store.Machines.{Machine}
use frpilot.Tasks.{Task, TaskProgress, TaskResult}
use frpilot.Tasks.Remote.{Sent, Remote, ssh_host, secrets}
use frpilot.Tasks.Cleanup.{advance}
use frpilot.Tasks.Phases.{scan_phases, ScanPhase}
use frpilot.Tasks.Scan.{
  report, run_phases, scan_machine, scan_loop, run_scan, contains, raw_of, phase_command,
}

-- Progress with the same counts.
abbrev IsAt : ℕ → ℕ → Option TaskProgress → Type 0
IsAt d n o = (q : TaskProgress) × (o ≡ some q) × (q.done_machines ≡ d) × (q.total_machines ≡ n)

module _ (fl : Floats) (k : Cipher) (r : Remote) (host : String) where
  -- One result for each machine, in order, each with one of the three verdicts.
  abbrev pub IsVerdict : TaskResult → Type 0
  IsVerdict x = (x.status ≡ "ok") ⊎ ((x.status ≡ "skipped") ⊎ (x.status ≡ "failed"))

  run_phases-IsVerdict :
      (m : Machine) (sudo : String) (before : List Sent) (i n : ℕ) (phs : List ScanPhase)
      (p : Option TaskProgress)
      → let status = (run_phases fl r m sudo before i n phs p).0 in
        (status ≡ "ok") ⊎ ((status ≡ "skipped") ⊎ (status ≡ "failed"))
  unfolding run_phases
  run_phases-IsVerdict m sudo before i n [] p = inl refl
  run_phases-IsVerdict m sudo before i n (ph ∷ phs) p =
      let s = phase_command sudo ph in
      let a = r.reply before s in
      elim (Bool-cases (contains (raw_of a) ph.marker)) [
        | inl e ↦ rw e (inr (inl refl))
        | inr e ↦ elim (Bool-cases a.failed) [
          | inl f ↦ rw (e, f) (inr (inr refl))
          | inr f ↦ rw (e, f) (run_phases-IsVerdict m sudo (before ++ s ∷ []) (suc i) n phs _)
        ]
      ]

  report-IsAt :
      (d n : ℕ) (m : Machine) (label : String) (frac : fl.F) (o : Option TaskProgress)
      → IsAt d n o
      → IsAt d n (report fl m label frac o)
  unfolding report
  report-IsAt d n m label frac o (q, e, a, b) = rw e (_, refl, a, b)

  run_phases-IsAt :
      (d n : ℕ) (m : Machine) (sudo : String) (before : List Sent) (i l : ℕ) (phs : List ScanPhase)
      (p : Option TaskProgress)
      → IsAt d n p
      → IsAt d n (run_phases fl r m sudo before i l phs p).2
  unfolding run_phases
  run_phases-IsAt d n m sudo before i l [] p h = h
  run_phases-IsAt d n m sudo before i l (ph ∷ phs) p h =
      let s = phase_command sudo ph in
      let a = r.reply before s in
      let h' = report-IsAt d n m ph.label (fl.div (fl.of_int (pos i)) (fl.of_int (pos l))) p h in
      elim (Bool-cases (contains (raw_of a) ph.marker)) [
        | inl e ↦ rw e h'
        | inr e ↦ elim (Bool-cases a.failed) [
          | inl f ↦ rw (e, f) h'
          | inr f ↦ rw (e, f) (run_phases-IsAt d n m sudo (before ++ s ∷ []) (suc i) l phs _ h')
        ]
      ]

  -- The result is the machine's, with a verdict, and the counts of the progress stay.
  scan_machine-lem :
      (d n : ℕ) (m : Machine) (mode : String) (p : Option TaskProgress)
      → IsAt d n p
      → let (res, sent, p') = scan_machine fl k r host m mode p in
        (res.machine_id ≡ m.id) × IsVerdict res × IsAt d n p'
  unfolding scan_machine
  scan_machine-lem d n m mode p h = elim (Result-cases (secrets k m)) [
    | inr (e, f) ↦ rw (scan_machine, f) (refl, inr (inr refl), h)
    | inl ((pass, sudo), f) ↦
        let h' = report-IsAt d n m "正在连接并检测扫描工具" (fl.of_int (pos 0)) p h in
        elim (Bool-cases (r.dial (ssh_host host) m.tunnel_port m.ssh_user pass)) [
          | inl g ↦
              rw (scan_machine, f, g)
                (
                  refl,
                  run_phases-IsVerdict m sudo [] 0 (length (scan_phases mode)) (scan_phases mode) _,
                  run_phases-IsAt d n m sudo [] 0 (length (scan_phases mode)) (scan_phases mode) _
                      h',
                )
          | inr g ↦ rw (scan_machine, f, g) (refl, inr (inr refl), h')
        ]
  ]

  -- One result for each machine, in order, each with a verdict.
  pub data Scanned : List Machine → List TaskResult → Type 0 where
    nobody : Scanned [] []
    machine_done :
        (m : Machine) (ms : List Machine) (x : TaskResult) (rest : List TaskResult)
        → x.machine_id ≡ m.id
        → IsVerdict x
        → Scanned ms rest
        → Scanned (m ∷ ms) (x ∷ rest)

  advance-IsAt : (d n : ℕ) (o : Option TaskProgress) → IsAt d n o → IsAt (suc d) n (advance fl o)
  unfolding advance
  advance-IsAt d n o (q, e, a, b) = rw e (_, refl, ap suc a, b)

  scan_loop-Scanned :
      (mode : String) (ms : List Machine) (t : Task) (d n : ℕ)
      → IsAt d n t.progress
      → let done = (scan_loop fl k r host mode t ms).0 in
        (rs : List TaskResult) × (done.results ≡ t.results ++ rs)
        × Scanned ms rs
        × IsAt (d + length ms) n done.progress
  unfolding scan_loop
  scan_loop-Scanned mode [] t d n h =
      ([], sym (append-nil t.results), nobody, subst (λ e. IsAt e n t.progress) (omega arith) h)
  scan_loop-Scanned mode (m ∷ ms) t d n h =
      let res = (scan_machine fl k r host m mode t.progress).0 in
      let p = (scan_machine fl k r host m mode t.progress).2 in
      let s = scan_machine-lem d n m mode t.progress h in
      let (rs, eq, sc, at_end) =
        scan_loop-Scanned mode ms
          (record t { progress = advance fl p; results = t.results ++ res ∷ [] }) (suc d) n
          (advance-IsAt d n p s.2) in
      (
        res ∷ rs,
        eq ∙ append_assoc t.results (res ∷ []) rs,
        machine_done m ms res rs s.0 s.1 sc,
        subst (λ e. IsAt e n (scan_loop fl k r host mode t (m ∷ ms)).0.progress) (omega arith)
            at_end,
      )

  -- A scan whose progress counts all the machines, and none of them as done, ends: it is "done", it counted every machine, and
  -- it added one result for each of them in turn, which says "ok", "skipped" or "failed".
  pub run_scan_complete :
      (mode : String) (ms : List Machine) (t : Task) (p : TaskProgress)
      → t.progress ≡ some p
      → p.done_machines ≡ 0
      → p.total_machines ≡ length ms
      → let done = (run_scan fl k r host mode t ms).0 in
        (done.status ≡ "done")
        × (rs : List TaskResult) × (q : TaskProgress) × (done.results ≡ t.results ++ rs)
        × Scanned ms rs
        × (done.progress ≡ some q)
        × (q.done_machines ≡ q.total_machines)
  unfolding run_scan
  run_scan_complete mode ms t p e zero_done all =
      let (rs, eq, sc, (q, eq', done, total)) =
        scan_loop-Scanned mode ms t p.done_machines p.total_machines (p, e, refl, refl) in
      (refl, rs, q, eq, sc, eq', omega (arith, done, total, zero_done, all))
