-- ===== src/Tasks/Finish.antt =====
-- What a cleanup has done when its goroutine ends.
use mathlib.Core.List.{append_assoc, append-nil}
use frpilot.Prelude.{
  suc, ◌+◌, ◌≡◌, ◌⊎◌, refl, sym, ◌∙◌, ap, String, str_eq, if◌then◌else◌, ◌&&◌, Option, some, List,
  [], ◌∷◌, ◌++◌, arith, All, inl, inr, Bool-cases, length, map,
}
use frpilot.Cipher.{Cipher}
use frpilot.Floats.{Floats}
use frpilot.Exec.{Result-cases}
use frpilot.Store.Machines.{Machine}
use frpilot.Tasks.{CleanupItem, Task, TaskProgress, TaskResult}
use frpilot.Tasks.Remote.{Sent, Remote, ssh_host, secrets}
use frpilot.Tasks.Cleanup.{
  result_of, needs_sudo, command_of, run_items, connected, run_on_machine, machine_results,
  percent_done, advance, at_machine, cleanup_loop, run_cleanup,
}

-- The results of one machine: one for each item, in order, or one that says that it failed.
abbrev pub IsOwn : List CleanupItem → Machine → List TaskResult → Type 0
IsOwn its m own =
    All (λ x. x.machine_id ≡ m.id) own
    × ((map (λ x. x.item_id) own ≡ map (λ it. it.id) its)
        ⊎ (own ≡ result_of m "" "连接" "failed" ∷ []))

-- The results of the machines, one machine after the other.
pub data Accounted (its : List CleanupItem) : List Machine → List TaskResult → Type 0 where
  nobody : Accounted its [] []
  machine_done :
      (m : Machine) (ms : List Machine) (own rest : List TaskResult)
      → IsOwn its m own
      → Accounted its ms rest
      → Accounted its (m ∷ ms) (own ++ rest)

run_items-IsOwn :
    (r : Remote) (m : Machine) (sudo : String) (before : List Sent) (its : List CleanupItem)
    → let rs = (run_items r m sudo before its).0 in
      All (λ x. x.machine_id ≡ m.id) rs × (map (λ x. x.item_id) rs ≡ map (λ it. it.id) its)
unfolding run_items
run_items-IsOwn r m sudo before [] = (tt, refl)
run_items-IsOwn r m sudo before (it ∷ its) =
    let s = command_of m sudo it in
    let skip = needs_sudo m it && str_eq sudo "" in
    let h = run_items-IsOwn r m sudo (if skip then before else before ++ s ∷ []) its in
    ((refl, h.0), ap (λ is. it.id ∷ is) h.1)

module _ (fl : Floats) (k : Cipher) (r : Remote) (host : String) where
  own :
      (m : Machine) (its : List CleanupItem)
      → IsOwn its m (machine_results fl m (run_on_machine k r host m its).0)
  unfolding run_on_machine
  own m its = elim (Result-cases (secrets k m)) [
    | inr (e, f) ↦ rw f ((refl, tt), inr refl)
    | inl ((pass, sudo), f) ↦
        elim (Bool-cases (r.dial (ssh_host host) m.tunnel_port m.ssh_user pass)) [
          | inl g ↦ rw (f, connected, g) (let h = run_items-IsOwn r m sudo [] its in (h.0, inl h.1))
          | inr g ↦ rw (f, connected, g) ((refl, tt), inr refl)
        ]
  ]

  advanced :
      (name : String) (o : Option TaskProgress) (p : TaskProgress)
      → o ≡ some p
      → advance fl (at_machine fl name "正在执行清理项" o)
        ≡ some (record p {
          current = name;
          phase = "正在执行清理项";
          done_machines = suc p.done_machines;
          pct = percent_done fl (suc p.done_machines) p.total_machines;
        })
  unfolding advance at_machine
  advanced name o p e = rw e refl

  cleanup_loop-Accounted :
      (its : List CleanupItem) (ms : List Machine) (t : Task) (p : TaskProgress)
      → t.progress ≡ some p
      → let done = (cleanup_loop fl k r host its t ms).0 in
        (rs : List TaskResult) × (q : TaskProgress) × (done.results ≡ t.results ++ rs)
        × Accounted its ms rs
        × (done.progress ≡ some q)
        × (q.done_machines ≡ p.done_machines + length ms)
        × (q.total_machines ≡ p.total_machines)
  unfolding cleanup_loop
  cleanup_loop-Accounted its [] t p e =
      ([], p, sym (append-nil t.results), nobody, e, omega arith, refl)
  cleanup_loop-Accounted its (m ∷ ms) t p e =
      let mine = machine_results fl m (run_on_machine k r host m its).0 in
      let t' : Task = record t {
        progress = advance fl (at_machine fl m.name "正在执行清理项" t.progress);
        results = t.results ++ mine;
      } in
      let p' : TaskProgress = record p {
        current = m.name;
        phase = "正在执行清理项";
        done_machines = suc p.done_machines;
        pct = percent_done fl (suc p.done_machines) p.total_machines;
      } in
      let step : t'.progress ≡ some p' = advanced m.name t.progress p e in
      let (rs, q, eq, acc, eq', done, total) = cleanup_loop-Accounted its ms t' p' step in
      (
        mine ++ rs,
        q,
        eq ∙ append_assoc t.results mine rs,
        machine_done m ms mine rs (own m its) acc,
        eq',
        omega (arith, done),
        total,
      )

  -- A cleanup whose progress counts all the machines, and none of them as done, ends: it is "done", it counted every machine,
  -- and it added to the results those of each machine in turn, which are one for each item in
  -- order, or the single one that says that the connection failed.
  pub run_cleanup_complete :
      (its : List CleanupItem) (ms : List Machine) (t : Task) (p : TaskProgress)
      → t.progress ≡ some p
      → p.done_machines ≡ 0
      → p.total_machines ≡ length ms
      → let done = (run_cleanup fl k r host its t ms).0 in
        (done.status ≡ "done")
        × (rs : List TaskResult) × (q : TaskProgress) × (done.results ≡ t.results ++ rs)
        × Accounted its ms rs
        × (done.progress ≡ some q)
        × (q.done_machines ≡ q.total_machines)
  unfolding run_cleanup
  run_cleanup_complete its ms t p e zero_done all =
      let (rs, q, eq, acc, eq', done, total) = cleanup_loop-Accounted its ms t p e in
      (refl, rs, q, eq, acc, eq', omega (arith, done, total, zero_done, all))
