-- ===== src/Tasks/Newest.antt =====
-- Which tasks newTaskLocked keeps.
use frpilot.Prelude.{
  ℕ, ◌≤◌, ◌<◌, ◌≡◌, ◌⊎◌, subst, String, true, ◌==◌, List, [], ◌∷◌, ◌++◌, arith, any, All, All-map,
  All-append, inl, inr, Bool-cases, ==_iff,
}
use frpilot.Tasks.{Task, TaskManager}
use frpilot.Tasks.Manager.{has_id, oldest_id, evict, new_task}
use frpilot.Tasks.Cap.{
  IsNumbered, IsManaged, oldest_id-least, any-append, any-own, evict-keeps, new_task-IsManaged,
}

least :
    (t : Task) (ts : List Task)
    → All (λ u. 0 < u.id) (t ∷ ts)
    → All (λ u. oldest_id 0 (t ∷ ts) ≤ u.id) (t ∷ ts)
unfolding oldest_id
least t ts a = let r = oldest_id-least t.id ts a.0 a.1 in (r.1, r.2)

All-init : (P : Task → Type 0) (xs ys : List Task) → All P (xs ++ ys) → All P xs
All-init P [] ys a = tt
All-init P (x ∷ xs) ys a = (a.0, All-init P xs ys a.1)

any-last : (t : Task) (ts : List Task) → any (has_id t.id) (ts ++ t ∷ []) ≡ true
any-last t [] = ground (arith, ==_iff t.id t.id)
any-last t (u ∷ ts) = ground (arith, any-last t ts)

-- Of a list with ids above 0, whose last id is above the first, eviction keeps the last task and
-- each other task that does not have the least id.
evict-newest :
    (x : Task) (xs : List Task) (t : Task)
    → All (λ u. 0 < u.id) (x ∷ xs)
    → x.id < t.id
    → (any (has_id t.id) (evict (x ∷ (xs ++ t ∷ []))) ≡ true)
      × All
          (λ u.
            (any (has_id u.id) (evict (x ∷ (xs ++ t ∷ []))) ≡ true)
            ⊎ All (λ v. u.id ≤ v.id) (x ∷ xs))
          (x ∷ xs)
evict-newest x xs t a n =
    let o = oldest_id 0 (x ∷ (xs ++ t ∷ [])) in
    let l =
      least x (xs ++ t ∷ []) (All-append (λ u. 0 < u.id) (x ∷ xs) t a (omega (arith, a.0, n))) in
    (
      evict-keeps t.id x (xs ++ t ∷ []) (any-last t (x ∷ xs)) (omega (arith, l.0, n)),
      All-map (λ u. any (has_id u.id) (x ∷ xs) ≡ true)
          (λ u.
            (any (has_id u.id) (evict (x ∷ (xs ++ t ∷ []))) ≡ true)
            ⊎ All (λ v. u.id ≤ v.id) (x ∷ xs))
          (x ∷ xs)
          (λ u h. elim (Bool-cases (u.id == o)) [
            | inl e ↦ inr (
                subst (λ i. All (λ v. i ≤ v.id) (x ∷ xs)) (ground (arith, ==_iff u.id o))
                  (All-init (λ v. o ≤ v.id) (x ∷ xs) (t ∷ []) l))
            | inr e ↦ inl (
                evict-keeps u.id x (xs ++ t ∷ []) (any-append (has_id u.id) (x ∷ xs) t h)
                  (ground (arith, ==_iff u.id o)))
          ])
          (any-own (x ∷ xs)),
    )

-- A new task keeps the manager well-formed (at most 50 tasks, with distinct ids from 1 up to the
-- next one); the task is among those kept, and each of the earlier tasks is kept too, unless it is
-- the oldest of them.
pub new_task-newest :
    (kind : String) (now op : ℕ) (name : String) (tm : TaskManager)
    → IsManaged tm
    → let (t, tm') = new_task kind now op name tm in
      IsManaged tm'
      × (any (has_id t.id) tm'.tasks ≡ true)
      × All (λ u. (any (has_id u.id) tm'.tasks ≡ true) ⊎ All (λ v. u.id ≤ v.id) tm.tasks) tm.tasks
unfolding new_task
new_task-newest kind now op name tm v =
    let k = kept tm.tasks v.numbered v.positive in
    (new_task-IsManaged kind now op name tm v, k.0, k.1)
  where
    kept :
        (ts : List Task)
        → All (IsNumbered tm.next_id) ts
        → 0 < tm.next_id
        → let t = (new_task kind now op name tm).0 in
          (any (has_id t.id) (evict (ts ++ t ∷ [])) ≡ true)
          × All
              (λ u. (any (has_id u.id) (evict (ts ++ t ∷ [])) ≡ true) ⊎ All (λ v. u.id ≤ v.id) ts)
              ts
    kept [] a p = (ground (arith, ==_iff tm.next_id tm.next_id), tt)
    kept (x ∷ xs) a p =
        evict-newest x xs (new_task kind now op name tm).0
          (All-map (IsNumbered tm.next_id) (λ u. 0 < u.id) (x ∷ xs) (λ u h. h.0) a) a.0.1
