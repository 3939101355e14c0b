-- ===== src/Tasks/Cap.antt =====
-- The tasks that are kept: newTaskLocked and ListTasks.
use frpilot.Prelude.{
  ℕ, suc, ◌≤◌, ◌<◌, ◌≡◌, ◌≢◌, ◌⊎◌, refl, String, Bool, true, if◌then◌else◌, not, ◌||◌, ◌==◌, List,
  [], ◌∷◌, ◌++◌, arith, any, All, inl, inr, Bool-cases, keep, length, ltb, length-append, ==_iff,
  All-keep, All-append, All-map, Distinct, Distinct-keep, Distinct-append,
}
use frpilot.Tasks.{Task, TaskManager}
use frpilot.Tasks.Manager.{has_id, oldest_id, evict, new_task}

oldest_id-present :
    (o : ℕ) (ts : List Task) → (oldest_id o ts ≡ o) ⊎ (any (has_id (oldest_id o ts)) ts ≡ true)
unfolding oldest_id
oldest_id-present o [] = inl refl
oldest_id-present o (t ∷ ts) =
    let o' = if o == 0 || ltb t.id o then t.id else o in
    elim (oldest_id-present o' ts) [ inl e ↦ ground arith | inr e ↦ ground arith ]

pub oldest_id-least :
    (o : ℕ) (ts : List Task)
    → 0 < o
    → All (λ t. 0 < t.id) ts
    → (0 < oldest_id o ts) × (oldest_id o ts ≤ o) × All (λ t. oldest_id o ts ≤ t.id) ts
unfolding oldest_id
oldest_id-least o [] p a = (p, omega arith, tt)
oldest_id-least o (t ∷ ts) p a =
    let o' = if o == 0 || ltb t.id o then t.id else o in
    let r = oldest_id-least o' ts (ground (arith, a.0)) a.1 in
    (r.0, ground (arith, r.1), (ground (arith, r.1), r.2))

keep-shorter :
    (p : Task → Bool) (ts : List Task)
    → any p ts ≡ true
    → length (keep (λ t. not (p t)) ts) < length ts
keep-shorter p [] h = absurd (ground arith)
keep-shorter p (t ∷ ts) h = elim (Bool-cases (p t)) [
  | inl e ↦ ground (arith, length-keep (λ t. not (p t)) ts)
  | inr e ↦ ground (arith, keep-shorter p ts)
]
  where
    length-keep : (p : Task → Bool) (ts : List Task) → length (keep p ts) ≤ length ts
    length-keep p [] = omega arith
    length-keep p (t ∷ ts) = ground (arith, length-keep p ts)

oldest_id-among : (t : Task) (ts : List Task) → any (has_id (oldest_id 0 (t ∷ ts))) (t ∷ ts) ≡ true
unfolding oldest_id
oldest_id-among t ts = elim (oldest_id-present t.id ts) [
  | inl e ↦ ground (arith, ==_iff t.id t.id)
  | inr e ↦ ground (arith)
]

evict-length : (ts : List Task) → length ts ≤ 51 → length (evict ts) ≤ 50
unfolding evict
evict-length [] h = ground arith
evict-length (t ∷ ts) h =
    ground (arith, keep-shorter (has_id (oldest_id 0 (t ∷ ts))) (t ∷ ts) (oldest_id-among t ts))

-- At most 50 tasks, with distinct ids from 1 up to the next one.
abbrev pub IsNumbered : ℕ → Task → Type 0
IsNumbered n t = (0 < t.id) × (t.id < n)

pub record IsManaged (tm : TaskManager) : Type 0 where
  pub numbered : All (IsNumbered tm.next_id) tm.tasks
  pub distinct : Distinct (λ t. t.id) tm.tasks
  pub positive : 0 < tm.next_id
  pub capped : length tm.tasks ≤ 50

pub any-append :
    (p : Task → Bool) (ts : List Task) (t : Task) → any p ts ≡ true → any p (ts ++ t ∷ []) ≡ true
any-append p [] t h = absurd (ground arith)
any-append p (u ∷ ts) t h = ground (arith, any-append p ts t)

any-keep :
    (i o : ℕ) (ts : List Task)
    → any (has_id i) ts ≡ true
    → i ≢ o
    → any (has_id i) (keep (λ t. not (has_id o t)) ts) ≡ true
any-keep i o [] h n = absurd (ground arith)
any-keep i o (t ∷ ts) h n = ground (arith, any-keep i o ts)

pub any-own : (ts : List Task) → All (λ t. any (has_id t.id) ts ≡ true) ts
any-own [] = tt
any-own (t ∷ ts) = (
  ground (arith, ==_iff t.id t.id),
  All-map (λ u. any (has_id u.id) ts ≡ true) (λ u. any (has_id u.id) (t ∷ ts) ≡ true) ts
      (λ u h. ground arith) (any-own ts),
)

-- What evict keeps: a task with an id that is not the least of all.
pub evict-keeps :
    (i : ℕ) (t : Task) (ts : List Task)
    → any (has_id i) (t ∷ ts) ≡ true
    → i ≢ oldest_id 0 (t ∷ ts)
    → any (has_id i) (evict (t ∷ ts)) ≡ true
unfolding evict
evict-keeps i t ts h n = ground (arith, any-keep i (oldest_id 0 (t ∷ ts)) (t ∷ ts) h n)

evict-subset : (P : Task → Type 0) (ts : List Task) → All P ts → All P (evict ts)
unfolding evict
evict-subset P ts a = elim (Bool-cases (ltb 50 (length ts))) [
  | inl e ↦ rw e (All-keep P (λ t. not (has_id (oldest_id 0 ts) t)) ts a)
  | inr e ↦ rw e a
]

evict-Distinct : (ts : List Task) → Distinct (λ t. t.id) ts → Distinct (λ t. t.id) (evict ts)
unfolding evict
evict-Distinct ts a = elim (Bool-cases (ltb 50 (length ts))) [
  | inl e ↦ rw e (Distinct-keep (λ t. t.id) (λ t. not (has_id (oldest_id 0 ts) t)) ts a)
  | inr e ↦ rw e a
]

pub new_task-IsManaged :
    (kind : String) (now op : ℕ) (name : String) (tm : TaskManager)
    → IsManaged tm
    → IsManaged (new_task kind now op name tm).1
unfolding new_task
new_task-IsManaged kind now op name tm v =
    let t = (new_task kind now op name tm).0 in
    record {
      numbered = evict-subset (IsNumbered (suc tm.next_id)) (tm.tasks ++ t ∷ []) (
          All-append (IsNumbered (suc tm.next_id)) tm.tasks t
            (All-map (IsNumbered tm.next_id) (IsNumbered (suc tm.next_id)) tm.tasks
              (λ u h. omega (arith, h.0, h.1)) v.numbered)
            (v.positive, omega arith));
      distinct = evict-Distinct (tm.tasks ++ t ∷ []) (
          Distinct-append (λ t. t.id) tm.tasks t
            (All-map (IsNumbered tm.next_id) (λ u. u.id ≢ tm.next_id) tm.tasks
              (λ u h. omega (arith, h.1)) v.numbered)
            v.distinct);
      positive = omega arith;
      capped =
          evict-length (tm.tasks ++ t ∷ [])
            (omega (arith, length-append tm.tasks (t ∷ []), v.capped));
    }
