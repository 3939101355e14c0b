-- ===== src/Tasks/Listing.antt =====
-- The order of ListTasks.
use frpilot.Prelude.{
  ℕ, zero, suc, ◌≤◌, ◌<◌, ◌≡◌, refl, Bool, if◌then◌else◌, List, [], ◌∷◌, arith, All, inl, inr,
  Bool-cases, length, count, map, take, ltb, ℤ,
}
use frpilot.Tasks.{Task, TaskManager}
use frpilot.Tasks.Manager.{sift, sort_down, page_size, list_task_ids}

abbrev pub Descending : List ℕ → Type 0
Descending [] = Unit
Descending (x ∷ xs) = All (λ y. y ≤ x) xs × Descending xs

sift-length : (x : ℕ) (xs : List ℕ) → length (sift x xs).1 ≡ length xs
unfolding sift
sift-length x [] = refl
sift-length x (y ∷ ys) = omega (arith, sift-length (if ltb x y then y else x) ys)

sift-max : (x : ℕ) (xs : List ℕ) → (x ≤ (sift x xs).0) × All (λ y. y ≤ (sift x xs).0) (sift x xs).1
unfolding sift
sift-max x [] = (omega arith, tt)
sift-max x (y ∷ ys) =
    let r = sift-max (if ltb x y then y else x) ys in
    (ground (arith, r.0), (ground (arith, r.0), r.1))

sift-bound :
    (n x : ℕ) (xs : List ℕ)
    → x ≤ n
    → All (λ y. y ≤ n) xs
    → ((sift x xs).0 ≤ n) × All (λ y. y ≤ n) (sift x xs).1
unfolding sift
sift-bound n x [] h a = (h, tt)
sift-bound n x (y ∷ ys) h a =
    let r = sift-bound n (if ltb x y then y else x) ys (ground (arith, a.0)) a.1 in
    (r.0, (ground (arith, a.0), r.1))

sift-count :
    (p : ℕ → Bool) (x : ℕ) (xs : List ℕ)
    → count p ((sift x xs).0 ∷ (sift x xs).1) ≡ count p (x ∷ xs)
unfolding sift
sift-count p x [] = refl
sift-count p x (y ∷ ys) = elim (Bool-cases (ltb x y)) [
  | inl e ↦ rw e (omega (arith, sift-count p y ys))
  | inr e ↦ rw e (omega (arith, sift-count p x ys))
]

sort_down-bound : (m n : ℕ) (xs : List ℕ) → All (λ y. y ≤ m) xs → All (λ y. y ≤ m) (sort_down n xs)
unfolding sort_down
sort_down-bound m n [] a = tt
sort_down-bound m zero (x ∷ xs) a = a
sort_down-bound m (suc n) (x ∷ xs) a =
    let b = sift-bound m x xs a.0 a.1 in (b.0, sort_down-bound m n (sift x xs).1 b.1)

sort_down-Descending : (n : ℕ) (xs : List ℕ) → length xs ≤ n → Descending (sort_down n xs)
unfolding sort_down
sort_down-Descending n [] h = tt
sort_down-Descending zero (x ∷ xs) h = absurd (omega (arith, h))
sort_down-Descending (suc n) (x ∷ xs) h = (
  sort_down-bound (sift x xs).0 n (sift x xs).1 (sift-max x xs).1,
  sort_down-Descending n (sift x xs).1 (omega (arith, h, sift-length x xs)),
)

sort_down-count : (p : ℕ → Bool) (n : ℕ) (xs : List ℕ) → count p (sort_down n xs) ≡ count p xs
unfolding sort_down
sort_down-count p n [] = refl
sort_down-count p zero (x ∷ xs) = refl
sort_down-count p (suc n) (x ∷ xs) =
    omega (arith, sort_down-count p n (sift x xs).1, sift-count p x xs)

length-map : (ts : List Task) → length (map (λ t. t.id) ts) ≡ length ts
length-map [] = refl
length-map (t ∷ ts) = omega (arith, length-map ts)

-- ListTasks returns, in whatever order the map is ranged over, a first part of the ids of all
-- tasks in descending order, cut after a number of ids that is at least 1 and at most 50.
pub list_task_ids-newest :
    (limit : ℤ) (tm : TaskManager)
    → (all : List ℕ) × Descending all
      × ((p : ℕ → Bool) → count p all ≡ count p (map (λ t. t.id) tm.tasks))
      × (list_task_ids limit tm ≡ take (page_size limit) all)
      × (0 < page_size limit)
      × (page_size limit ≤ 50)
unfolding list_task_ids page_size
list_task_ids-newest limit tm =
    let ids = map (λ t. t.id) tm.tasks in
    let n = length tm.tasks in
    (
      sort_down n ids,
      sort_down-Descending n ids (omega (arith, length-map tm.tasks)),
      (λ p. sort_down-count p n ids),
      refl,
      ground arith,
      ground arith,
    )
