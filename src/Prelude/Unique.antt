-- ===== src/Prelude/Unique.antt =====
-- Lists whose elements have distinct keys: what a unique column is to a table.

use mathlib.Core.Path.{◌≡◌, refl, sym, ◌∙◌}
use mathlib.Core.Logic.{◌≢◌, inl, inr}
use mathlib.Core.Bool.{Bool, true, false}
use mathlib.Core.List.{List, [], ◌∷◌, ◌++◌}
use mathlib.Core.Option.{some}
use native.Mathlib.Omega.{arith}
use frpilot.Prelude.Tests.{if◌then◌else◌, Bool-cases}
use frpilot.Prelude.Lists.{All, keep, change, find?, any}

module _ {ℓ κ} {A : Type ℓ} (P : A → Type κ) where
  pub All-keep : (p : A → Bool) (xs : List A) → All P xs → All P (keep p xs)
  All-keep p [] h = tt
  All-keep p (x ∷ xs) h = elim (Bool-cases (p x)) [
    | inl e ↦ rw e (h.0, All-keep p xs h.1)
    | inr e ↦ rw e (All-keep p xs h.1)
  ]

  pub All-append : (xs : List A) (y : A) → All P xs → P y → All P (xs ++ y ∷ [])
  All-append [] y h hy = (hy, tt)
  All-append (x ∷ xs) y h hy = (h.0, All-append xs y h.1 hy)

  pub All-change :
      (p : A → Bool) (f : A → A) (xs : List A)
      → ((x : A) → P x → P (f x))
      → All P xs
      → All P (change p f xs)
  All-change p f [] keeps h = tt
  All-change p f (x ∷ xs) keeps h = elim (Bool-cases (p x)) [
    | inl e ↦ rw e (keeps x h.0, All-change p f xs keeps h.1)
    | inr e ↦ rw e (h.0, All-change p f xs keeps h.1)
  ]

  pub All-find? : (p : A → Bool) (xs : List A) (x : A) → All P xs → find? p xs ≡ some x → P x
  All-find? p [] x h e = cc
  All-find? p (y ∷ xs) x h e = elim (Bool-cases (p y)) [
    | inl t ↦ let e' : some y ≡ some x = rw t at e in ground arith
    | inr t ↦ All-find? p xs x h.1 (rw t at e)
  ]

module _ {ℓ κ ι} {A : Type ℓ} (P : A → Type κ) (Q : A → Type ι) where
  pub All-map : (xs : List A) → ((x : A) → P x → Q x) → All P xs → All Q xs
  All-map [] f h = tt
  All-map (x ∷ xs) f h = (f x h.0, All-map xs f h.1)

module _ {ℓ κ ι μ} {A : Type ℓ} (P : A → Type κ) (Q : A → Type ι) (R : A → Type μ) where
  pub All-both : (xs : List A) → All P xs → All Q xs → ((x : A) → P x → Q x → R x) → All R xs
  All-both [] p q f = tt
  All-both (x ∷ xs) p q f = (f x p.0 q.0, All-both xs p.1 q.1 f)

module _ {ℓ κ} {A : Type ℓ} {K : Type κ} (key : A → K) where
  abbrev pub Distinct : List A → Type κ
  Distinct [] = Unit
  Distinct (x ∷ xs) = All (λ y. key y ≢ key x) xs × Distinct xs

  pub Distinct-keep : (p : A → Bool) (xs : List A) → Distinct xs → Distinct (keep p xs)
  Distinct-keep p [] h = tt
  Distinct-keep p (x ∷ xs) h = elim (Bool-cases (p x)) [
    | inl e ↦ rw e (All-keep (λ y. key y ≢ key x) p xs h.0, Distinct-keep p xs h.1)
    | inr e ↦ rw e (Distinct-keep p xs h.1)
  ]

  pub Distinct-append :
      (xs : List A) (y : A) → All (λ x. key x ≢ key y) xs → Distinct xs → Distinct (xs ++ y ∷ [])
  Distinct-append [] y n h = (tt, tt)
  Distinct-append (x ∷ xs) y n h =
      (All-append (λ z. key z ≢ key x) xs y h.0 (λ e. n.0 (sym e)), Distinct-append xs y n.1 h.1)

  change_key :
      (p : A → Bool) (f : A → A) (same : (x : A) → key (f x) ≡ key x) (x : A)
      → key (if p x then f x else x) ≡ key x
  change_key p f same x = elim (Bool-cases (p x)) [ inl e ↦ rw e (same x) | inr e ↦ rw e refl ]

  pub Distinct-change :
      (p : A → Bool) (f : A → A) (xs : List A)
      → ((x : A) → key (f x) ≡ key x)
      → Distinct xs
      → Distinct (change p f xs)
  Distinct-change p f [] same h = tt
  Distinct-change p f (x ∷ xs) same h = (
    rw (change_key p f same x)
        (All-change (λ y. key y ≢ key x) p f xs (λ y n e. n (sym (same y) ∙ e)) h.0),
    Distinct-change p f xs same h.1,
  )

-- No element passes the test, so none has what the test looks for.
pub All_of_any {ℓ κ} :
    {A : Type ℓ} {P : A → Type κ} (p : A → Bool) (xs : List A)
    → ((x : A) → p x ≡ false → P x)
    → any p xs ≡ false
    → All P xs
All_of_any p [] f h = tt
All_of_any p (x ∷ xs) f h = elim (Bool-cases (p x)) [
  | inl e ↦ absurd (cc (rw e at h))
  | inr e ↦ (f x e, All_of_any p xs f (rw e at h))
]

pub find?-test {ℓ} :
    {A : Type ℓ} (p : A → Bool) (xs : List A) (x : A) → find? p xs ≡ some x → p x ≡ true
find?-test p [] x e = cc
find?-test p (y ∷ xs) x e = elim (Bool-cases (p y)) [
  | inl t ↦ ground arith
  | inr t ↦ find?-test p xs x (rw t at e)
]

pub find?-keep {ℓ} :
    {A : Type ℓ} (p q : A → Bool) (xs : List A) (x : A) → find? p (keep q xs) ≡ some x → q x ≡ true
find?-keep p q [] x e = cc
find?-keep p q (y ∷ xs) x e = elim (Bool-cases (q y)) [
  | inl t ↦ elim (Bool-cases (p y)) [
    | inl s ↦ ground arith
    | inr s ↦ find?-keep p q xs x (ground arith)
  ]
  | inr t ↦ find?-keep p q xs x (rw t at e)
]

pub find?-append {ℓ} :
    {A : Type ℓ} (p : A → Bool) (xs : List A) (y : A)
    → any p xs ≡ false
    → p y ≡ true
    → find? p (xs ++ y ∷ []) ≡ some y
find?-append p [] y n h = rw h
find?-append p (x ∷ xs) y n h = ground (arith, find?-append p xs y)
