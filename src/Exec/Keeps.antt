-- ===== src/Exec/Keeps.antt =====
-- Invariants of database actions: one rule for each way to build an action. `Keeps P m` says that
-- `m` preserves `P` of the tables whether it returns, fails, or meets a fault on the way.
use frpilot.Prelude.{◌≡◌, refl, Bool, true, false, if◌then◌else◌, inl, inr, Bool-cases}
use frpilot.Exec.{
  Error, Result, ok, err, Disk, Exec, pure, fail, query, execute, ignore, attempt, from_result,
  peek, assign, adjust, within, continue, ◌>>=◌,
}

pub record Keeps {ℓ} {S A : Type ℓ} (P : S → Type ℓ) (m : Exec S A) : Type ℓ where
  pub at : (d : Disk S) → P d.rows → P (m d).1.rows

module _ {ℓ} {S A : Type ℓ} {P : S → Type ℓ} where
  pub Keeps-pure : (a : A) → Keeps P (pure a)
  unfolding pure
  Keeps-pure a = record { at = λ d h. h }

  pub Keeps-fail : (e : Error) → Keeps P (fail {A = A} e)
  unfolding fail
  Keeps-fail e = record { at = λ d h. h }

  pub Keeps-from_result : (r : Result A) → Keeps P (from_result r)
  unfolding from_result
  Keeps-from_result r = record { at = λ d h. h }

  pub Keeps-query : (f : S → A) → Keeps P (query f)
  unfolding query
  Keeps-query f = record {
    at = λ d h. elim (Bool-cases (d.fault d.count)) [ inl e ↦ rw e h | inr e ↦ rw e h ];
  }

  -- A branch may use the test that leads to it.
  pub Keeps-if :
      (test : Bool) (this that : Exec S A)
      → (test ≡ true → Keeps P this)
      → (test ≡ false → Keeps P that)
      → Keeps P (if test then this else that)
  Keeps-if true this that ky kn = ky refl
  Keeps-if false this that ky kn = kn refl

  pub Keeps-execute : (f : S → Result A × S) → ((s : S) → P s → P (f s).1) → Keeps P (execute f)
  unfolding execute
  Keeps-execute f kf = record {
    at = λ d h. elim (Bool-cases (d.fault d.count)) [ inl e ↦ rw e h | inr e ↦ rw e (kf d.rows h) ];
  }

  pub Keeps-ignore : (m : Exec S A) → Keeps P m → Keeps P (ignore m)
  unfolding ignore
  Keeps-ignore m km = record { at = λ d h. km.at d h }

  pub Keeps-attempt : (m : Exec S A) → Keeps P m → Keeps P (attempt m)
  unfolding attempt
  Keeps-attempt m km = record { at = λ d h. km.at d h }

module _ {ℓ} {S : Type ℓ} {P : S → Type ℓ} where
  pub Keeps-peek : {A : Type ℓ} (f : S → A) → Keeps P (peek f)
  unfolding peek
  Keeps-peek f = record { at = λ d h. h }

  pub Keeps-assign : (f : S → S) → ((s : S) → P s → P (f s)) → Keeps P (assign f)
  unfolding assign
  Keeps-assign f kf = record { at = λ d h. kf d.rows h }

  pub Keeps-adjust : {A : Type ℓ} (f : S → A × S) → ((s : S) → P s → P (f s).1) → Keeps P (adjust f)
  unfolding adjust
  Keeps-adjust f kf = record { at = λ d h. kf d.rows h }

-- An action on a part keeps what no part of that kind can change.
module _ {ℓ} {S T A : Type ℓ} {P : S → Type ℓ} where
  pub Keeps-within :
      (get : S → T) (set : T → S → S) (m : Exec T A)
      → ((t : T) (s : S) → P s → P (set t s))
      → Keeps P (within get set m)
  unfolding within
  Keeps-within get set m kset = record { at = λ d h. kset _ d.rows h }

module _ {ℓ} {S A B : Type ℓ} {P : S → Type ℓ} where
  continue-keeps :
      (f : A → Exec S B) (r : Result A) (d : Disk S)
      → ((a : A) → Keeps P (f a))
      → P d.rows
      → P (continue r f d).1.rows
  continue-keeps f (ok a) d kf p = (kf a).at d p
  continue-keeps f (err e) d kf p = p

  pub Keeps-bind :
      (first : Exec S A) (next : A → Exec S B)
      → Keeps P first
      → ((a : A) → Keeps P (next a))
      → Keeps P (first >>= next)
  unfolding ◌>>=◌
  Keeps-bind first next k1 k2 = record {
    at = λ d p. continue-keeps next (first d).0 (first d).1 k2 (k1.at d p);
  }

pub ruleset keeps_rules = (
  Keeps-pure, Keeps-fail, Keeps-from_result, Keeps-query, Keeps-if, Keeps-execute, Keeps-ignore,
  Keeps-attempt, Keeps-bind, Keeps-peek, Keeps-assign, Keeps-adjust, Keeps-within,
)
