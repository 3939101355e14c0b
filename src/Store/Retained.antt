-- ===== src/Store/Retained.antt =====
-- What CleanupRetention deletes.
use frpilot.Prelude.{◌≡◌, ◌⊎◌, refl, ap, ◌∙◌, ℕ, Bool, List, [], ◌∷◌, keep, inl, inr, Bool-cases}
use frpilot.Exec.{ok, Disk, ◌>>=◌, Exec, Result-cases, ignore, execute}
use frpilot.Exec.Keeps.{Keeps, Keeps-bind, Keeps-pure, Keeps-execute, Keeps-ignore}
use frpilot.Store.History.{History, is_kept, deletions, delete_loop, cleanup_retention}

keep-keep {ℓ} : {A : Type ℓ} (p : A → Bool) (xs : List A) → keep p (keep p xs) ≡ keep p xs
keep-keep p [] = refl
keep-keep p (x ∷ xs) = elim (Bool-cases (p x)) [
  | inl e ↦ rw (e, e) (ap (λ ys. x ∷ ys) (keep-keep p xs))
  | inr e ↦ rw e (keep-keep p xs)
]

abbrev pub IsPart : {A : Type 0} → (A → Bool) → List A → List A → Type 0
IsPart p xs ys = (ys ≡ xs) ⊎ (ys ≡ keep p xs)

IsPart-keep :
    {A : Type 0} (p : A → Bool) (xs ys : List A) → IsPart p xs ys → IsPart p xs (keep p ys)
IsPart-keep p xs ys (inl e) = inr (ap (keep p) e)
IsPart-keep p xs ys (inr e) = inr (ap (keep p) e ∙ keep-keep p xs)

module _ {F : Type 0} where
  -- Every statement of CleanupRetention has run.
  abbrev pub cleaned : ℕ → History F → History F
  cleaned now s = record s {
    metrics = keep (λ r. is_kept now r.ts) s.metrics;
    traffic = keep (λ r. is_kept now r.ts) s.traffic;
    audit_logs = keep (λ r. is_kept now r.ts) s.audit_logs;
    health_reports = keep (λ r. is_kept now r.ts) s.health_reports;
    ai_diagnostics = keep (λ r. is_kept now r.ts) s.ai_diagnostics;
    collect_logs = keep (is_kept now) s.collect_logs;
  }

  -- Each table is as it was, or has lost exactly its rows of more than 30 days.
  abbrev pub Retained : ℕ → History F → History F → Type 0
  Retained now s s' =
      IsPart (λ r. is_kept now r.ts) s.metrics s'.metrics
      × IsPart (λ r. is_kept now r.ts) s.traffic s'.traffic
      × IsPart (λ r. is_kept now r.ts) s.audit_logs s'.audit_logs
      × IsPart (λ r. is_kept now r.ts) s.health_reports s'.health_reports
      × IsPart (λ r. is_kept now r.ts) s.ai_diagnostics s'.ai_diagnostics
      × IsPart (is_kept now) s.collect_logs s'.collect_logs

  abbrev EachKeeps : (History F → Type 0) → List (History F → History F) → Type 0
  EachKeeps P [] = Unit {0}
  EachKeeps P (g ∷ gs) = ((t : History F) → P t → P (g t)) × EachKeeps P gs

  delete_loop-Keeps :
      (P : History F → Type 0) (gs : List (History F → History F))
      → EachKeeps P gs
      → Keeps P (delete_loop gs)
  unfolding delete_loop
  delete_loop-Keeps P [] ks = Keeps-pure tt
  delete_loop-Keeps P (g ∷ gs) (kg, ks) =
      Keeps-bind _ _ (Keeps-execute (λ s. (ok tt, g s)) kg) (λ u. delete_loop-Keeps P gs ks)

  deletions-EachKeeps : (now : ℕ) (s : History F) → EachKeeps (Retained now s) (deletions now)
  deletions-EachKeeps now s = (
    λ t (a, b, c, d, e, f). (IsPart-keep _ _ _ a, b, c, d, e, f),
    (
      λ t (a, b, c, d, e, f). (a, IsPart-keep _ _ _ b, c, d, e, f),
      (
        λ t (a, b, c, d, e, f). (a, b, IsPart-keep _ _ _ c, d, e, f),
        (
          λ t (a, b, c, d, e, f). (a, b, c, IsPart-keep _ _ _ d, e, f),
          (
            λ t (a, b, c, d, e, f). (a, b, c, d, IsPart-keep _ _ _ e, f),
            (λ t (a, b, c, d, e, f). (a, b, c, d, e, IsPart-keep _ _ _ f), tt),
          ),
        ),
      ),
    ),
  )

  abbrev all_of : List (History F → History F) → History F → History F
  all_of [] s = s
  all_of (g ∷ gs) s = all_of gs (g s)

  delete_loop_all :
      (gs : List (History F → History F)) (d : Disk (History F))
      → (delete_loop gs d).0 ≡ ok tt
      → (delete_loop gs d).1.rows ≡ all_of gs d.rows
  unfolding delete_loop ◌>>=◌
  delete_loop_all [] d = λ o. refl
  delete_loop_all (g ∷ gs) d = elim (Bool-cases (d.fault d.count)) [
    | inl e ↦ rw (e) (λ o. absurd (cc))
    | inr e ↦ rw (e) (λ o. delete_loop_all gs _ o)
  ]

  -- The checkpoint changes neither the result nor the rows.
  checkpoint-rows :
      (loop : Exec (History F) (Unit {0})) (d : Disk (History F))
      → let c = (loop >>= λ u. ignore (execute (λ s. (ok tt, s)))) d in
        c.0 ≡ ok tt → ((loop d).0 ≡ ok tt) × (c.1.rows ≡ (loop d).1.rows)
  unfolding ◌>>=◌
  checkpoint-rows loop d = elim (Result-cases (loop d).0) [
    | inr (x, e) ↦ rw e (λ o. absurd (cc))
    | inl (u, e) ↦ elim (Bool-cases ((loop d).1.fault (loop d).1.count)) [
      | inl f ↦ rw (e, f) (λ o. (refl, refl))
      | inr f ↦ rw (e, f) (λ o. (refl, refl))
    ]
  ]

  -- CleanupRetention, whichever statements fault, leaves each table of the history as it was or
  -- without exactly its rows of more than 30 days, and if it succeeds, it leaves every table without
  -- them.
  pub cleanup_retention-Retained :
      (now : ℕ) (d : Disk (History F))
      → let c = cleanup_retention now d in
        Retained now d.rows c.1.rows × (c.0 ≡ ok tt → c.1.rows ≡ cleaned now d.rows)
  unfolding cleanup_retention ◌>>=◌
  cleanup_retention-Retained now d = (
    (Keeps-bind _ _ (delete_loop-Keeps _ (deletions now) (deletions-EachKeeps now d.rows)) (λ u.
          Keeps-ignore (execute (λ s. (ok tt, s))) (Keeps-execute (λ s. (ok tt, s)) (λ t h. h)))).at
        d (inl refl, inl refl, inl refl, inl refl, inl refl, inl refl),
    λ o.
        let (all, same) = checkpoint-rows (delete_loop (deletions now)) d o in
        same ∙ delete_loop_all (deletions now) d all,
  )
