-- ===== src/Qos/Ids.antt =====
-- The class ids: classID keeps them apart, and releaseIfUnused does not.
use frpilot.Prelude.{
  ℕ, suc, ◌≤◌, ◌<◌, ◌≡◌, ◌≢◌, String, str_eq, eq_iff, false, none, some, inl, inr, arith,
  Option-cases,
}
use frpilot.Prelude.Maps.{get, put, delete, has, get-put, get-delete}
use frpilot.Qos.State.{first_class_id, Service, class_id, release_if_unused}

-- Two machines never have one id, and an id is below the next one and above the root class.
pub record IdsValid {F : Type 0} (s : Service F) : Type 0 where
  pub below : (n : String) (i : ℕ) → get n s.ids ≡ some i → (first_class_id ≤ i) × (i < s.next_id)
  pub apart : (n m : String) (i : ℕ) → get n s.ids ≡ some i → get m s.ids ≡ some i → n ≡ m
  pub start : first_class_id ≤ s.next_id

module _ {F : Type 0} where
  pub class_id-get :
      (name : String) (s : Service F) → get name (class_id name s).1.ids ≡ some (class_id name s).0
  unfolding class_id
  class_id-get name s = elim (Option-cases (get name s.ids)) [
    | inl e ↦ ground (arith, get-put name name s.next_id s.ids, eq_iff name name)
    | inr (i, e) ↦ ground arith
  ]

  pub class_id-keeps :
      (name n : String) (i : ℕ) (s : Service F)
      → get n s.ids ≡ some i
      → get n (class_id name s).1.ids ≡ some i
  unfolding class_id
  class_id-keeps name n i s h = elim (Option-cases (get name s.ids)) [
    | inl e ↦ ground (arith, get-put name n s.next_id s.ids, eq_iff name n)
    | inr (j, e) ↦ ground arith
  ]

  class_id-below :
      (name n : String) (i : ℕ) (s : Service F)
      → IdsValid s
      → get n (class_id name s).1.ids ≡ some i
      → (first_class_id ≤ i) × (i < (class_id name s).1.next_id)
  unfolding class_id
  class_id-below name n i s v h = elim (Option-cases (get name s.ids)) [
    | inl e ↦ ground (arith, get-put name n s.next_id s.ids, v.below n i, v.start)
    | inr (j, e) ↦ ground (arith, v.below n i)
  ]

  class_id-apart :
      (name n m : String) (i : ℕ) (s : Service F)
      → IdsValid s
      → get n (class_id name s).1.ids ≡ some i
      → get m (class_id name s).1.ids ≡ some i
      → n ≡ m
  unfolding class_id
  class_id-apart name n m i s v h k = elim (Option-cases (get name s.ids)) [
    | inl e ↦ ground (
      arith,
      get-put name n s.next_id s.ids,
      get-put name m s.next_id s.ids,
      v.below n i,
      v.below m i,
      v.apart n m i,
      eq_iff name n,
      eq_iff name m,
    )
    | inr (j, e) ↦ ground (arith, v.apart n m i)
  ]

  pub class_id-IdsValid :
      (name : String) (s : Service F) → IdsValid s → IdsValid (class_id name s).1
  class_id-IdsValid name s v = record {
    below = λ n i h. class_id-below name n i s v h;
    apart = λ n m i h k. class_id-apart name n m i s v h k;
    start = start' name s v.start;
  }
    where
      start' :
          (name : String) (s : Service F)
          → first_class_id ≤ s.next_id
          → first_class_id ≤ (class_id name s).1.next_id
      start' name s h = unfold class_id in ground arith

  released :
      (a : String) (low : ℕ) (s : Service F)
      → get a s.ids ≡ some low
      → low < s.next_id
      → has a s.applied_out ≡ false
      → has a s.applied_in ≡ false
      → ((release_if_unused a s).ids ≡ delete a s.ids) × ((release_if_unused a s).next_id ≡ low)
  unfolding release_if_unused
  released a low s e l o i = ground arith

  allocated :
      (x : String) (i : ℕ) (s : Service F)
      → get x s.ids ≡ none
      → s.next_id ≡ i
      → ((class_id x s).1.ids ≡ put x i s.ids) × ((class_id x s).1.next_id ≡ suc i)
  unfolding class_id
  allocated x i s e n = ground arith

  -- Asking for the id of a machine, while the ids are apart (no two machines have one id, and each
  -- is above the root class and below the next one), keeps them apart; the machine has the id that
  -- is returned, and every machine that had an id keeps it.
  pub class_id-stable :
      (name n : String) (j : ℕ) (s : Service F)
      → IdsValid s
      → get n s.ids ≡ some j
      → let (i, s') = class_id name s in
        IdsValid s' × (get name s'.ids ≡ some i) × (get n s'.ids ≡ some j)
  class_id-stable name n j s v h =
      (class_id-IdsValid name s v, class_id-get name s, class_id-keeps name n j s h)

  -- Two machines hold the two highest ids, and the one with the lower id is shaped in no
  -- direction. When it is released, the second new machine after that gets the id that the other
  -- one still holds.
  pub release-collides :
      (a b x y : String) (low : ℕ) (s : Service F)
      → get a s.ids ≡ some low
      → get b s.ids ≡ some (suc low)
      → s.next_id ≡ suc (suc low)
      → has a s.applied_out ≡ false
      → has a s.applied_in ≡ false
      → get x s.ids ≡ none
      → get y s.ids ≡ none
      → str_eq x y ≡ false
      → let s' = (class_id y (class_id x (release_if_unused a s)).1).1 in
        (y ≢ b) × (get b s'.ids ≡ some (suc low)) × (get y s'.ids ≡ some (suc low))
  release-collides a b x y low s ha hb top o i nx ny xy =
      let s1 = release_if_unused a s in
      let r = released a low s ha (omega arith) o i in
      let s2 = (class_id x s1).1 in
      let p = allocated x low s1 (rw (r.0, get-delete a x s.ids) (ground arith)) r.1 in
      let q =
        allocated y (suc low) s2
          (rw (p.0, get-put x y low s1.ids, xy, r.0, get-delete a y s.ids) (ground arith)) p.1 in
      (
        λ e. ground arith,
        rw
            (
              q.0,
              get-put y b (suc low) s2.ids,
              p.0,
              get-put x b low s1.ids,
              r.0,
              get-delete a b s.ids,
            )
            (ground (arith, eq_iff y b, eq_iff x b, eq_iff a b)),
        rw (q.0, get-put y y (suc low) s2.ids) (ground (arith, eq_iff y y)),
      )
