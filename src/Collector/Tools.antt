-- ===== src/Collector/Tools.antt =====
-- How the items of ParseSecurity change with one line.
use frpilot.Prelude.{
  ◌≡◌, refl, subst, ◌∙◌, String, str_eq, eq_iff, Bool, true, false, not, ◌&&◌, ◌||◌, List, [], ◌∷◌,
  any, change, All_of_any, Distinct, Distinct-change, Distinct-append, inl, inr, arith, Bool-cases,
}
use frpilot.Collector.Covered.{any-append}
use frpilot.Collector.Modules.{
  SecurityItem, SecurityLine, is_active, has_version, has_count, is_missing, is_other, is_named,
  new_item, change_item,
}

-- The line is of the tool.
abbrev pub mentions : String → SecurityLine → Bool
mentions n (is_active m state) = str_eq m n
mentions n (has_version m text) = str_eq m n
mentions n (has_count m text) = str_eq m n
mentions n (is_missing m) = str_eq m n
mentions n is_other = false

abbrev pub says_missing : String → SecurityLine → Bool
says_missing n (is_missing m) = str_eq m n
says_missing n (is_active m state) = false
says_missing n (has_version m text) = false
says_missing n (has_count m text) = false
says_missing n is_other = false

-- The item is of the tool and says that it is not installed.
abbrev pub is_gone : String → SecurityItem → Bool
is_gone n it = is_named n it && not it.installed

module _ (g : SecurityItem → SecurityItem)
    (keeps : (it : SecurityItem) → (g it).name ≡ it.name) where
  any_named-change :
      (n m : String) (items : List SecurityItem)
      → any (is_named n) (change (is_named m) g items) ≡ any (is_named n) items
  any_named-change n m [] = refl
  any_named-change n m (it ∷ items) = ground (arith, any_named-change n m items, keeps it)

  pub any_named-change_item :
      (n m : String) (items : List SecurityItem)
      → any (is_named n) (change_item m g items) ≡ (any (is_named n) items || str_eq m n)
  unfolding change_item
  any_named-change_item n m items = elim (Bool-cases (any (is_named m) items)) [
    | inl e ↦
        rw (change_item, e)
          (any_named-change n m items ∙ elim (Bool-cases (str_eq m n)) [
            | inl t ↦ rw (t, subst (λ k. any (is_named k) items ≡ true) ((eq_iff m n).0 t) e) refl
            | inr t ↦ rw t (ground arith)
          ])
    | inr e ↦
        rw (change_item, e)
          (any-append (is_named n) items (g (new_item m) ∷ [])
            ∙ rw (keeps (new_item m)) (ground arith))
  ]

  pub change_item-Distinct :
      (m : String) (items : List SecurityItem)
      → Distinct (λ it. it.name) items
      → Distinct (λ it. it.name) (change_item m g items)
  unfolding change_item
  change_item-Distinct m items d = elim (Bool-cases (any (is_named m) items)) [
    | inl e ↦ rw (change_item, e) (Distinct-change (λ it. it.name) (is_named m) g items keeps d)
    | inr e ↦
        rw (change_item, e)
          (Distinct-append (λ it. it.name) items (g (new_item m))
            (All_of_any (is_named m) items
              (λ it f same. ground (arith, eq_iff it.name m, keeps (new_item m))) e)
            d)
  ]

  -- A change that leaves the installation alone.
  any_gone-change :
      ((it : SecurityItem) → (g it).installed ≡ it.installed)
      → (n m : String) (items : List SecurityItem)
      → any (is_gone n) (change (is_named m) g items) ≡ any (is_gone n) items
  any_gone-change same n m [] = refl
  any_gone-change same n m (it ∷ items) =
      ground (arith, any_gone-change same n m items, keeps it, same it)

  pub any_gone-change_item :
      ((it : SecurityItem) → (g it).installed ≡ it.installed)
      → (n m : String) (items : List SecurityItem)
      → any (is_gone n) (change_item m g items) ≡ any (is_gone n) items
  unfolding change_item
  any_gone-change_item same n m items = elim (Bool-cases (any (is_named m) items)) [
    | inl e ↦ rw (change_item, e) (any_gone-change same n m items)
    | inr e ↦
        rw (change_item, e)
          (any-append (is_gone n) items (g (new_item m) ∷ [])
            ∙ rw (keeps (new_item m), same (new_item m)) (ground arith))
  ]

  -- A change that says that the tool is not installed.
  any_gone-removed :
      ((it : SecurityItem) → (g it).installed ≡ false)
      → (n m : String) (items : List SecurityItem)
      → any (is_gone n) (change (is_named m) g items)
        ≡ (any (is_gone n) items || (str_eq m n && any (is_named m) items))
  any_gone-removed gone n m [] = ground arith
  any_gone-removed gone n m (it ∷ items) = ground (
    arith,
    any_gone-removed gone n m items,
    keeps it,
    gone it,
    eq_iff it.name m,
    eq_iff it.name n,
    eq_iff m n,
  )

  pub any_gone-removed_item :
      ((it : SecurityItem) → (g it).installed ≡ false)
      → (n m : String) (items : List SecurityItem)
      → any (is_gone n) (change_item m g items) ≡ (any (is_gone n) items || str_eq m n)
  unfolding change_item
  any_gone-removed_item gone n m items = elim (Bool-cases (any (is_named m) items)) [
    | inl e ↦ rw (change_item, e) (any_gone-removed gone n m items ∙ rw e (ground arith))
    | inr e ↦
        rw (change_item, e)
          (any-append (is_gone n) items (g (new_item m) ∷ [])
            ∙ rw (keeps (new_item m), gone (new_item m)) (ground arith))
  ]
