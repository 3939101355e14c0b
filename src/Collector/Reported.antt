-- ===== src/Collector/Reported.antt =====
-- What ParseSecurity reports of each tool.
use frpilot.Prelude.{
  ◌≡◌, refl, sym, subst, ap, ◌∙◌, String, str_eq, Bool, true, false, if◌then◌else◌, ◌||◌, List, [],
  ◌∷◌, map, any, change, Distinct, Distinct-change, arith,
}
use frpilot.Prelude.Text.{lines}
use frpilot.Collector.Modules.{
  SecurityItem, SecurityLine, is_active, has_version, has_count, is_missing, is_other,
  security_line, is_named, change_item, note_line, note_lines, without_version, parse_security,
}
use frpilot.Collector.Tools.{
  mentions, says_missing, is_gone, any_named-change_item, any_gone-change_item,
  any_gone-removed_item, change_item-Distinct,
}

-- What one line adds.
abbrev Noted : SecurityLine → List SecurityItem → List SecurityItem → Type 0
Noted l items items' =
    ((n : String) → any (is_named n) items' ≡ (any (is_named n) items || mentions n l))
    × ((n : String) → any (is_gone n) items' ≡ (any (is_gone n) items || says_missing n l))
    × (Distinct (λ it. it.name) items → Distinct (λ it. it.name) items')

change-Noted :
    (g : SecurityItem → SecurityItem) (m : String) (l : SecurityLine) (items : List SecurityItem)
    → ((it : SecurityItem) → (g it).name ≡ it.name)
    → ((it : SecurityItem) → (g it).installed ≡ it.installed)
    → ((n : String) → mentions n l ≡ str_eq m n)
    → ((n : String) → says_missing n l ≡ false)
    → Noted l items (change_item m g items)
change-Noted g m l items keeps same of_m stays = (
  λ n. rw (of_m n) (any_named-change_item g keeps n m items),
  λ n. rw (stays n) (any_gone-change_item g keeps same n m items ∙ ground arith),
  change_item-Distinct g keeps m items,
)

note_line-Noted : (l : SecurityLine) (items : List SecurityItem) → Noted l items (note_line l items)
unfolding note_line
note_line-Noted (is_active m state) items =
    change-Noted _ m (is_active m state) items (λ it. refl) (λ it. refl) (λ n. refl) (λ n. refl)
note_line-Noted (has_version m text) items =
    change-Noted _ m (has_version m text) items (λ it. refl) (λ it. refl) (λ n. refl) (λ n. refl)
note_line-Noted (has_count m text) items =
    change-Noted _ m (has_count m text) items (λ it. refl) (λ it. refl) (λ n. refl) (λ n. refl)
note_line-Noted (is_missing m) items = (
  λ n. any_named-change_item _ (λ it. refl) n m items,
  λ n. any_gone-removed_item _ (λ it. refl) (λ it. refl) n m items,
  change_item-Distinct _ (λ it. refl) m items,
)
note_line-Noted is_other items = (λ n. ground arith, λ n. ground arith, λ d. d)

note_lines-Noted :
    (ls : List SecurityLine) (items : List SecurityItem)
    → ((n : String)
        → any (is_named n) (note_lines ls items) ≡ (any (is_named n) items || any (mentions n) ls))
      × ((n : String)
          → any (is_gone n) (note_lines ls items)
            ≡ (any (is_gone n) items || any (says_missing n) ls))
      × (Distinct (λ it. it.name) items → Distinct (λ it. it.name) (note_lines ls items))
unfolding note_lines
note_lines-Noted [] items = (λ n. ground arith, λ n. ground arith, λ d. d)
note_lines-Noted (l ∷ ls) items =
    let (named, gone, apart) = note_line-Noted l items in
    let (named', gone', apart') = note_lines-Noted ls (note_line l items) in
    (
      λ n. named' n ∙ rw (named n) (ground arith),
      λ n. gone' n ∙ rw (gone n) (ground arith),
      λ d. apart' (apart d),
    )

any-without_version :
    (p : SecurityItem → Bool) (items : List SecurityItem)
    → ((it : SecurityItem) → p (without_version it) ≡ p it)
    → any p (map without_version items) ≡ any p items
any-without_version p [] same = refl
any-without_version p (it ∷ items) same =
    rw (same it) (ap (λ b. if p it then true else b) (any-without_version p items same))

map-eq-change :
    (g : SecurityItem → SecurityItem) (items : List SecurityItem)
    → map g items ≡ change (λ it. true) g items
map-eq-change g [] = refl
map-eq-change g (it ∷ items) = ap (λ rest. g it ∷ rest) (map-eq-change g items)

without_version-name : (it : SecurityItem) → (without_version it).name ≡ it.name
without_version-name it = ground arith

-- ParseSecurity reports each tool once. It reports exactly the tools that some line of the script is
-- about, and says of exactly those that some line calls missing that they are not installed,
-- whatever lines come before or after.
pub parse_security-tools :
    (text : String)
    → let items = parse_security text in
      let ls = map security_line (lines text) in
      Distinct (λ it. it.name) items
      × ((n : String) → any (is_named n) items ≡ any (mentions n) ls)
      × ((n : String) → any (is_gone n) items ≡ any (says_missing n) ls)
unfolding parse_security
parse_security-tools text =
    let ls = map security_line (lines text) in
    let (named, gone, apart) = note_lines-Noted ls [] in
    (
      subst (Distinct (λ it. it.name)) (sym (map-eq-change without_version (note_lines ls []))) (
          Distinct-change (λ it. it.name) (λ it. true) without_version (note_lines ls [])
            without_version-name (apart tt)),
      λ n. any-without_version (is_named n) (note_lines ls []) (λ it. ground arith) ∙ named n,
      λ n. any-without_version (is_gone n) (note_lines ls []) (λ it. ground arith) ∙ gone n,
    )
