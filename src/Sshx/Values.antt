-- ===== src/Sshx/Values.antt =====
-- Values of a configuration of frps that is one text after another.
use text.Mathlib.TextLemmas.{nil-append, cons-append, append-nil as str_append-nil}
use Prim.Native.Char.{Char, code}
use frpilot.Prelude.{
  ◌≡◌, refl, sym, ap, ◌∙◌, arith, ℕ, String, str_eq, eq_iff, Bool, false, if◌then◌else◌, ◌==◌, none,
  some, List, [], ◌∷◌, ◌++◌, any, inl, inr, Bool-cases,
}
use frpilot.Prelude.Maps.{Map, get, put, get-put}
use frpilot.Prelude.Text.{◌⧺◌, lines, split_by, push_front, trim_space}
use frpilot.Sshx.FrpsFile.{
  line_value, value_in, extract_config_value, extract_loop, extract_frps_config_values,
}

split_by-some :
    (p : ℕ → Bool) (s : String) → (w : String) × (ws : List String) × (split_by p s ≡ w ∷ ws)
unfolding split_by
split_by-some p String.[] = ("", [], refl)
split_by-some p (String.◌∷◌ c s) = elim (Bool-cases (p (code c))) [
  | inl e ↦ ("", split_by p s, rw e refl)
  | inr e ↦ let (w, ws, f) = split_by-some p s in (String.◌∷◌ c w, ws, rw e (ap (push_front c) f))
]

push_front-append :
    (c : Char) (w : String) (ws ls ms : List String)
    → ls ≡ w ∷ ws
    → push_front c (ls ++ ms) ≡ push_front c ls ++ ms
push_front-append c w ws ls ms e = rw e refl

pub lines-append : (s t : String) → lines (s ⧺ "\n" ⧺ t) ≡ lines s ++ lines t
unfolding split_by
lines-append String.[] t =
    ap lines (nil-append ("\n" ⧺ t) ∙ cons-append _ "" t ∙ ap (String.◌∷◌ "\n") (nil-append t))
lines-append (String.◌∷◌ c s) t =
    rw (cons-append c s ("\n" ⧺ t)) (elim (Bool-cases (code c == 10)) [
      | inl e ↦ rw (e) (ap (λ x. "" ∷ x) (lines-append s t))
      | inr e ↦
          let (w, ws, f) = split_by-some (λ k. k == 10) s in
          rw (e)
            (ap (push_front c) (lines-append s t) ∙ push_front-append c w ws (lines s) (lines t) f)
    ])

value_in-append :
    (key : String) (ls ms : List String)
    → value_in key (ls ++ ms)
      ≡ (if str_eq (value_in key ls) "" then value_in key ms else value_in key ls)
unfolding value_in
value_in-append key [] ms = refl
value_in-append key (l ∷ ls) ms = elim (Bool-cases (str_eq (line_value key l) "")) [
  | inl e ↦ rw e (value_in-append key ls ms)
  | inr e ↦ rw (e, e) refl
]

-- The first text of a file decides, if it gives the key a value.
pub extract_config_value-append :
    (s t key : String)
    → extract_config_value (s ⧺ "\n" ⧺ t) key ≡ (
        if str_eq (extract_config_value s key) ""
        then extract_config_value t key
        else extract_config_value s key)
unfolding extract_config_value
extract_config_value-append s t key =
    ap (value_in key) (lines-append s t) ∙ value_in-append key (lines s) (lines t)

pub extract_config_value-newline :
    (s key : String) → extract_config_value (s ⧺ "\n") key ≡ extract_config_value s key
unfolding extract_config_value value_in line_value trim_space split_by
extract_config_value-newline s key =
    ap (λ x. extract_config_value (s ⧺ x) key) (sym (str_append-nil "\n"))
    ∙ extract_config_value-append s "" key
    ∙ ground (arith, eq_iff (extract_config_value s key) "")

extract_loop-skip :
    (content key k v : String) (m : Map String)
    → str_eq k key ≡ false
    → get key (if str_eq v "" then m else put k v m) ≡ get key m
extract_loop-skip content key k v m ne = elim (Bool-cases (str_eq v "")) [
  | inl e ↦ rw e refl
  | inr e ↦ rw (e, get-put k key v m, ne) refl
]

-- What the loop leaves under its last key.
extract_loop-last :
    (content key : String) (ks : List String) (m : Map String)
    → any (λ j. str_eq j key) ks ≡ false
    → get key (extract_loop content (ks ++ key ∷ []) m) ≡ (
        if str_eq (extract_config_value content key) ""
        then get key m
        else some (extract_config_value content key))
unfolding extract_loop
extract_loop-last content key [] m ne =
    elim (Bool-cases (str_eq (extract_config_value content key) "")) [
      | inl e ↦ rw e refl
      | inr e ↦
          rw (e, get-put key key (extract_config_value content key) m, (eq_iff key key).1 refl) refl
    ]
extract_loop-last content key (k ∷ ks) m ne = elim (Bool-cases (str_eq k key)) [
  | inl e ↦ absurd (ground arith)
  | inr e ↦
      extract_loop-last content key ks _ (ground arith)
      ∙ rw (extract_loop-skip content key k (extract_config_value content k) m e) refl
]

pub extract-token :
    (content : String)
    → get "token" (extract_frps_config_values content) ≡ (
        if str_eq (extract_config_value content "token") ""
        then none
        else some (extract_config_value content "token"))
unfolding extract_frps_config_values get
extract-token content =
    extract_loop-last content "token"
      ("bind_port" ∷ "bindPort" ∷ "dashboard_port" ∷ "dashboardPort" ∷ "dashboard_user"
        ∷ "dashboardUser" ∷ "dashboard_pwd" ∷ "dashboardPwd" ∷ [])
      [] refl
