-- ===== src/Sshx/Shell.antt =====
-- What a POSIX shell makes of the command lines of RunSudo.
use Prim.Native.Char.{Char, code}
use Prim.Native.String.{◌++◌ as str_append}
use mathlib.Core.List.{append_assoc}
use text.Mathlib.TextEquality.{Char-path}
use text.Mathlib.TextLemmas.{
  nil-append, cons-append, append-nil as str_append-nil, append_assoc as str_append_assoc,
}
use frpilot.Prelude.{
  ℕ, ◌≡◌, refl, sym, ap, ◌∙◌, String, str_eq, Bool, false, if◌then◌else◌, ◌==◌, ==_iff, ◌||◌, leb,
  ◌&&◌, Option, none, some, List, [], ◌∷◌, ◌++◌, inl, inr, Bool-cases, Option-cases,
}
use frpilot.Prelude.Text.{◌⧺◌}
use frpilot.Sshx.{escape_quotes, shell_quote, run_sudo}

-- The words and the operators of a line.
pub data Token : Type 0 where
  word : String → Token
  pipe : Token

-- Between words, or in a word of which this much is read: bare, between single quotes, or after a
-- backslash.
pub data Mode : Type 0 where
  between : Mode
  bare quoted escaped : String → Mode

-- Outside quotes the shell leaves these alone: letters, digits, and - . / : = _ and the like.
abbrev is_plain : ℕ → Bool
is_plain c =
    (leb b'a' c && leb c b'z')
    || (leb b'A' c && leb c b'Z')
    || (leb b'-' c && leb c b':')
    || c == b'='
    || c == b'_'

abbrev grow : String → Char → String
grow w c = str_append w (String.◌∷◌ c "")

-- The tokens that a character ends, and the mode after it; `none` where the line has a construct
-- that is not read here, such as an expansion.
read_char : Mode → Char → Option (List Token × Mode)
read_char between c =
    if code c == b' '
    then some ([], between)
    else if code c == b'|'
    then some (pipe ∷ [], between)
    else if code c == b'\''
    then some ([], quoted "")
    else if code c == b'\\'
    then some ([], escaped "")
    else if is_plain (code c)
    then some ([], bare (grow "" c))
    else none
read_char (bare w) c =
    if code c == b' '
    then some (word w ∷ [], between)
    else if code c == b'|'
    then some (word w ∷ pipe ∷ [], between)
    else if code c == b'\''
    then some ([], quoted w)
    else if code c == b'\\'
    then some ([], escaped w)
    else if is_plain (code c)
    then some ([], bare (grow w c))
    else none
read_char (quoted w) c = some ([], if code c == b'\'' then bare w else quoted (grow w c))
read_char (escaped w) c = some ([], bare (grow w c))

abbrev prepend : List Token → Option (List Token × Mode) → Option (List Token × Mode)
prepend out none = none
prepend out (some (ts, m)) = some (out ++ ts, m)

scan : Mode → String → Option (List Token × Mode)
unfolding read_char
scan m String.[] = some ([], m)
scan m (String.◌∷◌ c s) = elim (read_char m c) [
  | none ↦ none
  | some (out, m') ↦ prepend out (scan m' s)
]

abbrev finish : Option (List Token × Mode) → Option (List Token)
finish none = none
finish (some (out, between)) = some out
finish (some (out, bare w)) = some (out ++ word w ∷ [])
finish (some (out, quoted w)) = none
finish (some (out, escaped w)) = none

-- The tokens of a command line.
pub tokens : String → Option (List Token)
unfolding scan
tokens s = finish (scan between s)

abbrev and_then : Option (List Token × Mode) → String → Option (List Token × Mode)
and_then none t = none
and_then (some (out, m)) t = prepend out (scan m t)

prepend-nil : (x : Option (List Token × Mode)) → prepend [] x ≡ x
prepend-nil none = refl
prepend-nil (some (ts, m)) = refl

prepend-and_then :
    (out : List Token) (x : Option (List Token × Mode)) (t : String)
    → and_then (prepend out x) t ≡ prepend out (and_then x t)
prepend-and_then out none t = refl
prepend-and_then out (some (ts, m)) t =
    elim (scan m t) as (λ y. prepend (out ++ ts) y ≡ prepend out (prepend ts y)) [
      | none ↦ refl
      | some (us, m') ↦ ap (λ z. some (z, m')) (append_assoc out ts us)
    ]

scan-append : (s t : String) (m : Mode) → scan m (s ⧺ t) ≡ and_then (scan m s) t
unfolding scan
scan-append String.[] t m = ap (scan m) (nil-append t) ∙ sym (prepend-nil (scan m t))
scan-append (String.◌∷◌ c s) t m = rw (cons-append c s t) (elim (Option-cases (read_char m c)) [
  | inl e ↦ rw (scan, e) refl
  | inr ((out, m'), e) ↦
      rw (scan, e)
        (ap (prepend out) (scan-append s t m') ∙ sym (prepend-and_then out (scan m' s) t))
])

-- Reading the escaped text between quotes gives the text.
scan-escape_quotes :
    (s w : String) → scan (quoted w) (escape_quotes s) ≡ some ([], quoted (str_append w s))
unfolding scan read_char escape_quotes
scan-escape_quotes String.[] w = ap (λ v. some ([], quoted v)) (sym (str_append-nil w))
scan-escape_quotes (String.◌∷◌ c s) w =
    let grown : str_append (grow w c) s ≡ str_append w (String.◌∷◌ c s) =
      str_append_assoc w (String.◌∷◌ c "") s
      ∙ ap (str_append w) (cons-append c "" s ∙ ap (String.◌∷◌ c) (nil-append s)) in
    elim (Bool-cases (code c == b'\'')) [
      | inl e ↦
          let same : c ≡ "'" = Char-path c "'" ((==_iff (code c) b'\'').0 e) in
          rw (escape_quotes, e)
            (scan-append "'\\''" (escape_quotes s) (quoted w)
              ∙ prepend-nil (scan (quoted (grow w "'")) (escape_quotes s))
              ∙ scan-escape_quotes s (grow w "'")
              ∙ ap (λ v. some ([], quoted v))
                  (ap (λ d. str_append (grow w d) s) (sym same) ∙ grown))
      | inr e ↦
          rw (escape_quotes, e, e)
            (prepend-nil (scan (quoted (grow w c)) (escape_quotes s))
              ∙ scan-escape_quotes s (grow w c)
              ∙ ap (λ v. some ([], quoted v)) grown)
    ]

-- A quoted text adds itself to the word at hand.
scan-shell_quote :
    (s : String) (m : Mode) (w : String)
    → scan m "'" ≡ some ([], quoted w)
    → scan m (shell_quote s) ≡ some ([], bare (str_append w s))
unfolding scan read_char shell_quote
scan-shell_quote s m w e =
    scan-append "'" (escape_quotes s ⧺ "'") m
    ∙ ap (λ x. and_then x (escape_quotes s ⧺ "'")) e
    ∙ ap (prepend []) (
        scan-append (escape_quotes s) "'" (quoted w)
        ∙ ap (λ x. and_then x "'") (scan-escape_quotes s w))

abbrev options : List Token
options = word "sudo" ∷ word "-S" ∷ word "-p" ∷ word "" ∷ word "--" ∷ word "bash" ∷ word "-c" ∷ []

scan-options :
    (p : String)
    → scan (bare p) " | sudo -S -p '' -- bash -c " ≡ some (word p ∷ pipe ∷ options, between)
unfolding scan read_char
scan-options p = refl

scan-run_sudo :
    (cmd p : String)
    → scan between ("echo " ⧺ shell_quote p ⧺ " | sudo -S -p '' -- bash -c " ⧺ shell_quote cmd)
      ≡ some (word "echo" ∷ word p ∷ pipe ∷ options, bare cmd)
unfolding scan read_char
scan-run_sudo cmd p =
    let tail = shell_quote cmd in
    let rest = " | sudo -S -p '' -- bash -c " ⧺ tail in
    scan-append "echo " (shell_quote p ⧺ rest) between
    ∙ ap (prepend (word "echo" ∷ [])) (
        scan-append (shell_quote p) rest between
        ∙ ap (λ x. and_then x rest) (scan-shell_quote p between "" refl)
        ∙ ap (λ v. prepend [] (scan (bare v) rest)) (nil-append p)
        ∙ prepend-nil (scan (bare p) rest)
        ∙ scan-append " | sudo -S -p '' -- bash -c " tail (bare p)
        ∙ ap (λ x. and_then x tail) (scan-options p)
        ∙ ap (prepend (word p ∷ pipe ∷ options)) (scan-shell_quote cmd between "" refl)
        ∙ ap (λ v. some (word p ∷ pipe ∷ options, bare v)) (nil-append cmd))

-- Whatever the password and the command are, if the password is not empty, a shell reads the
-- command line of RunSudo as a pipe from `echo`, with the password as its one argument, to `sudo`,
-- with these options and the command as one argument of `bash -c`: neither text adds a word, an
-- operator or an expansion.
pub tokens-run_sudo :
    (cmd sudo_pass : String)
    → str_eq sudo_pass "" ≡ false
    → tokens (run_sudo cmd sudo_pass)
      ≡ some (
          word "echo"
          ∷ word sudo_pass
          ∷ pipe
          ∷ word "sudo"
          ∷ word "-S"
          ∷ word "-p"
          ∷ word ""
          ∷ word "--"
          ∷ word "bash"
          ∷ word "-c"
          ∷ word cmd
          ∷ [])
unfolding tokens run_sudo
tokens-run_sudo cmd sudo_pass h = rw (run_sudo, h) (ap finish (scan-run_sudo cmd sudo_pass))
