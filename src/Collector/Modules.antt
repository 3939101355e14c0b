-- ===== src/Collector/Modules.antt =====
-- internal/collector/modules.go: ParseSecurity. The texts that the remote scripts print come as they
-- are.

use frpilot.Prelude.{
  String, str_eq, Bool, true, false, if◌then◌else◌, ◌||◌, Option, none, some, List, [], ◌∷◌, ◌++◌,
  map, any, change,
}
use frpilot.Prelude.Text.{trim_space, lines, cut_at}

pub record SecurityItem : Type 0 where
  pub name : String
  pub installed : Bool
  pub active : String
  pub version : String
  pub detail : String
  pub warn : String

-- strings.SplitN(line, " ", 3)
pub data Parts : Type 0 where
  one : String → Parts
  two : String → String → Parts
  three : String → String → String → Parts

abbrev pub split_rest : String → Option (String × String) → Parts
split_rest first none = one first
split_rest first (some (a, rest)) = elim (cut_at b' ' rest) [
  | none ↦ two a rest
  | some (b, c) ↦ three a b c
]

unfoldable pub split_three : String → Parts
split_three line = split_rest line (cut_at b' ' line)

-- What a line of the security script says of a tool.
pub data SecurityLine : Type 0 where
  is_active : (name state : String) → SecurityLine
  has_version : (name text : String) → SecurityLine
  has_count : (name text : String) → SecurityLine
  is_missing : (name : String) → SecurityLine
  is_other : SecurityLine

abbrev active_line : Option (String × String) → SecurityLine
active_line none = is_other
active_line (some (name, state)) = is_active name state

-- The cases of the verb that need only the first word after it.
abbrev short_line : (verb word : String) → SecurityLine
short_line verb word =
    if str_eq verb "ACTIVE"
    then active_line (cut_at b'|' word)
    else if str_eq verb "MISSING"
    then is_missing word
    else is_other

abbrev security_parts : Parts → SecurityLine
security_parts (one line) = is_other
security_parts (two verb word) = short_line verb word
security_parts (three verb word text) =
    if str_eq verb "VER" || str_eq verb "EXTRA"
    then has_version word text
    else if str_eq verb "COUNT"
    then has_count word text
    else short_line verb word

unfoldable pub security_line : String → SecurityLine
unfolding split_three
security_line raw = security_parts (split_three (trim_space raw))

abbrev pub is_named : String → SecurityItem → Bool
is_named n it = str_eq it.name n

abbrev pub new_item : String → SecurityItem
new_item n = record {
  name = n;
  installed = true;
  active = "unknown";
  version = "";
  detail = "";
  warn = "";
}

-- `it := get(name)` and a change of what it points to. The list is the map in the order of `order`.
unfoldable pub change_item :
    String → (SecurityItem → SecurityItem) → List SecurityItem → List SecurityItem
change_item n g items =
    if any (is_named n) items then change (is_named n) g items else items ++ g (new_item n) ∷ []

unfoldable pub note_line : SecurityLine → List SecurityItem → List SecurityItem
unfolding change_item
note_line (is_active n state) items = change_item n (λ it. record it { active = state }) items
note_line (has_version n text) items = change_item n (λ it. record it { version = text }) items
note_line (has_count n text) items = change_item n (λ it. record it { detail = text }) items
note_line (is_missing n) items =
    change_item n (λ it. record it { installed = false; active = "uninstalled"; warn = "软件未安装" })
      items
note_line is_other items = items

unfoldable pub note_lines : List SecurityLine → List SecurityItem → List SecurityItem
unfolding note_line
note_lines [] items = items
note_lines (l ∷ ls) items = note_lines ls (note_line l items)

abbrev pub without_version : SecurityItem → SecurityItem
without_version it = if it.installed then it else record it { version = "" }

unfoldable pub parse_security : String → List SecurityItem
unfolding security_line note_lines
parse_security text = map without_version (note_lines (map security_line (lines text)) [])
