-- ===== src/Sshx/FrpsFile.antt =====
-- internal/sshx/sshx.go: what is read from the configuration file of frps, and how the file is found.
use text.Mathlib.Text.{starts_with}
use Prim.Native.Char.{code}
use frpilot.Prelude.{
  ℕ, String, str_eq, Bool, false, if◌then◌else◌, not, ◌==◌, ◌&&◌, ◌||◌, Option, none, some, List,
  [], ◌∷◌,
}
use frpilot.Prelude.Maps.{Map, put}
use frpilot.Prelude.Text.{◌⧺◌, trim_space, lines, cut_at, contains}
use frpilot.Exec.{Result, ok, err, command_failed}
use frpilot.Tasks.Remote.{Sent, Remote}

-- strings.HasSuffix
unfoldable pub ends_with : String → String → Bool
ends_with String.[] t = str_eq t ""
ends_with (String.◌∷◌ c s) t = str_eq (String.◌∷◌ c s) t || ends_with s t

-- A text without its last code point, if that is of this kind.
unfoldable pub without_last : ℕ → String → Option String
without_last k String.[] = none
without_last k (String.◌∷◌ c s) =
    let rest = without_last k s in
    if str_eq s ""
    then (if code c == k then some "" else none)
    else elim rest [ none ↦ none | some t ↦ some (String.◌∷◌ c t) ]

abbrev is_quote : ℕ → Bool
is_quote k = k == b'"' || k == b'\''

abbrev unquoted : String → Option String → String
unquoted s none = s
unquoted s (some inner) = inner

-- stringsTrimQuotes
unfoldable pub trim_quotes : String → String
unfolding without_last
trim_quotes String.[] = ""
trim_quotes (String.◌∷◌ c s) =
    if is_quote (code c)
    then unquoted (String.◌∷◌ c s) (without_last (code c) s)
    else String.◌∷◌ c s

-- The value that a line gives for the key, empty where it gives none.
abbrev assigned : String → Option (String × String) → String
assigned key none = ""
assigned key (some (before, after)) =
    let k = trim_space before in
    if not (str_eq before "") && (str_eq k key || ends_with k ("." ⧺ key))
    then trim_quotes (trim_space after)
    else ""

unfoldable pub line_value : String → String → String
unfolding ends_with trim_quotes
line_value key raw =
    let s = trim_space raw in
    if str_eq s "" || starts_with s "#" then "" else assigned key (cut_at b'=' s)

-- The loop over the lines.
unfoldable pub value_in : String → List String → String
unfolding line_value
value_in key [] = ""
value_in key (l ∷ ls) =
    let rest = value_in key ls in let v = line_value key l in if str_eq v "" then rest else v

unfoldable pub extract_config_value : (content key : String) → String
unfolding value_in
extract_config_value content key = value_in key (lines content)

abbrev config_keys : List String
config_keys =
    "bind_port" ∷ "bindPort" ∷ "dashboard_port" ∷ "dashboardPort" ∷ "dashboard_user"
    ∷ "dashboardUser" ∷ "dashboard_pwd" ∷ "dashboardPwd" ∷ "token" ∷ []

unfoldable pub extract_loop : String → List String → Map String → Map String
unfolding extract_config_value
extract_loop content [] out = out
extract_loop content (k ∷ ks) out =
    let v = extract_config_value content k in
    extract_loop content ks (if str_eq v "" then out else put k v out)

unfoldable pub extract_frps_config_values : String → Map String
unfolding extract_loop
extract_frps_config_values content = extract_loop content config_keys []

-- Run within 10 seconds.
abbrev pub run_of : String → Sent
run_of command = record { sudo = false; password = ""; command = command; timeout = 10 }

abbrev pub ps_command : String
ps_command =
    "ps aux 2>/dev/null | grep -E '[f]rps' | grep -oE '\\-c[ =][^ ]+' | head -1 | sed 's/^-c[ =]//'; true"

abbrev pub probe_command : String
probe_command =
    "for f in /etc/frp/frps.toml /etc/frp/frps.ini /usr/local/etc/frps.ini /opt/frp*/frps.ini /opt/frp*/frps.toml /root/frp*/frps.ini /root/frp*/frps.toml /home/*/frp*/frps.ini /home/*/frp*/frps.toml; do [ -f \"$f\" ] && echo \"$f\" && break; done"

-- The path, if one is found, and the commands that are sent.
unfoldable pub find_frps_config_path : Remote → Option String × List Sent
find_frps_config_path r =
    let first = run_of ps_command in
    let second = run_of probe_command in
    let p = trim_space (r.reply [] first).out in
    let q = trim_space (r.reply (first ∷ []) second).out in
    if not (str_eq p "") && contains p "frps"
    then (some p, first ∷ [])
    else (if str_eq q "" then none else some q, first ∷ second ∷ [])

-- tomlPath[:i] at the last dot, if that is not at the front.
unfoldable pub before_dot : String → Option String
before_dot String.[] = none
before_dot (String.◌∷◌ c s) = elim (before_dot s) [
  | some t ↦ some (String.◌∷◌ c t)
  | none ↦ if code c == b'.' then some "" else none
]

unfoldable pub toml_path : String → String
unfolding before_dot
toml_path path = elim (before_dot path) [
  | none ↦ path
  | some t ↦ if str_eq t "" then path else t ⧺ ".toml"
]

unfoldable pub token_command : String → String
unfolding toml_path
token_command path = "cat \"" ⧺ path ⧺ "\" 2>/dev/null; cat \"" ⧺ toml_path path ⧺ "\" 2>/dev/null"

-- After the commands `before`.
unfoldable pub verify_token_in_frps_ini :
    Remote → List Sent → (path baseline : String) → Result (Bool × String)
unfolding token_command extract_config_value
verify_token_in_frps_ini r before path baseline =
    let a = r.reply before (run_of (token_command path)) in
    let token = extract_config_value a.out "token" in
    if a.failed then err command_failed else ok (str_eq token baseline, token)
