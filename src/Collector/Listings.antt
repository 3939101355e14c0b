-- ===== src/Collector/Listings.antt =====
-- internal/collector/modules.go: ParseGPU, ParseCron and ParsePorts.
use text.Mathlib.Text.{starts_with}
use frpilot.Prelude.{
  ℤ, pos, String, str_eq, Bool, true, false, if◌then◌else◌, not, ◌&&◌, ◌||◌, Option, none, some,
  List, [], ◌∷◌, ◌++◌, any, ◌==◌,
}
use frpilot.Prelude.Text.{
  trim_space, lines, fields, split_by, cut_at, after_last, after_first, trim_prefix, contains, ◌⧺◌,
}
use frpilot.Collector.Modules.{Parts, one, two, three, split_three}

pub record CronEntry : Type 0 where
  pub source : String
  pub user : String
  pub line : String
  pub command : String

abbrev entry : String → String → String → CronEntry
entry source user line = record { source = source; user = user; line = line; command = line }

abbrev is_blank_cron : String → Bool
is_blank_cron l = str_eq (trim_space l) "" || starts_with l "#"

-- The cases of the verb that need only the first word after it: the new source and the entries.
abbrev short_cron : (verb word source : String) → String × List CronEntry
short_cron verb word source =
    if str_eq verb "SOURCE"
    then (trim_prefix ">" word, [])
    else if str_eq verb "TIMER"
    then (source, entry "systemd-timer" "system" word ∷ [])
    else if str_eq verb "FILE"
    then (source, entry "cron-script" "root" word ∷ [])
    else (source, [])

abbrev cron_parts : Parts → String → String × List CronEntry
cron_parts (one line) source = (source, [])
cron_parts (two verb word) source = short_cron verb word source
cron_parts (three verb word text) source =
    if str_eq verb "CRON"
    then (source, if is_blank_cron text then [] else entry source word text ∷ [])
    else short_cron verb word source

unfoldable pub cron_lines : List String → String → List CronEntry
unfolding split_three
cron_lines [] source = []
cron_lines (raw ∷ rest) source =
    let (source', out) = cron_parts (split_three (trim_space raw)) source in
    out ++ cron_lines rest source'

unfoldable pub parse_cron : String → List CronEntry
unfolding cron_lines
parse_cron text = cron_lines (lines text) ""

pub record PortEntry : Type 0 where
  pub port : String
  pub process : String

-- The text between the first quote after a parenthesis and the next one.
abbrev until_quote : Option (String × String) → String
until_quote none = ""
until_quote (some (name, rest)) = name

abbrev name_after : Option String → String
name_after none = ""
name_after (some rest) = until_quote (cut_at b'"' rest)

unfoldable pub extract_proc_name : String → String
unfolding after_first
extract_proc_name s = name_after (after_first "(\"" s)

-- The loop over the fields of a line.
unfoldable pub proc_of : List String → String → String
unfolding extract_proc_name
proc_of [] proc = proc
proc_of (x ∷ xs) proc =
    let p = extract_proc_name x in
    proc_of xs (if starts_with x "users:" && not (str_eq p "") then p else proc)

abbrev pub has_port : String → String → PortEntry → Bool
has_port port proc e = str_eq e.port port && str_eq e.process proc

-- The port is what follows the last colon of the fourth field.
abbrev pub port_line : List String → Option PortEntry
port_line (a ∷ b ∷ c ∷ local ∷ rest) =
    some (record { port = after_last b':' local; process = proc_of (a ∷ b ∷ c ∷ local ∷ rest) "" })
port_line fs = none

abbrev pub is_header : String → Bool
is_header line = str_eq line "" || starts_with line "State" || starts_with line "Netid"

abbrev pub port_key : PortEntry → String
port_key e = e.port ⧺ "|" ⧺ e.process

-- `seen` has the keys of the entries that were appended.
abbrev pub add_port : Option PortEntry → List PortEntry → List PortEntry
add_port none out = out
add_port (some e) out =
    if any (λ o. str_eq (port_key o) (port_key e)) out then out else out ++ e ∷ []

unfoldable pub port_lines : List String → List PortEntry → List PortEntry
unfolding proc_of
port_lines [] out = out
port_lines (raw ∷ rest) out =
    let line = trim_space raw in
    port_lines rest (if is_header line then out else add_port (port_line (fields line)) out)

unfoldable pub parse_ports : String → List PortEntry
unfolding port_lines
parse_ports text = port_lines (lines text) []

pub record GpuInfo (F : Type 0) : Type 0 where
  pub present : Bool
  pub name : String
  pub util : F
  pub mem_used : ℤ
  pub mem_total : ℤ
  pub temp : F
  pub power : F

-- `parse_float` and `parse_int` are the values of strconv.ParseFloat and ParseInt, errors dropped.
module _ {F : Type 0} (zero_float : F) (parse_float : String → F) (parse_int : String → ℤ) where
  abbrev pub no_gpu : GpuInfo F
  no_gpu = record {
    present = false;
    name = "";
    util = zero_float;
    mem_used = pos 0;
    mem_total = pos 0;
    temp = zero_float;
    power = zero_float;
  }

  abbrev gpu_parts : List String → GpuInfo F
  gpu_parts (name ∷ util ∷ used ∷ total ∷ temp ∷ power ∷ rest) = record {
    present = true;
    name = trim_space name;
    util = parse_float (trim_space util);
    mem_used = parse_int (trim_space used);
    mem_total = parse_int (trim_space total);
    temp = parse_float (trim_space temp);
    power = parse_float (trim_space power);
  }
  gpu_parts parts = no_gpu

  abbrev first_line : List String → String
  first_line [] = ""
  first_line (l ∷ ls) = l

  unfoldable pub parse_gpu : String → GpuInfo F
  parse_gpu text =
      let t = trim_space text in
      if str_eq t "" || contains t "NO_GPU" || contains t "not found" || contains t "No devices"
      then no_gpu
      else gpu_parts (split_by (λ c. c == b',') (first_line (lines t)))
