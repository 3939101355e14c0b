-- ===== src/Collector/Sections.antt =====
-- internal/collector/parser.go: ParseSysInfo.
use text.Mathlib.Text.{starts_with}
use frpilot.Prelude.{pos, String, str_eq, if◌then◌else◌, Option, none, some, List, [], ◌∷◌, ◌++◌}
use frpilot.Prelude.Text.{trim_space, lines, fields, trim_prefix, strip_left, strip_right}
use frpilot.Floats.{Floats}
use frpilot.Collector.Parser.{
  SysInfo, Strconv, num, parse_uptime, parse_meminfo, parse_df_line, parse_net_dev_line,
}

-- The header lines of ParseSysInfo, with the section that each opens.
abbrev headers : List (String × String)
headers =
    ("===HOSTNAME===", "hostname")
    ∷ ("===UPTIME===", "uptime")
    ∷ ("===OS===", "os")
    ∷ ("===KERNEL===", "kernel")
    ∷ ("===CPUCORES===", "cores")
    ∷ ("===LOAD===", "load")
    ∷ ("===MEM===", "mem")
    ∷ ("===STAT===", "stat")
    ∷ ("===DISK===", "disk")
    ∷ ("===NET===", "net")
    ∷ []

unfoldable pub section_in : List (String × String) → String → Option String
section_in [] line = none
section_in ((header, section) ∷ hs) line =
    let rest = section_in hs line in if starts_with line header then some section else rest

unfoldable pub section_of : String → Option String
unfolding section_in
section_of line = section_in headers line

module _ (fl : Floats) (conv : Strconv fl.F) where
  open fl use {F}
  open conv use {parse_float, atoi}

  abbrev pub no_info : SysInfo F
  no_info = record {
    hostname = "";
    uptime_sec = pos 0;
    os = "";
    kernel = "";
    cpu_cores = pos 0;
    load1 = num fl conv 0;
    load5 = num fl conv 0;
    load15 = num fl conv 0;
    mem_total = pos 0;
    mem_free = pos 0;
    mem_avail = pos 0;
    disk = [];
    net_dev = [];
    cpu_stat = "";
    cpu = num fl conv 0;
    net_in_rate = num fl conv 0;
    net_out_rate = num fl conv 0;
  }

  abbrev load_fields : List String → SysInfo F → SysInfo F
  load_fields (a ∷ b ∷ c ∷ fs) s = record s {
    load1 = (parse_float a).0;
    load5 = (parse_float b).0;
    load15 = (parse_float c).0;
  }
  load_fields fs s = s

  abbrev pub and_one {ℓ} : {A : Type ℓ} → List A → Option A → List A
  and_one xs none = xs
  and_one xs (some x) = xs ++ x ∷ []

  -- The inner switch.
  unfoldable pub parse_line : String → String → SysInfo F → SysInfo F
  unfolding parse_uptime parse_meminfo parse_df_line parse_net_dev_line
  parse_line section line s =
      if str_eq section "hostname"
      then record s { hostname = line }
      else if str_eq section "uptime"
      then record s { uptime_sec = parse_uptime fl conv line }
      else if str_eq section "os"
      then record s { os = strip_right b'"' (strip_left b'"' (trim_prefix "PRETTY_NAME=" line)) }
      else if str_eq section "kernel"
      then record s { kernel = line }
      else if str_eq section "cores"
      then record s { cpu_cores = atoi line }
      else if str_eq section "load"
      then load_fields (fields line) s
      else if str_eq section "mem"
      then parse_meminfo fl conv line s
      else if str_eq section "stat"
      then (if starts_with line "cpu " then record s { cpu_stat = line } else s)
      else if str_eq section "disk"
      then record s { disk = and_one s.disk (parse_df_line fl conv line) }
      else if str_eq section "net"
      then record s { net_dev = and_one s.net_dev (parse_net_dev_line fl conv line) }
      else s

  -- The outer switch on one line: the section after it, and the information.
  unfoldable pub parse_raw : String → String → SysInfo F → String × SysInfo F
  unfolding section_of parse_line
  parse_raw section raw s =
      let line = trim_space raw in
      elim (section_of line) [
        | some next ↦ (next, s)
        | none ↦ (section, if str_eq line "" then s else parse_line section line s)
      ]

  unfoldable pub parse_lines : String → List String → SysInfo F → SysInfo F
  unfolding parse_raw
  parse_lines section [] s = s
  parse_lines section (raw ∷ rest) s =
      let (section', s') = parse_raw section raw s in parse_lines section' rest s'

  unfoldable pub parse_sys_info : String → SysInfo F
  unfolding parse_lines
  parse_sys_info text = parse_lines "" (lines text) no_info
