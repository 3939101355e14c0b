-- ===== src/Collector/Parser.antt =====
-- internal/collector/parser.go: the parsers of one line, and CPUUsage. What strconv makes of a text
-- is a parameter.
use text.Mathlib.Text.{starts_with}
use frpilot.Prelude.{
  ℕ, ◌*◌, ℤ, pos, is_positive, ◌+ℤ◌, times, quotient, wrap64, String, str_eq, Bool, if◌then◌else◌,
  ◌||◌, ◌==◌, Option, none, some, List, [], ◌∷◌,
}
use frpilot.Prelude.Text.{
  trim_space, fields, split_by, cut_at, any_char, contains, after_first, trim_end,
}
use frpilot.Floats.{Floats}

pub record Disk (F : Type 0) : Type 0 where
  pub mount : String
  pub size_gb : F
  pub used_gb : F
  pub use_pct : F

pub record NetDev : Type 0 where
  pub name : String
  pub in_bytes : ℤ
  pub out_bytes : ℤ

pub record SysInfo (F : Type 0) : Type 0 where
  pub hostname : String
  pub uptime_sec : ℤ
  pub os : String
  pub kernel : String
  pub cpu_cores : ℤ
  pub load1 : F
  pub load5 : F
  pub load15 : F
  pub mem_total : ℤ
  pub mem_free : ℤ
  pub mem_avail : ℤ
  pub disk : List (Disk F)
  pub net_dev : List NetDev
  pub cpu_stat : String
  pub cpu : F
  pub net_in_rate : F
  pub net_out_rate : F

-- strconv: ParseFloat with whether its error is nil, ParseInt in base 10 and Atoi without their
-- errors.
pub record Strconv (F : Type 0) : Type 0 where
  pub parse_float : String → F × Bool
  pub parse_int : String → ℤ
  pub atoi : String → ℤ

abbrev is_colon : ℕ → Bool
is_colon c = c == b':'

abbrev pub is_pseudo : String → Bool
is_pseudo mount = starts_with mount "/sys" || starts_with mount "/proc" || starts_with mount "/dev/"

module _ (fl : Floats) (conv : Strconv fl.F) where
  open fl use {F, of_int, to_int, add, sub, mul, div, lt, le}
  open conv use {parse_float, parse_int, atoi}

  abbrev pub num : ℕ → F
  num n = of_int (pos n)

  abbrev half : F
  half = div (num 1) (num 2)

  -- Rounding of this file; that of Traffic is another one.
  unfoldable pub round1 : F → F
  round1 v = div (of_int (to_int (add (mul v (num 10)) half))) (num 10)

  -- The loop with the factors 3600, 60 and 1.
  abbrev hours_loop : List ℕ → List String → ℤ
  hours_loop [] ps = pos 0
  hours_loop (m ∷ ms) [] = pos 0
  hours_loop (m ∷ ms) (p ∷ ps) = times m (parse_int p) +ℤ hours_loop ms ps

  unfoldable pub parse_hms_hours : String → ℤ
  parse_hms_hours s = wrap64 (hours_loop (3600 ∷ 60 ∷ 1 ∷ []) (split_by is_colon s))

  -- 60 to the power of the number of parts that follow.
  abbrev power60 : List String → ℕ
  power60 [] = 1
  power60 (p ∷ ps) = 60 * power60 ps

  abbrev hms_loop : List String → ℤ
  hms_loop [] = pos 0
  hms_loop (p ∷ ps) = times (power60 ps) (parse_int p) +ℤ hms_loop ps

  abbrev hms_parts : String → List String → ℤ
  hms_parts s [] = parse_int s
  hms_parts s (p ∷ []) = parse_int s
  hms_parts s (p ∷ q ∷ ps) = wrap64 (hms_loop (p ∷ q ∷ ps))

  unfoldable pub parse_hms : String → ℤ
  parse_hms s = hms_parts s (split_by is_colon s)

  -- The branch of a text such as "3 days,  4:05,": `ps` is what follows the word with "day".
  unfoldable pub days_and : F → List String → ℤ
  unfolding parse_hms_hours
  days_and days [] = to_int (mul days (num 86400))
  days_and days (raw ∷ ps) =
      let rest = days_and days ps in
      let p = trim_end b',' raw in
      if any_char is_colon p
      then wrap64 (to_int (mul days (num 86400)) +ℤ parse_hms_hours p)
      else rest

  -- The seconds of /proc/uptime.
  abbrev plain_seconds : List String → ℤ
  plain_seconds [] = pos 0
  plain_seconds (p ∷ ps) = let (secs, is_ok) = parse_float p in if is_ok then to_int secs else pos 0

  abbrev first_seconds : String → String → ℤ
  first_seconds line p =
      let (secs, is_ok) = parse_float p in
      let hms = parse_hms (trim_end b',' p) in
      if is_ok then to_int secs else if is_positive hms then hms else plain_seconds (fields line)

  abbrev up_seconds : String → List String → ℤ
  up_seconds line [] = plain_seconds (fields line)
  up_seconds line (p ∷ []) = first_seconds line p
  up_seconds line (p ∷ unit ∷ ps) =
      if contains unit "day" then days_and (parse_float p).0 ps else first_seconds line p

  unfoldable pub parse_uptime : String → ℤ
  unfolding parse_hms days_and
  parse_uptime line = elim (after_first "up " line) [
    | none ↦ plain_seconds (fields line)
    | some rest ↦ up_seconds line (fields (trim_space rest))
  ]

  abbrev meminfo_fields : List String → SysInfo F → SysInfo F
  meminfo_fields (f ∷ v ∷ fs) s =
      let key = trim_end b':' f in
      let val = quotient (parse_int v) 1024 in
      if str_eq key "MemTotal"
      then record s { mem_total = val }
      else if str_eq key "MemFree"
      then record s { mem_free = val }
      else if str_eq key "MemAvailable"
      then record s { mem_avail = val }
      else s
  meminfo_fields fs s = s

  unfoldable pub parse_meminfo : String → SysInfo F → SysInfo F
  parse_meminfo line s = meminfo_fields (fields line) s

  abbrev df_fields : List String → Option (Disk F)
  df_fields (device ∷ blocks ∷ used ∷ available ∷ capacity ∷ mount ∷ fs) =
      let kb = (parse_float blocks).0 in
      if is_pseudo mount
      then none
      else if le kb (num 0)
      then none
      else some (record {
        mount = mount;
        size_gb = round1 (div (div kb (num 1024)) (num 1024));
        used_gb = round1 (div (div (parse_float used).0 (num 1024)) (num 1024));
        use_pct = (parse_float (trim_end b'%' capacity)).0;
      })
  df_fields fs = none

  unfoldable pub parse_df_line : String → Option (Disk F)
  unfolding round1
  parse_df_line line = df_fields (fields line)

  abbrev net_dev_fields : String → List String → Option NetDev
  net_dev_fields name (a ∷ b ∷ c ∷ d ∷ e ∷ f ∷ g ∷ h ∷ fs) =
      if str_eq name "lo"
      then none
      else some (record { name = name; in_bytes = parse_int a; out_bytes = parse_int h })
  net_dev_fields name fs = none

  -- A colon at the front has no name before it.
  abbrev net_dev_parts : Option (String × String) → Option NetDev
  net_dev_parts none = none
  net_dev_parts (some (before, rest)) =
      if str_eq before "" then none else net_dev_fields (trim_space before) (fields rest)

  unfoldable pub parse_net_dev_line : String → Option NetDev
  parse_net_dev_line line = net_dev_parts (cut_at b':' (trim_space line))

  abbrev cpu_fields : List String → Option (F × F × F × F)
  cpu_fields (f ∷ user ∷ nice ∷ system ∷ idle ∷ fs) =
      some
        ((parse_float user).0, (parse_float nice).0, (parse_float system).0, (parse_float idle).0)
  cpu_fields fs = none

  unfoldable pub parse_cpu_line : String → Option (F × F × F × F)
  parse_cpu_line line = cpu_fields (fields line)

  abbrev minus_one : F
  minus_one = of_int (ℤ.negsuc 0)

  abbrev usage : Option (F × F × F × F) → Option (F × F × F × F) → F
  usage (some (p0, p1, p2, p3)) (some (c0, c1, c2, c3)) =
      let idle_d = sub c3 p3 in
      let total_d = sub (add (add (add c0 c1) c2) c3) (add (add (add p0 p1) p2) p3) in
      if le total_d (num 0)
      then minus_one
      else round1 (mul (div (sub total_d idle_d) total_d) (num 100))
  usage pv cv = minus_one

  unfoldable pub cpu_usage : (prev cur : String) → F
  unfolding parse_cpu_line round1
  cpu_usage prev cur = usage (parse_cpu_line prev) (parse_cpu_line cur)
