-- ===== src/Collector/Rates.antt =====
-- internal/collector/collector.go: cpuPct, netRates, memPct and topDiskPct.
use frpilot.Prelude.{
  ℕ, ℤ, pos, is_positive, ◌-ℤ◌, ◌+ℤ◌, wrap64, String, str_eq, Bool, true, false, if◌then◌else◌,
  ◌||◌, ◌==◌, Option, none, some, List, [], ◌∷◌,
}
use frpilot.Prelude.Maps.{Map, get, put}
use frpilot.Floats.{Floats}
use frpilot.Collector.Parser.{Disk, NetDev, SysInfo, Strconv, num, round1, cpu_usage}

-- The counters of the devices at the last collection of each machine; the missing key of prevStat
-- reads as the empty text.
pub record Frames : Type 0 where
  pub prev_stat : ℕ → String
  pub prev_net : ℕ → Option (Map (ℤ × ℤ))

abbrev is_negative : ℤ → Bool
is_negative (pos n) = false
is_negative (ℤ.negsuc n) = true

-- The loop that fills `cur`.
unfoldable pub counters : List NetDev → Map (ℤ × ℤ) → Map (ℤ × ℤ)
counters [] cur = cur
counters (d ∷ ds) cur = counters ds (put d.name (d.in_bytes, d.out_bytes) cur)

-- A sum of int64 over the devices.
unfoldable pub total : (NetDev → ℤ) → List NetDev → ℤ
total value [] = pos 0
total value (d ∷ ds) = let rest = total value ds in wrap64 (value d +ℤ rest)

abbrev pub before_of : Option (ℤ × ℤ) → ℤ × ℤ
before_of none = (pos 0, pos 0)
before_of (some p) = p

module _ (fl : Floats) (conv : Strconv fl.F) where
  open fl use {F, of_int, mul, div, lt}

  abbrev minus_one : F
  minus_one = of_int (ℤ.negsuc 0)

  unfoldable pub cpu_pct : ℕ → String → Frames → F × Frames
  cpu_pct i cur s =
      let prev = s.prev_stat i in
      (
        if str_eq prev "" || str_eq cur "" then minus_one else cpu_usage fl conv prev cur,
        record s { prev_stat = λ j. if j == i then cur else s.prev_stat j },
      )

  -- Over `FastInterval`, 30 seconds.
  abbrev pub rate : ℤ → ℤ → F
  rate now before =
      let r = div (of_int (wrap64 (now -ℤ before))) (num fl conv 30) in
      if lt r (num fl conv 0) then num fl conv 0 else r

  abbrev pub rates_since : List NetDev → Option (Map (ℤ × ℤ)) → F × F
  rates_since devs none = (num fl conv 0, num fl conv 0)
  rates_since devs (some prev) = (
    rate (total (λ d. d.in_bytes) devs) (total (λ d. (before_of (get d.name prev)).0) devs),
    rate (total (λ d. d.out_bytes) devs) (total (λ d. (before_of (get d.name prev)).1) devs),
  )

  unfoldable pub net_rates : ℕ → List NetDev → Frames → (F × F) × Frames
  unfolding total counters
  net_rates i devs s = (
    rates_since devs (s.prev_net i),
    record s { prev_net = λ j. if j == i then some (counters devs []) else s.prev_net j },
  )

  unfoldable pub mem_pct : SysInfo F → F
  mem_pct s =
      if (if is_positive s.mem_total then is_negative s.mem_avail else true)
      then minus_one
      else round1 fl conv (
          mul (div (of_int (wrap64 (s.mem_total -ℤ s.mem_avail))) (of_int s.mem_total))
            (num fl conv 100))

  unfoldable pub top_loop : F → List (Disk F) → F
  top_loop best [] = best
  top_loop best (d ∷ ds) = top_loop (if lt best d.use_pct then d.use_pct else best) ds

  unfoldable pub top_disk_pct : List (Disk F) → F
  unfolding top_loop
  top_disk_pct disks = top_loop minus_one disks
