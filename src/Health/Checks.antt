-- ===== src/Health/Checks.antt =====
-- internal/actions/health.go: the checks of RunHealth, each a list of the items that it adds.
use frpilot.Prelude.{
  ℕ, suc, ◌*◌, ◌/◌, ◌%◌, String, str_eq, Bool, true, false, if◌then◌else◌, not, ◌&&◌, Option, none,
  some, List, [], ◌∷◌, ◌++◌, ℤ, pos, negsuc, ◌-ℤ◌, wrap64, is_positive,
}
use Prim.Native.String.{◌++◌ as str_append}
use frpilot.Floats.{Floats}
use frpilot.Health.{Mount, Sys, Gpu, Tool, Thresholds, HealthItem}

abbrev pub add : String → String → String → ℕ → List HealthItem
add category status title score =
    record { category = category; status = status; title = title; score = score } ∷ []

-- a > b on `int`
abbrev pub exceeds : ℤ → ℤ → Bool
exceeds a b = is_positive (a -ℤ b)

module _ (fl : Floats) where
  -- time.Duration.Minutes of a number of seconds: the whole minutes and the rest apart.
  unfoldable pub minutes : ℤ → fl.F
  minutes (pos n) =
      fl.add (fl.of_int (pos (n / 60)))
        (fl.div (fl.of_int (pos (n % 60 * 1000000000))) (fl.of_int (pos 60000000000)))
  minutes (negsuc n) =
      fl.add (fl.of_int (pos 0 -ℤ pos (suc n / 60)))
        (fl.div (fl.of_int (pos 0 -ℤ pos (suc n % 60 * 1000000000))) (fl.of_int (pos 60000000000)))

  -- a >= b
  abbrev pub ge : fl.F → fl.F → Bool
  ge a b = fl.le b a

  unfoldable pub check_age : ℕ → ℕ → Thresholds fl.F → List HealthItem
  unfolding minutes
  check_age now ts th =
      if fl.lt (fl.of_int th.snapshot_max_age) (minutes (pos now -ℤ pos ts))
      then add "system" "warn" "数据过期" 3
      else []

  unfoldable pub check_cpu : Sys fl.F → Thresholds fl.F → List HealthItem
  check_cpu s th =
      if ge s.cpu (fl.of_int (pos 0))
      then (if ge s.cpu th.cpu_fail
          then add "cpu" "fail" "CPU 使用率过高" 10
          else if ge s.cpu th.cpu_warn
          then add "cpu" "warn" "CPU 使用率偏高" 3
          else add "cpu" "pass" "CPU 正常" 0)
      else add "cpu" "warn" "CPU 数据缺失" 3

  unfoldable pub check_load : Sys fl.F → List HealthItem
  check_load s =
      if is_positive s.cpu_cores && ge s.load1 (fl.of_int (pos 0))
      then (let ratio = fl.div s.load1 (fl.of_int s.cpu_cores) in
          if ge ratio (fl.of_int (pos 2))
          then add "cpu" "fail" "负载过高" 10
          else if ge ratio (fl.of_int (pos 1))
          then add "cpu" "warn" "负载偏高" 3
          else add "cpu" "pass" "负载正常" 0)
      else []

  -- x >= 0 on `int64`
  abbrev pub is_natural : ℤ → Bool
  is_natural (pos n) = true
  is_natural (negsuc n) = false

  -- float64(a) / float64(b) * 100
  abbrev pub percent : ℤ → ℤ → fl.F
  percent a b = fl.mul (fl.div (fl.of_int a) (fl.of_int b)) (fl.of_int (pos 100))

  unfoldable pub check_mem : Sys fl.F → Thresholds fl.F → List HealthItem
  check_mem s th =
      if is_positive s.mem_total && is_natural s.mem_avail
      then (let used = percent (wrap64 (s.mem_total -ℤ s.mem_avail)) s.mem_total in
          if ge used th.mem_fail
          then add "mem" "fail" "内存使用率过高" 10
          else if ge used th.mem_warn
          then add "mem" "warn" "内存使用率偏高" 3
          else add "mem" "pass" "内存正常" 0)
      else []

  unfoldable pub check_mount : Mount fl.F → Thresholds fl.F → List HealthItem
  check_mount d th =
      if ge d.use_pct th.disk_fail
      then add "disk" "fail" "磁盘使用率过高" 10
      else if ge d.use_pct th.disk_warn
      then add "disk" "warn" "磁盘使用率偏高" 3
      else []

  -- The loop over the mount points, and the check of `diskMax` after it.
  unfoldable pub check_disks : fl.F → List (Mount fl.F) → Thresholds fl.F → List HealthItem
  unfolding check_mount
  check_disks disk_max [] th =
      if ge disk_max (fl.of_int (pos 0)) then add "disk" "pass" "磁盘检查完成" 0 else []
  check_disks disk_max (d ∷ ds) th =
      check_mount d th
      ++ check_disks (if fl.lt disk_max d.use_pct then d.use_pct else disk_max) ds th

  unfoldable pub check_gpu : Gpu fl.F → Thresholds fl.F → List HealthItem
  check_gpu g th =
      if g.present
      then (if ge g.temp th.gpu_temp_fail
          then add "gpu" "fail" "GPU 温度过高" 10
          else if ge g.temp th.gpu_temp_warn
          then add "gpu" "warn" "GPU 温度偏高" 3
          else add "gpu" "pass" "GPU 温度正常" 0)
        ++ (let mu = percent g.mem_used g.mem_total in
            if not (is_positive g.mem_total)
            then []
            else if ge mu th.gpu_mem_fail
            then add "gpu" "fail" "GPU 显存不足" 10
            else if ge mu th.gpu_mem_warn
            then add "gpu" "warn" "GPU 显存偏高" 3
            else [])
      else add "gpu" "pass" "无 GPU" 0

  -- rkhunterAge and clamDbAge read the age in days from the text of the version.
  unfoldable pub check_tool :
      (String → Option ℤ) → (String → ℤ) → Tool → Thresholds fl.F → List HealthItem
  check_tool rkhunter_age clam_db_age s th =
      if not s.installed
      then add "security" "warn" (str_append s.name " 未安装") 3
      else if str_eq s.name "rkhunter"
      then elim (rkhunter_age s.version) [
        | none ↦ add "security" "warn" "rkhunter 无检查记录" 3
        | some days ↦
            if exceeds days (pos 8)
            then add "security" "fail" "rkhunter 检查过期" 10
            else add "security" "pass" "rkhunter 正常" 0
      ]
      else if not (str_eq s.active "active")
      then add "security" "fail" (str_append s.name " 服务未运行") 10
      else if str_eq s.name "clamav-daemon"
      then (if exceeds (clam_db_age s.version) th.clam_db_max_days
          then add "security" "fail" "ClamAV 病毒库过期" 10
          else add "security" "pass" "ClamAV 正常" 0)
      else add "security" "pass" (str_append s.name " 正常") 0

  unfoldable pub check_tools :
      (String → Option ℤ) → (String → ℤ) → List Tool → Thresholds fl.F → List HealthItem
  unfolding check_tool
  check_tools ra ca [] th = []
  check_tools ra ca (s ∷ ss) th = check_tool ra ca s th ++ check_tools ra ca ss th

  unfoldable pub check_security :
      (String → Option ℤ) → (String → ℤ) → List Tool → Thresholds fl.F → List HealthItem
  unfolding check_tools
  check_security ra ca [] th = add "security" "warn" "安全软件数据缺失" 3
  check_security ra ca (s ∷ ss) th = check_tools ra ca (s ∷ ss) th

  unfoldable pub check_tunnel : Bool → List HealthItem
  check_tunnel up = if not up then add "network" "fail" "隧道不通" 10 else add "network" "pass" "隧道正常" 0
