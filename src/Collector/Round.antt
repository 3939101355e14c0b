-- ===== src/Collector/Round.antt =====
-- internal/collector/collector.go: collect. What it reads and writes is one record; the statements on
-- the table `machines` are those of Store/Machines.
use frpilot.Prelude.{
  ℕ, ℤ, String, str_eq, Bool, true, false, if◌then◌else◌, not, Option, none, some, [], ◌∷◌, ◌++◌,
  length,
}
use frpilot.Cipher.{Cipher}
use frpilot.Floats.{Floats}
use frpilot.Exec.{
  Result, ok, err, not_found, dial_failed, monitoring_off, command_failed, Exec, pure, fail,
  from_result, query, execute, ignore, attempt, peek, assign, adjust, within, ◌>>=◌, ◌>>◌,
}
use frpilot.Store.Machines.{Machine, Fleet, get_machine_by_id, touch_machine}
use frpilot.Tasks.Remote.{Sent, Answer, Remote, ssh_host, secrets}
use frpilot.Collector.{sync_machine}
use frpilot.Collector.Modules.{parse_security}
use frpilot.Collector.Listings.{GpuInfo, parse_cron, parse_ports, parse_gpu, no_gpu}
use frpilot.Collector.Parser.{SysInfo, Strconv, num}
use frpilot.Collector.Sections.{parse_sys_info}
use frpilot.Collector.Rates.{Frames, cpu_pct, net_rates, mem_pct, top_disk_pct}
use frpilot.Collector.Scripts.{
  fast_script, security_script, cron_script, gpu_command, ports_command,
}
use frpilot.Collector.Snapshots.{
  Slow, Report, SnapshotRow, MetricPoint, Snapshots, Station, save_snapshot, get_snapshot,
  save_metric_for,
}

module _ {F B : Type 0} where
  -- Operations on the part of the state that they belong to.
  abbrev pub on_fleet : {A : Type 0} → Exec Fleet A → Exec (Station F B) A
  on_fleet m = within (λ s. s.fleet) (λ f s. record s { fleet = f }) m

  abbrev pub on_frames : {A : Type 0} → (Frames → A × Frames) → Exec (Station F B) A
  on_frames f = adjust (λ s. ((f s.frames).0, record s { frames = (f s.frames).1 }))

abbrev pub no_slow : {F : Type 0} → Slow F
no_slow = record { gpu = none; security = []; cron = []; ports = [] }

-- RunSudo within `SSHTimeout`, 15 seconds.
abbrev pub sudo_of : String → String → Sent
sudo_of sudo_pass command = record {
  sudo = not (str_eq sudo_pass "");
  password = sudo_pass;
  command = command;
  timeout = 15;
}

module _ {B : Type 0} (fl : Floats) (conv : Strconv fl.F) (json : Snapshots fl.F B)
    (r : Remote) where
  open fl use {F, of_int}

  unfoldable pub ask : String → String → Exec (Station F B) Answer
  ask sudo_pass command =
      let s = sudo_of sudo_pass command in
      adjust (λ c. (r.reply c.sent s, record c { sent = c.sent ++ s ∷ [] }))

  unfoldable pub try_slow : String → Exec (Station F B) (Slow F)
  unfolding ask
  try_slow sudo_pass = do
    gpu ← ask sudo_pass gpu_command
    security ← ask sudo_pass security_script
    cron ← ask sudo_pass cron_script
    ports ← ask sudo_pass ports_command
    pure (record {
      gpu = some (parse_gpu (num fl conv 0) (λ t. (conv.parse_float t).0) conv.parse_int gpu.out);
      security = parse_security security.out;
      cron = parse_cron cron.out;
      ports = parse_ports ports.out;
    })

  abbrev pub or_no_slow : Option (Slow F) → Slow F
  or_no_slow none = no_slow
  or_no_slow (some slow) = slow

  -- `json.Unmarshal` leaves the values empty where there is no snapshot, or one that it refuses.
  abbrev pub kept_of : Result (SnapshotRow B) → Slow F
  kept_of (err e) = no_slow
  kept_of (ok row) = or_no_slow (json.unmarshal row.content)

  unfoldable pub kept_slow : ℕ → Exec (Station F B) (Slow F)
  unfolding get_snapshot
  kept_slow i = do row ← attempt (get_snapshot i); pure (kept_of row)

  abbrev pub gpu_or : Option (GpuInfo F) → GpuInfo F
  gpu_or none = no_gpu (num fl conv 0) (λ t. (conv.parse_float t).0) conv.parse_int
  gpu_or (some g) = g

  abbrev pub report_of : ℕ → SysInfo F → Slow F → Bool → Report F
  report_of now sys slow tunnel_up = record {
    ts = now;
    sys = sys;
    gpu = gpu_or slow.gpu;
    security = slow.security;
    cron = slow.cron;
    ports = slow.ports;
    tunnel_up = tunnel_up;
  }

  abbrev pub metric_of : ℕ → ℕ → Report F → MetricPoint F
  metric_of i now p = record {
    machine_id = i;
    ts = now;
    cpu = p.sys.cpu;
    mem = mem_pct fl conv p.sys;
    disk = top_disk_pct fl conv p.sys.disk;
    gpu_util = p.gpu.util;
    gpu_mem = of_int p.gpu.mem_used;
    gpu_temp = p.gpu.temp;
    net_in = p.sys.net_in_rate;
    net_out = p.sys.net_out_rate;
    conns = length p.ports;
  }

  -- What follows the fast metrics; `tunnel` is tunnelCheck.
  unfoldable pub save_round :
      (String → ℤ → Bool)
      → ℕ
      → String
      → Machine
      → String
      → Bool
      → String
      → Exec (Station F B) (Unit {0})
  unfolding save_snapshot save_metric_for try_slow kept_slow
  save_round tunnel now host m sudo_pass slow fast_out = do
    let sys = parse_sys_info fl conv fast_out
    cpu ← on_frames (cpu_pct fl conv m.id sys.cpu_stat)
    (net_in, net_out) ← on_frames (net_rates fl conv m.id sys.net_dev)
    modules ← (if slow then try_slow sudo_pass else kept_slow m.id)
    let p =
        report_of now (record sys { cpu = cpu; net_in_rate = net_in; net_out_rate = net_out })
          modules (tunnel host m.tunnel_port)
    ignore (save_snapshot m.id now (json.marshal p))
    ignore (save_metric_for (metric_of m.id now p))
    on_fleet (touch_machine m.id true true now)

  -- The connection was refused, or the fast script failed.
  abbrev pub give_up : ℕ → ℕ → frpilot.Exec.Error → Exec (Station F B) (Unit {0})
  give_up i now e = do on_fleet (touch_machine i true false now); fail e

  unfoldable pub connect_round :
      (String → ℤ → Bool)
      → ℕ
      → String
      → Machine
      → Bool
      → (String × String)
      → Exec (Station F B) (Unit {0})
  unfolding ask save_round
  connect_round tunnel now host m slow (pass, sudo_pass) = do
    up ←
        adjust
          (λ c. (r.dial host m.tunnel_port m.ssh_user pass, record c { dials = ℕ.suc c.dials }))
    if up
        then (do
          fast ← ask sudo_pass fast_script
          if fast.failed
              then give_up m.id now command_failed
              else save_round tunnel now host m sudo_pass slow fast.out)
        else give_up m.id now dial_failed

  -- `host` is config.Frps.SSHHost.
  unfoldable pub collect :
      Cipher → (String → ℤ → Bool) → ℕ → String → ℕ → Bool → Exec (Station F B) (Unit {0})
  unfolding connect_round secrets
  collect k tunnel now host i slow = do
    m ← on_fleet (get_machine_by_id i)
    if m.enabled
        then (do
          passwords ← from_result (secrets k m)
          connect_round tunnel now (ssh_host host) m slow passwords)
        else (do
          assign (λ c. record c { collector = sync_machine m.id false c.collector })
          fail monitoring_off)
