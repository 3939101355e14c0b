-- ===== src/Collector/Snapshots.antt =====
-- internal/store/metrics.go: SaveSnapshot, GetSnapshot and SaveMetricFor, and the record of what
-- collect of internal/collector/collector.go reads and writes.
use frpilot.Prelude.{ℕ, Bool, if◌then◌else◌, ◌==◌, Option, none, some, List, [], ◌∷◌, ◌++◌}
use frpilot.Exec.{ok, not_found, Exec, pure, fail, query, execute, ◌>>=◌}
use frpilot.Store.Machines.{Fleet}
use frpilot.Tasks.Remote.{Sent}
use frpilot.Collector.{Collector}
use frpilot.Collector.Modules.{SecurityItem}
use frpilot.Collector.Listings.{CronEntry, PortEntry, GpuInfo}
use frpilot.Collector.Parser.{SysInfo}
use frpilot.Collector.Rates.{Frames}

-- What the slow modules give.
pub record Slow (F : Type 0) : Type 0 where
  pub gpu : Option (GpuInfo F)
  pub security : List SecurityItem
  pub cron : List CronEntry
  pub ports : List PortEntry

-- The map that is stored as JSON, less its host name, which is also in `sys`, and the constant "sshOk".
pub record Report (F : Type 0) : Type 0 where
  pub ts : ℕ
  pub sys : SysInfo F
  pub gpu : GpuInfo F
  pub security : List SecurityItem
  pub cron : List CronEntry
  pub ports : List PortEntry
  pub tunnel_up : Bool

-- The columns of machine_snapshots (`content` is `data`), and a point of metrics_history.
pub record SnapshotRow (B : Type 0) : Type 0 where
  pub machine_id : ℕ
  pub ts : ℕ
  pub content : B

pub record MetricPoint (F : Type 0) : Type 0 where
  pub machine_id : ℕ
  pub ts : ℕ
  pub cpu : F
  pub mem : F
  pub disk : F
  pub gpu_util : F
  pub gpu_mem : F
  pub gpu_temp : F
  pub net_in : F
  pub net_out : F
  pub conns : ℕ

-- json.Marshal of the map, with the empty text where it fails, and json.Unmarshal of the fields that
-- a fast round keeps. B stands for the texts.
pub record Snapshots (F B : Type 0) : Type 0 where
  pub marshal : Report F → B
  pub unmarshal : B → Option (Slow F)
  pub empty : B

-- `dials` counts the connections that were tried, and `sent` are the commands.
pub record Station (F B : Type 0) : Type 0 where
  pub fleet : Fleet
  pub snapshots : List (SnapshotRow B)
  pub metrics : List (MetricPoint F)
  pub frames : Frames
  pub collector : Collector
  pub dials : ℕ
  pub sent : List Sent

-- INSERT … ON CONFLICT(machine_id) DO UPDATE
abbrev pub put_snapshot : {B : Type 0} → SnapshotRow B → List (SnapshotRow B) → List (SnapshotRow B)
put_snapshot row [] = row ∷ []
put_snapshot row (r ∷ rows) =
    let rest = put_snapshot row rows in
    if r.machine_id == row.machine_id then row ∷ rows else r ∷ rest

abbrev pub find_snapshot : {B : Type 0} → ℕ → List (SnapshotRow B) → Option (SnapshotRow B)
find_snapshot i [] = none
find_snapshot i (r ∷ rows) = if r.machine_id == i then some r else find_snapshot i rows

module _ {F B : Type 0} where
  unfoldable pub save_snapshot : ℕ → ℕ → B → Exec (Station F B) (Unit {0})
  save_snapshot i now content = execute (λ s. (
    ok tt,
    record s {
      snapshots = put_snapshot (record { machine_id = i; ts = now; content = content }) s.snapshots;
    },
  ))

  abbrev pub or_not_found : Option (SnapshotRow B) → Exec (Station F B) (SnapshotRow B)
  or_not_found none = fail not_found
  or_not_found (some r) = pure r

  unfoldable pub get_snapshot : ℕ → Exec (Station F B) (SnapshotRow B)
  get_snapshot i = do row ← query (λ s. find_snapshot i s.snapshots); or_not_found row

  unfoldable pub save_metric_for : MetricPoint F → Exec (Station F B) (Unit {0})
  save_metric_for m = execute (λ s. (ok tt, record s { metrics = s.metrics ++ m ∷ [] }))
