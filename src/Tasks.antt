-- ===== src/Tasks.antt =====
-- internal/actions: the tasks that run commands on machines. cleanup.go is in Tasks/Items,
-- Tasks/Manager and Tasks/Cleanup, scan.go in Tasks/Phases and Tasks/Scan; the proofs are in the other modules.
pub mod Items
pub mod Manager
pub mod Remote
pub mod Cleanup
pub mod Phases
pub mod Scan
pub mod Cap
pub mod Newest
pub mod Listing
pub mod Starting
pub mod Locked
pub mod Whitelist
pub mod Finish
pub mod Scanned
use frpilot.Prelude.{ℕ, String, Bool, List, Option, ℤ}

pub record CleanupItem : Type 0 where
  pub id : String
  pub name : String
  pub desc : String
  pub risk : String
  pub requires_root : Bool
  pub command : String
  pub preview_cmd : String
  pub timeout : ℕ

pub record TaskProgress : Type 0 where
  pub total_machines : ℕ
  pub done_machines : ℕ
  pub current : String
  pub phase : String
  pub pct : ℤ

-- Without the texts of the output and the duration.
pub record TaskResult : Type 0 where
  pub machine_id : ℕ
  pub machine : String
  pub item_id : String
  pub item_name : String
  pub status : String

pub record Task : Type 0 where
  pub id : ℕ
  pub kind : String
  pub status : String
  pub created_at : ℕ
  pub operator_id : ℕ
  pub operator : String
  pub progress : Option TaskProgress
  pub results : List TaskResult

-- `tasks` is the map from ids to tasks, in the order in which Go ranges over it; `locked` is
-- whether `mu` is held between two calls.
pub record TaskManager : Type 0 where
  pub tasks : List Task
  pub next_id : ℕ
  pub locked : Bool
