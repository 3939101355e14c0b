-- ===== src/Qos/State.antt =====
-- internal/qos/qos.go: the state of `Service`, classID, releaseIfUnused and setErr.
use frpilot.Prelude.{
  ℕ, suc, ℤ, String, str_eq, Bool, false, if◌then◌else◌, ltb, Option, none, some, List, [],
}
use frpilot.Prelude.Maps.{Map, get, put, delete, has}

-- `firstClassID`: 1 is the root class.
abbrev pub first_class_id : ℕ
first_class_id = 2

pub record ClassState (F : Type 0) : Type 0 where
  pub id : ℕ
  pub rate : F
  pub port : ℤ

pub record MachineSample (F : Type 0) : Type 0 where
  pub name : String
  pub port : ℤ
  pub online : Bool
  pub rate_in : F
  pub rate_out : F
  pub active : Bool

-- An argument of a command, before it is formatted: a rate by `rateStr`, a class by `classIDStr`.
pub data Arg (F : Type 0) : Type 0 where
  word : String → Arg F
  rate_of : F → Arg F
  class_of : ℕ → Arg F
  port_of : ℤ → Arg F

abbrev pub Command : Type 0 → Type 0
Command F = List (Arg F)

pub data Dir : Type 0 where
  out_dir in_dir : Dir

-- `ran` lists the commands that the runner was given, the newest first; `outcome n` is the error
-- text of the n-th one, if it failed.
pub record Service (F : Type 0) : Type 0 where
  pub iface : String
  pub prev_totals : Map (ℤ × ℤ)
  pub active : Map Bool
  pub last_active : Map ℕ
  pub applied_out : Map (ClassState F)
  pub applied_in : Map (ClassState F)
  pub next_id : ℕ
  pub ids : Map ℕ
  pub last_err : Option String
  pub last_apply : ℕ
  pub ran : List (Command F)
  pub run_count : ℕ
  pub outcome : ℕ → Option String

-- `New`, on a host where the n-th command has the given outcome.
unfoldable pub new : {F : Type 0} → (ℕ → Option String) → Service F
new outcome = record {
  iface = "";
  prev_totals = [];
  active = [];
  last_active = [];
  applied_out = [];
  applied_in = [];
  next_id = first_class_id;
  ids = [];
  last_err = none;
  last_apply = 0;
  ran = [];
  run_count = 0;
  outcome = outcome;
}

abbrev pub same_text : Option String → String → Bool
same_text none t = false
same_text (some u) t = str_eq u t

module _ {F : Type 0} where
  abbrev pub applied : Dir → Service F → Map (ClassState F)
  applied out_dir s = s.applied_out
  applied in_dir s = s.applied_in

  abbrev pub set_applied : Dir → Map (ClassState F) → Service F → Service F
  set_applied out_dir m s = record s { applied_out = m }
  set_applied in_dir m s = record s { applied_in = m }

  abbrev pub new_class : String → Service F → ℕ × Service F
  new_class name s =
      (s.next_id, record s { next_id = suc s.next_id; ids = put name s.next_id s.ids })

  -- classID
  unfoldable pub class_id : String → Service F → ℕ × Service F
  class_id name s = elim (get name s.ids) [ some i ↦ (i, s) | none ↦ new_class name s ]

  abbrev pub release_id : String → Service F → Option ℕ → Service F
  release_id name s none = s
  release_id name s (some i) = record s {
    ids = delete name s.ids;
    next_id = if ltb i s.next_id then i else s.next_id;
  }

  -- releaseIfUnused
  unfoldable pub release_if_unused : String → Service F → Service F
  release_if_unused name s =
      if has name s.applied_out
      then s
      else if has name s.applied_in
      then s
      else release_id name s (get name s.ids)

  -- setErr; the log line is left out
  unfoldable pub set_err : Option String → Service F → Service F
  set_err none s = record s { last_err = none }
  set_err (some t) s = if same_text s.last_err t then s else record s { last_err = some t }
