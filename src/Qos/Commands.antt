-- ===== src/Qos/Commands.antt =====
-- internal/qos/qos.go: buildBaseCommands, filterAddCommand, isBenignError and runCmds. The loop
-- that runs the commands goes on after every error and keeps the last one that is not benign.
use text.Mathlib.Text.{starts_with}
use frpilot.Prelude.{
  suc, String, Bool, true, if◌then◌else◌, ◌||◌, Option, none, some, List, [], ◌∷◌, ◌++◌, map,
}
use frpilot.Qos.State.{
  ClassState, word, rate_of, class_of, port_of, Command, Dir, out_dir, in_dir, Service, set_err,
}

-- IFBDev
abbrev pub ifb_dev : String
ifb_dev = "ifb0"

-- strings.Contains(s, t)
unfoldable pub contains : String → String → Bool
contains String.[] t = starts_with String.[] t
contains (String.◌∷◌ c s) t = if starts_with (String.◌∷◌ c s) t then true else contains s t

-- isBenignError
unfoldable pub is_benign_error : String → Bool
unfolding contains
is_benign_error msg =
    contains msg "File exists"
    || contains msg "No such file or directory"
    || contains msg "No such device"
    || contains msg "Cannot find"
    || contains msg "Cannot delete qdisc with handle of zero"
    || contains msg "Parent Qdisc doesn't exists"

-- The device that is shaped in a direction.
abbrev pub shaping_dev : Dir → String → String
shaping_dev out_dir dev = dev
shaping_dev in_dir dev = ifb_dev

abbrev pub match_key : Dir → String
match_key out_dir = "sport"
match_key in_dir = "dport"

module _ {F : Type 0} where
  abbrev pub words : List String → Command F
  words = map word

  abbrev pub filter_del : String → String → Command F
  filter_del dev parent = words (
      "tc" ∷ "filter" ∷ "del" ∷ "dev" ∷ dev ∷ "parent" ∷ parent ∷ "protocol" ∷ "ip" ∷ "prio" ∷ "1"
      ∷ "u32" ∷ [])

  abbrev pub qdisc_del_root : String → Command F
  qdisc_del_root dev = words ("tc" ∷ "qdisc" ∷ "del" ∷ "dev" ∷ dev ∷ "root" ∷ [])

  abbrev pub qdisc_add_root : String → Command F
  qdisc_add_root dev = words (
      "tc" ∷ "qdisc" ∷ "add" ∷ "dev" ∷ dev ∷ "root" ∷ "handle" ∷ "1:" ∷ "htb" ∷ "default" ∷ "1"
      ∷ [])

  abbrev pub root_class : String → F → Command F
  root_class dev rate =
      words (
        "tc" ∷ "class" ∷ "replace" ∷ "dev" ∷ dev ∷ "parent" ∷ "1:" ∷ "classid" ∷ "1:1" ∷ "htb"
        ∷ "rate" ∷ [])
      ++ rate_of rate ∷ []

  -- Ingress of the physical device, redirected to the IFB device.
  abbrev redirect : String → List (Command F)
  redirect dev =
      words ("ip" ∷ "link" ∷ "add" ∷ ifb_dev ∷ "type" ∷ "ifb" ∷ [])
      ∷ words ("ip" ∷ "link" ∷ "set" ∷ "dev" ∷ ifb_dev ∷ "up" ∷ [])
      ∷ words ("tc" ∷ "qdisc" ∷ "add" ∷ "dev" ∷ dev ∷ "handle" ∷ "ffff:" ∷ "ingress" ∷ [])
      ∷ filter_del dev "ffff:"
      ∷ words (
          "tc" ∷ "filter" ∷ "add" ∷ "dev" ∷ dev ∷ "parent" ∷ "ffff:" ∷ "protocol" ∷ "ip" ∷ "prio"
          ∷ "1" ∷ "u32" ∷ "match" ∷ "u32" ∷ "0" ∷ "0" ∷ "action" ∷ "mirred" ∷ "egress" ∷ "redirect"
          ∷ "dev" ∷ ifb_dev ∷ [])
      ∷ []

  -- buildBaseCommands
  unfoldable pub build_base_commands : String → Dir → F → List (Command F)
  build_base_commands dev out_dir root =
      qdisc_del_root dev ∷ qdisc_add_root dev ∷ root_class dev root ∷ []
  build_base_commands dev in_dir root =
      redirect dev ++ qdisc_del_root ifb_dev ∷ qdisc_add_root ifb_dev ∷ root_class ifb_dev root ∷ []

  abbrev pub class_replace : String → ClassState F → Command F
  class_replace dev c =
      words ("tc" ∷ "class" ∷ "replace" ∷ "dev" ∷ dev ∷ "parent" ∷ "1:1" ∷ "classid" ∷ [])
      ++ class_of c.id
        ∷ word "htb"
        ∷ word "rate"
        ∷ rate_of c.rate
        ∷ word "ceil"
        ∷ rate_of c.rate
        ∷ []

  abbrev pub class_del : String → ClassState F → Command F
  class_del dev c =
      words ("tc" ∷ "class" ∷ "del" ∷ "dev" ∷ dev ∷ "classid" ∷ []) ++ class_of c.id ∷ []

  -- filterAddCommand
  unfoldable pub filter_add_command : String → Dir → ClassState F → Command F
  filter_add_command dev dir c =
      words (
        "tc"
        ∷ "filter"
        ∷ "add"
        ∷ "dev"
        ∷ dev
        ∷ "parent"
        ∷ "1:"
        ∷ "protocol"
        ∷ "ip"
        ∷ "prio"
        ∷ "1"
        ∷ "u32"
        ∷ "match"
        ∷ "ip"
        ∷ match_key dir
        ∷ [])
      ++ port_of c.port ∷ word "0xffff" ∷ word "flowid" ∷ class_of c.id ∷ []

  abbrev pub note_error : Option String → Service F → Service F
  note_error none s = s
  note_error (some msg) s = if is_benign_error msg then s else set_err (some msg) s

  -- One call of `runner.Run`.
  unfoldable pub run_command : Command F → Service F → Service F
  unfolding set_err
  run_command c s =
      note_error (s.outcome s.run_count) (record s { ran = c ∷ s.ran; run_count = suc s.run_count })

  -- runCmds
  unfoldable pub run_cmds : List (Command F) → Service F → Service F
  unfolding run_command
  run_cmds [] s = s
  run_cmds (c ∷ cs) s = run_cmds cs (run_command c s)
