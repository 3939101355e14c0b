-- ===== src/Qos/Apply.antt =====
-- internal/qos/qos.go: applyDirection, clearDirection, cleanupAll, reconcile and Stop.
use frpilot.Prelude.{ℕ, String, if◌then◌else◌, List, [], ◌∷◌, ◌++◌, map}
use frpilot.Prelude.Maps.{Map, put, delete, has}
use frpilot.Qos.State.{
  ClassState, Command, Dir, out_dir, in_dir, Service, applied, set_applied, release_if_unused,
}
use frpilot.Qos.Commands.{
  ifb_dev, words, filter_del, qdisc_del_root, shaping_dev, build_base_commands, class_replace,
  class_del, filter_add_command, run_cmds,
}

module _ {F : Type 0} where
  -- Step 3 of applyDirection, over the entries that the map had when the loop began.
  unfoldable pub drop_unwanted :
      String
      → Dir
      → Map (ClassState F)
      → Map (ClassState F)
      → Service F
      → List (Command F) × Service F
  drop_unwanted dev dir wanted [] s = ([], s)
  drop_unwanted dev dir wanted ((name, c) ∷ entries) s =
      let stays = has name wanted in
      let without = set_applied dir (delete name (applied dir s)) s in
      let (cmds, s') =
        drop_unwanted dev dir wanted entries
          (if stays then s else release_if_unused name without) in
      (if stays then cmds else class_del dev c ∷ cmds, s')

  -- Step 4 of applyDirection.
  unfoldable pub install : Dir → Map (ClassState F) → Service F → Service F
  install dir [] s = s
  install dir ((name, c) ∷ wanted) s =
      install dir wanted (set_applied dir (put name c (applied dir s)) s)

  abbrev pub values : Map (ClassState F) → List (ClassState F)
  values = map (λ e. e.1)

  -- applyDirection
  unfoldable pub apply_direction : String → Dir → F → Map (ClassState F) → ℕ → Service F → Service F
  unfolding drop_unwanted install
  apply_direction iface dir root wanted now s =
      let dev = shaping_dev dir iface in
      let (dels, s1) = drop_unwanted dev dir wanted (applied dir s) s in
      let s2 = install dir wanted s1 in
      let cmds =
        build_base_commands iface dir root
        ++ (filter_del dev "1:"
            ∷ (map (class_replace dev) (values wanted)
                ++ (dels ++ map (filter_add_command dev dir) (values wanted)))) in
      record (run_cmds cmds s2) { last_apply = now }

  unfoldable pub release_all : Map (ClassState F) → Service F → Service F
  release_all [] s = s
  release_all ((name, c) ∷ entries) s = release_all entries (release_if_unused name s)

  abbrev pub clear_commands : String → Dir → List (Command F)
  clear_commands iface out_dir = qdisc_del_root iface ∷ []
  clear_commands iface in_dir =
      filter_del iface "ffff:"
      ∷ words ("tc" ∷ "qdisc" ∷ "del" ∷ "dev" ∷ iface ∷ "ingress" ∷ [])
      ∷ qdisc_del_root ifb_dev
      ∷ []

  -- clearDirection: the ids are released first, and the map is emptied after.
  unfoldable pub clear_direction : String → Dir → ℕ → Service F → Service F
  unfolding release_all
  clear_direction iface dir now s =
      let released = release_all (applied dir s) s in
      record (run_cmds (clear_commands iface dir) (set_applied dir [] released)) {
        last_apply = now;
      }

  -- cleanupAll
  unfoldable pub cleanup_all : ℕ → Service F → Service F
  unfolding clear_direction
  cleanup_all now s =
      record (clear_direction s.iface in_dir now (clear_direction s.iface out_dir now s)) {
        active = [];
        last_active = [];
      }
