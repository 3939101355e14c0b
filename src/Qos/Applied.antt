-- ===== src/Qos/Applied.antt =====
-- What applyDirection leaves in the service.
use frpilot.Prelude.{
  ℕ, ◌≡◌, refl, ap, ◌∙◌, String, str_eq, eq_iff, Bool, true, false, if◌then◌else◌, Option, none,
  some, List, [], ◌∷◌, inl, inr, arith, Bool-cases,
}
use frpilot.Prelude.Maps.{Map, get, put, delete, has, get-put, get-delete}
use frpilot.Qos.State.{
  ClassState, Command, Dir, out_dir, in_dir, Service, applied, set_applied, release_if_unused,
}
use frpilot.Qos.Commands.{run_command, run_cmds, shaping_dev}
use frpilot.Qos.Apply.{drop_unwanted, install, apply_direction}

abbrev pub other : Dir → Dir
other out_dir = in_dir
other in_dir = out_dir

module _ {F : Type 0} where
  -- The parts of the service that commands do not touch.
  abbrev pub Core :
      Service F → Map (ClassState F) × Map (ClassState F) × Map ℕ × ℕ × Map Bool × Map ℕ × String
  Core s = (s.applied_out, s.applied_in, s.ids, s.next_id, s.active, s.last_active, s.iface)

  pub run_cmds-Core : (cs : List (Command F)) (s : Service F) → Core (run_cmds cs s) ≡ Core s
  unfolding run_cmds
  run_cmds-Core [] s = refl
  run_cmds-Core (c ∷ cs) s = run_cmds-Core cs (run_command c s) ∙ ground arith

  release-applied :
      (name : String) (s : Service F)
      → ((release_if_unused name s).applied_out ≡ s.applied_out)
        × ((release_if_unused name s).applied_in ≡ s.applied_in)
  unfolding release_if_unused
  release-applied name s = ground arith

  applied-release :
      (dir : Dir) (name : String) (s : Service F)
      → applied dir (release_if_unused name s) ≡ applied dir s
  applied-release out_dir name s = (release-applied name s).0
  applied-release in_dir name s = (release-applied name s).1

  applied-set :
      (dir : Dir) (m : Map (ClassState F)) (s : Service F) → applied dir (set_applied dir m s) ≡ m
  applied-set out_dir m s = refl
  applied-set in_dir m s = refl

  applied-set_other :
      (dir : Dir) (m : Map (ClassState F)) (s : Service F)
      → applied (other dir) (set_applied dir m s) ≡ applied (other dir) s
  applied-set_other out_dir m s = refl
  applied-set_other in_dir m s = refl

  abbrev pub Named : String → Map (ClassState F) → Type 0
  Named n m = has n m ≡ true

  drop_unwanted-get :
      (dev : String) (dir : Dir) (wanted entries : Map (ClassState F)) (n : String) (s : Service F)
      → get n (applied dir (drop_unwanted dev dir wanted entries s).1) ≡ (
          if has n wanted
          then get n (applied dir s)
          else if has n entries
          then none
          else get n (applied dir s))
  unfolding drop_unwanted has get
  drop_unwanted-get dev dir wanted [] n s = ground arith
  drop_unwanted-get dev dir wanted ((name, c) ∷ entries) n s = elim (Bool-cases (has name wanted)) [
    | inl e ↦
        rw (e, drop_unwanted)
          (ground (arith, drop_unwanted-get dev dir wanted entries n s, eq_iff name n))
    | inr e ↦
        let without = set_applied dir (delete name (applied dir s)) s in
        rw (e, drop_unwanted)
          (ground (
            arith,
            drop_unwanted-get dev dir wanted entries n (release_if_unused name without),
            applied-release dir name without,
            applied-set dir (delete name (applied dir s)) s,
            get-delete name n (applied dir s),
            eq_iff name n,
          ))
  ]

  drop_unwanted-other :
      (dev : String) (dir : Dir) (wanted entries : Map (ClassState F)) (s : Service F)
      → applied (other dir) (drop_unwanted dev dir wanted entries s).1 ≡ applied (other dir) s
  unfolding drop_unwanted
  drop_unwanted-other dev dir wanted [] s = refl
  drop_unwanted-other dev dir wanted ((name, c) ∷ entries) s = elim (Bool-cases (has name wanted)) [
    | inl e ↦ rw (e, drop_unwanted) (drop_unwanted-other dev dir wanted entries s)
    | inr e ↦
        let m = delete name (applied dir s) in
        rw (e, drop_unwanted)
          (drop_unwanted-other dev dir wanted entries (release_if_unused name (set_applied dir m s))
            ∙ applied-release (other dir) name (set_applied dir m s)
            ∙ applied-set_other dir m s)
  ]

  -- The entry of a name after the entries of a map were stored over it: the last one of the name.
  abbrev last_of : String → Map (ClassState F) → Option (ClassState F) → Option (ClassState F)
  last_of n [] o = o
  last_of n ((k, c) ∷ m) o = last_of n m (if str_eq k n then some c else o)

  install-get :
      (dir : Dir) (wanted : Map (ClassState F)) (n : String) (s : Service F)
      → get n (applied dir (install dir wanted s)) ≡ last_of n wanted (get n (applied dir s))
  unfolding install
  install-get dir [] n s = refl
  install-get dir ((k, c) ∷ wanted) n s =
      install-get dir wanted n (set_applied dir (put k c (applied dir s)) s)
      ∙ ap (last_of n wanted)
          (ap (get n) (applied-set dir (put k c (applied dir s)) s) ∙ get-put k n c (applied dir s))

  install-other :
      (dir : Dir) (wanted : Map (ClassState F)) (s : Service F)
      → applied (other dir) (install dir wanted s) ≡ applied (other dir) s
  unfolding install
  install-other dir [] s = refl
  install-other dir ((k, c) ∷ wanted) s =
      install-other dir wanted (set_applied dir (put k c (applied dir s)) s)
      ∙ applied-set_other dir (put k c (applied dir s)) s

  -- A Go map holds one entry for each name.
  abbrev pub OneEach : Map (ClassState F) → Type 0
  OneEach [] = Unit
  OneEach ((k, c) ∷ m) = (has k m ≡ false) × OneEach m

  last_of-absent :
      (n : String) (m : Map (ClassState F)) (o : Option (ClassState F))
      → has n m ≡ false
      → last_of n m o ≡ o
  unfolding has get
  last_of-absent n [] o h = refl
  last_of-absent n ((k, c) ∷ m) o h = ground (arith, last_of-absent n m o)

  last_of-get :
      (n : String) (m : Map (ClassState F)) (o : Option (ClassState F))
      → OneEach m
      → last_of n m o ≡ (if has n m then get n m else o)
  unfolding has get
  last_of-get n [] o h = refl
  last_of-get n ((k, c) ∷ m) o h =
      ground (
        arith,
        last_of-absent n m (some c),
        last_of-get n m o,
        last_of-get n m (some c),
        eq_iff k n,
      )

  has-get-none : (n : String) (m : Map (ClassState F)) → has n m ≡ false → get n m ≡ none
  unfolding has
  has-get-none n m h = ground arith

  applied-core : (dir : Dir) (s t : Service F) → Core s ≡ Core t → applied dir s ≡ applied dir t
  applied-core out_dir s t e = ap (λ (c : _ × _ × _ × _ × _ × _ × _). c.0) e
  applied-core in_dir s t e = ap (λ (c : _ × _ × _ × _ × _ × _ × _). c.1) e

  stamped :
      (cs : List (Command F)) (now : ℕ) (dir : Dir) (t : Service F)
      → applied dir (record (run_cmds cs t) { last_apply = now }) ≡ applied dir t
  stamped cs now out_dir t = applied-core out_dir (run_cmds cs t) t (run_cmds-Core cs t)
  stamped cs now in_dir t = applied-core in_dir (run_cmds cs t) t (run_cmds-Core cs t)

  wanted-get :
      (n : String) (wanted before : Map (ClassState F))
      → OneEach wanted
      → last_of n wanted
          (if has n wanted then get n before else if has n before then none else get n before)
        ≡ get n wanted
  wanted-get n wanted before one = elim (Bool-cases (has n wanted)) [
    | inl e ↦ rw e (last_of-get n wanted (get n before) one ∙ rw e refl)
    | inr e ↦ rw e (
        last_of-absent n wanted _ e
        ∙ ground (arith, has-get-none n wanted e, has-get-none n before))
  ]

  -- After a direction is applied, the service records for it exactly the wanted classes, whatever
  -- it recorded before and whichever commands fail, and the other direction's record stays.
  pub apply_direction-applied :
      (iface : String) (dir : Dir) (root : F) (wanted : Map (ClassState F)) (now : ℕ)
      (s : Service F)
      → OneEach wanted
      → let s' = apply_direction iface dir root wanted now s in
        ((n : String) → get n (applied dir s') ≡ get n wanted)
        × (applied (other dir) s' ≡ applied (other dir) s)
  unfolding apply_direction
  apply_direction-applied iface dir root wanted now s one =
      let dev = shaping_dev dir iface in
      let s1 = (drop_unwanted dev dir wanted (applied dir s) s).1 in
      let s2 = install dir wanted s1 in
      (
        λ n.
            ap (get n) (stamped _ now dir s2)
            ∙ install-get dir wanted n s1
            ∙ ap (last_of n wanted) (drop_unwanted-get dev dir wanted (applied dir s) n s)
            ∙ wanted-get n wanted (applied dir s) one,
        stamped _ now (other dir) s2
            ∙ install-other dir wanted s1
            ∙ drop_unwanted-other dev dir wanted (applied dir s) s,
      )
