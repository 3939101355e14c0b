-- ===== src/Qos/Cleared.antt =====
-- What clearDirection and cleanupAll leave in the service.
use frpilot.Prelude.{ℕ, ◌≡◌, refl, ap, ◌∙◌, String, eq_iff, [], ◌∷◌, arith, All, All-map}
use frpilot.Prelude.Maps.{Map, get, has}
use frpilot.Qos.State.{
  ClassState, Dir, out_dir, in_dir, Service, applied, set_applied, release_if_unused,
}
use frpilot.Qos.Apply.{release_all, clear_commands, clear_direction, cleanup_all}
use frpilot.Qos.Applied.{other, Core, run_cmds-Core, Named}

module _ {F : Type 0} where
  has-later :
      (k j : String) (c : ClassState F) (m : Map (ClassState F)) → Named k m → Named k ((j, c) ∷ m)
  unfolding has get
  has-later k j c m h = ground arith

  all-Named : (m : Map (ClassState F)) → All (λ e. Named e.0 m) m
  unfolding has get
  all-Named [] = tt
  all-Named ((k, c) ∷ m) = (
    ground (arith, eq_iff k k),
    All-map (λ e. Named e.0 m) (λ e. Named e.0 ((k, c) ∷ m)) m (λ e h. has-later e.0 k c m h)
        (all-Named m),
  )

  -- The loop releases nothing: every name is still in the map that it ranges over.
  release_all-idle :
      (dir : Dir) (m : Map (ClassState F)) (s : Service F)
      → All (λ e. Named e.0 (applied dir s)) m
      → release_all m s ≡ s
  unfolding release_all
  release_all-idle dir [] s h = refl
  release_all-idle dir ((k, c) ∷ m) s h = rw (still dir k s h.0) (release_all-idle dir m s h.1)
    where
      still :
          (dir : Dir) (k : String) (s : Service F)
          → Named k (applied dir s)
          → release_if_unused k s ≡ s
      still out_dir k s h = unfold release_if_unused in ground arith
      still in_dir k s h = unfold release_if_unused in ground arith

  pub clear_direction-Core :
      (iface : String) (dir : Dir) (now : ℕ) (s : Service F)
      → Core (clear_direction iface dir now s) ≡ Core (set_applied dir [] s)
  unfolding clear_direction
  clear_direction-Core iface dir now s =
      run_cmds-Core (clear_commands iface dir) (set_applied dir [] (release_all (applied dir s) s))
      ∙ ap (λ (t : Service F). Core (set_applied dir [] t))
          (release_all-idle dir (applied dir s) s (all-Named (applied dir s)))

  -- Clearing a direction empties its record and leaves the other direction's; it releases no class
  -- id, although it calls releaseIfUnused for every machine of the direction.
  pub clear_direction-keeps_ids :
      (iface : String) (dir : Dir) (now : ℕ) (s : Service F)
      → let s' = clear_direction iface dir now s in
        (applied dir s' ≡ [])
        × (applied (other dir) s' ≡ applied (other dir) s)
        × (s'.ids ≡ s.ids)
        × (s'.next_id ≡ s.next_id)
  clear_direction-keeps_ids iface out_dir now s =
      ground (arith, clear_direction-Core iface out_dir now s)
  clear_direction-keeps_ids iface in_dir now s =
      ground (arith, clear_direction-Core iface in_dir now s)

  -- cleanupAll leaves no applied class and no active machine, and keeps the class ids.
  pub cleanup_all-Core :
      (now : ℕ) (s : Service F)
      → let s' = cleanup_all now s in
        (s'.applied_out ≡ [])
        × (s'.applied_in ≡ [])
        × (s'.active ≡ [])
        × (s'.last_active ≡ [])
        × (s'.ids ≡ s.ids)
        × (s'.next_id ≡ s.next_id)
  unfolding cleanup_all
  cleanup_all-Core now s = ground (
    arith,
    clear_direction-Core s.iface out_dir now s,
    clear_direction-Core s.iface in_dir now (clear_direction s.iface out_dir now s),
  )
