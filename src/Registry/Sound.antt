-- ===== src/Registry/Sound.antt =====
-- What a sound machine and a valid fleet are, and that each statement on the table keeps them.
use frpilot.Prelude.{
  ◌⊎◌, ℕ, suc, ◌<◌, ◌≡◌, ◌≢◌, refl, subst, String, str_eq, eq_iff, ◌&&◌, ==_iff, ◌==◌, Bool, true,
  false, some, List, [], ◌∷◌, inl, inr, arith, any, find?, change, All, Distinct, Distinct-append,
  Distinct-change, All-append, All-change, All-map, All_of_any, Bool-cases, Option-cases, ℤ,
}
use frpilot.Exec.{Disk, execute, ◌>>=◌}
use frpilot.Exec.Keeps.{Keeps, Keeps-execute}
use frpilot.Store.Machines.{
  Machine, Fleet, has_id, has_name, get_machine_by_id, insert_machine, new_machine, update_machine,
  with_credentials, with_enabled, set_machine_enabled, machine_pending, machine_configured,
  machine_enabled, machine_disabled,
}

-- The switch is on only with an SSH user; the status is one of the four; it reads "enabled" only
-- with the switch on, and "pending" and "disabled" only with the switch off.
pub record IsSound (m : Machine) : Type 0 where
  pub on_needs_user : m.enabled ≡ true → str_eq m.ssh_user "" ≡ false
  pub enabled_is_on : str_eq m.status machine_enabled ≡ true → m.enabled ≡ true
  pub pending_is_off : str_eq m.status machine_pending ≡ true → m.enabled ≡ false
  pub disabled_is_off : str_eq m.status machine_disabled ≡ true → m.enabled ≡ false
  pub known :
      (m.status ≡ machine_pending)
      ⊎ (m.status ≡ machine_configured)
      ⊎ (m.status ≡ machine_enabled)
      ⊎ (m.status ≡ machine_disabled)

pub record FleetValid (f : Fleet) : Type 0 where
  pub ids : Distinct (λ m. m.id) f.machines
  pub fresh : All (λ m. m.id < f.next_machine) f.machines
  pub names : Distinct (λ m. m.name) f.machines
  pub sound : All IsSound f.machines

pub new_machine-IsSound :
    (i : ℕ) (name : String) (port : ℤ) (now : ℕ) → IsSound (new_machine i name port now)
new_machine-IsSound i name port now = ground arith

pub insert_machine-FleetValid :
    (name : String) (port : ℤ) (now : ℕ) (f : Fleet)
    → FleetValid f
    → FleetValid (insert_machine name port now f).1
unfolding insert_machine
insert_machine-FleetValid name port now f v = elim (Bool-cases (any (has_name name) f.machines)) [
  | inl e ↦ rw e v
  | inr e ↦ rw e (record {
    ids =
        Distinct-append (λ m. m.id) f.machines _
          (All-map (λ m. m.id < f.next_machine) (λ m. m.id ≢ f.next_machine) f.machines
            (λ m h. omega arith) v.fresh)
          v.ids;
    fresh =
        All-append (λ m. m.id < suc f.next_machine) f.machines _
          (All-map (λ m. m.id < f.next_machine) (λ m. m.id < suc f.next_machine) f.machines
            (λ m h. omega arith) v.fresh)
          (omega arith);
    names =
        Distinct-append (λ m. m.name) f.machines _
          (All_of_any (has_name name) f.machines (λ m h. ground (arith, eq_iff m.name name)) e)
          v.names;
    sound =
        All-append IsSound f.machines _ v.sound (new_machine-IsSound f.next_machine name port now);
  })
]

pub update_machine-FleetValid :
    (i : ℕ) (g : Machine → Machine)
    → ((m : Machine) → (g m).id ≡ m.id)
    → ((m : Machine) → (g m).name ≡ m.name)
    → ((m : Machine) → IsSound m → IsSound (g m))
    → (f : Fleet) → FleetValid f
    → FleetValid (update_machine i g f).1
unfolding update_machine
update_machine-FleetValid i g same_id same_name sound f v = record {
  ids = Distinct-change (λ m. m.id) _ g f.machines same_id v.ids;
  fresh = All-change (λ m. m.id < f.next_machine) _ g f.machines (λ m h. rw (same_id m) h) v.fresh;
  names = Distinct-change (λ m. m.name) _ g f.machines same_name v.names;
  sound = All-change IsSound _ g f.machines sound v.sound;
}

pub update-Keeps :
    (i : ℕ) (g : Machine → Machine)
    → ((m : Machine) → (g m).id ≡ m.id)
    → ((m : Machine) → (g m).name ≡ m.name)
    → ((m : Machine) → IsSound m → IsSound (g m))
    → Keeps FleetValid (execute (update_machine i g))
update-Keeps i g same_id same_name sound =
    Keeps-execute _ (update_machine-FleetValid i g same_id same_name sound)

pub with_credentials-IsSound :
    (user a b : String) (now : ℕ)
    → str_eq user "" ≡ false
    → (m : Machine) → IsSound m
    → IsSound (with_credentials user a b now m)
with_credentials-IsSound user a b now e m h = ground arith

pub change_absent :
    (i : ℕ) (g : Machine → Machine) (ms : List Machine)
    → All (λ m. m.id ≢ i) ms
    → change (has_id i) g ms ≡ ms
change_absent i g [] h = refl
change_absent i g (m ∷ ms) h = ground (arith, change_absent i g ms h.1)

pub switched :
    (b : Bool) (now : ℕ) (m : Machine)
    → (b ≡ true → str_eq m.ssh_user "" ≡ false)
    → IsSound (with_enabled b now m)
switched true now m k = ground (arith, k refl)
switched false now m k = ground arith

pub switched-IsSound :
    (i : ℕ) (b : Bool) (now : ℕ) (m : Machine) (ms : List Machine)
    → Distinct (λ m. m.id) ms
    → find? (has_id i) ms ≡ some m
    → (b ≡ true → str_eq m.ssh_user "" ≡ false)
    → All IsSound ms
    → All IsSound (change (has_id i) (with_enabled b now) ms)
switched-IsSound i b now m [] d e g h = tt
switched-IsSound i b now m (x ∷ ms) d e g h = elim (Bool-cases (x.id == i)) [
  | inl t ↦
      let same : some x ≡ some m = rw t at e in
      rw
        (
          t,
          change_absent i (with_enabled b now) ms
              (subst (λ (k : ℕ). All (λ y. y.id ≢ k) ms) ((==_iff x.id i).0 t) d.0),
        )
        (switched b now x (λ q. ground (arith, g q)), h.1)
  | inr t ↦ rw t (h.0, switched-IsSound i b now m ms d.1 (rw t at e) g h.1)
]

-- What the statements of SetMachineEnabled leave: the table as it was, or the row switched after
-- the check of its credentials.
pub set_machine_enabled-rows :
    (i : ℕ) (b : Bool) (now : ℕ) (d : Disk Fleet)
    → ((set_machine_enabled i b now d).1.rows ≡ d.rows)
      ⊎ ((m : Machine) × (find? (has_id i) d.rows.machines ≡ some m)
          × (b ≡ true → str_eq m.ssh_user "" ≡ false)
          × ((set_machine_enabled i b now d).1.rows ≡ record (d.rows) {
            machines = change (has_id i) (with_enabled b now) d.rows.machines;
          }))
unfolding set_machine_enabled get_machine_by_id ◌>>=◌
set_machine_enabled-rows i b now d = elim (Option-cases (find? (has_id i) d.rows.machines)) [
  | inl e ↦ inl (ground arith)
  | inr (m, e) ↦ elim (Bool-cases (d.fault d.count)) [
    | inl f ↦ inl (ground arith)
    | inr f ↦ elim (Bool-cases (b && str_eq m.ssh_user "")) [
      | inl g ↦ inl (ground arith)
      | inr g ↦ elim (Bool-cases (d.fault (suc d.count))) [
        | inl h ↦ inl (ground arith)
        | inr h ↦ inr (m, e, λ q. ground arith, ground arith)
      ]
    ]
  ]
]

pub set_machine_enabled-FleetValid :
    (i : ℕ) (b : Bool) (now : ℕ) (d : Disk Fleet)
    → FleetValid d.rows
    → FleetValid (set_machine_enabled i b now d).1.rows
set_machine_enabled-FleetValid i b now d v = elim (set_machine_enabled-rows i b now d) [
  | inl e ↦ rw e v
  | inr (m, e, g, r) ↦ rw r (record {
    ids = Distinct-change (λ m. m.id) _ (with_enabled b now) d.rows.machines (λ m. refl) v.ids;
    fresh =
        All-change (λ m. m.id < d.rows.next_machine) _ (with_enabled b now) d.rows.machines
          (λ m h. h) v.fresh;
    names =
        Distinct-change (λ m. m.name) _ (with_enabled b now) d.rows.machines (λ m. refl) v.names;
    sound = switched-IsSound i b now m d.rows.machines v.ids e g v.sound;
  })
]
