-- ===== src/Tasks/Whitelist.antt =====
-- Which commands a cleanup and a preview send.
use frpilot.Prelude.{
  ◌≡◌, String, str_eq, eq_iff, Bool, true, false, if◌then◌else◌, not, ◌&&◌, ◌==◌, List, [], ◌∷◌,
  ◌++◌, arith, any, All, inl, inr, Bool-cases,
}
use frpilot.Cipher.{Cipher}
use frpilot.Exec.{Result-cases}
use frpilot.Store.Machines.{Machine}
use frpilot.Floats.{Floats}
use frpilot.Tasks.{CleanupItem, Task}
use frpilot.Tasks.Items.{CustomCleanupItem, effective_items, matching, filter_items, select_items}
use frpilot.Tasks.Remote.{Sent, Remote, ssh_host, secrets}
use frpilot.Tasks.Cleanup.{
  needs_sudo, command_of, run_items, connected, run_on_machine, cleanup_loop, run_cleanup,
}

-- The command is the one of the item; it runs under sudo, with the machine's password, exactly if
-- the item requires root and the user is another.
abbrev pub is_command_of : Machine → Sent → CleanupItem → Bool
is_command_of m s it =
    str_eq s.command it.command
    && s.timeout == it.timeout
    && (if s.sudo then needs_sudo m it && not (str_eq s.password "") else not (needs_sudo m it))

abbrev IsPermitted : Machine → List CleanupItem → Sent → Type 0
IsPermitted m items s = any (is_command_of m s) items ≡ true

IsPermitted-cons :
    (m : Machine) (it : CleanupItem) (its : List CleanupItem) (ss : List Sent)
    → All (IsPermitted m its) ss
    → All (IsPermitted m (it ∷ its)) ss
IsPermitted-cons m it its [] a = tt
IsPermitted-cons m it its (s ∷ ss) a = (ground (arith, a.0), IsPermitted-cons m it its ss a.1)

command_of-is_command :
    (m : Machine) (sudo : String) (it : CleanupItem)
    → (needs_sudo m it && str_eq sudo "") ≡ false
    → is_command_of m (command_of m sudo it) it ≡ true
command_of-is_command m sudo it h = ground (arith, eq_iff it.command it.command)

run_items-IsPermitted :
    (r : Remote) (m : Machine) (sudo : String) (before : List Sent) (its : List CleanupItem)
    → All (IsPermitted m its) (run_items r m sudo before its).1
unfolding run_items
run_items-IsPermitted r m sudo before [] = tt
run_items-IsPermitted r m sudo before (it ∷ its) =
    let s = command_of m sudo it in
    elim (Bool-cases (needs_sudo m it && str_eq sudo "")) [
      | inl e ↦ rw e (
          IsPermitted-cons m it its (run_items r m sudo before its).1
            (run_items-IsPermitted r m sudo before its))
      | inr e ↦ rw e (
        ground (arith, command_of-is_command m sudo it),
        IsPermitted-cons m it its (run_items r m sudo (before ++ s ∷ []) its).1
            (run_items-IsPermitted r m sudo (before ++ s ∷ []) its),
      )
    ]

run_on_machine-IsPermitted :
    (k : Cipher) (r : Remote) (host : String) (m : Machine) (its : List CleanupItem)
    → All (IsPermitted m its) (run_on_machine k r host m its).1
unfolding run_on_machine
run_on_machine-IsPermitted k r host m its = elim (Result-cases (secrets k m)) [
  | inr (e, f) ↦ rw f tt
  | inl ((pass, sudo), f) ↦
      elim (Bool-cases (r.dial (ssh_host host) m.tunnel_port m.ssh_user pass)) [
        | inl g ↦ rw (f, connected, g) (run_items-IsPermitted r m sudo [] its)
        | inr g ↦ rw (f, connected, g) tt
      ]
]

cleanup_loop-IsPermitted :
    (fl : Floats) (k : Cipher) (r : Remote) (host : String) (its : List CleanupItem)
    (ms : List Machine) (t : Task)
    → All (λ e. All (IsPermitted e.0 its) e.1) (cleanup_loop fl k r host its t ms).1
unfolding cleanup_loop
cleanup_loop-IsPermitted fl k r host its [] t = tt
cleanup_loop-IsPermitted fl k r host its (m ∷ ms) t =
    (run_on_machine-IsPermitted k r host m its, cleanup_loop-IsPermitted fl k r host its ms _)

-- Whether the item is among the ids that were asked for, all being meant if there are none.
abbrev pub is_chosen : List String → CleanupItem → Bool
is_chosen [] it = true
is_chosen (i ∷ is) it = any (λ j. str_eq it.id j) (i ∷ is)

matching-any :
    (p : CleanupItem → Bool) (it : CleanupItem) (is : List String)
    → any p (matching it is) ≡ true
    → (p it ≡ true) × (any (λ j. str_eq it.id j) is ≡ true)
unfolding matching
matching-any p it [] h = absurd (ground arith)
matching-any p it (i ∷ is) h = ground (arith, matching-any p it is)

any-append :
    (p : CleanupItem → Bool) (xs ys : List CleanupItem)
    → any p (xs ++ ys) ≡ true
    → any p xs ≡ false
    → any p ys ≡ true
any-append p [] ys h f = h
any-append p (x ∷ xs) ys h f = ground (arith, any-append p xs ys)

filter_items-any :
    (p : CleanupItem → Bool) (its : List CleanupItem) (is : List String)
    → any p (filter_items its is) ≡ true
    → any (λ it. p it && any (λ j. str_eq it.id j) is) its ≡ true
unfolding filter_items
filter_items-any p [] is h = absurd (ground arith)
filter_items-any p (it ∷ its) is h = elim (Bool-cases (any p (matching it is))) [
  | inl e ↦ ground (arith, matching-any p it is e)
  | inr e ↦
      ground
        (arith, filter_items-any p its is (any-append p (matching it is) (filter_items its is) h e))
]

any-and :
    (p : CleanupItem → Bool) (its : List CleanupItem)
    → any p its ≡ true
    → any (λ it. p it && true) its ≡ true
any-and p [] h = h
any-and p (it ∷ its) h = ground (arith, any-and p its)

select_items-any :
    (p : CleanupItem → Bool) (its : List CleanupItem) (is : List String)
    → any p (select_items its is) ≡ true
    → any (λ it. p it && is_chosen is it) its ≡ true
unfolding select_items
select_items-any p its [] h = any-and p its h
select_items-any p its (i ∷ is) h = filter_items-any p its (i ∷ is) h

IsPermitted-chosen :
    (m : Machine) (its : List CleanupItem) (is : List String) (ss : List Sent)
    → All (IsPermitted m (select_items its is)) ss
    → All (λ s. any (λ it. is_command_of m s it && is_chosen is it) its ≡ true) ss
IsPermitted-chosen m its is [] a = tt
IsPermitted-chosen m its is (s ∷ ss) a =
    (select_items-any (is_command_of m s) its is a.0, IsPermitted-chosen m its is ss a.1)

log-chosen :
    (its : List CleanupItem) (is : List String) (log : List (Machine × List Sent))
    → All (λ e. All (IsPermitted e.0 (select_items its is)) e.1) log
    → All (λ e. All (λ s. any (λ it. is_command_of e.0 s it && is_chosen is it) its ≡ true) e.1) log
log-chosen its is [] a = tt
log-chosen its is ((m, ss) ∷ es) a = (IsPermitted-chosen m its is ss a.0, log-chosen its is es a.1)

-- Whatever the remote side answers, each command that a cleanup sends to a machine is the command,
-- under the timeout, of a built-in or configured item that was asked for; it is sent through sudo,
-- with a password that is not empty, exactly if the item requires root and the user is not root.
pub run_cleanup-permitted :
    (fl : Floats) (k : Cipher) (r : Remote) (host : String) (custom : List CustomCleanupItem)
    (item_ids : List String) (t : Task) (ms : List Machine)
    → let its = effective_items custom in
      All
        (λ e. All (λ s. any (λ it. is_command_of e.0 s it && is_chosen item_ids it) its ≡ true) e.1)
        (run_cleanup fl k r host (select_items its item_ids) t ms).1
unfolding run_cleanup
run_cleanup-permitted fl k r host custom item_ids t ms =
    let its = effective_items custom in
    log-chosen its item_ids _
      (cleanup_loop-IsPermitted fl k r host (select_items its item_ids) ms t)
