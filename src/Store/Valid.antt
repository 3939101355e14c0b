-- ===== src/Store/Valid.antt =====
-- What the schema of internal/store/store.go promises of the tables `users` and `sessions`, and
-- each statement of internal/store/users.go keeps.
use frpilot.Prelude.{
  ℕ, suc, ◌<◌, ◌≡◌, ◌≢◌, String, eq_iff, List, [], inl, inr, arith, any, All, Bool-cases, Distinct,
  Distinct-keep, Distinct-append, Distinct-change, All-keep, All-append, All-change, All-map,
  All_of_any,
}
use frpilot.Exec.{execute}
use frpilot.Exec.Keeps.{Keeps, Keeps-execute, keeps_rules}
use frpilot.Store.Users.{
  User, Session, LoginLimit, Accounts, has_name, insert_user, update_user, delete_rows,
  delete_session_rows, delete_user,
}
use frpilot.Store.Sessions.{has_token, insert_session, remove_session, expire_sessions}
use frpilot.Store.Limits.{put_limit, drop_limit}

-- A new database.
abbrev pub empty : Accounts
empty = record { users = []; next_user = 1; sessions = []; limits = [] }

pub record IsValid (a : Accounts) : Type 0 where
  pub ids : Distinct (λ u. u.id) a.users
  pub fresh : All (λ u. u.id < a.next_user) a.users
  pub names : Distinct (λ u. u.username) a.users
  pub tokens : Distinct (λ s. s.token) a.sessions

pub insert_user-IsValid : (u : User) (a : Accounts) → IsValid a → IsValid (insert_user u a).1
unfolding insert_user
insert_user-IsValid u a v = elim (Bool-cases (any (has_name u.username) a.users)) [
  | inl e ↦ rw e v
  | inr e ↦ rw e (record {
    ids =
        Distinct-append (λ u. u.id) a.users _
          (All-map (λ w. w.id < a.next_user) (λ w. w.id ≢ a.next_user) a.users (λ w h. omega arith)
            v.fresh)
          v.ids;
    fresh =
        All-append (λ w. w.id < suc a.next_user) a.users _
          (All-map (λ w. w.id < a.next_user) (λ w. w.id < suc a.next_user) a.users
            (λ w h. omega arith) v.fresh)
          (omega arith);
    names =
        Distinct-append (λ u. u.username) a.users _
          (All_of_any (has_name u.username) a.users
            (λ w h. ground (arith, eq_iff w.username u.username)) e)
          v.names;
    tokens = v.tokens;
  })
]

update_user-IsValid :
    (i : ℕ) (f : User → User)
    → ((u : User) → (f u).id ≡ u.id)
    → ((u : User) → (f u).username ≡ u.username)
    → (a : Accounts) → IsValid a
    → IsValid (update_user i f a).1
unfolding update_user
update_user-IsValid i f same_id same_name a v = record {
  ids = Distinct-change (λ u. u.id) _ f a.users same_id v.ids;
  fresh = All-change (λ w. w.id < a.next_user) _ f a.users (λ w h. rw (same_id w) h) v.fresh;
  names = Distinct-change (λ u. u.username) _ f a.users same_name v.names;
  tokens = v.tokens;
}

pub delete_rows-IsValid : (i : ℕ) (a : Accounts) → IsValid a → IsValid (delete_rows i a).1
unfolding delete_rows
delete_rows-IsValid i a v = record {
  ids = Distinct-keep (λ u. u.id) _ a.users v.ids;
  fresh = All-keep (λ w. w.id < a.next_user) _ a.users v.fresh;
  names = Distinct-keep (λ u. u.username) _ a.users v.names;
  tokens = v.tokens;
}

keep_sessions-IsValid :
    (a : Accounts) (ss : List Session)
    → Distinct (λ s. s.token) ss
    → IsValid a
    → IsValid (record a { sessions = ss })
keep_sessions-IsValid a ss d v = record {
  ids = v.ids;
  fresh = v.fresh;
  names = v.names;
  tokens = d;
}

pub delete_session_rows-IsValid :
    (i : ℕ) (a : Accounts) → IsValid a → IsValid (delete_session_rows i a).1
unfolding delete_session_rows
delete_session_rows-IsValid i a v =
    keep_sessions-IsValid a _ (Distinct-keep (λ s. s.token) _ a.sessions v.tokens) v

pub remove_session-IsValid :
    (t : String) (a : Accounts) → IsValid a → IsValid (remove_session t a).1
unfolding remove_session
remove_session-IsValid t a v =
    keep_sessions-IsValid a _ (Distinct-keep (λ s. s.token) _ a.sessions v.tokens) v

pub expire_sessions-IsValid : (t : ℕ) (a : Accounts) → IsValid a → IsValid (expire_sessions t a).1
unfolding expire_sessions
expire_sessions-IsValid t a v =
    keep_sessions-IsValid a _ (Distinct-keep (λ s. s.token) _ a.sessions v.tokens) v

pub insert_session-IsValid :
    (s : Session) (a : Accounts) → IsValid a → IsValid (insert_session s a).1
unfolding insert_session
insert_session-IsValid s a v = elim (Bool-cases (any (has_token s.token) a.sessions)) [
  | inl e ↦ rw e v
  | inr e ↦ rw e (
      keep_sessions-IsValid a _
        (Distinct-append (λ s. s.token) a.sessions s
          (All_of_any (has_token s.token) a.sessions (λ w h. ground (arith, eq_iff w.token s.token))
            e)
          v.tokens)
        v)
]

limits-IsValid :
    (a : Accounts)
    → IsValid a
    → (ls : List (String × LoginLimit)) → IsValid (record a { limits = ls })
limits-IsValid a v ls = record { ids = v.ids; fresh = v.fresh; names = v.names; tokens = v.tokens }

pub put_limit-IsValid :
    (k : String) (l : LoginLimit) (a : Accounts) → IsValid a → IsValid (put_limit k l a).1
unfolding put_limit
put_limit-IsValid k l a v = limits-IsValid a v _

pub drop_limit-IsValid : (k : String) (a : Accounts) → IsValid a → IsValid (drop_limit k a).1
unfolding drop_limit
drop_limit-IsValid k a v = limits-IsValid a v _

pub update-Keeps :
    (i : ℕ) (f : User → User)
    → ((u : User) → (f u).id ≡ u.id)
    → ((u : User) → (f u).username ≡ u.username)
    → Keeps IsValid (execute (update_user i f))
update-Keeps i f same_id same_name = Keeps-execute _ (update_user-IsValid i f same_id same_name)

pub delete_user-Keeps : (i : ℕ) → Keeps IsValid (delete_user i)
unfolding delete_user
delete_user-Keeps i = search (keeps_rules, delete_rows-IsValid, delete_session_rows-IsValid)

pub empty-IsValid : IsValid empty
empty-IsValid = record { ids = tt; fresh = tt; names = tt; tokens = tt }
