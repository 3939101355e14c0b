-- ===== src/Auth.antt =====
-- internal/auth/auth.go. Registration is in Register.antt, login and the sessions in Login.antt,
-- the operations on accounts in Manage.antt; the proofs are in the other modules below.
pub mod Register
pub mod Login
pub mod Manage
pub mod Admins
pub mod Invariant
pub mod Accounts
pub mod Served
pub mod Lockout
pub mod Opened
pub mod Access
