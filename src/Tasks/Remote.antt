-- ===== src/Tasks/Remote.antt =====
-- What the tasks use of an SSH connection (internal/sshx), as a parameter, and the secrets that a
-- task decrypts before it connects. The remote side may answer as it likes.
use frpilot.Prelude.{ℕ, ℤ, String, str_eq, Bool, if◌then◌else◌, not, ◌&&◌, List}
use frpilot.Cipher.{Cipher, decrypt_secret}
use frpilot.Exec.{Result, ok, err}
use frpilot.Store.Machines.{Machine}

-- A command that is sent: by RunSudo under a password, or by Run.
pub record Sent : Type 0 where
  pub sudo : Bool
  pub password : String
  pub command : String
  pub timeout : ℕ

pub record Answer : Type 0 where
  pub out : String
  pub err_out : String
  pub failed : Bool

pub record Remote : Type 0 where
  -- sshx.Dial at a host, a port, a user and a password
  pub dial : String → ℤ → String → String → Bool
  -- The answer to a command after the commands sent before it.
  pub reply : List Sent → Sent → Answer

abbrev pub ssh_host : String → String
ssh_host host = if str_eq host "" then "127.0.0.1" else host

-- The two passwords; the second is empty for root and where none is stored.
unfoldable pub secrets : Cipher → Machine → Result (String × String)
unfolding decrypt_secret
secrets k m = elim (decrypt_secret k m.ssh_pass_enc) [
  | err e ↦ err e
  | ok pass ↦
      if not (str_eq m.ssh_user "root") && not (str_eq m.sudo_pass_enc "")
      then elim (decrypt_secret k m.sudo_pass_enc) [ err e ↦ err e | ok sudo ↦ ok (pass, sudo) ]
      else ok (pass, "")
]
