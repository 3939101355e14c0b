-- ===== src/Registry.antt =====
-- internal/registry/registry.go: Discover, UpdateCredentials, SetEnabled and firstNonEmpty; the
-- configuration of frps is in Frps. The
-- proofs are in the modules below.
pub mod Sound
pub mod Lifecycle
pub mod Credentials
pub mod Frps
pub mod Drift
use frpilot.Prelude.{
  ℕ, suc, String, str_eq, Bool, true, false, if◌then◌else◌, not, Option, none, some, List, [], ◌∷◌,
  ◌++◌, ◌&&◌, length, ℤ,
}
use frpilot.Prelude.Text.{trim_space}
use frpilot.Cipher.{Cipher, encrypt_secret}
use frpilot.Exec.{
  Result, ok, err, empty_ssh_user, empty_ssh_pass, Exec, pure, fail, from_result, ◌>>=◌, ◌>>◌,
}
use frpilot.Store.Machines.{
  Machine, Fleet, get_machine_by_id, upsert_machine_from_discovery, set_machine_credentials,
  set_machine_enabled, touch_machine,
}

-- What Discover reads of a proxy of the dashboard.
pub record Tunnel : Type 0 where
  pub name : String
  pub remote_port : ℤ
  pub status : String

pub record DiscoveryResult : Type 0 where
  pub total : ℕ
  pub new_found : List String
  pub online : List String
  pub offline : List String

-- The loop over the proxies, with the result as far as it goes.
unfoldable pub discover_loop : ℕ → List Tunnel → DiscoveryResult → Exec Fleet DiscoveryResult
discover_loop now [] res = pure res
discover_loop now (p ∷ ps) res = do
  (m, is_new) ← upsert_machine_from_discovery p.name p.remote_port now
  let found = if is_new then record res { new_found = res.new_found ++ p.name ∷ [] } else res
  let online = str_eq p.status "online"
  touch_machine m.id online false now
  discover_loop now ps (
      if online
      then record found { online = found.online ++ p.name ∷ [] }
      else record found { offline = found.offline ++ p.name ∷ [] })

unfoldable pub discover : ℕ → Result (List Tunnel) → Exec Fleet DiscoveryResult
discover now polled = do
  proxies ← from_result polled
  discover_loop now proxies
      (record { total = length proxies; new_found = []; online = []; offline = [] })

-- The stored ciphertext of a password: a new one for a password that was given, else the old one.
abbrev pub renewed : Cipher → ℕ → String → String → Result String
renewed k nonce old plain = if str_eq plain "" then ok old else encrypt_secret k nonce plain

unfoldable pub update_credentials :
    Cipher → (nonce nonce' now : ℕ) → (id : ℕ) → (user pass sudo : String) → Exec Fleet (Unit {0})
update_credentials k nonce nonce' now i user pass sudo =
    if str_eq (trim_space user) "" then fail empty_ssh_user else do
      m ← get_machine_by_id i
      ssh_enc ← from_result (
          if str_eq pass "" && str_eq m.ssh_pass_enc ""
          then err empty_ssh_pass
          else renewed k nonce m.ssh_pass_enc pass)
      sudo_enc ← from_result (renewed k nonce' m.sudo_pass_enc sudo)
      set_machine_credentials i (trim_space user) ssh_enc sudo_enc now

unfoldable pub set_enabled : ℕ → Bool → ℕ → Exec Fleet Machine
set_enabled i enabled now = set_machine_enabled i enabled now

unfoldable pub first_non_empty : List String → String
first_non_empty [] = ""
first_non_empty (v ∷ vs) = if str_eq v "" then first_non_empty vs else v
