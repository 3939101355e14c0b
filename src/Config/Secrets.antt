-- ===== src/Config/Secrets.antt =====
-- internal/config/secrets.go, but for SyncEncryptedSecrets, over the settings table of
-- internal/store/machines.go; and what a running FRPilot has: the configuration in memory, the
-- files, and the settings.
use frpilot.Prelude.{ℕ, String, str_eq, Bool, if◌then◌else◌, Option, none, some, List, [], ◌∷◌}
use frpilot.Prelude.Maps.{Map, get, put}
use frpilot.Cipher.{Cipher, encrypt_secret, decrypt_secret}
use frpilot.Exec.{ok, Exec, pure, query, execute, from_result, ◌>>=◌, ◌>>◌}
use frpilot.Config.{FrpsConfig, AppConfig}

-- `memory` and `hooked` are the Manager: its configuration, and whether onSave is set. `files` has
-- the contents by path, B being the type of contents, and `temp` is the temporary file.
pub record World (F B : Type 0) : Type 0 where
  pub memory : AppConfig F
  pub hooked : Bool
  pub files : Map B
  pub temp : Option B
  pub settings : Map String

pub data SecretKey : Type 0 where
  dashboard_pass_key ssh_pass_key token_key : SecretKey

abbrev pub key_text : SecretKey → String
key_text dashboard_pass_key = "frps_dashboard_pass"
key_text ssh_pass_key = "frps_ssh_pass"
key_text token_key = "frps_token"

abbrev pub secret_of : FrpsConfig → SecretKey → String
secret_of f dashboard_pass_key = f.dashboard_pass
secret_of f ssh_pass_key = f.ssh_pass
secret_of f token_key = f.token

abbrev pub or_empty : Option String → String
or_empty none = ""
or_empty (some v) = v

module _ {F B : Type 0} where
  unfoldable pub get_setting : String → Exec (World F B) String
  get_setting key = query (λ w. or_empty (get key w.settings))

  unfoldable pub set_setting : String → String → Exec (World F B) (Unit {0})
  set_setting key value = execute (λ w. (ok tt, record w { settings = put key value w.settings }))

-- `nonce` is what EncryptSecret draws.
module _ {F B : Type 0} (k : Cipher) (nonce : ℕ) where
  unfoldable pub store_secret : String → String → Exec (World F B) (Unit {0})
  unfolding set_setting
  store_secret key plain = do enc ← from_result (encrypt_secret k nonce plain); set_setting key enc

  unfoldable pub save_over : String → String → String → Exec (World F B) (Unit {0})
  unfolding store_secret
  save_over key plain old = if str_eq old "" then store_secret key plain else do
    decoded ← from_result (decrypt_secret k old)
    if str_eq decoded plain then pure tt else store_secret key plain

  unfoldable pub save_secret_if_changed : String → String → Exec (World F B) (Unit {0})
  unfolding get_setting save_over
  save_secret_if_changed key plain =
      if str_eq plain "" then pure tt else do old ← get_setting key; save_over key plain old

  unfoldable pub migrate_secret : String → String → Exec (World F B) String
  unfolding save_secret_if_changed
  migrate_secret key legacy =
      if str_eq legacy "" then pure "" else do save_secret_if_changed key legacy; pure legacy

  unfoldable pub load_or_migrate_secret : String → String → Exec (World F B) String
  unfolding get_setting migrate_secret
  load_or_migrate_secret key legacy = do
    enc ← get_setting key
    if str_eq enc "" then migrate_secret key legacy else from_result (decrypt_secret k enc)

-- The hook that SyncEncryptedSecrets installs; `order` is the order in which it ranges over the
-- three values, and each has a nonce of its own.
unfoldable pub save_secrets :
    {F B : Type 0}
    → Cipher
    → (SecretKey → ℕ)
    → List SecretKey
    → FrpsConfig
    → Exec (World F B) (Unit {0})
unfolding save_secret_if_changed
save_secrets k nonce [] f = pure tt
save_secrets k nonce (key ∷ order) f = do
  save_secret_if_changed k (nonce key) (key_text key) (secret_of f key)
  save_secrets k nonce order f
