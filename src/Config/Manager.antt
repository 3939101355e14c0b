-- ===== src/Config/Manager.antt =====
-- internal/config/config.go: Update, persist and LoadOrCreateAt; internal/config/secrets.go:
-- SyncEncryptedSecrets. Each call on the file system is a step that may fault, like a statement.
use frpilot.Prelude.{
  ℕ, String, str_eq, Bool, true, false, if◌then◌else◌, ◌≡◌, Option, none, some, List,
}
use frpilot.Prelude.Maps.{Map, get, put}
use frpilot.Floats.{Floats}
use frpilot.Cipher.{Cipher}
use frpilot.Exec.{
  Result, ok, Exec, pure, query, execute, ignore, attempt, from_result, peek, assign, ◌>>=◌, ◌>>◌,
}
use frpilot.Config.{AppConfig}
use frpilot.Config.Defaults.{default_config, apply_defaults}
use frpilot.Config.Secrets.{
  World, SecretKey, key_text, dashboard_pass_key, ssh_pass_key, token_key, save_secrets,
  load_or_migrate_secret,
}

-- What is written to the file: MarshalJSON leaves the secrets out, and the tags "-" the path of the
-- file and the version.
unfoldable pub public : {F : Type 0} → AppConfig F → AppConfig F
public c = record c {
  config_path = "";
  frps = record c.frps { dashboard_pass = ""; ssh_pass = ""; token = "" };
  version = "";
}

-- encoding/json, as a parameter: what was printed is read back.
pub record Json (F B : Type 0) : Type 0 where
  pub print : AppConfig F → Result B
  pub parse : B → Result (AppConfig F)
  -- The text "{}".
  pub empty : B
  pub parse-print : (c : AppConfig F) (b : B) → print (public c) ≡ ok b → parse b ≡ ok (public c)

abbrev put_if_some : {B : Type 0} → String → Option B → Map B → Map B
put_if_some path none m = m
put_if_some path (some b) m = put path b m

abbrev pub with_secrets : {F : Type 0} → String → String → String → AppConfig F → AppConfig F
with_secrets dash ssh token c = record c {
  frps = record c.frps { dashboard_pass = dash; ssh_pass = ssh; token = token };
}

module _ {F B : Type 0} where
  -- CreateTemp, Chmod, Sync and Close change nothing that is read here.
  abbrev touch : Exec (World F B) (Unit {0})
  touch = execute (λ w. (ok tt, w))

  abbrev write_temp : B → Exec (World F B) (Unit {0})
  write_temp b = execute (λ w. (ok tt, record w { temp = some b }))

  abbrev rename_temp : String → Exec (World F B) (Unit {0})
  rename_temp path =
      execute (λ w. (ok tt, record w { files = put_if_some path w.temp w.files; temp = none }))

  abbrev remove_temp : Exec (World F B) (Unit {0})
  remove_temp = execute (λ w. (ok tt, record w { temp = none }))

  -- What persist does after CreateTemp, but for the deferred Remove.
  unfoldable pub fill_temp : String → B → Exec (World F B) (Unit {0})
  fill_temp path b = do touch; write_temp b; touch; touch; rename_temp path

  unfoldable pub persist : Json F B → AppConfig F → Exec (World F B) (Unit {0})
  unfolding fill_temp
  persist json c = do
    b ← from_result (json.print (public c))
    touch
    r ← attempt (fill_temp c.config_path b)
    ignore remove_temp
    from_result r

  -- `if m.onSave != nil { … }`
  unfoldable pub run_hook :
      Cipher → (SecretKey → ℕ) → List SecretKey → AppConfig F → Bool → Exec (World F B) (Unit {0})
  unfolding save_secrets
  run_hook k nonce order c hooked = if hooked then save_secrets k nonce order c.frps else pure tt

  unfoldable pub update :
      Cipher
      → Json F B
      → (SecretKey → ℕ)
      → List SecretKey
      → (AppConfig F → AppConfig F)
      → Exec (World F B) (Unit {0})
  unfolding run_hook persist
  update k json nonce order change = do
    candidate ← peek (λ w. change w.memory)
    hooked ← peek (λ w. w.hooked)
    run_hook k nonce order candidate hooked
    persist json candidate
    assign (λ w. record w { memory = candidate })

  -- `drawn` are the nonces of the first three calls, `nonce` those of the hook.
  unfoldable pub sync_encrypted_secrets :
      Cipher
      → Json F B
      → (drawn nonce : SecretKey → ℕ) → List SecretKey
      → Exec (World F B) (Unit {0})
  unfolding update load_or_migrate_secret
  sync_encrypted_secrets k json drawn nonce order = do
    f ← peek (λ w. w.memory.frps)
    dash ←
        load_or_migrate_secret k (drawn dashboard_pass_key) (key_text dashboard_pass_key)
          f.dashboard_pass
    ssh ← load_or_migrate_secret k (drawn ssh_pass_key) (key_text ssh_pass_key) f.ssh_pass
    token ← load_or_migrate_secret k (drawn token_key) (key_text token_key) f.token
    assign (λ w. record w { hooked = true })
    update k json nonce order (with_secrets dash ssh token)

module _ {B : Type 0} (fl : Floats) where
  open fl use {F}

  -- The branch on what ReadFile gave: the content, or that there is no such file.
  unfoldable pub read_config :
      Json F B → String → AppConfig F → Option B → Exec (World F B) (AppConfig F)
  read_config json dir d none = do
    execute (λ w. (ok tt, record w { files = put d.config_path json.empty w.files }))
    pure d
  read_config json dir d (some b) = do
    loaded ← from_result (json.parse b)
    pure (apply_defaults fl (record loaded { data_dir = dir; config_path = d.config_path }) d)

  -- `default_path` is filepath.Join(dataDir, "config.json"). The new Manager has no hook.
  unfoldable pub load_or_create_at :
      Json F B → (dir default_path config_path : String) → Exec (World F B) (Unit {0})
  unfolding read_config
  load_or_create_at json dir default_path config_path = do
    let d0 = default_config fl dir default_path
    let d = record d0 {
      config_path = if str_eq config_path "" then d0.config_path else config_path;
    }
    touch
    touch
    content ← query (λ w. get d.config_path w.files)
    c ← read_config json dir d content
    assign (λ w. record w { memory = c; hooked = false })

  -- main.go: what runServer does with the configuration. A fresh process remembers nothing.
  unfoldable pub start :
      Cipher
      → Json F B
      → (drawn nonce : SecretKey → ℕ) → List SecretKey
      → (dir default_path config_path : String) → Exec (World F B) (Unit {0})
  unfolding load_or_create_at sync_encrypted_secrets
  start k json drawn nonce order dir default_path config_path = do
    load_or_create_at json dir default_path config_path
    sync_encrypted_secrets k json drawn nonce order
