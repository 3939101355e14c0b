-- ===== src/Config/Restart.antt =====
-- The steps of a start, and of the save in it, while nothing faults.
use text.Mathlib.TextPositions.{eq_refl}
use frpilot.Prelude.{
  ℕ, suc, ◌+◌, ◌≡◌, refl, sym, subst, ap, ◌∙◌, String, str_eq, eq_iff, true, false, if◌then◌else◌,
  none, some, List, [], ◌∷◌, inl, inr, arith, Bool-cases,
}
use frpilot.Prelude.Maps.{Map, get, put}
use frpilot.Floats.{Floats}
use frpilot.Cipher.{Cipher, decrypt_secret}
use frpilot.Exec.{ok, Disk, calm, calm_at, ◌>>=◌}
use frpilot.Config.{FrpsConfig, AppConfig}
use frpilot.Config.Defaults.{default_config, apply_defaults}
use frpilot.Config.Secrets.{
  World, SecretKey, dashboard_pass_key, ssh_pass_key, token_key, key_text, secret_of, or_empty,
  get_setting, save_over, save_secret_if_changed, save_secrets, migrate_secret,
  load_or_migrate_secret,
}
use frpilot.Config.Manager.{
  Json, public, fill_temp, persist, run_hook, update, sync_encrypted_secrets, read_config,
  load_or_create_at, with_secrets,
}
use frpilot.Config.Stored.{Recovers}

abbrev pub file_path : String → String → String
file_path default_path config_path = if str_eq config_path "" then default_path else config_path

abbrev pub defaults_at : (fl : Floats) → String → String → String → AppConfig fl.F
defaults_at fl dir default_path path = record (default_config fl dir default_path) {
  config_path = path;
}

-- What the file gives back of a configuration, before its secrets are put in.
abbrev pub bare : {F : Type 0} → AppConfig F → String → String → AppConfig F
bare c dir path = record (public c) { data_dir = dir; config_path = path }

abbrev pub restored : {F : Type 0} → AppConfig F → String → String → AppConfig F
restored c dir path =
    with_secrets c.frps.dashboard_pass c.frps.ssh_pass c.frps.token (bare c dir path)

recovered_empty :
    (k : Cipher) (f : FrpsConfig) (m : Map String) (key : SecretKey)
    → str_eq (or_empty (get (key_text key) m)) "" ≡ true
    → Recovers k f key m
    → ok "" ≡ ok (secret_of f key)
unfolding decrypt_secret
recovered_empty k f m key e r = rw e at r

module _ {F B : Type 0} (k : Cipher) (f : FrpsConfig) where
  load_stored :
      (nonce n : ℕ) (key : SecretKey) (w : World F B)
      → Recovers k f key w.settings
      → load_or_migrate_secret k nonce (key_text key) "" (calm_at w n)
        ≡ (ok (secret_of f key), calm_at w (suc n))
  unfolding load_or_migrate_secret migrate_secret get_setting ◌>>=◌
  load_stored nonce n key w r =
      elim (Bool-cases (str_eq (or_empty (get (key_text key) w.settings)) "")) [
        | inl e ↦
            let empty = recovered_empty k f w.settings key e r in
            rw (load_or_migrate_secret, e) (ap (λ x. (x, calm_at w (suc n))) empty)
        | inr e ↦ rw (load_or_migrate_secret, e, r) refl
      ]

  save_stored :
      (nonce n : ℕ) (key : SecretKey) (w : World F B)
      → Recovers k f key w.settings
      → (m : ℕ) × (save_secret_if_changed k nonce (key_text key) (secret_of f key) (calm_at w n)
          ≡ (ok tt, calm_at w m))
  unfolding save_secret_if_changed save_over get_setting ◌>>=◌
  save_stored nonce n key w r = elim (Bool-cases (str_eq (secret_of f key) "")) [
    | inl e ↦ (n, rw (save_secret_if_changed, e) refl)
    | inr e ↦ elim (Bool-cases (str_eq (or_empty (get (key_text key) w.settings)) "")) [
      | inl g ↦
          let empty : "" ≡ secret_of f key = cc (recovered_empty k f w.settings key g r) in
          absurd (ground (arith, eq_iff (secret_of f key) ""))
      | inr g ↦
          (suc n, rw (save_secret_if_changed, e, save_over, g, r, eq_refl (secret_of f key)) refl)
    ]
  ]

  save_all_stored :
      (nonce : SecretKey → ℕ) (order : List SecretKey) (n : ℕ) (w : World F B)
      → ((key : SecretKey) → Recovers k f key w.settings)
      → (m : ℕ) × (save_secrets k nonce order f (calm_at w n) ≡ (ok tt, calm_at w m))
  unfolding save_secrets ◌>>=◌
  save_all_stored nonce [] n w r = (n, refl)
  save_all_stored nonce (key ∷ order) n w r =
      let (m, e) = save_stored (nonce key) n key w (r key) in
      let (m', e') = save_all_stored nonce order m w r in (m', rw (save_secrets, e) e')

module _ {F B : Type 0} (json : Json F B) where
  persist-calm :
      (c : AppConfig F) (b : B) (n : ℕ) (w : World F B)
      → json.print (public c) ≡ ok b
      → persist json c (calm_at w n)
        ≡ (ok tt, calm_at (record w { files = put c.config_path b w.files; temp = none }) (n + 7))
  unfolding persist fill_temp ◌>>=◌
  persist-calm c b n w e = rw (persist, e) (ground arith)

  update_stored :
      (k : Cipher) (nonce : SecretKey → ℕ) (order : List SecretKey)
      (change : AppConfig F → AppConfig F) (b : B) (n : ℕ) (w : World F B)
      → ((key : SecretKey) → Recovers k (change w.memory).frps key w.settings)
      → json.print (public (change w.memory)) ≡ ok b
      → (s : Disk (World F B)) × (update k json nonce order change
            (calm_at (record w { hooked = true }) n)
          ≡ (ok tt, s))
        × (s.rows.memory ≡ change w.memory)
  unfolding update run_hook ◌>>=◌
  update_stored k nonce order change b n w r e =
      let c = change w.memory in
      let v = record w { hooked = true } in
      let (m, saved) = save_all_stored k c.frps nonce order n v r in
      let last = persist-calm c b m v e in
      (
        calm_at (record v { files = put c.config_path b w.files; temp = none; memory = c }) (m + 7),
        rw (update, saved, last) refl,
        refl,
      )

  pub sync-calm :
      (k : Cipher) (drawn nonce : SecretKey → ℕ) (order : List SecretKey) (c : AppConfig F)
      (dir path : String) (b : B) (n : ℕ) (w : World F B)
      → ((key : SecretKey) → Recovers k c.frps key w.settings)
      → restored c dir path ≡ c
      → json.print (public c) ≡ ok b
      → (s : Disk (World F B)) × (sync_encrypted_secrets k json drawn nonce order
            (calm_at (record w { memory = bare c dir path }) n)
          ≡ (ok tt, s))
        × (s.rows.memory ≡ c)
  unfolding sync_encrypted_secrets public ◌>>=◌
  sync-calm k drawn nonce order c dir path b n w r same e =
      let v = record w { memory = bare c dir path } in
      let a1 =
        load_stored k c.frps (drawn dashboard_pass_key) n dashboard_pass_key v
          (r dashboard_pass_key) in
      let a2 = load_stored k c.frps (drawn ssh_pass_key) (suc n) ssh_pass_key v (r ssh_pass_key) in
      let a3 = load_stored k c.frps (drawn token_key) (suc (suc n)) token_key v (r token_key) in
      let (s, done, memory) =
        update_stored k nonce order
          (with_secrets c.frps.dashboard_pass c.frps.ssh_pass c.frps.token) b (suc (suc (suc n))) v
          (λ key. subst (λ x. Recovers k x.frps key w.settings) (sym same) (r key))
          (subst (λ x. json.print (public x) ≡ ok b) (sym same) e) in
      (s, rw (sync_encrypted_secrets, a1, a2, a3) done, memory ∙ same)

module _ {B : Type 0} (fl : Floats) (json : Json fl.F B) where
  open fl use {F}

  pub load-calm :
      (dir default_path config_path : String) (b : B) (p : AppConfig F) (w : World F B)
      → let path = file_path default_path config_path in
        json.parse b ≡ ok p
        → get path w.files ≡ some b
        → load_or_create_at fl json dir default_path config_path (calm w) ≡ (
          ok tt,
          calm_at
              (record w {
                memory =
                    apply_defaults fl
                      (record p { data_dir = dir; config_path = path })
                      (defaults_at fl dir default_path path);
                hooked = false;
              })
              3,
        )
  unfolding load_or_create_at read_config default_config ◌>>=◌
  load-calm dir default_path config_path b p w e g = rw (load_or_create_at, g, read_config, e) refl
