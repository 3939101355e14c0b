-- ===== src/Config/Atomic.antt =====
-- What Update leaves, whichever steps fault.
use frpilot.Prelude.{ℕ, ◌≡◌, ◌⊎◌, refl, Bool, String, List, [], ◌∷◌, inl, inr, arith, Bool-cases}
use frpilot.Prelude.Maps.{Map, put}
use frpilot.Cipher.{Cipher}
use frpilot.Exec.{Error, storage, Result, ok, err, Disk, tick, Result-cases, ◌>>=◌}
use frpilot.Exec.Keeps.{Keeps, Keeps-execute, Keeps-bind, keeps_rules}
use frpilot.Config.{FrpsConfig, AppConfig}
use frpilot.Config.Secrets.{
  World, SecretKey, store_secret, save_over, save_secret_if_changed, save_secrets, set_setting,
  get_setting, key_text, secret_of,
}
use frpilot.Config.Manager.{Json, public, fill_temp, persist, run_hook, update}

-- Saving secrets keeps what does not depend on the settings.
module _ {F B : Type 0} (P : World F B → Type 0)
    (settings_free : (w : World F B) (m : Map String) → P w → P (record w { settings = m })) where
  set_setting-Keeps : (key value : String) → Keeps P (set_setting key value)
  unfolding set_setting
  set_setting-Keeps key value = Keeps-execute _ (λ w. settings_free w _)

  store_secret-Keeps :
      (k : Cipher) (nonce : ℕ) (key plain : String) → Keeps P (store_secret k nonce key plain)
  unfolding store_secret
  store_secret-Keeps k nonce key plain = search (keeps_rules, set_setting-Keeps) depth 12

  save_over-Keeps :
      (k : Cipher) (nonce : ℕ) (key plain old : String) → Keeps P (save_over k nonce key plain old)
  unfolding save_over
  save_over-Keeps k nonce key plain old = search (keeps_rules, store_secret-Keeps) depth 12

  save_secret_if_changed-Keeps :
      (k : Cipher) (nonce : ℕ) (key plain : String)
      → Keeps P (save_secret_if_changed k nonce key plain)
  unfolding save_secret_if_changed get_setting
  save_secret_if_changed-Keeps k nonce key plain = search (keeps_rules, save_over-Keeps) depth 12

  save_secrets-Keeps :
      (k : Cipher) (nonce : SecretKey → ℕ) (order : List SecretKey) (f : FrpsConfig)
      → Keeps P (save_secrets k nonce order f)
  unfolding save_secrets
  save_secrets-Keeps k nonce [] f = search keeps_rules
  save_secrets-Keeps k nonce (key ∷ order) f =
      Keeps-bind _ _ (save_secret_if_changed-Keeps k (nonce key) (key_text key) (secret_of f key))
        (λ _. save_secrets-Keeps k nonce order f)

  pub run_hook-Keeps :
      (k : Cipher) (nonce : SecretKey → ℕ) (order : List SecretKey) (c : AppConfig F)
      (hooked : Bool)
      → Keeps P (run_hook k nonce order c hooked)
  unfolding run_hook
  run_hook-Keeps k nonce order c hooked = search (keeps_rules, save_secrets-Keeps) depth 12

module _ {F B : Type 0} where
  -- The memory, the settings and the hook are as they were.
  abbrev Untouched : Disk (World F B) → Disk (World F B) → Type 0
  Untouched d d' =
      (d'.rows.memory ≡ d.rows.memory)
      × (d'.rows.settings ≡ d.rows.settings)
      × (d'.rows.hooked ≡ d.rows.hooked)

  fill_temp_lem :
      (path : String) (b : B) (d : Disk (World F B))
      → let r = fill_temp path b d in
        Untouched d r.1
        × (((r.0 ≡ ok tt) × (r.1.rows.files ≡ put path b d.rows.files))
            ⊎ ((r.0 ≡ err storage) × (r.1.rows.files ≡ d.rows.files)))
  unfolding fill_temp ◌>>=◌
  fill_temp_lem path b d = ground arith

  -- Saving has put the file in place, or has left every file as it was.
  abbrev Saves :
      Json F B → AppConfig F → Disk (World F B) → Result (Unit {0}) × Disk (World F B) → Type 0
  Saves json c d r =
      ((b : B) × (r.0 ≡ ok tt)
        × (json.print (public c) ≡ ok b)
        × (r.1.rows.files ≡ put c.config_path b d.rows.files))
      ⊎ ((e : Error) × (r.0 ≡ err e) × (r.1.rows.files ≡ d.rows.files))

  pub persist-Saves :
      (json : Json F B) (c : AppConfig F) (d : Disk (World F B))
      → Untouched d (persist json c d).1 × Saves json c d (persist json c d)
  unfolding persist ◌>>=◌
  persist-Saves json c d = elim (Result-cases (json.print (public c))) [
    | inr (x, e) ↦ rw (persist, e) ((refl, refl, refl), inr (x, refl, refl))
    | inl (b, e) ↦ elim (Bool-cases (d.fault d.count)) [
      | inl t ↦ rw (persist, e, t) ((refl, refl, refl), inr (storage, refl, refl))
      | inr t ↦
          let (same, out) = fill_temp_lem c.config_path b (tick d) in
          (
            ground arith,
            elim out [
              | inl o ↦ inl (b, ground arith, e, ground arith)
              | inr o ↦ inr (storage, ground arith, ground arith)
            ],
          )
    ]
  ]

  -- Either the change is in the file and in memory, or neither has changed.
  abbrev pub AllOrNothing :
      Json F B → AppConfig F → Disk (World F B) → Result (Unit {0}) × Disk (World F B) → Type 0
  AllOrNothing json c d r =
      ((b : B) × (r.0 ≡ ok tt)
        × (json.print (public c) ≡ ok b)
        × (r.1.rows.files ≡ put c.config_path b d.rows.files)
        × (r.1.rows.memory ≡ c))
      ⊎ ((e : Error) × (r.0 ≡ err e)
          × (r.1.rows.files ≡ d.rows.files)
          × (r.1.rows.memory ≡ d.rows.memory))

  -- Update, whichever steps fault: a success means that the file at the path of the configuration
  -- has what is public of the changed configuration, every other file is as it was, and the memory
  -- holds the changed configuration; a failure leaves every file and the memory as they were.
  pub update-AllOrNothing :
      (k : Cipher) (json : Json F B) (nonce : SecretKey → ℕ) (order : List SecretKey)
      (change : AppConfig F → AppConfig F) (d : Disk (World F B))
      → AllOrNothing json (change d.rows.memory) d (update k json nonce order change d)
  unfolding update ◌>>=◌
  update-AllOrNothing k json nonce order change d =
      let c = change d.rows.memory in
      let (r, d') = run_hook k nonce order c d.rows.hooked d in
      let memory =
        (run_hook-Keeps (λ w. w.memory ≡ d.rows.memory) (λ w m h. h) k nonce order c
            d.rows.hooked).at
          d refl in
      let files =
        (run_hook-Keeps (λ w. w.files ≡ d.rows.files) (λ w m h. h) k nonce order c d.rows.hooked).at
          d refl in
      elim (Result-cases (run_hook k nonce order c d.rows.hooked d).0) [
        | inr (x, e) ↦ inr (x, ground arith, ground arith, ground arith)
        | inl (u, e) ↦
            let (same, out) = persist-Saves json c (run_hook k nonce order c d.rows.hooked d).1 in
            elim out [
              | inl (b, o, p, fs) ↦ inl (b, ground arith, p, ground arith, ground arith)
              | inr (x, o, fs) ↦ inr (x, ground arith, ground arith, ground arith)
            ]
      ]
