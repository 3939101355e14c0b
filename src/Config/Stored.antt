-- ===== src/Config/Stored.antt =====
-- The secrets that the settings hold after a save.
use frpilot.Prelude.{
  ℕ, ◌≡◌, ◌⊎◌, refl, sym, subst, ap, ◌∙◌, String, str_eq, eq_iff, true, false, List, [], ◌∷◌, inl,
  inr, arith, Bool-cases, any,
}
use text.Mathlib.TextPositions.{eq_refl}
use frpilot.Prelude.Maps.{Map, get, put, get-put}
use frpilot.Cipher.{Cipher, encrypt_secret, decrypt_secret}
use frpilot.Exec.{Error, storage, Result, ok, err, Disk, tick, Result-cases, ◌>>=◌}
use frpilot.Config.{FrpsConfig}
use frpilot.Config.Secrets.{
  World, SecretKey, dashboard_pass_key, ssh_pass_key, token_key, key_text, secret_of, or_empty,
  get_setting, set_setting, store_secret, save_over, save_secret_if_changed, save_secrets,
}

-- What DecryptSecret makes of the setting.
abbrev pub recovered : Cipher → Map String → String → Result String
recovered k m key = decrypt_secret k (or_empty (get key m))

-- The setting of a key is the encrypted secret of the configuration.
abbrev pub Recovers : Cipher → FrpsConfig → SecretKey → Map String → Type 0
Recovers k f key m = recovered k m (key_text key) ≡ ok (secret_of f key)

same_key : (key other : SecretKey) → str_eq (key_text key) (key_text other) ≡ true → key ≡ other
same_key dashboard_pass_key dashboard_pass_key h = refl
same_key dashboard_pass_key ssh_pass_key h = cc
same_key dashboard_pass_key token_key h = cc
same_key ssh_pass_key dashboard_pass_key h = cc
same_key ssh_pass_key ssh_pass_key h = refl
same_key ssh_pass_key token_key h = cc
same_key token_key dashboard_pass_key h = cc
same_key token_key ssh_pass_key h = cc
same_key token_key token_key h = refl

-- The hook ranges over the key.
abbrev pub Covers : List SecretKey → SecretKey → Type 0
Covers order key = any (λ o. str_eq (key_text o) (key_text key)) order ≡ true

Recovers-put :
    (k : Cipher) (f : FrpsConfig) (key other : SecretKey) (enc : String) (m : Map String)
    → decrypt_secret k enc ≡ ok (secret_of f key)
    → (str_eq (key_text key) (key_text other) ≡ true) ⊎ Recovers k f other m
    → Recovers k f other (put (key_text key) enc m)
Recovers-put k f key other enc m e h = elim (Bool-cases (str_eq (key_text key) (key_text other))) [
  | inl t ↦
      rw (get-put (key_text key) (key_text other) enc m, t)
        (e ∙ ap (λ o. ok (secret_of f o)) (same_key key other t))
  | inr t ↦ elim h [
    | inl u ↦ absurd (cc)
    | inr r ↦ rw (get-put (key_text key) (key_text other) enc m, t) r
  ]
]

decrypt-encrypt_some :
    (k : Cipher) (nonce : ℕ) (plain enc : String)
    → encrypt_secret k nonce plain ≡ ok enc
    → decrypt_secret k enc ≡ ok plain
unfolding encrypt_secret decrypt_secret
decrypt-encrypt_some k nonce plain enc h = elim (Bool-cases (str_eq plain "")) [
  | inl e ↦ ground (arith, eq_iff plain "", eq_iff enc "")
  | inr e ↦
      let sealed : k.seal nonce plain ≡ ok enc = rw e at h in
      rw (k.seal_some nonce plain enc sealed) (k.open-seal nonce plain enc sealed)
]

module _ {F B : Type 0} (k : Cipher) where
  -- The settings are as they were, or have the text under the key in encrypted form. A success that
  -- leaves them means that there was nothing to save, or that it was saved already.
  Saved : String → String → Disk (World F B) → Result (Unit {0}) × Disk (World F B) → Type 0
  Saved key plain d r =
      ((r.1.rows.settings ≡ d.rows.settings)
        × (((e : Error) × (r.0 ≡ err e))
            ⊎ (str_eq plain "" ≡ true)
            ⊎ (recovered k d.rows.settings key ≡ ok plain)))
      ⊎ ((enc : String) × (r.1.rows.settings ≡ put key enc d.rows.settings)
          × (decrypt_secret k enc ≡ ok plain))

  store_secret-Saved :
      (nonce : ℕ) (key plain : String) (d : Disk (World F B))
      → Saved key plain d (store_secret k nonce key plain d)
  unfolding Saved store_secret set_setting ◌>>=◌
  store_secret-Saved nonce key plain d = elim (Result-cases (encrypt_secret k nonce plain)) [
    | inr (x, e) ↦ inl (ground arith, inl (x, ground arith))
    | inl (enc, e) ↦ elim (Bool-cases (d.fault d.count)) [
      | inl t ↦ inl (ground arith, inl (storage, ground arith))
      | inr t ↦ inr (enc, ground arith, decrypt-encrypt_some k nonce plain enc e)
    ]
  ]

  save_over-Saved :
      (nonce : ℕ) (key plain : String) (d : Disk (World F B))
      → Saved key plain d (save_over k nonce key plain (or_empty (get key d.rows.settings)) d)
  unfolding Saved save_over ◌>>=◌
  save_over-Saved nonce key plain d =
      let old = or_empty (get key d.rows.settings) in
      let stored = store_secret-Saved nonce key plain d in
      elim (Bool-cases (str_eq old "")) [
        | inl e ↦
            let same : save_over k nonce key plain old d ≡ store_secret k nonce key plain d =
              rw (save_over, e) refl in
            subst (Saved key plain d) (sym same) stored
        | inr e ↦ elim (Result-cases (decrypt_secret k old)) [
          | inr (x, g) ↦ rw (save_over, e, g) (inl (refl, inl (x, refl)))
          | inl (p, g) ↦ elim (Bool-cases (str_eq p plain)) [
            | inl t ↦ rw (save_over, e, g, t) (inl (refl, inr (inr (ap ok ((eq_iff p plain).0 t)))))
            | inr t ↦
                let same : save_over k nonce key plain old d ≡ store_secret k nonce key plain d =
                  rw (save_over, e, g, t) refl in
                subst (Saved key plain d) (sym same) stored
          ]
        ]
      ]

  save_secret_if_changed-Saved :
      (nonce : ℕ) (key plain : String) (d : Disk (World F B))
      → Saved key plain d (save_secret_if_changed k nonce key plain d)
  unfolding Saved save_secret_if_changed get_setting ◌>>=◌
  save_secret_if_changed-Saved nonce key plain d = elim (Bool-cases (str_eq plain "")) [
    | inl e ↦ rw (save_secret_if_changed, e) (inl (refl, inr (inl refl)))
    | inr e ↦ elim (Bool-cases (d.fault d.count)) [
      | inl t ↦ rw (save_secret_if_changed, e, t) (inl (refl, inl (storage, refl)))
      | inr t ↦
          let same : save_secret_if_changed k nonce key plain d
              ≡ save_over k nonce key plain (or_empty (get key d.rows.settings)) (tick d) =
            rw (save_secret_if_changed, e, t) refl in
          subst (Saved key plain d) (sym same) (save_over-Saved nonce key plain (tick d))
    ]
  ]

  -- Saving one secret keeps those that are stored.
  saved_one :
      (f : FrpsConfig) (nonce : ℕ) (key other : SecretKey) (d : Disk (World F B))
      → Recovers k f other d.rows.settings
      → Recovers k f other
          (save_secret_if_changed k nonce (key_text key) (secret_of f key) d).1.rows.settings
  unfolding Saved
  saved_one f nonce key other d h =
      elim (save_secret_if_changed-Saved nonce (key_text key) (secret_of f key) d) [
        | inl (same, _) ↦ subst (Recovers k f other) (sym same) h
        | inr (enc, new, e) ↦
            subst (Recovers k f other) (sym new)
              (Recovers-put k f key other enc d.rows.settings e (inr h))
      ]

  -- A secret that is not empty, or one that is empty and has no setting.
  abbrev pub Storable : FrpsConfig → SecretKey → Disk (World F B) → Type 0
  Storable f key d = (str_eq (secret_of f key) "" ≡ false) ⊎ Recovers k f key d.rows.settings

  saved_self :
      (f : FrpsConfig) (nonce : ℕ) (key : SecretKey) (d : Disk (World F B))
      → Storable f key d
      → let r = save_secret_if_changed k nonce (key_text key) (secret_of f key) d in
        r.0 ≡ ok tt → Recovers k f key r.1.rows.settings
  unfolding Saved
  saved_self f nonce key d h done =
      elim (save_secret_if_changed-Saved nonce (key_text key) (secret_of f key) d) [
        | inr (enc, new, e) ↦
            subst (Recovers k f key) (sym new)
              (Recovers-put k f key key enc d.rows.settings e (inl (eq_refl (key_text key))))
        | inl (same, why) ↦ subst (Recovers k f key) (sym same) (elim h [
          | inr r ↦ r
          | inl some_secret ↦ elim why [
            | inl (x, failed) ↦ absurd (cc)
            | inr (inl none_given) ↦ absurd (cc)
            | inr (inr r) ↦ r
          ]
        ])
      ]

  pub saved_kept :
      (f : FrpsConfig) (nonce : SecretKey → ℕ) (order : List SecretKey) (key : SecretKey)
      (d : Disk (World F B))
      → Recovers k f key d.rows.settings
      → Recovers k f key (save_secrets k nonce order f d).1.rows.settings
  unfolding save_secrets ◌>>=◌
  saved_kept f nonce [] key d h = h
  saved_kept f nonce (o ∷ order) key d h =
      let h' = saved_one f (nonce o) o key d h in
      let d' = (save_secret_if_changed k (nonce o) (key_text o) (secret_of f o) d).1 in
      elim (Result-cases (save_secret_if_changed k (nonce o) (key_text o) (secret_of f o) d).0) [
        | inr (x, e) ↦ rw e h'
        | inl (u, e) ↦ rw e (saved_kept f nonce order key d' h')
      ]

  -- A save that succeeds has stored each secret that it ranged over.
  pub saved_all :
      (f : FrpsConfig) (nonce : SecretKey → ℕ) (order : List SecretKey) (key : SecretKey)
      (d : Disk (World F B))
      → Covers order key
      → Storable f key d
      → (save_secrets k nonce order f d).0 ≡ ok tt
      → Recovers k f key (save_secrets k nonce order f d).1.rows.settings
  unfolding save_secrets ◌>>=◌
  saved_all f nonce [] key d covered h done = absurd (cc)
  saved_all f nonce (o ∷ order) key d covered h done =
      let d' = (save_secret_if_changed k (nonce o) (key_text o) (secret_of f o) d).1 in
      elim (Result-cases (save_secret_if_changed k (nonce o) (key_text o) (secret_of f o) d).0) [
        | inr (x, e) ↦ absurd (cc (rw e at done))
        | inl (u, e) ↦ rw e (elim (Bool-cases (str_eq (key_text o) (key_text key))) [
          | inl t ↦ saved_kept f nonce order key d' (
              subst (λ j. Recovers k f j d'.rows.settings) (same_key o key t)
                (saved_self f (nonce o) o d (subst (λ j. Storable f j d) (sym (same_key o key t)) h)
                  e))
          | inr t ↦
              saved_all f nonce order key d' (rw t at covered)
                (elim h [
                  | inl some_secret ↦ inl some_secret
                  | inr r ↦ inr (saved_one f (nonce o) o key d r)
                ])
                (rw e at done)
        ])
      ]
