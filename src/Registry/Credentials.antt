-- ===== src/Registry/Credentials.antt =====
-- What UpdateCredentials does to a machine.
use frpilot.Prelude.{
  ℕ, ◌≡◌, refl, String, str_eq, eq_iff, true, false, ◌&&◌, ◌==◌, some, List, [], ◌∷◌, inl, inr, ◌⊎◌,
  arith, sym, subst, find?, change, Bool-cases, Option-cases,
}
use frpilot.Prelude.Text.{trim_space}
use frpilot.Cipher.{Cipher, encrypt_secret, decrypt_secret}
use frpilot.Exec.{ok, Disk, Result-cases, ◌>>=◌}
use frpilot.Store.Machines.{
  Machine, Fleet, has_id, get_machine_by_id, with_credentials, set_machine_credentials,
  update_machine, scan_machine, machine_configured,
}
use frpilot.Registry.{renewed, update_credentials}

find_changed :
    (i : ℕ) (g : Machine → Machine) (ms : List Machine) (m : Machine)
    → ((x : Machine) → (g x).id ≡ x.id)
    → find? (has_id i) ms ≡ some m
    → find? (has_id i) (change (has_id i) g ms) ≡ some (g m)
find_changed i g [] m same e = cc
find_changed i g (x ∷ ms) m same e = elim (Bool-cases (x.id == i)) [
  | inl t ↦ ground (arith, same x)
  | inr t ↦ ground (arith, find_changed i g ms m same)
]

-- Encrypting a secret and decrypting it gives the secret back, the empty one included.
pub decrypt-encrypt :
    (k : Cipher) (nonce : ℕ) (p c : String)
    → encrypt_secret k nonce p ≡ ok c
    → decrypt_secret k c ≡ ok p
unfolding encrypt_secret decrypt_secret
decrypt-encrypt k nonce p c h = elim (Bool-cases (str_eq p "")) [
  | inl e ↦ ground (arith, eq_iff p "", eq_iff c "")
  | inr e ↦ ground (arith, k.seal_some nonce p c, k.open-seal nonce p c)
]

-- The stored secret after a password was given decrypts to it; without one it is the old secret.
renewed-decrypts :
    (k : Cipher) (n : ℕ) (old plain enc : String)
    → renewed k n old plain ≡ ok enc
    → ((str_eq plain "" ≡ false) × (decrypt_secret k enc ≡ ok plain))
      ⊎ ((str_eq plain "" ≡ true) × (enc ≡ old))
renewed-decrypts k n old plain enc h = elim (Bool-cases (str_eq plain "")) [
  | inl e ↦ inr (e, ground arith)
  | inr e ↦ inl (e, decrypt-encrypt k n plain enc (ground arith))
]

renewed-some :
    (k : Cipher) (n : ℕ) (old plain enc : String)
    → renewed k n old plain ≡ ok enc
    → (str_eq plain "" && str_eq old "") ≡ false
    → str_eq enc "" ≡ false
unfolding encrypt_secret
renewed-some k n old plain enc h given = elim (Bool-cases (str_eq plain "")) [
  | inl e ↦ ground (arith, e)
  | inr e ↦ ground (arith, k.seal_some n plain enc)
]

-- The two ciphertexts that a success of UpdateCredentials writes, and where.
written :
    (k : Cipher) (n n' now i : ℕ) (user pass sudo : String) (d : Disk Fleet)
    → (update_credentials k n n' now i user pass sudo d).0 ≡ ok tt
    → (m : Machine) × (enc enc' : String) × (find? (has_id i) d.rows.machines ≡ some m)
      × (renewed k n m.ssh_pass_enc pass ≡ ok enc)
      × ((str_eq pass "" && str_eq m.ssh_pass_enc "") ≡ false)
      × (str_eq (trim_space user) "" ≡ false)
      × ((update_credentials k n n' now i user pass sudo d).1.rows.machines
          ≡ change (has_id i) (with_credentials (trim_space user) enc enc' now) d.rows.machines)
unfolding update_credentials get_machine_by_id scan_machine set_machine_credentials update_machine
    ◌>>=◌
written k n n' now i user pass sudo d h = elim (Option-cases (find? (has_id i) d.rows.machines)) [
  | inl e ↦ absurd (ground arith)
  | inr (m, e) ↦ elim (Result-cases (renewed k n m.ssh_pass_enc pass)) [
    | inr (x, f) ↦ absurd (ground arith)
    | inl (enc, f) ↦ elim (Result-cases (renewed k n' m.sudo_pass_enc sudo)) [
      | inr (x, g) ↦ absurd (ground arith)
      | inl (enc', g) ↦ (m, enc, enc', e, f, ground arith, ground arith, ground arith)
    ]
  ]
]

-- A success of UpdateCredentials stores the trimmed user, which is not empty, and a password that
-- decrypts to the one given if one was given; it sets the status to "configured" and leaves the
-- monitoring switch as it was, so that a machine that is being monitored reads "configured".
pub update_credentials-row :
    (k : Cipher) (n n' now i : ℕ) (user pass sudo : String) (d : Disk Fleet)
    → (update_credentials k n n' now i user pass sudo d).0 ≡ ok tt
    → (m m' : Machine) × (find? (has_id i) d.rows.machines ≡ some m)
      × (find? (has_id i) (update_credentials k n n' now i user pass sudo d).1.rows.machines
          ≡ some m')
      × (m'.ssh_user ≡ trim_space user)
      × (str_eq m'.ssh_user "" ≡ false)
      × (((str_eq pass "" ≡ false) × (decrypt_secret k m'.ssh_pass_enc ≡ ok pass))
          ⊎ ((str_eq pass "" ≡ true) × (m'.ssh_pass_enc ≡ m.ssh_pass_enc)))
      × (str_eq m'.ssh_pass_enc "" ≡ false)
      × (m'.status ≡ machine_configured)
      × (m'.enabled ≡ m.enabled)
update_credentials-row k n n' now i user pass sudo d h =
    let (m, enc, enc', e, f, one, named, w) = written k n n' now i user pass sudo d h in
    (
      m,
      with_credentials (trim_space user) enc enc' now m,
      e,
      subst (λ ms. find? (has_id i) ms ≡ some (with_credentials (trim_space user) enc enc' now m))
          (sym w)
          (find_changed i (with_credentials (trim_space user) enc enc' now) d.rows.machines m
            (λ x. refl) e),
      refl,
      named,
      renewed-decrypts k n m.ssh_pass_enc pass enc f,
      renewed-some k n m.ssh_pass_enc pass enc f one,
      refl,
      refl,
    )
