-- ===== src/Cipher.antt =====
-- internal/store/store.go: EncryptSecret and DecryptSecret over AES-GCM and base64, which are a
-- parameter: `seal` under a nonce and the host's key, and `open`.
use frpilot.Prelude.{ℕ, String, str_eq, ◌≡◌, false, if◌then◌else◌}
use frpilot.Exec.{Result, ok}

pub record Cipher : Type 0 where
  pub seal : ℕ → String → Result String
  pub open_sealed : String → Result String
  -- What was sealed opens to the plain text, and is not the empty text.
  pub open-seal : (nonce : ℕ) (p c : String) → seal nonce p ≡ ok c → open_sealed c ≡ ok p
  pub seal_some : (nonce : ℕ) (p c : String) → seal nonce p ≡ ok c → str_eq c "" ≡ false

unfoldable pub encrypt_secret : Cipher → ℕ → String → Result String
encrypt_secret k nonce plain = if str_eq plain "" then ok "" else k.seal nonce plain

unfoldable pub decrypt_secret : Cipher → String → Result String
decrypt_secret k enc = if str_eq enc "" then ok "" else k.open_sealed enc
