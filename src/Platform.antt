-- ===== src/Platform.antt =====
-- What the program takes from Go's Unicode tables and from golang.org/x/crypto/bcrypt, neither of
-- which is in the repository.
use frpilot.Prelude.{ℕ, String, ◌≡◌, Bool, true}
use frpilot.Exec.{Result, ok}

pub record Platform : Type 0 where
  -- unicode.IsLetter, unicode.IsDigit, strings.ToLower
  pub is_letter : ℕ → Bool
  pub is_digit : ℕ → Bool
  pub to_lower : String → String
  -- bcrypt.GenerateFromPassword under a salt, and bcrypt.CompareHashAndPassword
  pub hash : ℕ → String → Result String
  pub matches : String → String → Bool
  -- dummyPasswordHash, made once when the program starts
  pub dummy_hash : String
  -- A password matches the hash that was made from it.
  pub hash_matches : (salt : ℕ) (p h : String) → hash salt p ≡ ok h → matches h p ≡ true
