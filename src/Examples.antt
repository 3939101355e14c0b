-- ===== src/Examples.antt =====
-- Concrete runs: for each parameter of the development a function that has what is asked of it,
-- and in the modules below, uses of the theorems.
pub mod Accounts
pub mod Requests
pub mod Machines
pub mod Shaping
pub mod Reports
pub mod Flows
pub mod Jobs
pub mod Settings
pub mod Loops
pub mod Lines
pub mod Rounds
pub mod Detection
pub mod Rows
use frpilot.Prelude.{
  ℕ, ◌+◌, ◌-◌, ◌*◌, ◌/◌, ◌≡◌, refl, String, str_eq, eq_iff, Bool, true, false, if◌then◌else◌, leb,
  ltb, ◌&&◌, arith, ℤ, pos, pos_part,
}
use frpilot.Exec.{Result, ok, err, crypto_failed}
use frpilot.Platform.{Platform}
use frpilot.Floats.{Floats}
use frpilot.Cipher.{Cipher}

pub own_hash : (p h : String) → ok p ≡ ok h → str_eq h p ≡ true
own_hash p h e = ground (arith, eq_iff h p)

pub unsealed :
    (p c : String) → (if str_eq p "" then err crypto_failed else ok p) ≡ ok c → ok c ≡ ok p
unsealed p c e = ground arith

pub sealed_some :
    (p c : String) → (if str_eq p "" then err crypto_failed else ok p) ≡ ok c → str_eq c "" ≡ false
sealed_some p c e = ground (arith, eq_iff c p)

-- A platform with letters a to z and digits, where a password is its own hash.
abbrev pub plain : Platform
plain = record {
  is_letter = λ c. leb b'a' c && leb c b'z';
  is_digit = λ c. leb b'0' c && leb c b'9';
  to_lower = λ s. s;
  hash = λ salt p. ok p;
  matches = λ h p. str_eq h p;
  dummy_hash = "";
  hash_matches = λ salt. own_hash;
}

-- Whole numbers in place of float64.
abbrev pub whole : Floats
whole = record {
  F = ℕ;
  of_int = pos_part;
  to_int = pos;
  add = λ a b. a + b;
  sub = λ a b. a - b;
  mul = λ a b. a * b;
  div = λ a b. a / b;
  lt = ltb;
  le = leb;
}

-- A cipher that leaves the text as it is, and refuses the empty one.
abbrev pub clear : Cipher
clear = record {
  seal = λ nonce p. if str_eq p "" then err crypto_failed else ok p;
  open_sealed = λ c. ok c;
  open-seal = λ nonce. unsealed;
  seal_some = λ nonce. sealed_some;
}
