-- ===== src/Credentials.antt =====
-- src/crypto.rs: comparing and verifying passwords, the encoding of authenticator secrets, and the
-- checks on identifiers and names.
pub mod Equality
pub mod Base32
pub mod Names
mod Tests
use Prim.Native.Nat.{bit_or, bit_xor}
use arcade_launcher_server.Base.{
  ℕ, Bool, true, false, not, ◌||◌, Option, none, some, List, [], ◌∷◌, length, Text, codes, text_eq,
  starts_with, split_on, ◌==◌, if◌then◌else◌,
}

-- `diff |= x ^ y` for the pairs that `zip` makes.
unfoldable pub differences : ℕ → List ℕ → List ℕ → ℕ
differences diff (x ∷ a) (y ∷ b) = differences (bit_or diff (bit_xor x y)) a b
differences diff _ _ = diff

unfoldable pub constant_eq : List ℕ → List ℕ → Bool
unfolding differences
constant_eq a b = if not (length a == length b) then false else differences 0 a b == 0

-- The crates that check passwords. `verify_argon2` is of a password and a stored text, and false
-- where the text does not parse; `scrypt` is of a password, a salt and the wanted length, at
-- log2(N) = 14, r = 8 and p = 1.
pub record PasswordCrates : Type 0 where
  pub verify_argon2 : Text → Text → Bool
  pub url_safe_decode : Text → Option (List ℕ)
  pub scrypt : Text → List ℕ → ℕ → Option (List ℕ)

abbrev equals : Option (List ℕ) → List ℕ → Bool
equals none expected = false
equals (some out) expected = constant_eq out expected

abbrev scrypt_parts : PasswordCrates → Text → Text → Text → Bool
scrypt_parts x password salt expected = elim (x.url_safe_decode salt) [
  | none ↦ false
  | some s ↦ elim (x.url_safe_decode expected) [
    | none ↦ false
    | some e ↦ equals (x.scrypt password s (length e)) e
  ]
]

abbrev verify_parts : PasswordCrates → Text → List Text → Bool
verify_parts x password (name ∷ cost ∷ salt ∷ expected ∷ []) =
    if not (text_eq name (codes "scrypt")) then false else scrypt_parts x password salt expected
verify_parts x password _ = false

unfoldable pub verify_scrypt : PasswordCrates → Text → Text → Bool
unfolding constant_eq
verify_scrypt x password stored = verify_parts x password (split_on b'$' stored)

unfoldable pub verify_password_any : PasswordCrates → Text → Text → Bool
unfolding verify_scrypt
verify_password_any x password stored =
    if starts_with stored (codes "scrypt$")
    then verify_scrypt x password stored
    else if starts_with stored (codes "$argon2")
    then x.verify_argon2 password stored
    else false
