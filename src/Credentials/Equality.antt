-- ===== src/Credentials/Equality.antt =====
-- src/crypto.rs: what the comparison without early exit computes.
use Prim.Native.Nat.{digits, differ, bit_or, bit_xor, bit_or-bitwise, bit_xor-bitwise}
use arcade_launcher_server.Base.{
  ℕ, zero, suc, ◌/◌, ◌%◌, ◌≤◌, ◌≡◌, ◌↔◌, ◌∙◌, refl, sym, true, max, length, List, [], ◌∷◌, arith,
}
use arcade_launcher_server.Credentials.{differences, constant_eq}

or_digits : (n a b : ℕ) → a ≤ n → digits (λ b. b) max n a b ≡ 0 → (a ≡ 0) × (b ≡ 0)
or_digits zero zero b le h = (refl, h)
or_digits zero (suc a) b le h = absurd (omega arith)
or_digits (suc n) zero b le h = (refl, h)
or_digits (suc n) (suc a) b le h =
    absurd (omega (arith, or_digits n (suc a / 2) (b / 2) (omega arith) (omega arith)))

differ-zero : (x y : ℕ) → differ x y ≡ 0 → x ≡ y
differ-zero zero y h = sym h
differ-zero (suc x) zero h = absurd (omega arith)
differ-zero (suc x) (suc y) h = omega (arith, differ-zero x y h)

differ_self : (x : ℕ) → differ x x ≡ 0
differ_self zero = refl
differ_self (suc x) = differ_self x

xor_digits : (n a b : ℕ) → a ≤ n → digits (λ b. b) differ n a b ≡ 0 → a ≡ b
xor_digits zero zero b le h = sym h
xor_digits zero (suc a) b le h = absurd (omega arith)
xor_digits (suc n) zero b le h = sym h
xor_digits (suc n) (suc a) b le h =
    let high = xor_digits n (suc a / 2) (b / 2) (omega arith) (omega arith) in
    let low = differ-zero (suc a % 2) (b % 2) (omega arith) in omega arith

xor_self : (n a : ℕ) → a ≤ n → digits (λ b. b) differ n a a ≡ 0
xor_self zero zero le = refl
xor_self (suc n) zero le = refl
xor_self zero (suc a) le = absurd (omega arith)
xor_self (suc n) (suc a) le =
    omega (arith, xor_self n (suc a / 2) (omega arith), differ_self (suc a % 2))

bit_or-zero : (a b : ℕ) → bit_or a b ≡ 0 → (a ≡ 0) × (b ≡ 0)
bit_or-zero a b h = or_digits a a b (omega arith) (sym (bit_or-bitwise a b) ∙ h)

bit_xor-zero : (a b : ℕ) → bit_xor a b ≡ 0 → a ≡ b
bit_xor-zero a b h = xor_digits a a b (omega arith) (sym (bit_xor-bitwise a b) ∙ h)

differences-zero :
    (diff : ℕ) (a b : List ℕ)
    → length a ≡ length b
    → differences diff a b ≡ 0
    → (diff ≡ 0) × (a ≡ b)
unfolding differences
differences-zero diff [] [] same h = (h, refl)
differences-zero diff [] (y ∷ b) same h = absurd (omega arith)
differences-zero diff (x ∷ a) [] same h = absurd (omega arith)
differences-zero diff (x ∷ a) (y ∷ b) same h =
    let (now, later) = differences-zero (bit_or diff (bit_xor x y)) a b (omega arith) h in
    let (before, here) = bit_or-zero diff (bit_xor x y) now in
    (before, cc (bit_xor-zero x y here, later))

differences_self : (a : List ℕ) → differences 0 a a ≡ 0
unfolding differences
differences_self [] = refl
differences_self (x ∷ a) =
    let e : bit_xor x x ≡ 0 = bit_xor-bitwise x x ∙ xor_self x x (omega arith) in
    rw e (differences_self a)

-- The comparison that looks at every byte is equality: it accepts two sequences of bytes exactly
-- when they have one length and the same bytes at every place.
pub constant_eq_iff : (a b : List ℕ) → (constant_eq a b ≡ true) ↔ (a ≡ b)
unfolding constant_eq
constant_eq_iff a b = (
  λ h. (differences-zero 0 a b (ground arith) (ground arith)).1,
  λ e. rw e (ground (arith, differences_self b)),
)
