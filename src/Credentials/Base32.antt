-- ===== src/Credentials/Base32.antt =====
-- src/crypto.rs: authenticator secrets in base 32. Shifted `u32` words wrap around; `|` of a word
-- whose low bits are clear is a sum.
pub mod RoundTrip
use arcade_launcher_server.Base.{
  ℕ, zero, suc, ◌+◌, ◌-◌, ◌*◌, ◌/◌, ◌%◌, ◌^◌, Bool, true, false, ◌&&◌, ◌||◌, Option, none, some,
  List, [], ◌∷◌, ◌++◌, Text, codes, is_whitespace, ◌==◌, leb, if◌then◌else◌, Result, ok, err,
}

abbrev pub alphabet : Text
alphabet = codes "ABCDEFGHIJKLMNOPQRSTUVWXYZ234567"

-- Indexing; out of range is never reached.
unfoldable pub nth : ℕ → Text → ℕ
nth n [] = 0
nth zero (c ∷ s) = c
nth (suc n) (c ∷ s) = nth n s

unfoldable pub letter : ℕ → ℕ
unfolding nth
letter i = nth i alphabet

-- `while bits >= 5`, with the bits left; the fuel is their number before it.
unfoldable pub emit : ℕ → ℕ → ℕ → Text × ℕ
emit zero buffer bits = ([], bits)
emit (suc fuel) buffer bits = elim (leb 5 bits) [
  | true ↦
      let rest = emit fuel buffer (bits - 5) in
      (letter (buffer / 2 ^ (bits - 5) % 32) ∷ rest.0, rest.1)
  | false ↦ ([], bits)
]

abbrev pub shift_in : ℕ → ℕ → ℕ → ℕ
shift_in width buffer v = buffer * width % 2 ^ 32 + v

unfoldable pub encode_from : ℕ → ℕ → List ℕ → Text
unfolding emit letter
encode_from buffer bits [] =
    if leb 1 bits then letter (buffer * 2 ^ (5 - bits) % 2 ^ 32 % 32) ∷ [] else []
encode_from buffer bits (b ∷ bytes) =
    let out = emit (bits + 8) (shift_in 256 buffer b) (bits + 8) in
    out.0 ++ encode_from (shift_in 256 buffer b) out.1 bytes

unfoldable pub base32_encode : List ℕ → Text
unfolding encode_from
base32_encode bytes = encode_from 0 0 bytes

-- The five bits of a letter, in either case, or of a digit.
unfoldable pub value : ℕ → Option ℕ
value c =
    if leb b'A' c && leb c b'Z'
    then some (c - b'A')
    else if leb b'a' c && leb c b'z'
    then some (c - b'a')
    else if leb b'2' c && leb c b'7'
    then some (c - b'2' + 26)
    else none

pub data SecretError : Type 0 where
  invalid_secret : SecretError

abbrev pub push : ℕ → Result (List ℕ) SecretError → Result (List ℕ) SecretError
push byte (ok out) = ok (byte ∷ out)
push byte (err e) = err e

unfoldable pub decode_from : ℕ → ℕ → Text → Result (List ℕ) SecretError
unfolding is_whitespace value
decode_from buffer bits [] = ok []
decode_from buffer bits (c ∷ s) = elim (is_whitespace c || c == b'=') [
  | true ↦ decode_from buffer bits s
  | false ↦ elim (value c) [
    | none ↦ err invalid_secret
    | some v ↦ elim (leb 8 (bits + 5)) [
      | true ↦
          push (shift_in 32 buffer v / 2 ^ (bits + 5 - 8) % 256)
            (decode_from (shift_in 32 buffer v) (bits + 5 - 8) s)
      | false ↦ decode_from (shift_in 32 buffer v) (bits + 5) s
    ]
  ]
]

unfoldable pub base32_decode : Text → Result (List ℕ) SecretError
unfolding decode_from
base32_decode s = decode_from 0 0 s
