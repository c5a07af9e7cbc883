-- ===== src/Credentials/Base32/RoundTrip.antt =====
-- src/crypto.rs: a secret that is written in base 32 is read back.
use arcade_launcher_server.Base.{
  ℕ, zero, suc, ◌+◌, ◌-◌, ◌*◌, ◌/◌, ◌%◌, ◌^◌, ◌<◌, ◌≡◌, ◌∙◌, ap, refl, Bool, true, false, not, ◌&&◌,
  ◌||◌, Option, none, some, List, [], ◌∷◌, Text, is_whitespace, ◌==◌, ==_iff, leb, All, Result, ok,
  arith,
}
use arcade_launcher_server.Credentials.Base32.{
  nth, letter, emit, shift_in, encode_from, base32_encode, value, SecretError, push, decode_from,
  base32_decode,
}

abbrev is_value : Option ℕ → ℕ → Bool
is_value none i = false
is_value (some v) i = v == i

reads : ℕ → Bool
unfolding letter value is_whitespace
reads i = not (is_whitespace (letter i) || letter i == b'=') && is_value (value (letter i)) i

all_read : ℕ → Bool
all_read zero = true
all_read (suc n) = reads n && all_read n

alphabet_reads : all_read 32 ≡ true
unfolding all_read reads letter nth value is_whitespace
alphabet_reads = refl

below-reads : (n i : ℕ) → all_read n ≡ true → i < n → reads i ≡ true
unfolding all_read
below-reads zero i h lt = absurd (omega arith)
below-reads (suc n) i h lt = ground (arith, below-reads n i)

letter-kept : (i : ℕ) → i < 32 → (is_whitespace (letter i) || letter i == b'=') ≡ false
letter-kept i lt = unfold reads in ground (arith, below-reads 32 i alphabet_reads lt)

is_value-some : (o : Option ℕ) (i : ℕ) → is_value o i ≡ true → o ≡ some i
is_value-some none i h = absurd cc
is_value-some (some v) i h = cc ((==_iff v i).0 h)

value-letter : (i : ℕ) → i < 32 → value (letter i) ≡ some i
value-letter i lt =
    unfold reads in
    is_value-some (value (letter i)) i (ground (arith, below-reads 32 i alphabet_reads lt))

-- A letter of the alphabet brings five bits, and a byte with the eighth one.
read-on :
    (d bits i : ℕ) (s : Text)
    → i < 32
    → leb 8 (bits + 5) ≡ false
    → decode_from d bits (letter i ∷ s) ≡ decode_from (shift_in 32 d i) (bits + 5) s
unfolding decode_from
read-on d bits i s lt few = rw (decode_from, letter-kept i lt, value-letter i lt, few) refl

read-byte :
    (d bits i : ℕ) (s : Text)
    → i < 32
    → leb 8 (bits + 5) ≡ true
    → decode_from d bits (letter i ∷ s)
      ≡ push
          (shift_in 32 d i / 2 ^ (bits + 5 - 8) % 256)
          (decode_from (shift_in 32 d i) (bits + 5 - 8) s)
unfolding decode_from
read-byte d bits i s lt many = rw (decode_from, letter-kept i lt, value-letter i lt, many) refl

-- The byte of which the encoder holds back `low` values of bits and the decoder has the others.
abbrev pending : ℕ → ℕ → ℕ → ℕ → ℕ
pending high low d e = d % high * low + e % low

abbrev IsBytes : List ℕ → Type 0
IsBytes = All (λ b. b < 256)

record IsSynced (bytes : List ℕ) : Type 0 where
  at0 : (d e : ℕ) → decode_from d 0 (encode_from e 0 bytes) ≡ ok bytes
  at3 : (d e : ℕ) → decode_from d 5 (encode_from e 3 bytes) ≡ ok (pending 32 8 d e ∷ bytes)
  at1 : (d e : ℕ) → decode_from d 7 (encode_from e 1 bytes) ≡ ok (pending 128 2 d e ∷ bytes)
  at4 : (d e : ℕ) → decode_from d 4 (encode_from e 4 bytes) ≡ ok (pending 16 16 d e ∷ bytes)
  at2 : (d e : ℕ) → decode_from d 6 (encode_from e 2 bytes) ≡ ok (pending 64 4 d e ∷ bytes)

abbrev Read : Type 0
Read = Result (List ℕ) SecretError

heads : (a b : ℕ) (bytes : List ℕ) → a ≡ b → ◌≡◌ {A = Read} (ok (a ∷ bytes)) (ok (b ∷ bytes))
heads a b bytes e = rw e refl

two_heads :
    (a b a' b' : ℕ) (bytes : List ℕ)
    → a ≡ a'
    → b ≡ b'
    → ◌≡◌ {A = Read} (ok (a ∷ b ∷ bytes)) (ok (a' ∷ b' ∷ bytes))
two_heads a b a' b' bytes e f = rw (e, f) refl

last_letter :
    (d bits p i : ℕ)
    → i < 32
    → leb 8 (bits + 5) ≡ true
    → shift_in 32 d i / 2 ^ (bits + 5 - 8) % 256 ≡ p
    → decode_from d bits (letter i ∷ []) ≡ ok (p ∷ [])
last_letter d bits p i lt many same =
    read-byte d bits i [] lt many ∙ (unfold decode_from in heads _ p [] same)

-- The low `low` bits at the end, filled up with zeros.
abbrev filled : ℕ → ℕ → ℕ
filled e low = e * 2 ^ (5 - low) % 2 ^ 32 % 32

none-IsSynced : IsSynced []
unfolding encode_from
none-IsSynced = record {
  at0 = λ d e. unfold decode_from in refl;
  at3 = λ d e. last_letter d 5 (pending 32 8 d e) (filled e 3) (omega arith) refl (omega arith);
  at1 = λ d e. last_letter d 7 (pending 128 2 d e) (filled e 1) (omega arith) refl (omega arith);
  at4 = λ d e. last_letter d 4 (pending 16 16 d e) (filled e 4) (omega arith) refl (omega arith);
  at2 = λ d e. last_letter d 6 (pending 64 4 d e) (filled e 2) (omega arith) refl (omega arith);
}

-- The five bits of the encoder's word that stand above the lowest `low`.
abbrev cut : ℕ → ℕ → ℕ
cut e low = e / 2 ^ low % 32

module _ (b : ℕ) (bytes : List ℕ) (byte : b < 256) (k : IsSynced bytes) (d e : ℕ) where
  abbrev word : ℕ
  word = shift_in 256 e b

  abbrev after_one : ℕ → ℕ
  after_one low = shift_in 32 d (cut word low)

  abbrev after_two : ℕ → ℕ → ℕ
  after_two first second = shift_in 32 (after_one first) (cut word second)

  from0 : decode_from d 0 (encode_from e 0 (b ∷ bytes)) ≡ ok (b ∷ bytes)
  unfolding encode_from emit
  from0 =
      read-on d 0 (cut word 3) _ (omega arith) refl
      ∙ k.at3 (after_one 3) word
      ∙ heads (pending 32 8 (after_one 3) word) b bytes (omega arith)

  from3 : decode_from d 5 (encode_from e 3 (b ∷ bytes)) ≡ ok (pending 32 8 d e ∷ b ∷ bytes)
  unfolding encode_from emit
  from3 =
      read-byte d 5 (cut word 6) _ (omega arith) refl
      ∙ ap (push (after_one 6 / 2 ^ 2 % 256))
          (read-on (after_one 6) 2 (cut word 1) _ (omega arith) refl ∙ k.at1 (after_two 6 1) word)
      ∙ two_heads (after_one 6 / 2 ^ 2 % 256) (pending 128 2 (after_two 6 1) word)
          (pending 32 8 d e) b bytes (omega arith) (omega arith)

  from1 : decode_from d 7 (encode_from e 1 (b ∷ bytes)) ≡ ok (pending 128 2 d e ∷ b ∷ bytes)
  unfolding encode_from emit
  from1 =
      read-byte d 7 (cut word 4) _ (omega arith) refl
      ∙ ap (push (after_one 4 / 2 ^ 4 % 256)) (k.at4 (after_one 4) word)
      ∙ two_heads (after_one 4 / 2 ^ 4 % 256) (pending 16 16 (after_one 4) word) (pending 128 2 d e)
          b bytes (omega arith) (omega arith)

  from4 : decode_from d 4 (encode_from e 4 (b ∷ bytes)) ≡ ok (pending 16 16 d e ∷ b ∷ bytes)
  unfolding encode_from emit
  from4 =
      read-byte d 4 (cut word 7) _ (omega arith) refl
      ∙ ap (push (after_one 7 / 2 ^ 1 % 256))
          (read-on (after_one 7) 1 (cut word 2) _ (omega arith) refl ∙ k.at2 (after_two 7 2) word)
      ∙ two_heads (after_one 7 / 2 ^ 1 % 256) (pending 64 4 (after_two 7 2) word)
          (pending 16 16 d e) b bytes (omega arith) (omega arith)

  from2 : decode_from d 6 (encode_from e 2 (b ∷ bytes)) ≡ ok (pending 64 4 d e ∷ b ∷ bytes)
  unfolding encode_from emit
  from2 =
      read-byte d 6 (cut word 5) _ (omega arith) refl
      ∙ ap (push (after_one 5 / 2 ^ 3 % 256)) (
          read-byte (after_one 5) 3 (cut word 0) _ (omega arith) refl
          ∙ ap (push (after_two 5 0 / 2 ^ 0 % 256)) (k.at0 (after_two 5 0) word))
      ∙ two_heads (after_one 5 / 2 ^ 3 % 256) (after_two 5 0 / 2 ^ 0 % 256) (pending 64 4 d e) b
          bytes (omega arith) (omega arith)

bytes-IsSynced : (bytes : List ℕ) → IsBytes bytes → IsSynced bytes
bytes-IsSynced [] h = none-IsSynced
bytes-IsSynced (b ∷ bytes) (h, hs) =
    let k = bytes-IsSynced bytes hs in
    record {
      at0 = from0 b bytes h k;
      at3 = from3 b bytes h k;
      at1 = from1 b bytes h k;
      at4 = from4 b bytes h k;
      at2 = from2 b bytes h k;
    }

-- A secret of bytes, of any length, that is written in base 32 is read back: no byte is lost or
-- changed, although both loops keep their bits in words of 32 bits that overflow.
pub decode-encode :
    (bytes : List ℕ) → All (λ b. b < 256) bytes → base32_decode (base32_encode bytes) ≡ ok bytes
unfolding base32_encode base32_decode
decode-encode bytes h = (bytes-IsSynced bytes h).at0 0 0
