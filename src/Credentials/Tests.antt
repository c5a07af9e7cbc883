-- ===== src/Credentials/Tests.antt =====
-- The theorems on encodings and comparisons at concrete bytes.
use arcade_launcher_server.Base.{
  ◌≡◌, ◌↔◌, refl, true, false, List, [], ◌∷◌, ℕ, codes, text_eq, starts_with, split_on, some, arith,
  ok, join, All, is_whitespace, is_control, length, ◌≤◌,
}
use arcade_launcher_server.Credentials.{PasswordCrates, constant_eq, verify_password_any}
use arcade_launcher_server.Credentials.Equality.{constant_eq_iff}
use arcade_launcher_server.Credentials.Names.{
  clean_query, sanitize_search_query, split_whitespace, split_spaces,
}
use arcade_launcher_server.Credentials.Names.Queries.{sanitize_search_query-ok}
use arcade_launcher_server.Credentials.Base32.{base32_encode, base32_decode}
use arcade_launcher_server.Credentials.Base32.RoundTrip.{decode-encode}

abbrev secret : List ℕ
secret = 72 ∷ 101 ∷ 108 ∷ 108 ∷ 111 ∷ 33 ∷ 222 ∷ []

encoded : base32_encode secret ≡ codes "JBSWY3DPEHPA"
unfolding base32_encode
encoded = refl

decode-encode_example : base32_decode (base32_encode secret) ≡ ok secret
decode-encode_example = decode-encode secret (omega arith)

constant_eq_iff_example : (constant_eq secret (72 ∷ 101 ∷ []) ≡ true) ↔ (secret ≡ 72 ∷ 101 ∷ [])
constant_eq_iff_example = constant_eq_iff secret (72 ∷ 101 ∷ [])

-- The stand-ins give the password's own bytes and take a text for its bytes.
abbrev crates : PasswordCrates
crates = record {
  verify_argon2 = λ p s. false;
  url_safe_decode = λ t. some t;
  scrypt = λ p salt n. some p;
}

known : verify_password_any crates (codes "key") (codes "scrypt$14$salt$key") ≡ true
unfolding verify_password_any starts_with split_on text_eq
known = refl

unknown : verify_password_any crates (codes "kex") (codes "scrypt$14$salt$key") ≡ false
unfolding verify_password_any starts_with split_on text_eq
unknown = refl

cleaned : sanitize_search_query (codes " Super   Mario ") ≡ ok (codes "Super Mario")
unfolding sanitize_search_query clean_query split_whitespace split_spaces join is_whitespace
    is_control
cleaned = refl

sanitize_search_query-ok_example :
    All (λ c. is_control c ≡ false) (codes "Super Mario")
    × (length (codes "Super Mario") ≤ 120)
    × (sanitize_search_query (codes "Super Mario") ≡ ok (codes "Super Mario"))
sanitize_search_query-ok_example =
    sanitize_search_query-ok (codes " Super   Mario ") (codes "Super Mario") cleaned
