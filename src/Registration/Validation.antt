-- ===== src/Registration/Validation.antt =====
-- src/registration.rs: what the checks on a request for an account rule out.
use arcade_launcher_server.Base.{
  ◌≤◌, ◌≡◌, ◌≢◌, refl, true, false, none, [], ◌∷◌, all, Text, trim, byte_len, split_on, cons_head,
  is_ascii_alphanumeric, ◌==◌, sym, arith,
}
use arcade_launcher_server.Registration.{is_plausible_email, name_character, validate_registration}

split-name : (s : Text) → all name_character s ≡ true → split_on b'@' s ≡ s ∷ []
unfolding split_on cons_head is_ascii_alphanumeric
split-name [] h = refl
split-name (c ∷ s) h =
    let tail = split-name s (ground arith) in
    let other : (c == b'@') ≡ false = ground arith in rw (tail, other) refl

name-not_email :
    (s e : Text) → all name_character s ≡ true → trim e ≡ s → is_plausible_email e ≡ false
unfolding is_plausible_email
name-not_email s e h same = rw (same, split-name s h) (ground arith)

-- What a request that passes shows.
pub record IsValid (username email password : Text) : Type 0 where
  pub shortest : 3 ≤ byte_len (trim username)
  pub longest : byte_len (trim username) ≤ 32
  pub characters : all name_character (trim username) ≡ true
  pub address : is_plausible_email email ≡ true
  pub password_long : 8 ≤ byte_len password

validate-IsValid :
    (username email password : Text)
    → validate_registration username email password ≡ none
    → IsValid username email password
unfolding validate_registration
validate-IsValid username email password h = record {
  shortest = ground arith;
  longest = ground arith;
  characters = ground arith;
  address = ground arith;
  password_long = ground arith;
}

-- Of two requests that pass the checks, the name in one is never the address in the other: what is
-- typed at a login or for a forgotten password cannot mean the name of one account and the address
-- of another. The name has 3 to 32 bytes and the password 8 at least.
pub name_is_no_address :
    (username email password username' email' password' : Text)
    → validate_registration username email password ≡ none
    → validate_registration username' email' password' ≡ none
    → (trim username ≢ trim email')
      × (3 ≤ byte_len (trim username))
      × (byte_len (trim username) ≤ 32)
      × (8 ≤ byte_len password)
name_is_no_address username email password username' email' password' h h' =
    let k = validate-IsValid username email password h in
    let k' = validate-IsValid username' email' password' h' in
    (
      λ same.
          absurd (cc (name-not_email (trim username) email' k.characters (sym same), k'.address)),
      k.shortest,
      k.longest,
      k.password_long,
    )
