-- ===== src/Fixtures.antt =====
-- Stand-ins for the crates and the database's collation, and an account, that the tests share. The
-- hash puts a letter in front, the password hash another one, and fails on the empty password only.
use arcade_launcher_server.Base.{
  true, false, none, some, [], ◌∷◌, ◌++◌, Faults, codes, text_eq, lowercase, is_empty,
  if◌then◌else◌,
}
use arcade_launcher_server.Accounts.{User, Accounts, Externals}
use arcade_launcher_server.Accounts.Folding.{Folding}

abbrev pub no_faults : Faults
no_faults k = false

abbrev pub stand_ins : Externals
stand_ins = record {
  sha256_hex = λ t. b'#' ∷ t;
  hash_password = λ p. if is_empty p then none else some (b'!' ∷ p);
  derive_auth_key = λ u p. u ++ p;
  same_text = text_eq;
}

abbrev pub folding : Folding
folding = record {
  accounts = stand_ins;
  to_lowercase = lowercase;
  lower_is = λ c v. text_eq (lowercase c) v;
}

abbrev pub anna : User
anna = record {
  id = 7;
  username = codes "anna";
  email = codes "anna@example.org";
  password_hash = codes "!secret";
  auth_key = [];
  is_admin = false;
  enabled = true;
  must_change_password = false;
  totp_secret = none;
  totp_enabled = false;
}

abbrev pub only_anna : Accounts
only_anna = record {
  users = anna ∷ [];
  tokens = [];
  admin_sessions = [];
  user_sessions = [];
  next_token = 1;
  next_user = 8;
}
