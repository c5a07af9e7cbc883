-- ===== src/Accounts.antt =====
-- src/db.rs: accounts, launcher tokens and browser sessions, and the queries that read them. A
-- statement that fails changes nothing; `f` says which does, by its place in the function.
pub mod Tokens
pub mod Users
pub mod Sessions
pub mod Folding
mod Tests
use arcade_launcher_server.Base.{
  ℕ, ◌+◌, ◌*◌, suc, Bool, true, false, not, ◌&&◌, ◌||◌, Option, none, some, List, [], ◌∷◌, any,
  Text, codes, text_eq, trim, starts_with, drop, Faults, ◌==◌, leb, ltb, if◌then◌else◌,
  select_first, count_where, update_where, delete_where, is_empty, Result, ok, err,
}

-- What a statement that fails gives.
pub data DbError : Type 0 where
  db_error : DbError

-- A row of `admin_users`.
pub record User : Type 0 where
  pub id : ℕ
  pub username : Text
  pub email : Text
  pub password_hash : Text
  pub auth_key : Text
  pub is_admin : Bool
  pub enabled : Bool
  pub must_change_password : Bool
  pub totp_secret : Option Text
  pub totp_enabled : Bool

-- A row of `launcher_tokens`, whose `token_hash` is UNIQUE.
pub record Token : Type 0 where
  pub id : ℕ
  pub name : Text
  pub user_id : Option ℕ
  pub token_hash : Text
  pub token_plain : Option Text
  pub enabled : Bool
  pub created_at : ℕ

-- A row of `user_sessions` or of `admin_sessions`.
pub record Session : Type 0 where
  pub token_hash : Text
  pub user_id : ℕ
  pub expires_at : ℕ
  pub created_at : ℕ

-- `next_token` and `next_user` are the AUTO_INCREMENT counters.
pub record Accounts : Type 0 where
  pub users : List User
  pub tokens : List Token
  pub admin_sessions : List Session
  pub user_sessions : List Session
  pub next_token : ℕ
  pub next_user : ℕ

-- What the crates around the code compute: SHA-256 in hexadecimal digits, Argon2, the shared key
-- of the challenge login, and the comparison of text columns by their collation.
pub record Externals : Type 0 where
  pub sha256_hex : Text → Text
  pub hash_password : Text → Option Text
  pub derive_auth_key : Text → Text → Text
  pub same_text : Text → Text → Bool

abbrev pub session_ttl_seconds : ℕ
session_ttl_seconds = 60 * 60 * 12

abbrev pub owned_by : ℕ → Token → Bool
owned_by user_id r = elim r.user_id [ none ↦ false | some u ↦ u == user_id ]

unfoldable pub find_user : Externals → Faults → Text → Accounts → Result (Option User) DbError
find_user x f key s =
    if f 0 || f 1
    then err db_error
    else ok (
        select_first
          (λ u. u.enabled && (x.same_text u.username (trim key) || x.same_text u.email (trim key)))
          s.users)

unfoldable pub find_user_by_id : Faults → ℕ → Accounts → Result (Option User) DbError
find_user_by_id f id s =
    if f 0 || f 1 then err db_error else ok (select_first (λ u. u.id == id) s.users)

abbrev pub found : Result (Option User) DbError → Option User
found (ok u) = u
found (err _) = none

abbrev pub bearer : Option Text → Option Text
bearer none = none
bearer (some auth) = if starts_with auth (codes "Bearer ") then some (trim (drop 7 auth)) else none

-- The account of an enabled token.
unfoldable pub token_user : Externals → Text → Accounts → Option ℕ
token_user x token s =
    elim (select_first (λ r. text_eq r.token_hash (x.sha256_hex token) && r.enabled) s.tokens) [
      | none ↦ none
      | some r ↦ r.user_id
    ]

unfoldable pub launcher_user : Externals → Faults → Option Text → Accounts → Option User
unfolding token_user find_user_by_id
launcher_user x f header s = elim (bearer header) [
  | none ↦ none
  | some token ↦ if f 0 || f 1 then none else elim (token_user x token s) [
    | none ↦ none
    | some uid ↦ found (find_user_by_id (λ k. f (k + 2)) uid s)
  ]
]

-- A UNIQUE hash that another row has.
abbrev pub taken : Text → ℕ → List Token → Bool
taken hash id rows = any (λ r. text_eq r.token_hash hash && not (r.id == id)) rows

abbrev pub usable : Option Text → Bool
usable none = false
usable (some p) = not (is_empty p)

abbrev pub or_blank : Option Text → Text
or_blank none = []
or_blank (some p) = p

abbrev reissued : Externals → Text → Text → ℕ → Token → Token
reissued x username token now r = record r {
  name = username;
  token_hash = x.sha256_hex token;
  token_plain = some token;
  enabled = true;
  created_at = now;
}

abbrev pub issued : Externals → ℕ → ℕ → Text → Text → ℕ → Token
issued x id user_id username token now = record {
  id = id;
  name = username;
  user_id = some user_id;
  token_hash = x.sha256_hex token;
  token_plain = some token;
  enabled = true;
  created_at = now;
}

-- From the new random token on.
unfoldable pub mint_token :
    Externals
    → Faults
    → ℕ
    → Text
    → Text
    → ℕ
    → Option Token
    → Accounts
    → Result Text DbError × Accounts
mint_token x f user_id username token now (some r) s =
    if f 2 || taken (x.sha256_hex token) r.id s.tokens then (err db_error, s) else (
      ok token,
      record s {
        tokens = update_where (λ q. q.id == r.id) (reissued x username token now) s.tokens;
      },
    )
mint_token x f user_id username token now none s =
    if f 2 || taken (x.sha256_hex token) s.next_token s.tokens then (err db_error, s) else (
      ok token,
      record s {
        tokens = issued x s.next_token user_id username token now ∷ s.tokens;
        next_token = suc s.next_token;
      },
    )

-- From the row that the account has, on.
unfoldable pub reuse_or_mint :
    Externals
    → Faults
    → ℕ
    → Text
    → Text
    → ℕ
    → Option Token
    → Accounts
    → Result Text DbError × Accounts
unfolding mint_token
reuse_or_mint x f user_id username token now none s =
    mint_token x f user_id username token now none s
reuse_or_mint x f user_id username token now (some r) s =
    if r.enabled && usable r.token_plain
    then (ok (or_blank r.token_plain), s)
    else mint_token x f user_id username token now (some r) s

unfoldable pub issue_user_token :
    Externals → Faults → ℕ → Text → Text → ℕ → Accounts → Result Text DbError × Accounts
unfolding reuse_or_mint
issue_user_token x f user_id username token now s =
    if f 0 || f 1
    then (err db_error, s)
    else reuse_or_mint x f user_id username token now (select_first (owned_by user_id) s.tokens) s

unfoldable pub validate_launcher_token : Externals → Faults → Text → Accounts → Bool
validate_launcher_token x f token s =
    if f 0 || f 1
    then false
    else any (λ r. text_eq r.token_hash (x.sha256_hex token) && r.enabled) s.tokens

unfoldable pub rotate_launcher_token : Externals → Faults → ℕ → Text → ℕ → Accounts → Accounts
rotate_launcher_token x f id token now s =
    if f 0 || f 1 || taken (x.sha256_hex token) id s.tokens then s else record s {
      tokens =
          update_where (λ r. r.id == id)
            (λ r. record r {
              token_hash = x.sha256_hex token;
              token_plain = some token;
              created_at = now;
            })
            s.tokens;
    }

unfoldable pub delete_launcher_token : Faults → ℕ → Accounts → Accounts
delete_launcher_token f id s =
    if f 0 || f 1 then s else record s { tokens = delete_where (λ r. r.id == id) s.tokens }

-- The statement of `api_auth_logout` (src/users_api.rs).
unfoldable pub revoke_tokens : Faults → ℕ → Accounts → Accounts
revoke_tokens f user_id s = if f 0 || f 1 then s else record s {
  tokens = update_where (owned_by user_id) (λ r. record r { enabled = false }) s.tokens;
}
