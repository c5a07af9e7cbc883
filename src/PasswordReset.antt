-- ===== src/PasswordReset.antt =====
-- src/password_reset.rs: links that set a new password. `f` numbers the statements that fail, by
-- their place in the handler; a failed one changes nothing. Where the code ignores the failure of
-- a statement, so does the model.
pub mod Links
pub mod Works
pub mod Spent
pub mod Requested
mod Tests
use arcade_launcher_server.Base.{
  ℕ, ◌+◌, Bool, true, false, not, ◌&&◌, ◌||◌, Option, none, some, List, [], ◌∷◌, any, Text, text_eq,
  trim, byte_len, Faults, ◌==◌, ltb, if◌then◌else◌, select_first, update_where, delete_where,
  is_empty, Result, ok, err,
}
use arcade_launcher_server.Accounts.{User, Accounts, Externals, DbError, db_error}
use arcade_launcher_server.Accounts.Folding.{Folding}

-- A row of `password_resets`, by its key.
pub record Reset : Type 0 where
  pub token_hash : Text
  pub admin_id : ℕ
  pub expires_at : ℕ
  pub created_at : ℕ

pub record Resets : Type 0 where
  pub accounts : Accounts
  pub resets : List Reset

abbrev pub reset_ttl_secs : ℕ
reset_ttl_secs = 3600

pub data ResetReply : Type 0 where
  generic link_expired form password_too_short password_updated failed : ResetReply

-- Where the link goes, whose it is, and the token in it.
pub record ResetMail : Type 0 where
  pub address : Text
  pub username : Text
  pub token : Text

abbrev pub resettable : Folding → Text → User → Bool
resettable x ident u =
    (x.lower_is u.username ident || x.lower_is u.email ident)
    && u.enabled
    && not (x.accounts.same_text u.email [])

abbrev pub for_account : ℕ → Reset → Bool
for_account id r = r.admin_id == id

-- The link of an account: the rows of older ones go, and the new one's hash comes. An address
-- that is blank gets no mail.
unfoldable pub open_reset :
    Folding → Faults → User → Text → ℕ → Resets → ResetReply × Option ResetMail × Resets
open_reset x f u token now s =
    let kept = if f 2 then s.resets else delete_where (for_account u.id) s.resets in
    if f 3 || any (λ r. text_eq r.token_hash (x.accounts.sha256_hex token)) kept
    then (failed, none, record s { resets = kept })
    else (
      generic,
      (if is_empty (trim u.email)
          then none
          else some (record { address = u.email; username = u.username; token = token })),
      record s {
        resets =
            record {
              token_hash = x.accounts.sha256_hex token;
              admin_id = u.id;
              expires_at = now + reset_ttl_secs;
              created_at = now;
            }
            ∷ kept;
      },
    )

unfoldable pub api_auth_forgot :
    Folding → Faults → Text → Text → ℕ → Resets → ResetReply × Option ResetMail × Resets
unfolding open_reset
api_auth_forgot x f identifier token now s =
    let ident = x.to_lowercase (trim identifier) in
    if is_empty ident
    then (generic, none, s)
    else if f 0 || f 1
    then (failed, none, s)
    else elim (select_first (resettable x ident) s.accounts.users) [
      | none ↦ (generic, none, s)
      | some u ↦ open_reset x f u token now s
    ]

unfoldable pub owner : List User → Reset → Option (ℕ × Text)
owner users r = elim (select_first (λ u. u.id == r.admin_id) users) [
  | none ↦ none
  | some u ↦ some (r.admin_id, u.username)
]

unfoldable pub lookup_reset_token :
    Folding → Faults → Text → ℕ → Resets → Result (Option (ℕ × Text)) DbError × Resets
lookup_reset_token x f token now s =
    let hash = x.accounts.sha256_hex (trim token) in
    if f 0
    then (err db_error, s)
    else elim (select_first (λ r. text_eq r.token_hash hash) s.resets) [
      | none ↦ (ok none, s)
      | some r ↦
          if ltb r.expires_at now
          then (
            ok none,
            if f 1
                then s
                else record s { resets = delete_where (λ q. text_eq q.token_hash hash) s.resets },
          )
          else if f 2
          then (err db_error, s)
          else (ok (owner s.accounts.users r), s)
    ]

abbrev page : Result (Option (ℕ × Text)) DbError → ResetReply
page (err e) = failed
page (ok none) = link_expired
page (ok (some _)) = form

unfoldable pub api_auth_reset_page : Folding → Faults → Text → ℕ → Resets → ResetReply × Resets
unfolding lookup_reset_token
api_auth_reset_page x f token now s =
    if f 0
    then (failed, s)
    else let (found, s1) = lookup_reset_token x (λ k. f (k + 1)) (trim token) now s in
      (page found, s1)

abbrev pub renewed : Externals → Text → Text → Text → User → User
renewed x username password hash u = record u {
  password_hash = hash;
  auth_key = x.derive_auth_key username password;
  must_change_password = false;
}

-- From the new hash on: the account, and then every link of it.
unfoldable pub set_new_password :
    Externals → Faults → ℕ → Text → Text → Text → Resets → ResetReply × Resets
set_new_password x f id username password hash s = if f 4 then (failed, s) else (
  password_updated,
  record {
    accounts = record s.accounts {
      users = update_where (λ u. u.id == id) (renewed x username password hash) s.accounts.users;
    };
    resets = if f 5 then s.resets else delete_where (for_account id) s.resets;
  },
)

-- `f 0` is the connection, 1 to 3 the lookup's, then the update and the deletion.
abbrev pub submitted :
    Folding → Faults → Text → Result (Option (ℕ × Text)) DbError × Resets → ResetReply × Resets
submitted x f password (err e, s) = (failed, s)
submitted x f password (ok none, s) = (link_expired, s)
submitted x f password (ok (some (id, username)), s) =
    if ltb (byte_len password) 8
    then (password_too_short, s)
    else elim (x.accounts.hash_password password) [
      | none ↦ (failed, s)
      | some hash ↦ set_new_password x.accounts f id username password hash s
    ]

unfoldable pub api_auth_reset_submit :
    Folding → Faults → Text → Text → ℕ → Resets → ResetReply × Resets
api_auth_reset_submit x f token password now s =
    if f 0
    then (failed, s)
    else submitted x f password (lookup_reset_token x (λ k. f (k + 1)) (trim token) now s)
