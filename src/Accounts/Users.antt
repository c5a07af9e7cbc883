-- ===== src/Accounts/Users.antt =====
-- src/db.rs, src/users_api.rs and the user actions of src/handlers.rs: creating, changing and
-- deleting accounts. Statements run in order; the first that fails ends the function and leaves
-- what the ones before it did.
pub mod Touched
pub mod Admins
use arcade_launcher_server.Base.{
  ℕ, ◌+◌, suc, Bool, true, false, not, ◌&&◌, ◌||◌, Option, none, some, List, [], ◌∷◌, Text, codes,
  text_eq, trim, byte_len, Faults, ◌==◌, leb, ltb, if◌then◌else◌, select_first, count_where,
  update_where, delete_where, is_empty, is_some, Result, ok, err,
}
use arcade_launcher_server.Accounts.{
  DbError, User, Token, Session, Accounts, Externals, find_user_by_id, owned_by,
}

abbrev pub is_enabled_admin : User → Bool
is_enabled_admin u = u.is_admin && u.enabled

unfoldable pub enabled_admin_count : Accounts → ℕ
enabled_admin_count s = count_where is_enabled_admin s.users

pub data UserError : Type 0 where
  database user_not_found last_admin : UserError

unfoldable pub create_user :
    Externals → Faults → Text → Text → Text → Bool → Accounts → Bool × Accounts
create_user x f username email password is_admin s =
    if f 0 then (false, s) else elim (x.hash_password password) [
      | none ↦ (false, s)
      | some hash ↦ if f 1 then (false, s) else (
        true,
        record s {
          users =
              record {
                id = s.next_user;
                username = username;
                email = email;
                password_hash = hash;
                auth_key = x.derive_auth_key username password;
                is_admin = is_admin;
                enabled = true;
                must_change_password = false;
                totp_secret = none;
                totp_enabled = false;
              }
              ∷ s.users;
          next_user = suc s.next_user;
        },
      )
    ]

-- A statement or a group of them: whether all went well, and what is left.
abbrev pub Statement : Type 0
Statement = Accounts → Bool × Accounts

-- `?` between two statements.
unfoldable pub go_on : Statement → Bool × Accounts → Bool × Accounts
go_on q (true, s) = q s
go_on q (false, s) = (false, s)

unfoldable pub and_then : Statement → Statement → Statement
unfolding go_on
and_then p q s = go_on q (p s)

-- UPDATE admin_users SET … WHERE id=:id
unfoldable pub set_user : Bool → ℕ → (User → User) → Statement
set_user fails id g s =
    if fails
    then (false, s)
    else (true, record s { users = update_where (λ u. u.id == id) g s.users })

abbrev pub skip : Statement
skip s = (true, s)

unfoldable pub set_email : Bool → ℕ → Option Text → Statement
unfolding set_user
set_email fails id none = skip
set_email fails id (some email) =
    if is_empty (trim email) then skip else set_user fails id (λ u. record u { email = trim email })

unfoldable pub set_password : Externals → Bool → User → Option Text → Statement
unfolding set_user
set_password x fails target none = skip
set_password x fails target (some pw) = elim (x.hash_password pw) [
  | none ↦ (λ s. (false, s))
  | some hash ↦ set_user fails target.id (λ u. record u {
    password_hash = hash;
    auth_key = x.derive_auth_key target.username pw;
    must_change_password = false;
  })
]

unfoldable pub set_admin : Bool → ℕ → Option Bool → Statement
unfolding set_user
set_admin fails id none = skip
set_admin fails id (some a) = set_user fails id (λ u. record u { is_admin = a })

unfoldable pub set_enabled : Bool → ℕ → Option Bool → Statement
unfolding set_user
set_enabled fails id none = skip
set_enabled fails id (some e) = set_user fails id (λ u. record u { enabled = e })

unfoldable pub update_user :
    Externals → Faults → User → Option Text → Option Text → Option Bool → Option Bool → Statement
unfolding and_then set_email set_password set_admin set_enabled
update_user x f target email password is_admin enabled s =
    if f 0
    then (false, s)
    else and_then (set_email (f 1) target.id email)
        (and_then (set_password x (f 2) target password)
          (and_then (set_admin (f 3) target.id is_admin) (set_enabled (f 4) target.id enabled)))
        s

-- The three deletions of `delete_user_account`.
unfoldable pub delete_rows : Faults → ℕ → Accounts → Result Bool UserError × Accounts
delete_rows f id s =
    if f 3
    then (err database, s)
    else let s1 = record s { tokens = delete_where (owned_by id) s.tokens } in
      if f 4
      then (err database, s1)
      else let s2 = record s1 {
        admin_sessions = delete_where (λ q. q.user_id == id) s1.admin_sessions;
      } in
        if f 5
        then (err database, s2)
        else (ok true, record s2 { users = delete_where (λ u. u.id == id) s2.users })

unfoldable pub delete_user_account : Faults → ℕ → Accounts → Result Bool UserError × Accounts
unfolding delete_rows enabled_admin_count
delete_user_account f id s =
    if f 0 || f 1 then (err database, s) else elim (select_first (λ u. u.id == id) s.users) [
      | none ↦ (err user_not_found, s)
      | some t ↦
          if t.is_admin && f 2
          then (err database, s)
          else if t.is_admin && leb (enabled_admin_count s) 1
          then (err last_admin, s)
          else delete_rows f id s
    ]

pub data PanelReply : Type 0 where
  updated too_short cannot_remove_last_admin no_user failed : PanelReply

unfoldable pub apply_user_update :
    Externals
    → Faults
    → User
    → Option Text
    → Option Text
    → Bool
    → Bool
    → Bool
    → Accounts
    → PanelReply × Accounts
unfolding update_user enabled_admin_count
apply_user_update x f target email password new_admin new_enabled removes_admin s =
    if removes_admin && (f 0 || f 1)
    then (failed, s)
    else if removes_admin && leb (enabled_admin_count s) 1
    then (cannot_remove_last_admin, s)
    else let (done, s') =
        update_user x (λ k. f (k + 2)) target email password (some new_admin) (some new_enabled)
          s in
      (if done then updated else failed, s')

abbrev pub given_password : Option Text → Option Text
given_password none = none
given_password (some p) = if is_empty (trim p) then none else some (trim p)

abbrev short : Option Text → Bool
short none = false
short (some p) = ltb (byte_len p) 8

-- The "update_user" action of the admin panel; `f` numbers the lookup first.
unfoldable pub panel_update_user :
    Externals
    → Faults
    → Option ℕ
    → Option Text
    → Option Text
    → Bool
    → Bool
    → Accounts
    → PanelReply × Accounts
unfolding apply_user_update
panel_update_user x f user_id email password new_admin new_enabled s = elim user_id [
  | none ↦ (no_user, s)
  | some id ↦ if f 0 || f 1 then (failed, s) else elim (select_first (λ u. u.id == id) s.users) [
    | none ↦ (no_user, s)
    | some target ↦
        if short (given_password password)
        then (too_short, s)
        else apply_user_update x (λ k. f (k + 2)) target email (given_password password) new_admin
            new_enabled (target.is_admin && target.enabled && (not new_admin || not new_enabled)) s
  ]
]

pub record UpdateUserBody : Type 0 where
  pub email : Option Text
  pub password : Option Text
  pub role : Option Text
  pub is_admin : Option Bool
  pub enabled : Option Bool

pub data ApiReply : Type 0 where
  done unauthorized admin_or_self_only only_admins_change_role admin_required : ApiReply
  password_too_short missing_fields not_found server_error : ApiReply
  refused : UserError → ApiReply

abbrev pub wanted_role : Option Bool → Option Text → Option Bool
wanted_role (some a) role = some a
wanted_role none none = none
wanted_role none (some r) = some (text_eq r (codes "Admin"))

-- `api_users_update`, for the caller that `launcher_user` gives.
unfoldable pub api_users_update :
    Externals → Faults → Option User → ℕ → UpdateUserBody → Accounts → ApiReply × Accounts
unfolding update_user
api_users_update x f none id body s = (unauthorized, s)
api_users_update x f (some caller) id body s =
    if not caller.is_admin && not (caller.id == id)
    then (admin_or_self_only, s)
    else if (is_some body.is_admin || is_some body.role || is_some body.enabled)
        && not caller.is_admin
    then (only_admins_change_role, s)
    else if short body.password
    then (password_too_short, s)
    else if f 0 || f 1
    then (server_error, s)
    else elim (select_first (λ u. u.id == id) s.users) [
      | none ↦ (not_found, s)
      | some target ↦
          let (went_well, s') =
            update_user x (λ k. f (k + 2)) target body.email body.password
              (wanted_role body.is_admin body.role) body.enabled s in
          (if went_well then done else server_error, s')
    ]

abbrev pub deleted : Result Bool UserError → ApiReply
deleted (ok _) = done
deleted (err e) = refused e

unfoldable pub api_users_delete : Faults → Option User → ℕ → Accounts → ApiReply × Accounts
unfolding delete_user_account
api_users_delete f none id s = (unauthorized, s)
api_users_delete f (some caller) id s =
    if caller.is_admin
    then (deleted (delete_user_account f id s).0, (delete_user_account f id s).1)
    else (admin_required, s)
