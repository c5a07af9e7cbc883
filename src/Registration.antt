-- ===== src/Registration.antt =====
-- src/registration.rs: requests for an account, and their approval by an administrator. `f` numbers
-- the statements that fail; a UNIQUE column that refuses a row is such a failure.
pub mod Validation
pub mod Unique
pub mod Approved
pub mod Panel
pub mod Spent
pub mod Recipients
mod Tests
use arcade_launcher_server.Base.{
  ℕ, suc, Bool, true, false, not, ◌&&◌, ◌||◌, Option, none, some, List, [], ◌∷◌, any, all, Text,
  text_eq, trim, byte_len, split_on, contains, starts_with, ends_with, is_whitespace,
  is_ascii_alphanumeric, Faults, ◌==◌, leb, ltb, if◌then◌else◌, select_first, delete_where,
  is_empty, Result, ok, err, codes,
}
use arcade_launcher_server.Accounts.{User, Accounts}
use arcade_launcher_server.Accounts.Folding.{Folding}

pub data Reason : Type 0 where
  username_length username_start username_characters bad_email password_length : Reason

abbrev plausible_parts : List Text → Bool
plausible_parts (local ∷ domain ∷ []) =
    not (is_empty local)
    && leb 3 (byte_len domain)
    && contains domain (codes ".")
    && not (starts_with domain (codes "."))
    && not (ends_with domain (codes "."))
plausible_parts _ = false

unfoldable pub is_plausible_email : Text → Bool
unfolding byte_len is_whitespace split_on contains starts_with ends_with trim
is_plausible_email email =
    let e = trim email in
    if ltb (byte_len e) 3 || ltb 254 (byte_len e) || any is_whitespace e
    then false
    else plausible_parts (split_on b'@' e)

abbrev starts_well : Text → Bool
starts_well [] = false
starts_well (c ∷ s) = is_ascii_alphanumeric c

abbrev pub name_character : ℕ → Bool
name_character c = is_ascii_alphanumeric c || c == b'_' || c == b'-' || c == b'.'

unfoldable pub validate_registration : Text → Text → Text → Option Reason
unfolding is_plausible_email
validate_registration username email password =
    let u = trim username in
    if ltb (byte_len u) 3 || ltb 32 (byte_len u)
    then some username_length
    else if not (starts_well u)
    then some username_start
    else if not (all name_character u)
    then some username_characters
    else if not (is_plausible_email email)
    then some bad_email
    else if ltb (byte_len password) 8
    then some password_length
    else none

-- A row of `pending_registrations`; `token` is UNIQUE.
pub record Pending : Type 0 where
  pub id : ℕ
  pub username : Text
  pub email : Text
  pub password_hash : Text
  pub auth_key : Text
  pub token : Text
  pub ip : Option Text
  pub created_at : ℕ

pub record Signups : Type 0 where
  pub accounts : Accounts
  pub pending : List Pending
  pub next_pending : ℕ

pub data RegisterReply : Type 0 where
  registration_closed already_registered already_awaiting registered failed : RegisterReply
  invalid : Reason → RegisterReply

unfoldable pub normalize_username : Folding → Text → Text
normalize_username x s = x.to_lowercase (trim s)

-- `LOWER(username)=:u OR LOWER(email)=:e`, on either table.
abbrev pub named : Folding → Text → Text → User → Bool
named x u e r = x.lower_is r.username u || x.lower_is r.email e

abbrev pub awaits : Folding → Text → Text → Pending → Bool
awaits x u e r = x.lower_is r.username u || x.lower_is r.email e

pub record RegisterCall : Type 0 where
  pub username : Text
  pub email : Text
  pub password : Text
  pub ip : Option Text

abbrev pub new_pending : Folding → RegisterCall → Text → Text → ℕ → ℕ → Pending
new_pending x c hash token now id = record {
  id = id;
  username = trim c.username;
  email = trim c.email;
  password_hash = hash;
  auth_key = x.accounts.derive_auth_key (trim c.username) c.password;
  token = token;
  ip = c.ip;
  created_at = now;
}

-- From the hash on.
unfoldable pub insert_pending :
    Folding → Bool → RegisterCall → Text → Text → ℕ → Signups → RegisterReply × Signups
insert_pending x fails c hash token now s =
    if fails || any (λ r. x.accounts.same_text r.token token) s.pending then (failed, s) else (
      registered,
      record s {
        pending = new_pending x c hash token now s.next_pending ∷ s.pending;
        next_pending = suc s.next_pending;
      },
    )

unfoldable pub api_auth_register :
    Folding → Faults → Bool → RegisterCall → Text → ℕ → Signups → RegisterReply × Signups
api_auth_register x f is_open c token now s =
    if not is_open
    then (registration_closed, s)
    else elim (validate_registration (trim c.username) (trim c.email) c.password) [
      | some reason ↦ (invalid reason, s)
      | none ↦
          let u = normalize_username x (trim c.username) in
          let e = x.to_lowercase (trim c.email) in
          if f 0 || f 1
          then (failed, s)
          else if any (named x u e) s.accounts.users
          then (already_registered, s)
          else if f 2
          then (failed, s)
          else if any (awaits x u e) s.pending
          then (already_awaiting, s)
          else elim (x.accounts.hash_password c.password) [
            | none ↦ (failed, s)
            | some hash ↦ insert_pending x (f 3) c hash token now s
          ]
    ]

pub data AnswerReply : Type 0 where
  not_found discarded approved denied answer_failed : AnswerReply

abbrev pub without : Bool → ℕ → List Pending → List Pending
without fails id rows = if fails then rows else delete_where (λ r. r.id == id) rows

abbrev pub new_account : ℕ → Pending → User
new_account id r = record {
  id = id;
  username = r.username;
  email = r.email;
  password_hash = r.password_hash;
  auth_key = r.auth_key;
  is_admin = false;
  enabled = true;
  must_change_password = false;
  totp_secret = none;
  totp_enabled = false;
}

-- From the pending row on.
unfoldable pub create_account : Folding → Faults → Pending → Signups → AnswerReply × Signups
create_account x f r s =
    if f 2
    then (answer_failed, s)
    else if any (named x (x.to_lowercase r.username) (x.to_lowercase r.email)) s.accounts.users
    then (discarded, record s { pending = without (f 3) r.id s.pending })
    else if f 4
    then (answer_failed, s)
    else (
      approved,
      record s {
        accounts = record s.accounts {
          users = new_account s.accounts.next_user r ∷ s.accounts.users;
          next_user = suc s.accounts.next_user;
        };
        pending = without (f 5) r.id s.pending;
      },
    )

unfoldable pub api_auth_approve : Folding → Faults → Text → Signups → AnswerReply × Signups
unfolding create_account
api_auth_approve x f token s =
    if f 0 || f 1
    then (answer_failed, s)
    else elim (select_first (λ r. x.accounts.same_text r.token (trim token)) s.pending) [
      | none ↦ (not_found, s)
      | some r ↦ create_account x f r s
    ]

unfoldable pub api_auth_deny : Folding → Faults → Text → Signups → AnswerReply × Signups
api_auth_deny x f token s =
    if f 0 || f 1
    then (answer_failed, s)
    else elim (select_first (λ r. x.accounts.same_text r.token (trim token)) s.pending) [
      | none ↦ (not_found, s)
      | some r ↦ (denied, record s { pending = without (f 2) r.id s.pending })
    ]

-- `seen` is the set, `out` what it lets through.
unfoldable pub dedupe : Folding → List Text → List Text → List Text
dedupe x seen [] = []
dedupe x seen (addr ∷ addrs) =
    elim (is_empty (trim addr) || any (λ t. text_eq t (x.to_lowercase (trim addr))) seen) [
      | true ↦ dedupe x seen addrs
      | false ↦ trim addr ∷ dedupe x (x.to_lowercase (trim addr) ∷ seen) addrs
    ]

abbrev admin_emails : Folding → List User → List Text
admin_emails x [] = []
admin_emails x (u ∷ us) =
    if u.is_admin && u.enabled && not (x.accounts.same_text u.email [])
    then u.email ∷ admin_emails x us
    else admin_emails x us

-- The addresses in the order that they are read in.
abbrev pub candidates : Folding → Bool → Text → Text → List User → List Text
candidates x fails notify_email admin_email users =
    (if is_empty (trim notify_email) then admin_email else notify_email)
    ∷ (if fails then [] else admin_emails x users)

unfoldable pub collect_admin_recipients : Folding → Bool → Text → Text → List User → List Text
unfolding dedupe
collect_admin_recipients x fails notify_email admin_email users =
    dedupe x [] (candidates x fails notify_email admin_email users)
