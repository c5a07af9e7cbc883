-- ===== src/Requests/Sessions.antt =====
-- src/requests_app.rs: who is signed in on the board, by its cookie or by a launcher token.
use arcade_launcher_server.Base.{
  ℕ, ◌+◌, ◌*◌, Bool, not, ◌&&◌, ◌||◌, Option, none, some, List, [], ◌∷◌, any, Text, codes, text_eq,
  trim, starts_with, drop, split_on, is_empty, Faults, ◌==◌, ltb, if◌then◌else◌, select_first,
  delete_where, ok, err,
}
use arcade_launcher_server.Accounts.{User, Token, Accounts, Externals, find_user}
use arcade_launcher_server.Downloads.{split_once}
use arcade_launcher_server.Login.{LoginExternals, verify_user_totp}
use arcade_launcher_server.Credentials.{PasswordCrates, verify_password_any}
use arcade_launcher_server.Requests.Board.{BoardSession}

abbrev pub board_session_ttl : ℕ
board_session_ttl = 60 * 60 * 24 * 30

-- A row of `request_sessions`, by its key.
pub record SessionRow : Type 0 where
  pub token : Text
  pub user_id : ℕ
  pub username : Text
  pub is_admin : Bool
  pub created_at : ℕ
  pub expires_at : ℕ

pub record BoardAuth : Type 0 where
  pub accounts : Accounts
  pub sessions : List SessionRow

abbrev pub session_cookie : Text
session_cookie = codes "arq_session"

abbrev named_piece : Option (Text × Text) → Option Text
named_piece none = none
named_piece (some (k, v)) = if text_eq (trim k) session_cookie then some (trim v) else none

abbrev first_some : Option Text → Option Text → Option Text
first_some none o = o
first_some (some t) o = some t

abbrev first_named : List Text → Option Text
first_named [] = none
first_named (piece ∷ pieces) = first_some (named_piece (split_once b'=' piece)) (first_named pieces)

-- The value of the first cookie of the name.
unfoldable pub cookie_token : Text → Option Text
unfolding split_on split_once trim
cookie_token raw = first_named (split_on b';' raw)

unfoldable pub create_session :
    Externals → Faults → User → Text → ℕ → BoardAuth → Option Text × BoardAuth
create_session x f user token now s =
    let hash = x.sha256_hex token in
    if f 0 || f 1 || any (λ r. text_eq r.token hash) s.sessions then (none, s) else (
      some token,
      record s {
        sessions =
            record {
              token = hash;
              user_id = user.id;
              username = user.username;
              is_admin = user.is_admin;
              created_at = now;
              expires_at = now + board_session_ttl;
            }
            ∷ s.sessions;
      },
    )

abbrev pub session_of : SessionRow → BoardSession
session_of r = record { user_id = r.user_id; username = r.username; is_admin = r.is_admin }

abbrev live : ℕ → Option SessionRow → Option BoardSession
live now none = none
live now (some r) = if ltb r.expires_at now then none else some (session_of r)

unfoldable pub session_from_token :
    Externals → Faults → Option Text → ℕ → BoardAuth → Option BoardSession
session_from_token x f none now s = none
session_from_token x f (some token) now s =
    if f 0 || f 1
    then none
    else live now (select_first (λ r. text_eq r.token (x.sha256_hex token)) s.sessions)

abbrev cookie_of : Option Text → Option Text
cookie_of none = none
cookie_of (some raw) = cookie_token raw

unfoldable pub session_from_headers :
    Externals → Faults → Option Text → ℕ → BoardAuth → Option BoardSession
unfolding session_from_token
session_from_headers x f cookie now s = session_from_token x f (cookie_of cookie) now s

-- `find_user_by_id` of this file asks for enabled accounts.
unfoldable pub find_enabled : Faults → ℕ → Accounts → Option (Text × Bool)
find_enabled f id s =
    if f 0 || f 1 then none else elim (select_first (λ u. u.id == id && u.enabled) s.users) [
      | none ↦ none
      | some u ↦ some (u.username, u.is_admin)
    ]

abbrev pub stripped : Option Text → Option Text
stripped none = none
stripped (some auth) =
    if starts_with auth (codes "Bearer ") then some (trim (drop 7 auth)) else none

abbrev owner_of : Option Token → Option ℕ
owner_of none = none
owner_of (some r) = r.user_id

abbrev bearer_session : Faults → Option ℕ → Accounts → Option BoardSession
bearer_session f none s = none
bearer_session f (some uid) s = elim (find_enabled f uid s) [
  | none ↦ none
  | some (username, is_admin) ↦
      some (record { user_id = uid; username = username; is_admin = is_admin })
]

unfoldable pub session_from_bearer :
    Externals → Faults → Option Text → Accounts → Option BoardSession
unfolding find_enabled
session_from_bearer x f header s = elim (stripped header) [
  | none ↦ none
  | some token ↦
      if is_empty token || f 0 || f 1
      then none
      else bearer_session (λ k. f (k + 2))
          (owner_of
            (select_first (λ r. text_eq r.token_hash (x.sha256_hex token) && r.enabled) s.tokens))
          s
]

unfoldable pub current_session :
    Externals → Faults → Option Text → Option Text → ℕ → BoardAuth → Option BoardSession
unfolding session_from_headers session_from_bearer
current_session x f cookie header now s = elim (session_from_headers x f cookie now s) [
  | some session ↦ some session
  | none ↦ session_from_bearer x (λ k. f (k + 2)) header s.accounts
]

unfoldable pub delete_session : Externals → Faults → Option Text → BoardAuth → BoardAuth
delete_session x f cookie s = elim (cookie_of cookie) [
  | none ↦ s
  | some token ↦ if f 0 || f 1 then s else record s {
    sessions = delete_where (λ r. text_eq r.token (x.sha256_hex token)) s.sessions;
  }
]

pub data LoginReply : Type 0 where
  login_failed login_error : LoginReply
  -- the token that the cookie carries
  signed_in : Text → LoginReply

abbrev pub answered_login : Option Text × BoardAuth → LoginReply × BoardAuth
answered_login (none, s) = (login_error, s)
answered_login (some token, s) = (signed_in token, s)

unfoldable pub login_post :
    LoginExternals
    → PasswordCrates
    → Faults
    → (username password totp_code token : Text) → ℕ
    → BoardAuth
    → LoginReply × BoardAuth
unfolding create_session
login_post x p f username password totp_code token now s =
    elim (find_user x.accounts f username s.accounts) [
      | err _ ↦ (login_error, s)
      | ok none ↦ (login_failed, s)
      | ok (some user) ↦
          if not (verify_password_any p password user.password_hash)
            || not (verify_user_totp x user totp_code now)
          then (login_failed, s)
          else answered_login (create_session x.accounts (λ k. f (k + 2)) user token now s)
    ]
