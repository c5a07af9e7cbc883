-- ===== src/Requests/SignedIn.antt =====
-- src/requests_app.rs: the board's cookie from the login to the logout.
use arcade_launcher_server.Base.{
  ℕ, ◌+◌, ◌≤◌, ◌≡◌, refl, inl, inr, true, false, not, ◌||◌, Option, none, some, List, [], ◌∷◌, ◌++◌,
  any, Text, text_eq, text_eq_refl, trim, split_on, cons_head, Faults, ◌==◌, ltb, select_first,
  delete_where, Result, ok, err, ◌⊎◌, Bool-cases, arith,
}
use arcade_launcher_server.Accounts.{User, Externals, find_user, DbError}
use arcade_launcher_server.Downloads.{split_once}
use arcade_launcher_server.Login.{LoginExternals, verify_user_totp}
use arcade_launcher_server.Credentials.{PasswordCrates, verify_password_any}
use arcade_launcher_server.Requests.Board.{BoardSession}
use arcade_launcher_server.Requests.Sessions.{
  SessionRow, BoardAuth, board_session_ttl, session_cookie, cookie_token, create_session,
  session_from_token, session_from_headers, current_session, delete_session, signed_in,
  answered_login, login_post,
}

-- The cookie that `cookie_header` has the browser send back.
abbrev pub sent_back : Text → Text
sent_back token = session_cookie ++ (b'=' ∷ token)

one_piece : (t : Text) → any (λ c. c == b';') t ≡ false → split_on b';' t ≡ t ∷ []
unfolding split_on cons_head
one_piece [] h = refl
one_piece (c ∷ t) h =
    let tail = one_piece t (ground arith) in
    let other : (c == b';') ≡ false = ground arith in rw (tail, other) refl

cookie-sent :
    (t : Text) → any (λ c. c == b';') t ≡ false → trim t ≡ t → cookie_token (sent_back t) ≡ some t
unfolding cookie_token split_on cons_head split_once text_eq
cookie-sent t h plain = rw (one_piece t h, plain) refl

abbrev pub session_for : User → BoardSession
session_for user = record { user_id = user.id; username = user.username; is_admin = user.is_admin }

abbrev row_for : Externals → User → Text → ℕ → SessionRow
row_for x user token now = record {
  token = x.sha256_hex token;
  user_id = user.id;
  username = user.username;
  is_admin = user.is_admin;
  created_at = now;
  expires_at = now + board_session_ttl;
}

-- What a session that was made comes to.
abbrev Made : Externals → User → Text → Text → ℕ → BoardAuth → BoardAuth → Type 0
Made x user token t now s after =
    (t ≡ token) × (after ≡ record s { sessions = row_for x user token now ∷ s.sessions })

create-Made :
    (x : Externals) (f : Faults) (user : User) (token t : Text) (now : ℕ) (s : BoardAuth)
    → (answered_login (create_session x f user token now s)).0 ≡ signed_in t
    → Made x user token t now s (answered_login (create_session x f user token now s)).1
unfolding create_session
create-Made x f user token t now s h =
    elim (Bool-cases (f 0 || f 1 || any (λ r. text_eq r.token (x.sha256_hex token)) s.sessions)) [
      | inl stopped ↦ absurd (ground arith)
      | inr goes ↦ rw goes (ground arith, refl)
    ]

select-deleted :
    (h : Text) (rs : List SessionRow)
    → select_first (λ r. text_eq r.token h) (delete_where (λ r. text_eq r.token h) rs) ≡ none
unfolding select_first delete_where
select-deleted h [] = refl
select-deleted h (r ∷ rs) = ground (arith, select-deleted h rs)

-- The cookie of a session, while it lives and once it is deleted.
module _ (x : Externals) (user : User) (token : Text) (now later : ℕ) (s : BoardAuth)
    (one : any (λ c. c == b';') token ≡ false) (plain : trim token ≡ token) (g h : Faults)
    (calm_g : (k : ℕ) → g k ≡ false) (calm_h : (k : ℕ) → h k ≡ false) where
  abbrev with_row : BoardAuth
  with_row = record s { sessions = row_for x user token now ∷ s.sessions }

  row-headers :
      later ≤ now + board_session_ttl
      → session_from_headers x g (some (sent_back token)) later with_row ≡ some (session_for user)
  unfolding session_from_headers session_from_token select_first
  row-headers in_time =
      let alive : ltb (now + board_session_ttl) later ≡ false = ground arith in
      rw (cookie-sent token one plain, calm_g 0, calm_g 1, text_eq_refl (x.sha256_hex token), alive)
        refl

  row-current :
      (header : Option Text)
      → later ≤ now + board_session_ttl
      → current_session x g (some (sent_back token)) header later with_row ≡ some (session_for user)
  unfolding current_session
  row-current header in_time = rw (current_session, row-headers in_time) refl

  delete-row : delete_session x h (some (sent_back token)) with_row ≡ record s {
    sessions =
        delete_where
          (λ r. text_eq r.token (x.sha256_hex token))
          (row_for x user token now ∷ s.sessions);
  }
  unfolding delete_session
  delete-row = rw (delete_session, cookie-sent token one plain, calm_h 0, calm_h 1) refl

  row-deleted :
      session_from_headers x g
        (some (sent_back token))
        later
        (delete_session x h (some (sent_back token)) with_row)
      ≡ none
  unfolding session_from_headers session_from_token
  row-deleted =
      rw
        (
          delete-row,
          cookie-sent token one plain,
          calm_g 0,
          calm_g 1,
          select-deleted (x.sha256_hex token) (row_for x user token now ∷ s.sessions),
        )
        refl

abbrev pub PassedLogin :
    LoginExternals → PasswordCrates → Faults → Text → Text → Text → ℕ → BoardAuth → User → Type 0
PassedLogin x p f username password totp_code now s user =
    (find_user x.accounts f username s.accounts ≡ ok (some user))
    × (verify_password_any p password user.password_hash ≡ true)
    × (verify_user_totp x user totp_code now ≡ true)

Found-cases :
    (r : Result (Option User) DbError)
    → ((u : User) × (r ≡ ok (some u))) ⊎ (r ≡ ok none) ⊎ ((e : DbError) × (r ≡ err e))
Found-cases (ok (some u)) = inl (u, refl)
Found-cases (ok none) = inr (inl refl)
Found-cases (err e) = inr (inr (e, refl))

login-Made :
    (x : LoginExternals) (p : PasswordCrates) (f : Faults)
    (username password totp_code token t : Text) (now : ℕ) (s : BoardAuth)
    → (login_post x p f username password totp_code token now s).0 ≡ signed_in t
    → (user : User) × PassedLogin x p f username password totp_code now s user
      × Made x.accounts user token t now s
          (login_post x p f username password totp_code token now s).1
unfolding login_post
login-Made x p f username password totp_code token t now s done =
    elim (Found-cases (find_user x.accounts f username s.accounts)) [
      | inr (inl unknown) ↦ absurd (ground arith)
      | inr (inr (e, broken)) ↦ absurd (ground arith)
      | inl (user, found) ↦
          elim (Bool-cases (
            not (verify_password_any p password user.password_hash)
            || not (verify_user_totp x user totp_code now))) [
              | inl refused ↦ absurd (ground arith)
              | inr good ↦
                  rw (login_post, found, good)
                    (
                      user,
                      (refl, ground arith, ground arith),
                      create-Made x.accounts (λ k. f (k + 2)) user token t now s
                          (rw (login_post, found, good) at done),
                    )
            ]
    ]

-- A login of the board that succeeds has found an enabled account, checked its password and its
-- second factor, and made a session: for 30 days the cookie signs in that account, with the name and
-- the role that it had at the login, and after a logout with this cookie it signs in nobody. The
-- token has no semicolon and no blanks at its ends, and no later statement fails.
pub login_until_logout :
    (x : LoginExternals) (p : PasswordCrates) (f g h : Faults)
    (username password totp_code token t : Text) (now later : ℕ) (header : Option Text)
    (s : BoardAuth)
    → any (λ c. c == b';') token ≡ false
    → trim token ≡ token
    → ((k : ℕ) → g k ≡ false)
    → ((k : ℕ) → h k ≡ false)
    → later ≤ now + board_session_ttl
    → (login_post x p f username password totp_code token now s).0 ≡ signed_in t
    → (user : User) × PassedLogin x p f username password totp_code now s user
      × (current_session x.accounts g
            (some (sent_back t))
            header
            later
            (login_post x p f username password totp_code token now s).1
          ≡ some (session_for user))
      × (session_from_headers x.accounts g (some (sent_back t)) later (
            delete_session x.accounts h
              (some (sent_back t))
              (login_post x p f username password totp_code token now s).1)
          ≡ none)
login_until_logout x p f g h username password totp_code token t now later header s one plain calm_g
      calm_h in_time done =
    let (user, shown, (same, made)) =
      login-Made x p f username password totp_code token t now s done in
    rw (same, made)
      (
        user,
        shown,
        row-current x.accounts user token now later s one plain g h calm_g calm_h header in_time,
        row-deleted x.accounts user token now later s one plain g h calm_g calm_h,
      )
