-- ===== src/Accounts/Sessions.antt =====
-- src/db.rs and src/store_auth.rs: the sessions of the admin panel and of the storefront. A cookie
-- carries a token, and a row its hash, which is the key of the table.
use arcade_launcher_server.Base.{
  ℕ, ◌+◌, ◌≡◌, refl, inl, inr, Bool, true, false, ◌&&◌, ◌||◌, Option, none, some, List, [], ◌∷◌,
  any, Text, text_eq, text_eq_refl, Faults, ◌==◌, leb, ltb, if◌then◌else◌, is_some, select_first,
  delete_where, Result, ok, err, arith, Bool-cases, Option-cases,
}
use arcade_launcher_server.Accounts.{
  DbError, db_error, User, Session, Accounts, Externals, session_ttl_seconds, found,
  find_user_by_id,
}

-- DELETE … WHERE expires_at <= :t
unfoldable pub live_sessions : ℕ → List Session → List Session
live_sessions now rows = delete_where (λ q. leb q.expires_at now) rows

abbrev pub has_hash : Text → List Session → Bool
has_hash hash rows = any (λ q. text_eq q.token_hash hash) rows

abbrev pub session : Externals → ℕ → Text → ℕ → ℕ → Session
session x user_id token ttl now = record {
  token_hash = x.sha256_hex token;
  user_id = user_id;
  expires_at = now + ttl;
  created_at = now;
}

unfoldable pub create_session :
    Externals → Faults → ℕ → Text → ℕ → Accounts → Result Text DbError × Accounts
unfolding live_sessions
create_session x f admin_id token now s =
    if f 0 || f 1
    then (err db_error, s)
    else let rows = live_sessions now s.admin_sessions in
      if f 2 || has_hash (x.sha256_hex token) rows
      then (err db_error, record s { admin_sessions = rows })
      else (
        ok token,
        record s { admin_sessions = session x admin_id token session_ttl_seconds now ∷ rows },
      )

-- The account that the join finds for a session.
abbrev pub admin_of : List User → ℕ → Option User
admin_of users id = select_first (λ u. u.id == id && u.enabled && u.is_admin) users

abbrev joined : List User → Option Session → Option User
joined users none = none
joined users (some q) = admin_of users q.user_id

unfoldable pub current_admin :
    Externals → Faults → Option Text → ℕ → Accounts → Result (Option User) DbError × Accounts
unfolding live_sessions
current_admin x f none now s = (ok none, s)
current_admin x f (some token) now s =
    if f 0 || f 1
    then (err db_error, s)
    else let rows = live_sessions now s.admin_sessions in
      let swept = record s { admin_sessions = rows } in
      if f 2 then (err db_error, swept) else (
        ok (
            joined s.users (
              select_first
                (λ q.
                  text_eq q.token_hash (x.sha256_hex token)
                  && ltb now q.expires_at
                  && is_some (admin_of s.users q.user_id))
                rows)),
        swept,
      )

unfoldable pub delete_session : Externals → Faults → Text → Accounts → Accounts
delete_session x f token s = if f 0 || f 1 then s else record s {
  admin_sessions = delete_where (λ q. text_eq q.token_hash (x.sha256_hex token)) s.admin_sessions;
}

-- `web_user`, where a sweep that fails is passed over.
unfoldable pub web_user : Externals → Faults → Option Text → ℕ → Accounts → Option User × Accounts
unfolding live_sessions
web_user x f none now s = (none, s)
web_user x f (some token) now s =
    if f 0
    then (none, s)
    else let rows = if f 1 then s.user_sessions else live_sessions now s.user_sessions in
      let swept = record s { user_sessions = rows } in
      if f 2
      then (none, swept)
      else elim (select_first
          (λ q. text_eq q.token_hash (x.sha256_hex token) && ltb now q.expires_at) rows) [
            | none ↦ (none, swept)
            | some q ↦ (found (find_user_by_id (λ k. f (k + 3)) q.user_id s), swept)
          ]

-- No row of a table has a hash, so none is found by it, nor after a sweep.
no-select :
    (h : Text) (p : Session → Bool) (now : ℕ) (rows : List Session)
    → has_hash h rows ≡ false
    → select_first (λ q. text_eq q.token_hash h && p q) (live_sessions now rows) ≡ none
unfolding select_first live_sessions delete_where
no-select h p now [] free = refl
no-select h p now (q ∷ rows) free = ground (arith, no-select h p now rows)

-- The session at the head of a table that has no other row with its hash.
joined-head :
    (users : List User) (h : Text) (q : Session) (now : ℕ) (rows : List Session)
    → text_eq q.token_hash h ≡ true
    → has_hash h rows ≡ false
    → joined users (
        select_first
          (λ r.
            text_eq r.token_hash h && ltb now r.expires_at && is_some (admin_of users r.user_id))
          (live_sessions now (q ∷ rows)))
      ≡ (if ltb now q.expires_at then admin_of users q.user_id else none)
unfolding select_first live_sessions delete_where
joined-head users h q now rows same free =
    let rest =
      no-select h (λ r. ltb now r.expires_at && is_some (admin_of users r.user_id)) now rows free in
    elim (Option-cases (admin_of users q.user_id)) [
      | inl gone ↦ ground (arith, rest)
      | inr (u, there) ↦ ground (arith, rest)
    ]

-- A session that the admin panel created opens the panel until it is twelve hours old, and to its
-- own account alone, as long as that account is an enabled administrator; then it opens nothing.
-- The statements that look the session up did not fail.
pub session-current_admin :
    (x : Externals) (f f' : Faults) (admin_id : ℕ) (token t : Text) (start now : ℕ) (s : Accounts)
    → (create_session x f admin_id token start s).0 ≡ ok t
    → f' 0 ≡ false
    → f' 1 ≡ false
    → f' 2 ≡ false
    → (current_admin x f' (some t) now (create_session x f admin_id token start s).1).0
      ≡ ok (if ltb now (start + session_ttl_seconds) then admin_of s.users admin_id else none)
unfolding create_session current_admin
session-current_admin x f f' admin_id token t start now s made a b c =
    elim (Bool-cases (f 0 || f 1)) [
      | inl down ↦ absurd (ground arith)
      | inr up ↦
          elim (Bool-cases
            (f 2 || has_hash (x.sha256_hex token) (live_sessions start s.admin_sessions))) [
              | inl taken ↦ absurd (ground arith)
              | inr free ↦
                  let same : token ≡ t = ground arith in
                  let hash : text_eq (x.sha256_hex token) (x.sha256_hex t) ≡ true =
                    rw same (text_eq_refl (x.sha256_hex t)) in
                  let alone_before : has_hash (x.sha256_hex token)
                        (live_sessions start s.admin_sessions)
                      ≡ false =
                    ground arith in
                  let alone : has_hash (x.sha256_hex t) (live_sessions start s.admin_sessions)
                      ≡ false =
                    rw same at alone_before in
                  let head =
                    joined-head s.users (x.sha256_hex t)
                      (session x admin_id token session_ttl_seconds start) now
                      (live_sessions start s.admin_sessions) hash alone in
                  rw (current_admin, create_session, up, free, a, b, c) (rw head refl)
            ]
    ]
