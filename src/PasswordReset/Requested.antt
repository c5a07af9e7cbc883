-- ===== src/PasswordReset/Requested.antt =====
-- src/password_reset.rs: histories of reset links, with whatever else happens to the accounts in
-- between. A log has its newest event at the head.
use arcade_launcher_server.Base.{
  ℕ, ◌+◌, ◌≤◌, ◌≡◌, ◌⊎◌, refl, inl, inr, ◌||◌, Option, none, some, List, [], ◌∷◌, any, Text,
  text_eq, text_eq_iff, trim, byte_len, Faults, Result, ok, err, ◌==◌, ltb, if◌then◌else◌, All,
  All-map, All-delete_where, All-select_first, select_first, update_where, delete_where, is_empty,
  Bool-cases, Option-cases,
}
use arcade_launcher_server.Accounts.{User, Accounts, DbError}
use arcade_launcher_server.Accounts.Folding.{Folding}
use arcade_launcher_server.PasswordReset.Spent.{lookup-row, submit-Sets}
use arcade_launcher_server.PasswordReset.{
  Reset, Resets, password_updated, reset_ttl_secs, resettable, for_account, open_reset,
  api_auth_forgot, lookup_reset_token, renewed, set_new_password, submitted, api_auth_reset_page,
  api_auth_reset_submit,
}

pub data Event : Type 0 where
  forgets : Faults → (identifier token : Text) → ℕ → Event
  looks : Faults → Text → ℕ → Event
  submits : Faults → (token password : Text) → ℕ → Event
  changes : Accounts → Event

module _ (x : Folding) where
  unfoldable pub step : Event → Resets → Resets
  step (forgets f identifier token now) s = (api_auth_forgot x f identifier token now s).2
  step (looks f token now) s = (api_auth_reset_page x f token now s).1
  step (submits f token password now) s = (api_auth_reset_submit x f token password now s).1
  step (changes a) s = record s { accounts = a }

  unfoldable pub run : List Event → Accounts → Resets
  unfolding step
  run [] a = record { accounts = a; resets = [] }
  run (e ∷ es) a = step e (run es a)

  -- A request in the history for the account of the link, an hour before the link's end, with the
  -- token of the link.
  abbrev pub IsFor : Text → Text → ℕ → Resets → Reset → Type 0
  IsFor identifier token now s r =
      (u : User) × (select_first (resettable x (x.to_lowercase (trim identifier))) s.accounts.users
        ≡ some u)
      × (u.id ≡ r.admin_id)
      × (r.token_hash ≡ x.accounts.sha256_hex token)
      × (r.expires_at ≡ now + reset_ttl_secs)

  abbrev pub Asked : Accounts → List Event → Reset → Type 0
  Asked a [] r = ⊥
  Asked a (forgets f identifier token now ∷ es) r =
      IsFor identifier token now (run es a) r ⊎ Asked a es r
  Asked a (looks f token now ∷ es) r = Asked a es r
  Asked a (submits f token password now ∷ es) r = Asked a es r
  Asked a (changes b ∷ es) r = Asked a es r

  All-forgot :
      (P Q : Reset → Type 0) (f : Faults) (identifier token : Text) (now : ℕ) (s : Resets)
      → ((r : Reset) → P r → Q r)
      → ((r : Reset) → IsFor identifier token now s r → Q r)
      → All P s.resets
      → All Q (api_auth_forgot x f identifier token now s).2.resets
  unfolding api_auth_forgot open_reset
  All-forgot P Q f identifier token now s old new k =
      let kept : All Q s.resets = All-map s.resets old k in
      elim (Bool-cases (is_empty (x.to_lowercase (trim identifier)))) [
        | inl blank ↦ rw blank kept
        | inr given ↦ elim (Bool-cases (f 0 || f 1)) [
          | inl stopped ↦ rw (given, stopped) kept
          | inr goes ↦
              elim (Option-cases
                (select_first (resettable x (x.to_lowercase (trim identifier))) s.accounts.users)) [
                  | inl missing ↦ rw (given, goes, missing) kept
                  | inr (u, there) ↦
                      let rest : All Q
                          (if f 2 then s.resets else delete_where (for_account u.id) s.resets) =
                        elim (Bool-cases (f 2)) [
                          | inl fails ↦ rw fails kept
                          | inr works ↦
                              rw works
                                (All-delete_where (for_account u.id) s.resets (λ r m _. m) kept)
                        ] in
                      elim (Bool-cases (
                        f 3
                        || any (λ r. text_eq r.token_hash (x.accounts.sha256_hex token))
                            (if f 2 then s.resets else delete_where (for_account u.id) s.resets))) [
                              | inl fails ↦ rw (given, goes, there, fails) rest
                              | inr works ↦
                                  rw (given, goes, there, works)
                                    (new _ (u, there, refl, refl, refl), rest)
                            ]
                ]
        ]
      ]

  All-lookup :
      (P : Reset → Type 0) (f : Faults) (token : Text) (now : ℕ) (s : Resets)
      → All P s.resets
      → All P (lookup_reset_token x f token now s).1.resets
  unfolding lookup_reset_token
  All-lookup P f token now s k =
      let hash = x.accounts.sha256_hex (trim token) in
      let less = All-delete_where (λ q. text_eq q.token_hash hash) s.resets (λ r m _. m) k in
      elim (Bool-cases (f 0)) [
        | inl stopped ↦ rw stopped k
        | inr goes ↦ elim (Option-cases (select_first (λ r. text_eq r.token_hash hash) s.resets)) [
          | inl missing ↦ rw (goes, missing) k
          | inr (r, there) ↦ elim (Bool-cases (ltb r.expires_at now)) [
            | inl late ↦ elim (Bool-cases (f 1)) [
              | inl fails ↦ rw (goes, there, late, fails) k
              | inr works ↦ rw (goes, there, late, works) less
            ]
            | inr alive ↦ elim (Bool-cases (f 2)) [
              | inl fails ↦ rw (goes, there, alive, fails) k
              | inr works ↦ rw (goes, there, alive, works) k
            ]
          ]
        ]
      ]

  All-set :
      (P : Reset → Type 0) (f : Faults) (id : ℕ) (username password hash : Text) (s : Resets)
      → All P s.resets
      → All P (set_new_password x.accounts f id username password hash s).1.resets
  unfolding set_new_password
  All-set P f id username password hash s k =
      let less = All-delete_where (for_account id) s.resets (λ r m _. m) k in
      elim (Bool-cases (f 4)) [
        | inl fails ↦ rw fails k
        | inr works ↦ elim (Bool-cases (f 5)) [
          | inl left ↦ rw (works, left) k
          | inr burnt ↦ rw (works, burnt) less
        ]
      ]

  All-submitted :
      (P : Reset → Type 0) (f : Faults) (password : Text) (o : Option (ℕ × Text)) (s : Resets)
      → All P s.resets
      → All P (submitted x f password (ok o, s)).1.resets
  All-submitted P f password none s k = k
  All-submitted P f password (some (id, username)) s k =
      elim (Bool-cases (ltb (byte_len password) 8)) [
        | inl short ↦ rw short k
        | inr long ↦ elim (Option-cases (x.accounts.hash_password password)) [
          | inl missing ↦ rw (long, missing) k
          | inr (hash, there) ↦ rw (long, there) (All-set P f id username password hash s k)
        ]
      ]

  All-result :
      (P : Reset → Type 0) (f : Faults) (password : Text)
      (o : Result (Option (ℕ × Text)) DbError × Resets)
      → All P o.1.resets
      → All P (submitted x f password o).1.resets
  All-result P f password (ok o, s) k = All-submitted P f password o s k
  All-result P f password (err e, s) k = k

  All-submit :
      (P : Reset → Type 0) (f : Faults) (token password : Text) (now : ℕ) (s : Resets)
      → All P s.resets
      → All P (api_auth_reset_submit x f token password now s).1.resets
  unfolding api_auth_reset_submit
  All-submit P f token password now s k = elim (Bool-cases (f 0)) [
    | inl stopped ↦ rw stopped k
    | inr goes ↦ rw goes (
        All-result P f password (lookup_reset_token x (λ k. f (k + 1)) (trim token) now s)
          (All-lookup P (λ k. f (k + 1)) (trim token) now s k))
  ]

  All-page :
      (P : Reset → Type 0) (f : Faults) (token : Text) (now : ℕ) (s : Resets)
      → All P s.resets
      → All P (api_auth_reset_page x f token now s).1.resets
  unfolding api_auth_reset_page
  All-page P f token now s k = elim (Bool-cases (f 0)) [
    | inl stopped ↦ rw stopped k
    | inr goes ↦ rw goes (All-lookup P (λ k. f (k + 1)) (trim token) now s k)
  ]

  run-Asked : (es : List Event) (a : Accounts) → All (Asked a es) (run es a).resets
  unfolding run step
  run-Asked [] a = tt
  run-Asked (forgets f identifier token now ∷ es) a =
      All-forgot (Asked a es) _ f identifier token now (run es a) (λ r m. inr m) (λ r m. inl m)
        (run-Asked es a)
  run-Asked (looks f token now ∷ es) a =
      All-page (Asked a es) f token now (run es a) (run-Asked es a)
  run-Asked (submits f token password now ∷ es) a =
      All-submit (Asked a es) f token password now (run es a) (run-Asked es a)
  run-Asked (changes b ∷ es) a = run-Asked es a

  -- After any history of requests, visits and submissions that starts without links, with any
  -- changes of the accounts in between and whichever statements fail: a password is set only by a
  -- token that a request within the last hour made for this very account, which was enabled and had
  -- an address then. The new password has at least 8 bytes, and no other row of the accounts changes.
  pub reset-Asked :
      (es : List Event) (a : Accounts) (f : Faults) (token password : Text) (now : ℕ)
      → (api_auth_reset_submit x f token password now (run es a)).0 ≡ password_updated
      → (r : Reset) × (Asked a es r)
        × (r.token_hash ≡ x.accounts.sha256_hex (trim (trim token)))
        × (now ≤ r.expires_at)
        × (8 ≤ byte_len password)
        × (username : Text) × (hash : Text) × (x.accounts.hash_password password ≡ some hash)
        × ((api_auth_reset_submit x f token password now (run es a)).1.accounts.users
            ≡ update_where
                (λ u. u.id == r.admin_id)
                (renewed x.accounts username password hash)
                (run es a).accounts.users)
  reset-Asked es a f token password now h =
      let (id, username, hash, s1, looked, hashed, long, set) =
        submit-Sets x f token password now (run es a) h in
      let (r, there, alive, same_id, same) =
        lookup-row x (λ k. f (k + 1)) (trim token) now (run es a) s1 id username looked in
      let (asked, hit) =
        All-select_first (Asked a es)
          (λ q. text_eq q.token_hash (x.accounts.sha256_hex (trim (trim token)))) (run es a).resets
          r (run-Asked es a) there in
      let at : r.token_hash ≡ x.accounts.sha256_hex (trim (trim token)) =
        (text_eq_iff r.token_hash (x.accounts.sha256_hex (trim (trim token)))).0 hit in
      (r, asked, at, alive, long, username, hash, hashed, rw (same_id, same) at set)
