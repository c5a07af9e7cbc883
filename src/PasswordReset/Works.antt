-- ===== src/PasswordReset/Works.antt =====
-- src/password_reset.rs: from the request for a link to the new password.
use arcade_launcher_server.Base.{
  ℕ, ◌+◌, ◌≤◌, ◌≡◌, refl, false, none, some, List, [], ◌∷◌, any, Text, text_eq, text_eq_refl, trim,
  byte_len, Faults, ok, ◌==◌, ==_refl, ltb, select_first, update_where, delete_where, is_empty,
  arith,
}
use arcade_launcher_server.Accounts.{User}
use arcade_launcher_server.Accounts.Folding.{Folding}
use arcade_launcher_server.PasswordReset.{
  Reset, Resets, generic, link_expired, password_updated, reset_ttl_secs, resettable, for_account,
  open_reset, owner, api_auth_forgot, lookup_reset_token, renewed, set_new_password,
  api_auth_reset_submit,
}
use arcade_launcher_server.PasswordReset.Links.{any-delete}

abbrev IsCalm : Faults → Type 0
IsCalm f = (k : ℕ) → f k ≡ false

abbrev pub link : Folding → User → Text → ℕ → Reset
link x u token now = record {
  token_hash = x.accounts.sha256_hex token;
  admin_id = u.id;
  expires_at = now + reset_ttl_secs;
  created_at = now;
}

-- The state that an opened link leaves.
abbrev pub linked : Folding → User → Text → ℕ → Resets → Resets
linked x u token now s = record s {
  resets = link x u token now ∷ delete_where (for_account u.id) s.resets;
}

select-none :
    (h : Text) (rs : List Reset)
    → any (λ r. text_eq r.token_hash h) rs ≡ false
    → select_first (λ r. text_eq r.token_hash h) rs ≡ none
unfolding select_first
select-none h [] e = refl
select-none h (r ∷ rs) e = ground (arith, select-none h rs)

submit-missing :
    (x : Folding) (f : Faults) (token password : Text) (now : ℕ) (s : Resets)
    → IsCalm f
    → trim token ≡ token
    → any (λ r. text_eq r.token_hash (x.accounts.sha256_hex token)) s.resets ≡ false
    → (api_auth_reset_submit x f token password now s).0 ≡ link_expired
unfolding api_auth_reset_submit lookup_reset_token
submit-missing x f token password now s calm plain gone =
    rw (calm 0, calm 1, plain, plain, select-none (x.accounts.sha256_hex token) s.resets gone) refl

-- The account and the links once the password is set.
abbrev pub reset_done : Folding → User → Text → Text → Resets → Resets
reset_done x u password hash s = record {
  accounts = record s.accounts {
    users =
        update_where (λ v. v.id == u.id) (renewed x.accounts u.username password hash)
          s.accounts.users;
  };
  resets = delete_where (for_account u.id) s.resets;
}

module _ (x : Folding) (f : Faults) (u : User) (token password hash : Text) (now later : ℕ)
    (s : Resets) (calm : IsCalm f) (plain : trim token ≡ token)
    (by_id : select_first (λ v. v.id == u.id) s.accounts.users ≡ some u)
    (in_time : later ≤ now + reset_ttl_secs) (long : 8 ≤ byte_len password)
    (hashed : x.accounts.hash_password password ≡ some hash) where
  owner-link : owner s.accounts.users (link x u token now) ≡ some (u.id, u.username)
  unfolding owner
  owner-link = rw (owner, by_id) refl

  lookup-linked :
      lookup_reset_token x (λ k. f (k + 1)) token later (linked x u token now s)
      ≡ (ok (some (u.id, u.username)), linked x u token now s)
  unfolding lookup_reset_token select_first
  lookup-linked =
      let alive : ltb (now + reset_ttl_secs) later ≡ false = ground arith in
      rw (calm 1, plain, text_eq_refl (x.accounts.sha256_hex token), alive, calm 3, owner-link) refl

  submit-linked :
      api_auth_reset_submit x f token password later (linked x u token now s)
      ≡ (password_updated, reset_done x u password hash (linked x u token now s))
  unfolding api_auth_reset_submit set_new_password
  submit-linked =
      let enough : ltb (byte_len password) 8 ≡ false = ground arith in
      rw (calm 0, plain, lookup-linked, enough, hashed, calm 4, calm 5) refl

link_gone :
    (x : Folding) (u : User) (token password hash : Text) (now : ℕ) (s : Resets)
    → any (λ r. text_eq r.token_hash (x.accounts.sha256_hex token)) s.resets ≡ false
    → any
        (λ r. text_eq r.token_hash (x.accounts.sha256_hex token))
        (reset_done x u password hash (linked x u token now s)).resets
      ≡ false
unfolding delete_where
link_gone x u token password hash now s fresh =
    let h = x.accounts.sha256_hex token in
    rw (==_refl u.id) (
      any-delete h u.id (delete_where (for_account u.id) s.resets)
        (any-delete h u.id s.resets fresh))

forgot-linked :
    (x : Folding) (f : Faults) (u : User) (identifier token : Text) (now : ℕ) (s : Resets)
    → IsCalm f
    → is_empty (x.to_lowercase (trim identifier)) ≡ false
    → select_first (resettable x (x.to_lowercase (trim identifier))) s.accounts.users ≡ some u
    → is_empty (trim u.email) ≡ false
    → any (λ r. text_eq r.token_hash (x.accounts.sha256_hex token)) s.resets ≡ false
    → api_auth_forgot x f identifier token now s ≡ (
      generic,
      some (record { address = u.email; username = u.username; token = token }),
      linked x u token now s,
    )
unfolding api_auth_forgot open_reset
forgot-linked x f u identifier token now s calm given there address fresh =
    rw
      (
        given,
        calm 0,
        calm 1,
        there,
        calm 2,
        calm 3,
        any-delete (x.accounts.sha256_hex token) u.id s.resets fresh,
        address,
      )
      refl

-- Where no statement fails: an identifier that finds an enabled account with an address gets a link
-- mailed to that address, and within the hour the link sets a new password of at least 8 bytes. The
-- row of the account then has the hash of the password and the challenge key of its name and the
-- password, every other row is as before, and no link of the account is left, so that the same link
-- does nothing a second time. The token is one that is not on file and has no blanks at its ends,
-- and identifiers of accounts are unique as far as that of this account.
pub reset_works :
    (x : Folding) (f g : Faults) (u : User) (identifier token password hash : Text) (now later : ℕ)
    (again : Text) (third : ℕ) (s : Resets)
    → IsCalm f
    → IsCalm g
    → is_empty (x.to_lowercase (trim identifier)) ≡ false
    → select_first (resettable x (x.to_lowercase (trim identifier))) s.accounts.users ≡ some u
    → select_first (λ v. v.id == u.id) s.accounts.users ≡ some u
    → is_empty (trim u.email) ≡ false
    → any (λ r. text_eq r.token_hash (x.accounts.sha256_hex token)) s.resets ≡ false
    → trim token ≡ token
    → later ≤ now + reset_ttl_secs
    → 8 ≤ byte_len password
    → x.accounts.hash_password password ≡ some hash
    → ((api_auth_forgot x f identifier token now s).1
        ≡ some (record { address = u.email; username = u.username; token = token }))
      × (api_auth_reset_submit x g token password later
            (api_auth_forgot x f identifier token now s).2
          ≡ (
            password_updated,
            reset_done x u password hash (api_auth_forgot x f identifier token now s).2,
          ))
      × ((api_auth_reset_submit x g token again third
            (reset_done x u password hash (api_auth_forgot x f identifier token now s).2)).0
          ≡ link_expired)
reset_works x f g u identifier token password hash now later again third s calm calm' given there
      by_id address fresh plain in_time long hashed =
    rw (forgot-linked x f u identifier token now s calm given there address fresh) (
      refl,
      submit-linked x g u token password hash now later s calm' plain by_id in_time long hashed,
      submit-missing x g token again third (reset_done x u password hash (linked x u token now s))
          calm' plain (link_gone x u token password hash now s fresh),
    )
