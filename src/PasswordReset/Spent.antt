-- ===== src/PasswordReset/Spent.antt =====
-- src/password_reset.rs: what a submission that sets a password has looked up.
use arcade_launcher_server.Base.{
  ℕ, ◌+◌, ◌≤◌, ◌≡◌, refl, inl, inr, Option, none, some, Text, text_eq, trim, byte_len, Faults,
  Result, ok, err, ◌==◌, ltb, select_first, update_where, Bool-cases, Option-cases, arith,
}
use arcade_launcher_server.Accounts.{DbError}
use arcade_launcher_server.Accounts.Folding.{Folding}
use arcade_launcher_server.PasswordReset.{
  Reset, Resets, password_updated, owner, lookup_reset_token, renewed, set_new_password, submitted,
  api_auth_reset_submit,
}

module _ (x : Folding) where
  set-updated :
      (f : Faults) (id : ℕ) (username password hash : Text) (s : Resets)
      → (set_new_password x.accounts f id username password hash s).0 ≡ password_updated
      → (set_new_password x.accounts f id username password hash s).1.accounts.users
        ≡ update_where
            (λ u. u.id == id)
            (renewed x.accounts username password hash)
            s.accounts.users
  unfolding set_new_password
  set-updated f id username password hash s e = ground arith

  -- The account that a lookup gives is the one of the row that it finds.
  pub lookup-row :
      (f : Faults) (token : Text) (now : ℕ) (s s1 : Resets) (id : ℕ) (username : Text)
      → lookup_reset_token x f token now s ≡ (ok (some (id, username)), s1)
      → (r : Reset) × (select_first
            (λ q. text_eq q.token_hash (x.accounts.sha256_hex (trim token)))
            s.resets
          ≡ some r)
        × (now ≤ r.expires_at)
        × (id ≡ r.admin_id)
        × (s1 ≡ s)
  unfolding lookup_reset_token owner
  lookup-row f token now s s1 id username e =
      elim (Option-cases
        (select_first (λ q. text_eq q.token_hash (x.accounts.sha256_hex (trim token))) s.resets)) [
          | inl missing ↦ absurd (ground arith)
          | inr (r, there) ↦
              elim (Option-cases (select_first (λ u. u.id == r.admin_id) s.accounts.users)) [
                | inl gone ↦ absurd (ground arith)
                | inr (u, found) ↦ (r, there, ground arith, ground arith, ground arith)
              ]
        ]

  -- Which lookup comes before a password that is set.
  abbrev pub Sets : Text → Result (Option (ℕ × Text)) DbError × Resets → Resets → Type 0
  Sets password o after =
      (id : ℕ) × (username : Text) × (hash : Text) × (s : Resets) × (o
        ≡ (ok (some (id, username)), s))
      × (x.accounts.hash_password password ≡ some hash)
      × (8 ≤ byte_len password)
      × (after.accounts.users
          ≡ update_where (λ u. u.id == id) (renewed x.accounts username password hash)
              s.accounts.users)

  submitted-Sets :
      (f : Faults) (password : Text) (o : Result (Option (ℕ × Text)) DbError × Resets)
      → (submitted x f password o).0 ≡ password_updated
      → Sets password o (submitted x f password o).1
  submitted-Sets f password (err e, s) h = absurd cc
  submitted-Sets f password (ok none, s) h = absurd cc
  submitted-Sets f password (ok (some (id, username)), s) h =
      elim (Bool-cases (ltb (byte_len password) 8)) [
        | inl short ↦ absurd (ground arith)
        | inr long ↦ elim (Option-cases (x.accounts.hash_password password)) [
          | inl missing ↦ absurd (ground arith)
          | inr (hash, there) ↦
              rw (long, there)
                (
                  id,
                  username,
                  hash,
                  s,
                  refl,
                  refl,
                  ground arith,
                  set-updated f id username password hash s (rw (long, there) at h),
                )
        ]
      ]

  pub submit-Sets :
      (f : Faults) (token password : Text) (now : ℕ) (s : Resets)
      → (api_auth_reset_submit x f token password now s).0 ≡ password_updated
      → Sets password
          (lookup_reset_token x (λ k. f (k + 1)) (trim token) now s)
          (api_auth_reset_submit x f token password now s).1
  unfolding api_auth_reset_submit
  submit-Sets f token password now s h = elim (Bool-cases (f 0)) [
    | inl stopped ↦ absurd (ground arith)
    | inr goes ↦ rw goes (
        submitted-Sets f password (lookup_reset_token x (λ k. f (k + 1)) (trim token) now s)
          (rw goes at h))
  ]
