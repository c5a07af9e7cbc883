-- ===== src/PasswordReset/Links.antt =====
-- src/password_reset.rs: what a request for a link tells, and which links it leaves.
use arcade_launcher_server.Base.{
  ℕ, ◌≡◌, refl, inl, inr, false, List, [], ◌∷◌, any, Text, text_eq, trim, Faults, All, select_first,
  delete_where, is_empty, Bool-cases, Option-cases, arith,
}
use arcade_launcher_server.Accounts.Folding.{Folding}
use arcade_launcher_server.PasswordReset.{
  Reset, Resets, generic, resettable, for_account, open_reset, api_auth_forgot,
}

pub delete-none :
    (id : ℕ) (rs : List Reset)
    → All (λ r. for_account id r ≡ false) (delete_where (for_account id) rs)
unfolding delete_where
delete-none id [] = tt
delete-none id (r ∷ rs) = elim (Bool-cases (for_account id r)) [
  | inl hit ↦ rw hit (delete-none id rs)
  | inr miss ↦ rw miss (miss, delete-none id rs)
]

pub any-delete :
    (h : Text) (id : ℕ) (rs : List Reset)
    → any (λ r. text_eq r.token_hash h) rs ≡ false
    → any (λ r. text_eq r.token_hash h) (delete_where (for_account id) rs) ≡ false
unfolding delete_where
any-delete h id [] e = refl
any-delete h id (r ∷ rs) e = ground (arith, any-delete h id rs)

forgot-generic :
    (x : Folding) (f : Faults) (identifier token : Text) (now : ℕ) (s : Resets)
    → ((k : ℕ) → f k ≡ false)
    → any (λ r. text_eq r.token_hash (x.accounts.sha256_hex token)) s.resets ≡ false
    → (api_auth_forgot x f identifier token now s).0 ≡ generic
unfolding api_auth_forgot open_reset
forgot-generic x f identifier token now s calm fresh =
    elim (Bool-cases (is_empty (x.to_lowercase (trim identifier)))) [
      | inl blank ↦ rw blank refl
      | inr given ↦
          elim (Option-cases
            (select_first (resettable x (x.to_lowercase (trim identifier))) s.accounts.users)) [
              | inl missing ↦ rw (given, calm 0, calm 1, missing) refl
              | inr (u, there) ↦
                  rw
                    (
                      given,
                      calm 0,
                      calm 1,
                      there,
                      calm 2,
                      calm 3,
                      any-delete (x.accounts.sha256_hex token) u.id s.resets fresh,
                    )
                    refl
            ]
    ]

-- Where no statement fails and the new tokens are not among those on file: the answer to a request
-- for a link is the same for every identifier and whatever the accounts and the links on file are,
-- so it does not tell which names and addresses exist.
pub forgot_uniform :
    (x : Folding) (f : Faults) (identifier identifier' token token' : Text) (now now' : ℕ)
    (s s' : Resets)
    → ((k : ℕ) → f k ≡ false)
    → any (λ r. text_eq r.token_hash (x.accounts.sha256_hex token)) s.resets ≡ false
    → any (λ r. text_eq r.token_hash (x.accounts.sha256_hex token')) s'.resets ≡ false
    → (api_auth_forgot x f identifier token now s).0
      ≡ (api_auth_forgot x f identifier' token' now' s').0
forgot_uniform x f identifier identifier' token token' now now' s s' calm fresh fresh' = cc (
  forgot-generic x f identifier token now s calm fresh,
  forgot-generic x f identifier' token' now' s' calm fresh',
)
