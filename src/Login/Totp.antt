-- ===== src/Login/Totp.antt =====
-- src/crypto.rs: which codes of an authenticator are accepted.
use arcade_launcher_server.Base.{
  ℕ, zero, suc, ◌+◌, ◌/◌, ◌≤◌, ◌≡◌, inl, inr, true, Bool, Option, none, some, [], ◌∷◌, Text,
  text_eq_iff, keep, is_ascii_digit, length, any, arith, Bool-cases, Option-cases,
}
use arcade_launcher_server.Accounts.{User}
use arcade_launcher_server.Login.{LoginExternals, verify_user_totp, step_before, is_code}

is_code-some : (digits : Text) (o : Option Text) → is_code digits o ≡ true → o ≡ some digits
is_code-some digits none h = absurd cc
is_code-some digits (some expected) h = ground (arith, text_eq_iff expected digits)

three :
    (p : ℕ → Bool) (n : ℕ)
    → 1 ≤ n
    → any p (step_before n ∷ n ∷ (n + 1) ∷ []) ≡ true
    → (step : ℕ) × (p step ≡ true) × (n ≤ step + 1) × (step ≤ n + 1)
three p zero pos h = absurd (omega arith)
three p (suc n) pos h = elim (Bool-cases (p n)) [
  | inl before ↦ (n, before, omega arith, omega arith)
  | inr not_before ↦ elim (Bool-cases (p (suc n))) [
    | inl now ↦ (suc n, now, omega arith, omega arith)
    | inr not_now ↦ (suc n + 1, ground arith, omega arith, omega arith)
  ]
]

-- A code that is accepted for an account with a second factor has six digits, and they are those of
-- the secret at the present step of 30 seconds, the one before it or the one after it, from the
-- first step of the epoch on.
pub totp_window :
    (x : LoginExternals) (user : User) (code : Text) (now : ℕ)
    → verify_user_totp x user code now ≡ true
    → user.totp_enabled ≡ true
    → 1 ≤ now / 30
    → (length (keep is_ascii_digit code) ≡ 6)
      × (secret : Text) × (step : ℕ) × (user.totp_secret ≡ some secret)
      × (x.totp_at secret step ≡ some (keep is_ascii_digit code))
      × (now / 30 ≤ step + 1)
      × (step ≤ now / 30 + 1)
unfolding verify_user_totp
totp_window x user code now good on pos = elim (Option-cases user.totp_secret) [
  | inl missing ↦ absurd (ground arith)
  | inr (secret, there) ↦
      let six : length (keep is_ascii_digit code) ≡ 6 = ground arith in
      let hit : any (λ step. is_code (keep is_ascii_digit code) (x.totp_at secret step))
            (step_before (now / 30) ∷ now / 30 ∷ (now / 30 + 1) ∷ [])
          ≡ true =
        ground arith in
      let (step, at, low, high) =
        three (λ step. is_code (keep is_ascii_digit code) (x.totp_at secret step)) (now / 30) pos
          hit in
      (six, secret, step, there, is_code-some _ _ at, low, high)
]
