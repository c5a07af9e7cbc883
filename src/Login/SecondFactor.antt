-- ===== src/Login/SecondFactor.antt =====
-- src/auth.rs: what a successful challenge login has shown, and that its nonce is spent.
use arcade_launcher_server.Base.{
  ◌+◌, ◌≡◌, refl, subst, ◌⊎◌, inl, inr, true, false, not, ◌&&◌, ◌||◌, none, some, Text, text_eq,
  text_eq_iff, text_eq_refl, trim, Faults, is_empty, Bool-cases, Option-cases, arith,
}
use arcade_launcher_server.Guard.Gate.{GuardOutcome, allow, wait, refused, unavailable, guard_gate}
use arcade_launcher_server.Accounts.{User, find_user, found}
use arcade_launcher_server.Login.{
  AppState, LoginExternals, VerifyCall, signed_in, put, key_of, gate_call, finish, after_gate,
  second_factor, check_proof, with_nonce, live_nonce, api_auth_verify, login_locked,
  verify_user_totp,
}

finish-signed :
    (x : LoginExternals) (f : Faults) (c : VerifyCall) (user u : User) (t : Text) (s : AppState)
    → (finish x f c user s).0 ≡ signed_in u t
    → user ≡ u
unfolding finish
finish-signed x f c user u t s done = ground arith

gate-signed :
    (x : LoginExternals) (f : Faults) (c : VerifyCall) (user u : User) (t : Text) (o : GuardOutcome)
    (s : AppState)
    → (after_gate x f c user o s).0 ≡ signed_in u t
    → (user ≡ u) × (o ≡ allow)
unfolding after_gate
gate-signed x f c user u t allow s done = (finish-signed x f c user u t s done, refl)
gate-signed x f c user u t (wait id) s done = absurd cc
gate-signed x f c user u t refused s done = absurd cc
gate-signed x f c user u t unavailable s done = absurd cc

-- What stands for the second factor of an account, in a call on a store of approvals.
abbrev pub SecondShown : LoginExternals → Faults → VerifyCall → User → AppState → Type 0
SecondShown x f c user s =
    (user.totp_enabled ≡ false)
    ⊎ (verify_user_totp x user c.totp_code c.now ≡ true)
    ⊎ ((guard_gate (λ k. f (k + 5)) (gate_call c user) s.approvals).outcome ≡ allow)

factor-signed :
    (x : LoginExternals) (f : Faults) (c : VerifyCall) (user u : User) (t : Text) (s : AppState)
    → (second_factor x f c user s).0 ≡ signed_in u t
    → (user ≡ u) × SecondShown x f c user s
unfolding second_factor
factor-signed x f c user u t s done =
    elim (Bool-cases (user.totp_enabled && not (verify_user_totp x user c.totp_code c.now))) [
      | inl asked ↦
          let (who, let_in) =
            gate-signed x f c user u t
              (guard_gate (λ k. f (k + 5)) (gate_call c user) s.approvals).outcome _
              (rw asked at done) in
          (who, inr (inr let_in))
      | inr shown ↦ (finish-signed x f c user u t s (rw shown at done), ground arith)
    ]

-- What a sign-in has shown.
pub record Shown (x : LoginExternals) (f : Faults) (c : VerifyCall) (u : User) (nonce : Text)
    (s : AppState) : Type 0 where
  pub proven : x.proof u.auth_key nonce ≡ some (trim c.proof)
  pub second : SecondShown x f c u s

proof-signed :
    (x : LoginExternals) (f : Faults) (c : VerifyCall) (nonce : Text) (user u : User) (t : Text)
    (s : AppState)
    → (check_proof x f c nonce user s).0 ≡ signed_in u t
    → Shown x f c u nonce s
unfolding check_proof
proof-signed x f c nonce user u t s done = elim (Option-cases (x.proof user.auth_key nonce)) [
  | inl corrupt ↦ absurd (ground arith)
  | inr (expected, there) ↦ elim (Bool-cases (f 4 || is_empty user.auth_key)) [
    | inl blank ↦ absurd (ground arith)
    | inr keyed ↦ elim (Bool-cases (text_eq expected (trim c.proof))) [
      | inr wrong ↦ absurd (ground arith)
      | inl right ↦
          let (who, second) = factor-signed x f c user u t s (rw (keyed, there, right) at done) in
          let same : expected ≡ trim c.proof = (text_eq_iff expected (trim c.proof)).0 right in
          let shown : Shown x f c user nonce s = record {
            proven = rw same at there;
            second = second;
          } in
          subst (λ v. Shown x f c v nonce s) who shown
    ]
  ]
]

nonce-signed :
    (x : LoginExternals) (f : Faults) (c : VerifyCall) (nonce : Text) (u : User) (t : Text)
    (s : AppState)
    → (with_nonce x f c nonce s).0 ≡ signed_in u t
    → Shown x f c u nonce s
unfolding with_nonce
nonce-signed x f c nonce u t s done =
    elim (Option-cases (found (find_user x.accounts (λ k. f (k + 2)) c.username s.accounts))) [
      | inl missing ↦ absurd (ground arith)
      | inr (user, there) ↦ proof-signed x f c nonce user u t s (rw (with_nonce, there) at done)
    ]

-- The challenges change in one place.
challenges-finish :
    (x : LoginExternals) (f : Faults) (c : VerifyCall) (user : User) (s : AppState)
    → (finish x f c user s).1.challenges ≡ s.challenges
unfolding finish
challenges-finish x f c user s = refl

challenges-gate :
    (x : LoginExternals) (f : Faults) (c : VerifyCall) (user : User) (o : GuardOutcome)
    (s : AppState)
    → (after_gate x f c user o s).1.challenges ≡ s.challenges
unfolding after_gate
challenges-gate x f c user allow s = challenges-finish x f c user s
challenges-gate x f c user (wait id) s = refl
challenges-gate x f c user refused s = refl
challenges-gate x f c user unavailable s = refl

challenges-factor :
    (x : LoginExternals) (f : Faults) (c : VerifyCall) (user : User) (s : AppState)
    → (second_factor x f c user s).1.challenges ≡ s.challenges
unfolding second_factor
challenges-factor x f c user s =
    elim (Bool-cases (user.totp_enabled && not (verify_user_totp x user c.totp_code c.now))) [
      | inl asked ↦ rw asked (
          challenges-gate x f c user
            (guard_gate (λ k. f (k + 5)) (gate_call c user) s.approvals).outcome _)
      | inr shown ↦ rw shown (challenges-finish x f c user s)
    ]

challenges-proof :
    (x : LoginExternals) (f : Faults) (c : VerifyCall) (nonce : Text) (user : User) (s : AppState)
    → (check_proof x f c nonce user s).1.challenges ≡ s.challenges
unfolding check_proof
challenges-proof x f c nonce user s = ground (arith, challenges-factor x f c user s)

challenges-nonce :
    (x : LoginExternals) (f : Faults) (c : VerifyCall) (nonce : Text) (s : AppState)
    → (with_nonce x f c nonce s).1.challenges ≡ s.challenges
unfolding with_nonce
challenges-nonce x f c nonce s =
    elim (Option-cases (found (find_user x.accounts (λ k. f (k + 2)) c.username s.accounts))) [
      | inl missing ↦ rw (with_nonce, missing) refl
      | inr (user, there) ↦ rw (with_nonce, there) (challenges-proof x f c nonce user s)
    ]

-- What a sign-in means for the challenge of its user name.
pub record Spent (x : LoginExternals) (f : Faults) (c : VerifyCall) (u : User) (s s' : AppState)
    : Type 0 where
  pub nonce : Text
  pub live : live_nonce c.now (s.challenges (key_of x c)) ≡ some nonce
  pub shown : Shown x f c u nonce s
  pub spent : s'.challenges (key_of x c) ≡ none

pub verify-Spent :
    (x : LoginExternals) (f : Faults) (c : VerifyCall) (u : User) (t : Text) (s : AppState)
    → (api_auth_verify x f c s).0 ≡ signed_in u t
    → Spent x f c u s (api_auth_verify x f c s).1
unfolding api_auth_verify put
verify-Spent x f c u t s done =
    elim (Option-cases (login_locked (f 0) (key_of x c) c.now s.throttle)) [
      | inr (secs, locked) ↦ absurd (ground arith)
      | inl free ↦ elim (Bool-cases (f 1)) [
        | inl poisoned ↦ absurd (ground arith)
        | inr sane ↦ elim (Option-cases (live_nonce c.now (s.challenges (key_of x c)))) [
          | inl dead ↦ absurd (ground arith)
          | inr (nonce, live) ↦
              let popped : AppState = record s {
                challenges = put s.challenges (key_of x c) none;
              } in
              let shown =
                nonce-signed x f c nonce u t popped
                  (rw (api_auth_verify, free, sane, live) at done) in
              let kept = challenges-nonce x f c nonce popped in
              rw (api_auth_verify, free, sane, live)
                (record {
                  nonce = nonce;
                  live = live;
                  shown = record { proven = shown.proven; second = shown.second };
                  spent = rw kept (rw (text_eq_refl (key_of x c)));
                })
        ]
      ]
    ]
