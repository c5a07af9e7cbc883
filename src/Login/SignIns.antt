-- ===== src/Login/SignIns.antt =====
-- src/auth.rs: the challenge login as a whole: its nonce, its proof and its second factor.
use arcade_launcher_server.Base.{
  ◌+◌, ◌≡◌, ◌≢◌, ◌⊎◌, inl, inr, true, some, List, Text, trim, Faults, arith,
}
use arcade_launcher_server.Guard.Gate.Trace.{Event, run, Granted, allow-Granted}
use arcade_launcher_server.Accounts.{User}
use arcade_launcher_server.Login.{
  AppState, LoginExternals, VerifyCall, signed_in, key_of, gate_call, live_nonce, api_auth_verify,
  verify_user_totp,
}
use arcade_launcher_server.Login.SecondFactor.{verify-Spent}

-- A sign-in to an account with a second factor showed a valid code, or names an approval request
-- that the same account answered with an approving word, when the approval store is what some
-- history of answers and sign-ins from an empty store left.
pub second_factor-Granted :
    (x : LoginExternals) (f : Faults) (c : VerifyCall) (u : User) (t : Text) (s : AppState)
    (es : List Event)
    → (api_auth_verify x f c (record s { approvals = run es })).0 ≡ signed_in u t
    → u.totp_enabled ≡ true
    → (verify_user_totp x u c.totp_code c.now ≡ true) ⊎ Granted es u.id (trim c.approval_id)
second_factor-Granted x f c u t s es done on =
    let spent = verify-Spent x f c u t (record s { approvals = run es }) done in
    elim spent.shown.second [
      | inl off ↦ absurd (ground arith)
      | inr (inl code) ↦ inl code
      | inr (inr let_in) ↦ inr (allow-Granted es (λ k. f (k + 5)) (gate_call c u) let_in)
    ]

-- A sign-in had a live nonce for its user name, and its proof is the one that the shared key of the
-- account gives for that nonce.
pub sign_in-proven :
    (x : LoginExternals) (f : Faults) (c : VerifyCall) (u : User) (t : Text) (s : AppState)
    → (api_auth_verify x f c s).0 ≡ signed_in u t
    → (nonce : Text) × (live_nonce c.now (s.challenges (key_of x c)) ≡ some nonce)
      × (x.proof u.auth_key nonce ≡ some (trim c.proof))
sign_in-proven x f c u t s done =
    let spent = verify-Spent x f c u t s done in (spent.nonce, spent.live, spent.shown.proven)

-- A call for the user name of a sign-in that comes right after it does not sign in, whatever it
-- shows.
pub sign_in_once :
    (x : LoginExternals) (f f' : Faults) (c c' : VerifyCall) (u u' : User) (t t' : Text)
    (s : AppState)
    → (api_auth_verify x f c s).0 ≡ signed_in u t
    → key_of x c' ≡ key_of x c
    → (api_auth_verify x f' c' (api_auth_verify x f c s).1).0 ≢ signed_in u' t'
sign_in_once x f f' c c' u u' t t' s done same again =
    let first = verify-Spent x f c u t s done in
    let second = verify-Spent x f' c' u' t' (api_auth_verify x f c s).1 again in
    let gone = first.spent in let live = rw same at second.live in absurd (ground arith)
