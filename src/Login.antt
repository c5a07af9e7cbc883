-- ===== src/Login.antt =====
-- src/models.rs and src/auth.rs: the throttle of failed logins, and the challenge login of the
-- launcher with its second factor. The maps behind mutexes are functions; `f` says which lock or
-- statement fails, by its place in the handler. A handler reads the clock once. What the crates
-- compute is a parameter: the lower case of Unicode, HMAC-SHA256, and
-- the six digits of a TOTP step, where a secret that is no base32 gives none.
pub mod Throttle
mod SecondFactor
pub mod SignIns
pub mod Totp
mod Tests
use arcade_launcher_server.Base.{
  ℕ, zero, suc, ◌+◌, ◌-◌, ◌/◌, ◌%◌, ◌^◌, [], ◌∷◌, any, keep, length, is_ascii_digit, Bool, true,
  false, not, ◌&&◌, ◌||◌, Option, none, some, List, Text, text_eq, trim, Faults, leb, ltb,
  if◌then◌else◌, select_first, ◌==◌, is_empty, Result, ok, err,
}
use arcade_launcher_server.Devices.{Device}
use arcade_launcher_server.Guard.Gate.{
  Approvals, GateCall, GateResult, GuardOutcome, allow, wait, refused, unavailable, guard_gate,
}
use arcade_launcher_server.Accounts.{
  User, Accounts, Externals, DbError, find_user, found, issue_user_token,
}

abbrev pub login_max_failures : ℕ
login_max_failures = 5

abbrev pub login_lockout_secs : ℕ
login_lockout_secs = 300

-- key ↦ (consecutive failures, locked until); the failures are a `u32`, which wraps around.
abbrev pub LoginThrottle : Type 0
LoginThrottle = Text → Option (ℕ × ℕ)

-- `HashMap::insert` and `HashMap::remove`
unfoldable pub put {ℓ} : {A : Type ℓ} → (Text → Option A) → Text → Option A → Text → Option A
put m key v j = if text_eq key j then v else m j

unfoldable pub login_locked : Bool → Text → ℕ → LoginThrottle → Option ℕ
login_locked poisoned key now m = if poisoned then none else elim (m key) [
  | none ↦ none
  | some (fails, until) ↦
      if leb login_max_failures fails && ltb now until then some (until - now) else none
]

abbrev pub or_zero : Option (ℕ × ℕ) → ℕ × ℕ
or_zero none = (0, 0)
or_zero (some e) = e

unfoldable pub record_login_failure : Bool → Text → ℕ → LoginThrottle → LoginThrottle
unfolding put
record_login_failure poisoned key now m =
    if poisoned
    then m
    else let (fails, until) = or_zero (m key) in
      let more = (fails + 1) % 2 ^ 32 in
      put m key
        (some (more, if leb login_max_failures more then now + login_lockout_secs else until))

unfoldable pub clear_login_failures : Bool → Text → LoginThrottle → LoginThrottle
unfolding put
clear_login_failures poisoned key m = if poisoned then m else put m key none

-- username ↦ (nonce, expires at)
abbrev pub ChallengeNonces : Type 0
ChallengeNonces = Text → Option (Text × ℕ)

pub record AppState : Type 0 where
  pub challenges : ChallengeNonces
  pub throttle : LoginThrottle
  pub approvals : Approvals
  pub accounts : Accounts

-- `proof` is the HMAC of the nonce under the decoded key, unless the key is no hexadecimal text.
pub record LoginExternals : Type 0 where
  pub accounts : Externals
  pub to_lowercase : Text → Text
  pub proof : (auth_key nonce : Text) → Option Text
  pub totp_at : (secret : Text) (step : ℕ) → Option Text

-- The step before, as the code casts it to `u64`.
abbrev pub step_before : ℕ → ℕ
step_before zero = 2 ^ 64 - 1
step_before (suc n) = n

abbrev pub is_code : Text → Option Text → Bool
is_code digits none = false
is_code digits (some expected) = text_eq expected digits

-- `verify_user_totp` of src/crypto.rs.
unfoldable pub verify_user_totp : LoginExternals → User → Text → ℕ → Bool
verify_user_totp x user code now = if not user.totp_enabled then true else elim user.totp_secret [
  | none ↦ false
  | some secret ↦
      let digits = keep is_ascii_digit code in
      let now_step = now / 30 in
      if not (length digits == 6)
      then false
      else any (λ step. is_code digits (x.totp_at secret step))
          (step_before now_step ∷ now_step ∷ (now_step + 1) ∷ [])
]

-- `map.retain(|_, (_, exp)| *exp > cutoff)`
abbrev pub unexpired : ℕ → ChallengeNonces → ChallengeNonces
unexpired cutoff m j = elim (m j) [
  | none ↦ none
  | some (n, t) ↦ if ltb cutoff t then some (n, t) else none
]

unfoldable pub api_auth_challenge : LoginExternals → Bool → Text → Text → ℕ → AppState → AppState
unfolding put
api_auth_challenge x poisoned username nonce now s = if poisoned then s else record s {
  challenges =
      put (unexpired now s.challenges) (x.to_lowercase (trim username)) (some (nonce, now + 120));
}

-- The form, and what the handler asks of its surroundings.
pub record VerifyCall : Type 0 where
  pub username : Text
  pub proof : Text
  pub totp_code : Text
  pub approval_id : Text
  pub device_name : Text
  pub ip : Option Text
  pub now : ℕ
  pub fresh_approval : Text
  pub fresh_token : Text
  pub devices : List Device

pub data VerifyReply : Type 0 where
  too_many_attempts : ℕ → VerifyReply
  challenge_expired invalid_credentials not_available corrupt_key bad_2fa denied_on_phone :
      VerifyReply
  approval_pending : Text → VerifyReply
  server_error : VerifyReply
  signed_in : User → Text → VerifyReply

abbrev pub key_of : LoginExternals → VerifyCall → Text
key_of x c = x.to_lowercase (trim c.username)

abbrev pub gate_call : VerifyCall → User → GateCall
gate_call c user = record {
  user_id = user.id;
  approval_id = trim c.approval_id;
  ip = c.ip;
  device_name = c.device_name;
  now = c.now;
  fresh_id = c.fresh_approval;
  devices = c.devices;
}

abbrev failure : LoginExternals → Faults → VerifyCall → AppState → AppState
failure x f c s = record s { throttle = record_login_failure (f 7) (key_of x c) c.now s.throttle }

abbrev token_reply : User → Result Text DbError → VerifyReply
token_reply user (ok token) = signed_in user token
token_reply user (err _) = server_error

-- From `st.clear_login_failures` on.
unfoldable pub finish :
    LoginExternals → Faults → VerifyCall → User → AppState → VerifyReply × AppState
finish x f c user s =
    let (issued, accounts) =
      issue_user_token x.accounts (λ k. f (k + 9)) user.id user.username c.fresh_token c.now
        s.accounts in
    (
      token_reply user issued,
      record s {
        throttle = clear_login_failures (f 8) (key_of x c) s.throttle;
        accounts = accounts;
      },
    )

-- The match on the outcome of `guard_gate`.
unfoldable pub after_gate :
    LoginExternals → Faults → VerifyCall → User → GuardOutcome → AppState → VerifyReply × AppState
unfolding finish
after_gate x f c user allow s = finish x f c user s
after_gate x f c user (wait id) s = (approval_pending id, s)
after_gate x f c user refused s = (denied_on_phone, failure x f c s)
after_gate x f c user unavailable s = (bad_2fa, failure x f c s)

-- From the second factor on.
unfoldable pub second_factor :
    LoginExternals → Faults → VerifyCall → User → AppState → VerifyReply × AppState
unfolding after_gate finish
second_factor x f c user s =
    if user.totp_enabled && not (verify_user_totp x user c.totp_code c.now)
    then (let g = guard_gate (λ k. f (k + 5)) (gate_call c user) s.approvals in
        after_gate x f c user g.outcome (record s { approvals = g.store }))
    else finish x f c user s

-- From the shared key on; `constant_eq` holds for equal bytes.
unfoldable pub check_proof :
    LoginExternals → Faults → VerifyCall → Text → User → AppState → VerifyReply × AppState
unfolding second_factor
check_proof x f c nonce user s =
    if f 4 || is_empty user.auth_key
    then (not_available, s)
    else elim (x.proof user.auth_key nonce) [
      | none ↦ (corrupt_key, s)
      | some expected ↦
          if text_eq expected (trim c.proof)
          then second_factor x f c user s
          else (bad_2fa, failure x f c s)
    ]

-- From the account on, with the nonce in hand.
unfoldable pub with_nonce :
    LoginExternals → Faults → VerifyCall → Text → AppState → VerifyReply × AppState
unfolding check_proof
with_nonce x f c nonce s =
    elim (found (find_user x.accounts (λ k. f (k + 2)) c.username s.accounts)) [
      | none ↦ (invalid_credentials, s)
      | some user ↦ check_proof x f c nonce user s
    ]

-- `Some((n, exp)) if exp > now() => n`
abbrev pub live_nonce : ℕ → Option (Text × ℕ) → Option Text
live_nonce now none = none
live_nonce now (some (n, t)) = if ltb now t then some n else none

unfoldable pub api_auth_verify :
    LoginExternals → Faults → VerifyCall → AppState → VerifyReply × AppState
unfolding with_nonce login_locked put
api_auth_verify x f c s = elim (login_locked (f 0) (key_of x c) c.now s.throttle) [
  | some secs ↦ (too_many_attempts secs, s)
  | none ↦
      if f 1
      then (server_error, s)
      else let popped = record s { challenges = put s.challenges (key_of x c) none } in
        elim (live_nonce c.now (s.challenges (key_of x c))) [
          | none ↦ (challenge_expired, popped)
          | some nonce ↦ with_nonce x f c nonce popped
        ]
]
