-- ===== src/Login/Tests.antt =====
-- The challenge login at concrete states. The stand-in for HMAC puts the key in front of the nonce.
use arcade_launcher_server.Base.{
  ℕ, ◌+◌, ◌-◌, ◌≡◌, ◌≢◌, ◌⊎◌, refl, ◌==◌, length, ◌≤◌, ◌/◌, keep, is_ascii_digit, true, false, none,
  some, List, [], ◌∷◌, ◌++◌, Text, Faults, trim, codes, text_eq, lowercase, select_first,
  if◌then◌else◌, arith,
}
use arcade_launcher_server.Devices.{Device}
use arcade_launcher_server.Guard.{decide, parse_action, effective_state, can_consume}
use arcade_launcher_server.Guard.Gate.{
  guard_gate, guard_decide, raise, raised, phones, set, retain_live,
}
use arcade_launcher_server.Guard.Gate.Trace.{Event, answers, polls, run, step, Granted}
use arcade_launcher_server.Accounts.{
  User, Accounts, Externals, find_user, issue_user_token, reuse_or_mint, mint_token,
}
use arcade_launcher_server.Login.{
  AppState, LoginExternals, VerifyCall, LoginThrottle, signed_in, too_many_attempts, key_of,
  api_auth_challenge, api_auth_verify, with_nonce, check_proof, second_factor, finish, after_gate,
  gate_call, login_locked, put, verify_user_totp,
}
use arcade_launcher_server.Login.Throttle.{failures, five_failures-refused}
use arcade_launcher_server.Login.Totp.{totp_window}
use arcade_launcher_server.Login.SignIns.{second_factor-Granted, sign_in_once}

abbrev anna : User
anna = record {
  id = 7;
  username = codes "anna";
  email = codes "anna@example.org";
  password_hash = [];
  auth_key = codes "key";
  is_admin = false;
  enabled = true;
  must_change_password = false;
  totp_secret = some (codes "secret");
  totp_enabled = true;
}

abbrev tables : Accounts
tables = record {
  users = anna ∷ [];
  tokens = [];
  admin_sessions = [];
  user_sessions = [];
  next_token = 1;
  next_user = 8;
}

abbrev hashes : Externals
hashes = record {
  sha256_hex = λ t. b'#' ∷ t;
  hash_password = λ p. some p;
  derive_auth_key = λ u p. p;
  same_text = text_eq;
}

abbrev stand_ins : LoginExternals
stand_ins = record {
  accounts = hashes;
  to_lowercase = lowercase;
  proof = λ k n. some (k ++ n);
  totp_at = λ secret step. if step == 33 then some (codes "123456") else none;
}

abbrev no_faults : Faults
no_faults k = false

abbrev nobody_failed : LoginThrottle
nobody_failed key = none

abbrev empty : AppState
empty = record {
  challenges = λ key. none;
  throttle = nobody_failed;
  approvals = λ id. none;
  accounts = tables;
}

abbrev challenged : AppState
challenged = record empty {
  challenges = λ key. if text_eq (codes "anna") key then some (codes "nonce", 1120) else none;
}

abbrev attempt : VerifyCall
attempt = record {
  username = codes " Anna";
  proof = codes "keynonce";
  totp_code = codes "123456";
  approval_id = [];
  device_name = codes "PC";
  ip = none;
  now = 1010;
  fresh_approval = codes "ask";
  fresh_token = codes "token";
  devices = [];
}

abbrev lower_case : VerifyCall
lower_case = record attempt { username = codes "anna" }

challenge_given :
    (api_auth_challenge stand_ins false (codes "ANNA ") (codes "nonce") 1000 empty).challenges
      (codes "anna")
    ≡ some (codes "nonce", 1120)
unfolding api_auth_challenge put text_eq lowercase trim
challenge_given = refl

signed :
    (api_auth_verify stand_ins no_faults lower_case challenged).0 ≡ signed_in anna (codes "token")
unfolding verify_user_totp is_ascii_digit api_auth_verify login_locked with_nonce check_proof
    second_factor finish find_user select_first issue_user_token reuse_or_mint mint_token put
    text_eq lowercase trim
signed = refl

abbrev phone : Device
phone = record { id = codes "p1"; name = codes "Phone"; kind = codes "mobile"; version = [] }

-- The sign-in asked the phone first, which approved.
abbrev asked : List Event
asked =
    answers no_faults 7 (codes "ask") (codes "approve") 1005
    ∷ polls no_faults (record (gate_call lower_case anna) { now = 1000; devices = phone ∷ [] })
    ∷ []

abbrev by_phone : VerifyCall
by_phone = record lower_case { totp_code = []; approval_id = codes " ask" }

signed_by_phone :
    (api_auth_verify stand_ins no_faults by_phone (record challenged { approvals = run asked })).0
    ≡ signed_in anna (codes "token")
unfolding verify_user_totp is_ascii_digit api_auth_verify login_locked with_nonce check_proof
    second_factor after_gate finish find_user select_first issue_user_token reuse_or_mint mint_token
    put text_eq lowercase trim run step guard_gate guard_decide raise raised phones set retain_live
    decide parse_action effective_state can_consume
signed_by_phone = refl

second_factor-Granted_example :
    (verify_user_totp stand_ins anna by_phone.totp_code by_phone.now ≡ true)
    ⊎ Granted asked 7 (trim by_phone.approval_id)
second_factor-Granted_example =
    second_factor-Granted stand_ins no_faults by_phone anna (codes "token") challenged asked
      signed_by_phone refl

sign_in_once_example :
    (api_auth_verify stand_ins no_faults lower_case
      (api_auth_verify stand_ins no_faults lower_case challenged).1).0
    ≢ signed_in anna (codes "token")
sign_in_once_example =
    sign_in_once stand_ins no_faults no_faults lower_case lower_case anna anna (codes "token")
      (codes "token") challenged signed refl

abbrev five : List ℕ
five = 1005 ∷ 1004 ∷ 1003 ∷ 1002 ∷ 1001 ∷ []

abbrev locked_state : AppState
locked_state = record challenged {
  throttle = failures (key_of stand_ins lower_case) five nobody_failed;
}

five_failures-refused_example :
    api_auth_verify stand_ins no_faults lower_case locked_state
    ≡ (too_many_attempts (1005 + 300 - 1010), locked_state)
five_failures-refused_example =
    five_failures-refused stand_ins no_faults lower_case 1005 (1004 ∷ 1003 ∷ 1002 ∷ 1001 ∷ [])
      nobody_failed challenged refl refl (omega arith) (omega arith) (omega arith)

code_accepted : verify_user_totp stand_ins anna (codes "123 456") 1010 ≡ true
unfolding verify_user_totp is_ascii_digit text_eq
code_accepted = refl

totp_window_example :
    (length (keep is_ascii_digit (codes "123 456")) ≡ 6)
    × (secret : Text) × (step : ℕ) × (anna.totp_secret ≡ some secret)
    × (stand_ins.totp_at secret step ≡ some (keep is_ascii_digit (codes "123 456")))
    × (1010 / 30 ≤ step + 1)
    × (step ≤ 1010 / 30 + 1)
totp_window_example =
    totp_window stand_ins anna (codes "123 456") 1010 code_accepted refl (omega arith)
