-- ===== src/QrSignin.antt =====
-- src/qr_auth.rs: sign-in by a QR code that a signed-in phone approves. `f` says which statement
-- of a handler fails. The SHA-256 of the `sha2` crate, the collation of the
-- text columns and the random tokens are arguments; the clock is an argument at each place that reads it where the places matter.
pub mod Trace
pub mod Polls
use arcade_launcher_server.Base.{
  ℕ, ◌+◌, ◌-◌, ◌*◌, Bool, true, false, not, ◌&&◌, ◌||◌, Option, none, some, List, [], ◌∷◌, Text,
  codes, text_eq, trim, lowercase, take, Faults, ◌==◌, leb, ltb, if◌then◌else◌, select_first,
  count_where, update_where, delete_where, is_empty, any,
}
use arcade_launcher_server.Guard.{display_ip}

abbrev pub qr_signin_ttl_seconds : ℕ
qr_signin_ttl_seconds = 180

pub data QrSigninTarget : Type 0 where
  launcher store : QrSigninTarget

unfoldable pub parse_target : Text → Option QrSigninTarget
parse_target raw =
    let t = lowercase (trim raw) in
    if text_eq t (codes "launcher") || text_eq t (codes "desktop")
    then some launcher
    else if text_eq t (codes "store") || text_eq t (codes "web") || text_eq t (codes "website")
    then some store
    else none

unfoldable pub as_str : QrSigninTarget → Text
as_str launcher = codes "launcher"
as_str store = codes "store"

unfoldable pub qr_device_name : Text → QrSigninTarget → Text
qr_device_name raw target =
    if is_empty (trim raw)
    then elim target [
      | launcher ↦ codes "Arcade Launcher desktop"
      | store ↦ codes "Arcade Launcher website"
    ]
    else take 120 (trim raw)

pub data State : Type 0 where
  pending approved denied consumed : State

abbrev pub is_pending : State → Bool
is_pending pending = true
is_pending _ = false

abbrev pub is_approved : State → Bool
is_approved approved = true
is_approved _ = false

abbrev pub is_denied : State → Bool
is_denied denied = true
is_denied _ = false

abbrev pub is_consumed : State → Bool
is_consumed consumed = true
is_consumed _ = false

-- The SHA-256 of a text in hexadecimal, and the equality of the database's text columns.
pub record QrExternals : Type 0 where
  pub sha256_hex : Text → Text
  pub same_text : Text → Text → Bool

-- A row of `qr_signin_challenges`, whose key is `id`.
pub record Challenge : Type 0 where
  pub id : Text
  pub scan_hash : Text
  pub poll_hash : Text
  pub target : Text
  pub device_name : Text
  pub ip : Text
  pub user_id : Option ℕ
  pub state : State
  pub expires_at : ℕ
  pub created_at : ℕ
  pub consumed_at : Option ℕ

abbrev pub Challenges : Type 0
Challenges = List Challenge

-- The random tokens of `qr_signin_start`.
pub record Tokens : Type 0 where
  pub id : Text
  pub scan_secret : Text
  pub poll_token : Text

pub data StartReply : Type 0 where
  bad_target too_many server_error : StartReply
  created : Tokens → StartReply

abbrev pub challenge : QrExternals → Tokens → QrSigninTarget → Text → Text → ℕ → Challenge
challenge x k target device ip ts = record {
  id = k.id;
  scan_hash = x.sha256_hex k.scan_secret;
  poll_hash = x.sha256_hex k.poll_token;
  target = as_str target;
  device_name = qr_device_name device target;
  ip = ip;
  user_id = none;
  state = pending;
  expires_at = ts + qr_signin_ttl_seconds;
  created_at = ts;
  consumed_at = none;
}

-- DELETE … WHERE expires_at < ts - QR_SIGNIN_TTL_SECONDS
unfoldable pub swept : Bool → ℕ → Challenges → Challenges
swept fails ts rows =
    if fails then rows else delete_where (λ r. ltb (r.expires_at + qr_signin_ttl_seconds) ts) rows

-- From the cleanup on; the insertion fails on an identifier that is there.
unfoldable pub open_challenge :
    QrExternals
    → Faults
    → Tokens
    → QrSigninTarget
    → Text
    → Text
    → ℕ
    → Challenges
    → StartReply × Challenges
open_challenge x f k target device ip ts rows =
    if not (f 2) && leb 10 (count_where (λ r. x.same_text r.ip ip && ltb ts r.expires_at) rows)
    then (too_many, rows)
    else if f 3 || any (λ r. x.same_text r.id k.id) rows
    then (server_error, rows)
    else (created k, challenge x k target device ip ts ∷ rows)

unfoldable pub qr_signin_start :
    QrExternals → Faults → Tokens → Text → Text → Text → ℕ → Challenges → StartReply × Challenges
unfolding parse_target open_challenge swept
qr_signin_start x f k target device ip ts rows = elim (parse_target target) [
  | none ↦ (bad_target, rows)
  | some t ↦
      if f 0
      then (server_error, rows)
      else open_challenge x f k t device ip ts (swept (f 1) ts rows)
]

-- WHERE id=:id AND scan_hash=:scan
abbrev pub is_scanned : QrExternals → Text → Text → Challenge → Bool
is_scanned x id scan_secret r =
    x.same_text r.id (trim id) && x.same_text r.scan_hash (x.sha256_hex (trim scan_secret))

-- WHERE id=:id AND poll_hash=:poll
abbrev pub is_polled : QrExternals → Text → Text → Challenge → Bool
is_polled x id poll_token r =
    x.same_text r.id (trim id) && x.same_text r.poll_hash (x.sha256_hex (trim poll_token))

pub data InspectReply : Type 0 where
  no_request gone failed : InspectReply
  shown : (target device_name ip : Text) → (expires_in : ℕ) → InspectReply

unfoldable pub qr_signin_inspect :
    QrExternals → Faults → Text → Text → ℕ → Challenges → InspectReply
qr_signin_inspect x f id scan_secret now rows =
    if f 0 || f 1 then failed else elim (select_first (is_scanned x id scan_secret) rows) [
      | none ↦ no_request
      | some r ↦
          if leb r.expires_at now || not (is_pending r.state)
          then gone
          else shown r.target r.device_name (display_ip r.ip) (r.expires_at - now)
    ]

unfoldable pub parse_decision : Text → Option State
parse_decision action =
    let a = lowercase (trim action) in
    if text_eq a (codes "approve") || text_eq a (codes "allow")
    then some approved
    else if text_eq a (codes "deny") || text_eq a (codes "reject")
    then some denied
    else none

pub data DecideReply : Type 0 where
  sign_in_required bad_action gone failed : DecideReply
  decided : State → DecideReply

abbrev pub is_open : QrExternals → Text → Text → ℕ → Challenge → Bool
is_open x id scan_secret now r =
    is_scanned x id scan_secret r && is_pending r.state && ltb now r.expires_at

abbrev pub answered_by : ℕ → State → Challenge → Challenge
answered_by user_id state r = record r { state = state; user_id = some user_id }

-- `user` is the account of the bearer token.
unfoldable pub qr_signin_decide :
    QrExternals → Faults → Option ℕ → Text → Text → Text → ℕ → Challenges → DecideReply × Challenges
unfolding parse_decision
qr_signin_decide x f none id scan_secret action now rows = (sign_in_required, rows)
qr_signin_decide x f (some user) id scan_secret action now rows = elim (parse_decision action) [
  | none ↦ (bad_action, rows)
  | some state ↦ if f 0 || f 1 then (failed, rows) else (
    if count_where (is_open x id scan_secret now) rows == 1 then decided state else gone,
    update_where (is_open x id scan_secret now) (answered_by user state) rows,
  )
]

pub data PollReply : Type 0 where
  no_request expired denied unavailable used failed : PollReply
  still_pending : (expires_at now : ℕ) → PollReply
  complete : QrSigninTarget → (user : ℕ) → PollReply

-- What a poll found before it consumes: the target and the account.
abbrev pub Ticket : Type 0
Ticket = QrSigninTarget × ℕ

pub data Read : Type 0 where
  replied : PollReply → Read
  ready : Ticket → Read

-- The read half of `qr_signin_poll`. The clock is read twice; `is_enabled` is what the account
-- table says of a user: no row, or the row's flag.
unfoldable pub poll_read :
    QrExternals → Faults → Text → Text → ℕ → ℕ → (ℕ → Option Bool) → Challenges → Read
unfolding parse_target
poll_read x f id poll_token now later is_enabled rows =
    if f 0 || f 1 then replied failed else elim (select_first (is_polled x id poll_token) rows) [
      | none ↦ replied no_request
      | some r ↦
          if leb r.expires_at now
          then replied expired
          else if is_pending r.state
          then replied (still_pending r.expires_at later)
          else if is_denied r.state
          then replied denied
          else elim (parse_target r.target) [
            | none ↦ replied failed
            | some t ↦ elim r.user_id [
              | none ↦ replied failed
              | some user ↦ if f 2 then replied failed else elim (is_enabled user) [
                | some true ↦ ready (t, user)
                | _ ↦ replied unavailable
              ]
            ]
          ]
    ]

abbrev pub is_ready : QrExternals → Text → Text → ℕ → Challenge → Bool
is_ready x id poll_token now r =
    is_polled x id poll_token r && is_approved r.state && ltb now r.expires_at

abbrev pub spent : ℕ → Challenge → Challenge
spent now r = record r { state = consumed; consumed_at = some now }

-- The compare-and-swap of `qr_signin_poll`: whether one row was affected.
unfoldable pub poll_consume :
    QrExternals → Bool → Text → Text → ℕ → Challenges → Option Bool × Challenges
poll_consume x fails id poll_token now rows = if fails then (none, rows) else (
  some (count_where (is_ready x id poll_token now) rows == 1),
  update_where (is_ready x id poll_token now) (spent now) rows,
)

-- The session that the storefront gets, or the token that the launcher gets, is issued next;
-- `f 4` says whether that fails.
abbrev poll_reply : Faults → Ticket → Option Bool → PollReply
poll_reply f t none = failed
poll_reply f t (some false) = used
poll_reply f t (some true) = if f 4 then failed else complete t.0 t.1

unfoldable pub qr_signin_poll :
    QrExternals
    → Faults
    → Text
    → Text
    → ℕ
    → ℕ
    → ℕ
    → (ℕ → Option Bool)
    → Challenges
    → PollReply × Challenges
unfolding poll_read poll_consume
qr_signin_poll x f id poll_token now later last is_enabled rows =
    elim (poll_read x f id poll_token now later is_enabled rows) [
      | replied r ↦ (r, rows)
      | ready t ↦
          let (affected, rows') = poll_consume x (f 3) id poll_token last rows in
          (poll_reply f t affected, rows')
    ]
