-- ===== src/QrSignin/Trace/Tests.antt =====
-- QR sign-ins at concrete histories. The stand-in for the hash puts a letter in front.
use arcade_launcher_server.Base.{
  ℕ, ◌≡◌, ◌≤◌, refl, Bool, true, false, Option, none, some, List, [], ◌∷◌, Text, Faults, All, codes,
  ignoring_case, ignoring_case-IsCollation, text_eq, lowercase, trim, select_first, count_where,
  update_where, delete_where,
}
use arcade_launcher_server.QrSignin.{
  QrExternals, Tokens, Challenge, State, store, qr_signin_start, open_challenge, swept,
  parse_target, as_str, qr_signin_decide, parse_decision, poll_read, poll_consume, qr_signin_poll,
  complete,
}
use arcade_launcher_server.QrSignin.Trace.{
  Event, starts, decides, reads, consumes, run, step, consume_flight,
}
use arcade_launcher_server.QrSignin.Trace.Once.{login_once, granted_count, start_count}
use arcade_launcher_server.QrSignin.Trace.Approved.{GrantVouched}
use arcade_launcher_server.QrSignin.Trace.Approved.Runs.{login-Approved, ByLog}

abbrev sha : Text → Text
sha t = b'#' ∷ t

abbrev stand_ins : QrExternals
stand_ins = record { sha256_hex = sha; same_text = ignoring_case }

abbrev no_faults : Faults
no_faults k = false

abbrev tokens : Tokens
tokens = record { id = codes "id"; scan_secret = codes "scan"; poll_token = codes "poll" }

abbrev enabled : ℕ → Option Bool
enabled u = some true

-- Two polls read the approved challenge before either of them consumes.
abbrev race : List Event
race =
    consumes false 1 1021
    ∷ consumes false 0 1021
    ∷ reads no_faults (codes "ID") (codes "poll") 1020 1020 enabled
    ∷ reads no_faults (codes "id") (codes "poll") 1020 1020 enabled
    ∷ decides no_faults (some 7) (codes "id") (codes "scan") (codes "approve") 1010
    ∷ starts no_faults tokens (codes "web") (codes "PC") (codes "10.0.0.5") 1000
    ∷ []

one_login : (run stand_ins race).granted ≡ (codes "ID", 7) ∷ []
unfolding run step consume_flight qr_signin_start open_challenge swept parse_target as_str
    qr_signin_decide parse_decision poll_read poll_consume select_first count_where update_where
    delete_where text_eq lowercase trim
one_login = refl

login_once_example :
    granted_count stand_ins (codes "id") (run stand_ins race)
    ≤ start_count stand_ins (codes "id") race
login_once_example = login_once stand_ins ignoring_case-IsCollation race (codes "id")

login-Approved_example : All (GrantVouched (ByLog stand_ins race)) (run stand_ins race).granted
login-Approved_example = login-Approved stand_ins ignoring_case-IsCollation race

abbrev approved_row : Challenge
approved_row = record {
  id = codes "id";
  scan_hash = sha (codes "scan");
  poll_hash = sha (codes "poll");
  target = codes "store";
  device_name = codes "PC";
  ip = [];
  user_id = some 7;
  state = State.approved;
  expires_at = 1180;
  created_at = 1000;
  consumed_at = none;
}

completed :
    (qr_signin_poll stand_ins no_faults
      (codes "id")
      (codes "poll")
      1020
      1020
      1021
      enabled
      (approved_row ∷ [])).0
    ≡ complete store 7
unfolding qr_signin_poll poll_read poll_consume parse_target select_first count_where update_where
    text_eq lowercase trim
completed = refl
