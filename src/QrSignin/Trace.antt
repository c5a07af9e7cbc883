-- ===== src/QrSignin/Trace.antt =====
-- src/qr_auth.rs: histories of QR sign-ins. The two halves of a poll are two events, so polls of
-- several replicas interleave: a poll that has read its ticket may consume at any later time. A
-- log has its newest event at the head.
pub mod Once
pub mod Approved
mod Tests
use arcade_launcher_server.Base.{
  ℕ, zero, suc, Bool, true, false, Option, none, some, List, [], ◌∷◌, Text, Faults, trim,
  if◌then◌else◌,
}
use arcade_launcher_server.QrSignin.{
  QrExternals, Challenges, Tokens, Ticket, Read, replied, ready, qr_signin_start, qr_signin_decide,
  poll_read, poll_consume,
}

-- A poll between its halves.
pub record Flight : Type 0 where
  pub id : Text
  pub poll_token : Text
  pub ticket : Ticket

-- `granted` lists the challenge and the account of each login that a poll went on to hand out.
pub record World : Type 0 where
  pub rows : Challenges
  pub flights : List Flight
  pub granted : List (Text × ℕ)

pub data Event : Type 0 where
  starts : Faults → Tokens → (target device ip : Text) → ℕ → Event
  decides : Faults → Option ℕ → (id scan_secret action : Text) → ℕ → Event
  reads : Faults → (id poll_token : Text) → ℕ → ℕ → (ℕ → Option Bool) → Event
  consumes : Bool → ℕ → ℕ → Event

abbrev pub nth : ℕ → List Flight → Option Flight
nth n [] = none
nth zero (x ∷ xs) = some x
nth (suc n) (x ∷ xs) = nth n xs

abbrev pub take_off : Text → Text → Read → World → World
take_off id poll_token (replied r) w = w
take_off id poll_token (ready t) w = record w {
  flights = record { id = id; poll_token = poll_token; ticket = t } ∷ w.flights;
}

abbrev pub land : Flight → Option Bool × Challenges → World → World
land a (some true, rows) w = record w { rows = rows; granted = (trim a.id, a.ticket.1) ∷ w.granted }
land a (_, rows) w = record w { rows = rows }

module _ (x : QrExternals) where
  unfoldable pub consume_flight : Bool → Option Flight → ℕ → World → World
  consume_flight fails none now w = w
  consume_flight fails (some a) now w = land a (poll_consume x fails a.id a.poll_token now w.rows) w

  unfoldable pub step : Event → World → World
  unfolding consume_flight
  step (starts f k target device ip ts) w = record w {
    rows = (qr_signin_start x f k target device ip ts w.rows).1;
  }
  step (decides f user id scan_secret action now) w = record w {
    rows = (qr_signin_decide x f user id scan_secret action now w.rows).1;
  }
  step (reads f id poll_token now later is_enabled) w =
      take_off id poll_token (poll_read x f id poll_token now later is_enabled w.rows) w
  step (consumes fails n now) w = consume_flight fails (nth n w.flights) now w

  unfoldable pub run : List Event → World
  unfolding step
  run [] = record { rows = []; flights = []; granted = [] }
  run (e ∷ es) = step e (run es)
