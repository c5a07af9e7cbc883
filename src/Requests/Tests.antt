-- ===== src/Requests/Tests.antt =====
-- The theorems on the board of requests at concrete tables.
use arcade_launcher_server.Base.{
  map, count_where, lowercase, contains, ◌≡◌, ◌≤◌, ◌*◌, refl, true, false, Option, none, some, List,
  [], ◌∷◌, ℕ, codes, text_eq, trim, starts_with, split_on, select_first, update_where, arith,
}
use arcade_launcher_server.Accounts.{User, find_user}
use arcade_launcher_server.Fixtures.{no_faults, stand_ins, only_anna, anna}
use arcade_launcher_server.Login.{LoginExternals, verify_user_totp}
use arcade_launcher_server.Credentials.{PasswordCrates, verify_password_any}
use arcade_launcher_server.Requests.Board.{
  pos, BoardSession, CreateRequest, Board, BoardReply, RequestEmail, rated, new_request,
  api_create_request, api_vote, api_rate, sum_stars, platform_matches,
}
use arcade_launcher_server.Requests.Votes.{Event, creates, votes, rates, run}
use arcade_launcher_server.Requests.Ratings.{rating_bounds}
use arcade_launcher_server.Requests.Sessions.{
  BoardAuth, login_post, current_session, session_from_headers, delete_session, signed_in,
}
use arcade_launcher_server.Requests.SignedIn.{
  sent_back, session_for, PassedLogin, login_until_logout,
}

abbrev by_anna : BoardSession
by_anna = record { user_id = 7; username = codes "anna"; is_admin = false }

abbrev by_ben : BoardSession
by_ben = record { user_id = 8; username = codes "ben"; is_admin = false }

abbrev game : ℕ → CreateRequest
game g = record {
  igdb_id = g;
  title = codes "Ico";
  platform = codes "PS2";
  cover_url = [];
  release_date = pos 0;
  summary = [];
  note = [];
}

abbrev history : List Event
history =
    votes no_faults (some by_ben) 1 30
    ∷ rates no_faults (some by_ben) 1 (pos 4) 25
    ∷ creates no_faults false (some by_ben) (game 0) 20
    ∷ creates no_faults false (some by_anna) (game 5) 10
    ∷ []

counters : map (λ r. r.votes) (run history).requests ≡ 1 ∷ 2 ∷ []
unfolding run update_where trim api_vote api_rate api_create_request select_first
counters = refl

rated_four : (api_rate no_faults (some by_anna) 1 (pos 3) 40 (run history)).0 ≡ rated 1 3 7 2
unfolding api_rate run trim count_where sum_stars api_vote api_create_request select_first
    update_where
rated_four = refl

rating_bounds_example : (1 ≤ 3) × (3 ≤ 5) × (1 ≤ 2) × (2 ≤ 7) × (7 ≤ 5 * 2)
rating_bounds_example = rating_bounds history no_faults by_anna 1 (pos 3) 40 3 7 2 refl rated_four

abbrev board : Board
board = record {
  requests = new_request 1 by_anna (game 5) 10 ∷ [];
  votes = record { request_id = 1; user_id = 7; created_at = 10 } ∷ [];
  ratings = [];
  next_id = 2;
}

abbrev asked : BoardReply × Option RequestEmail × Board
asked = api_create_request no_faults false (some by_ben) (game 5) 20 board

-- The stand-ins give the password's own bytes and take a text for its bytes.
abbrev crates : PasswordCrates
crates = record {
  verify_argon2 = λ p s. false;
  url_safe_decode = λ t. some t;
  scrypt = λ p salt n. some p;
}

abbrev login : LoginExternals
login = record {
  accounts = stand_ins;
  to_lowercase = λ t. t;
  proof = λ k n. none;
  totp_at = λ s n. none;
}

abbrev player : User
player = record anna { password_hash = codes "scrypt$14$s$key" }

abbrev auth : BoardAuth
auth = record { accounts = record only_anna { users = player ∷ [] }; sessions = [] }

logged_in :
    (login_post login crates no_faults (codes "anna") (codes "key") [] (codes "t0k") 100 auth).0
    ≡ signed_in (codes "t0k")
unfolding login_post find_user verify_password_any verify_user_totp starts_with split_on
    select_first text_eq trim
logged_in = refl

login_until_logout_example :
    (user : User) × PassedLogin login crates no_faults (codes "anna") (codes "key") [] 100 auth user
    × (current_session stand_ins no_faults
          (some (sent_back (codes "t0k")))
          none
          200
          (login_post login crates no_faults
            (codes "anna")
            (codes "key")
            []
            (codes "t0k")
            100
            auth).1
        ≡ some (session_for user))
    × (session_from_headers stand_ins no_faults (some (sent_back (codes "t0k"))) 200 (
          delete_session stand_ins no_faults
            (some (sent_back (codes "t0k")))
            (login_post login crates no_faults
              (codes "anna")
              (codes "key")
              []
              (codes "t0k")
              100
              auth).1)
        ≡ none)
login_until_logout_example =
    login_until_logout login crates no_faults no_faults no_faults (codes "anna") (codes "key") []
      (codes "t0k") (codes "t0k") 100 200 none auth refl (unfold trim in refl) (λ k. refl)
      (λ k. refl) (omega arith) logged_in

matched : platform_matches (codes "PC, Switch") (codes "switch") ≡ true
unfolding platform_matches lowercase trim split_on text_eq contains
matched = refl
