-- ===== src/Requests/Votes.antt =====
-- src/requests_app.rs: the vote counter of a request against the rows of `request_votes`.
use arcade_launcher_server.Base.{
  ℕ, ◌<◌, ◌≡◌, Bool, true, false, Option, List, [], ◌∷◌, Text, any, Faults, All, ◌==◌, count_where,
}
use arcade_launcher_server.Requests.Board.{
  ℤ, Request, Vote, Board, BoardSession, CreateRequest, api_vote, api_create_request, api_rate,
  api_status,
}

pub data Event : Type 0 where
  creates : Faults → Bool → Option BoardSession → CreateRequest → ℕ → Event
  votes : Faults → Option BoardSession → ℕ → ℕ → Event
  rates : Faults → Option BoardSession → ℕ → ℤ → ℕ → Event
  sets_status : Faults → Option BoardSession → ℕ → Text → ℕ → Event

unfoldable pub step : Event → Board → Board
step (creates f e c req now) s = (api_create_request f e c req now s).2
step (votes f c id now) s = (api_vote f c id now s).1
step (rates f c id stars now) s = (api_rate f c id stars now s).1
step (sets_status f c id status now) s = (api_status f c id status now s).1

abbrev pub empty_board : Board
empty_board = record { requests = []; votes = []; ratings = []; next_id = 1 }

-- A log has its newest event at the head.
unfoldable pub run : List Event → Board
unfolding step
run [] = empty_board
run (e ∷ es) = step e (run es)

unfoldable pub votes_of : ℕ → List Vote → ℕ
votes_of id = count_where (λ v. v.request_id == id)

abbrev on_board : ℕ → Board → Bool
on_board id s = any (λ r. r.id == id) s.requests

-- Nothing fails, and votes are cast on requests that are on the board.
abbrev pub IsSmooth : List Event → Type 0
IsSmooth [] = Unit {0}
IsSmooth (creates f e c req now ∷ es) = ((k : ℕ) → f k ≡ false) × IsSmooth es
IsSmooth (votes f c id now ∷ es) =
    ((k : ℕ) → f k ≡ false) × (on_board id (run es) ≡ true) × IsSmooth es
IsSmooth (rates f c id stars now ∷ es) = IsSmooth es
IsSmooth (sets_status f c id status now ∷ es) = IsSmooth es

abbrev pub Counted : List Vote → Request → Type 0
Counted vs r = r.votes ≡ votes_of r.id vs

record IsTallied (s : Board) : Type 0 where
  tallied : All (Counted s.votes) s.requests
  requests_below : All (λ r. r.id < s.next_id) s.requests
  votes_below : All (λ v. v.request_id < s.next_id) s.votes
