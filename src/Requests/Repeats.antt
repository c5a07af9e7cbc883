-- ===== src/Requests/Repeats.antt =====
-- src/requests_app.rs: a game that is asked for again.
use arcade_launcher_server.Base.{
  ℕ, ◌+◌, ◌≡◌, not, ◌&&◌, ◌||◌, Option, none, some, List, [], ◌∷◌, any, map, if◌then◌else◌, ◌==◌,
}
use arcade_launcher_server.Requests.Board.{Request, Board, cast}

-- The votes that the board shows for a request.
abbrev pub shown_votes : ℕ → List Request → Option ℕ
shown_votes id [] = none
shown_votes id (r ∷ rs) = if r.id == id then some r.votes else shown_votes id rs

abbrev pub one_more : Option ℕ → Option ℕ
one_more none = none
one_more (some n) = some (n + 1)

-- The user's vote for a request counts, unless it did before; nothing else changes.
pub record CountsOnce (id user : ℕ) (s s' : Board) : Type 0 where
  pub counters :
      (other : ℕ)
      → shown_votes other s'.requests ≡ (
          if other == id && not (any (cast id user) s.votes)
          then one_more (shown_votes other s.requests)
          else shown_votes other s.requests)
  pub ballots :
      (other voter : ℕ)
      → any (cast other voter) s'.votes
        ≡ (any (cast other voter) s.votes || (other == id && voter == user))
  pub games : map (λ r. r.igdb_id) s'.requests ≡ map (λ r. r.igdb_id) s.requests
