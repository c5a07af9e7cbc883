-- ===== src/Requests/Board.antt =====
-- src/requests_app.rs: the handlers that change the board.
use arcade_launcher_server.Base.{
  ℕ, ◌+◌, suc, Bool, true, false, not, ◌&&◌, ◌||◌, Option, none, some, List, [], ◌∷◌, Text, codes,
  text_eq, trim, take, any, Faults, ◌==◌, leb, if◌then◌else◌, select_first, count_where,
  update_where, is_empty, contains, split_on, lowercase,
}

-- An `i64`.
pub data ℤ : Type 0 where
  pos : ℕ → ℤ
  negsuc : ℕ → ℤ

-- A row of `game_requests`; `igdb_id` is UNIQUE.
pub record Request : Type 0 where
  pub id : ℕ
  pub igdb_id : ℕ
  pub title : Text
  pub platform : Text
  pub cover_url : Text
  pub release_date : ℤ
  pub summary : Text
  pub requested_by : ℕ
  pub requested_by_name : Text
  pub note : Text
  pub status : Text
  pub votes : ℕ
  pub created_at : ℕ
  pub updated_at : ℕ

-- A row of `request_votes`, by its key.
pub record Vote : Type 0 where
  pub request_id : ℕ
  pub user_id : ℕ
  pub created_at : ℕ

-- A row of `request_ratings`.
pub record Rating : Type 0 where
  pub request_id : ℕ
  pub user_id : ℕ
  pub stars : ℕ
  pub created_at : ℕ
  pub updated_at : ℕ

-- The three tables; `next_id` is the AUTO_INCREMENT counter, which an insert that meets a
-- duplicate key uses up as well.
pub record Board : Type 0 where
  pub requests : List Request
  pub votes : List Vote
  pub ratings : List Rating
  pub next_id : ℕ

pub record BoardSession : Type 0 where
  pub user_id : ℕ
  pub username : Text
  pub is_admin : Bool

pub record CreateRequest : Type 0 where
  pub igdb_id : ℕ
  pub title : Text
  pub platform : Text
  pub cover_url : Text
  pub release_date : ℤ
  pub summary : Text
  pub note : Text

-- What the notification tells.
pub record RequestEmail : Type 0 where
  pub title : Text
  pub platform : Text
  pub release_date : ℤ
  pub cover_url : Text
  pub summary : Text
  pub note : Text
  pub requester : Text

pub data BoardReply : Type 0 where
  not_signed_in title_required bad_stars no_such_request admin_only invalid_status : BoardReply
  failed status_set : BoardReply
  created : ℕ → BoardReply
  voted : ℕ → Bool → BoardReply
  -- the caller's stars, the sum of all stars and their number, whose quotient is the average sent
  rated : ℕ → ℕ → ℕ → ℕ → BoardReply

abbrev pub cast : ℕ → ℕ → Vote → Bool
cast id user_id v = v.request_id == id && v.user_id == user_id

-- UPDATE game_requests SET votes = votes + 1, updated_at = :now WHERE id = :r
unfoldable pub count_vote : ℕ → ℕ → List Request → List Request
count_vote id now =
    update_where (λ r. r.id == id) (λ r. record r { votes = r.votes + 1; updated_at = now })

-- INSERT IGNORE INTO request_votes
unfoldable pub insert_vote : ℕ → ℕ → ℕ → List Vote → List Vote
insert_vote id user_id now vs =
    if any (cast id user_id) vs
    then vs
    else record { request_id = id; user_id = user_id; created_at = now } ∷ vs

unfoldable pub add_vote : Faults → ℕ → BoardSession → ℕ → Board → BoardReply × Board
unfolding count_vote insert_vote
add_vote f id session now s =
    if f 0
    then (failed, s)
    else if f 1 || any (cast id session.user_id) s.votes
    then (voted id false, s)
    else let s1 = record s { votes = insert_vote id session.user_id now s.votes } in
      (voted id true, if f 2 then s1 else record s1 { requests = count_vote id now s1.requests })

unfoldable pub api_vote : Faults → Option BoardSession → ℕ → ℕ → Board → BoardReply × Board
unfolding add_vote
api_vote f none id now s = (not_signed_in, s)
api_vote f (some session) id now s = add_vote f id session now s

abbrev pub new_request : ℕ → BoardSession → CreateRequest → ℕ → Request
new_request id session req now = record {
  id = id;
  igdb_id = req.igdb_id;
  title = trim req.title;
  platform = trim req.platform;
  cover_url = trim req.cover_url;
  release_date = req.release_date;
  summary = trim req.summary;
  requested_by = session.user_id;
  requested_by_name = session.username;
  note = take 500 req.note;
  status = codes "pending";
  votes = 1;
  created_at = now;
  updated_at = now;
}

abbrev request_email : BoardSession → CreateRequest → RequestEmail
request_email session req = record {
  title = trim req.title;
  platform = trim req.platform;
  release_date = req.release_date;
  cover_url = trim req.cover_url;
  summary = trim req.summary;
  note = trim req.note;
  requester = session.username;
}

-- From the INSERT on: the reply, the notification and the board.
unfoldable pub insert_request :
    Faults
    → Bool
    → BoardSession
    → CreateRequest
    → ℕ
    → Board
    → BoardReply × Option RequestEmail × Board
unfolding insert_vote
insert_request f email_enabled session req now s =
    if f 2
    then (failed, none, s)
    else if any (λ r. r.igdb_id == req.igdb_id) s.requests
    then (failed, none, record s { next_id = suc s.next_id })
    else (
      created s.next_id,
      (if email_enabled then some (request_email session req) else none),
      record s {
        requests = new_request s.next_id session req now ∷ s.requests;
        votes = if f 3 then s.votes else insert_vote s.next_id session.user_id now s.votes;
        next_id = suc s.next_id;
      },
    )

abbrev silent : BoardReply × Board → BoardReply × Option RequestEmail × Board
silent (r, s) = (r, none, s)

unfoldable pub api_create_request :
    Faults
    → Bool
    → Option BoardSession
    → CreateRequest
    → ℕ
    → Board
    → BoardReply × Option RequestEmail × Board
unfolding insert_request add_vote
api_create_request f email_enabled none req now s = (not_signed_in, none, s)
api_create_request f email_enabled (some session) req now s =
    if is_empty (trim req.title)
    then (title_required, none, s)
    else if f 0
    then (failed, none, s)
    else if req.igdb_id == 0
    then insert_request f email_enabled session req now s
    else if f 1
    then (failed, none, s)
    else elim (select_first (λ r. r.igdb_id == req.igdb_id) s.requests) [
      | none ↦ insert_request f email_enabled session req now s
      | some r ↦ silent (add_vote (λ k. f (k + 4)) r.id session now s)
    ]

unfoldable pub clamp_stars : ℤ → Option ℕ
clamp_stars (pos n) = if leb 1 n && leb n 5 then some n else none
clamp_stars (negsuc n) = none

abbrev pub rated_by : ℕ → ℕ → Rating → Bool
rated_by id user_id g = g.request_id == id && g.user_id == user_id

-- INSERT … ON DUPLICATE KEY UPDATE
unfoldable pub upsert_rating : ℕ → ℕ → ℕ → ℕ → List Rating → List Rating
upsert_rating id user_id stars now gs =
    if any (rated_by id user_id) gs
    then update_where (rated_by id user_id) (λ g. record g { stars = stars; updated_at = now }) gs
    else record {
      request_id = id;
      user_id = user_id;
      stars = stars;
      created_at = now;
      updated_at = now;
    }
      ∷ gs

-- SUM(stars) and COUNT(*) … WHERE request_id = :r
unfoldable pub sum_stars : ℕ → List Rating → ℕ
sum_stars id [] = 0
sum_stars id (g ∷ gs) = (if g.request_id == id then g.stars else 0) + sum_stars id gs

unfoldable pub count_ratings : ℕ → List Rating → ℕ
count_ratings id = count_where (λ g. g.request_id == id)

unfoldable pub api_rate : Faults → Option BoardSession → ℕ → ℤ → ℕ → Board → BoardReply × Board
unfolding clamp_stars upsert_rating sum_stars count_ratings
api_rate f none id stars now s = (not_signed_in, s)
api_rate f (some session) id stars now s = elim (clamp_stars stars) [
  | none ↦ (bad_stars, s)
  | some n ↦
      if f 0 || f 1
      then (failed, s)
      else if not (any (λ r. r.id == id) s.requests)
      then (no_such_request, s)
      else if f 2
      then (failed, s)
      else let gs = upsert_rating id session.user_id n now s.ratings in
        (
          (if f 3 then rated id n 0 0 else rated id n (sum_stars id gs) (count_ratings id gs)),
          record s { ratings = gs },
        )
]

abbrev pub is_status : Text → Bool
is_status t =
    text_eq t (codes "pending")
    || text_eq t (codes "approved")
    || text_eq t (codes "fulfilled")
    || text_eq t (codes "declined")

unfoldable pub api_status : Faults → Option BoardSession → ℕ → Text → ℕ → Board → BoardReply × Board
api_status f none id status now s = (not_signed_in, s)
api_status f (some session) id status now s =
    if not session.is_admin
    then (admin_only, s)
    else if not (is_status status)
    then (invalid_status, s)
    else if f 0 || f 1
    then (failed, s)
    else (
      status_set,
      record s {
        requests =
            update_where (λ r. r.id == id) (λ r. record r { status = status; updated_at = now })
              s.requests;
      },
    )

unfoldable pub platform_matches : Text → Text → Bool
platform_matches platforms filter =
    let wanted = lowercase (trim filter) in
    if is_empty wanted
    then true
    else any (λ p. text_eq (lowercase (trim p)) wanted || contains (lowercase (trim p)) wanted)
        (split_on b',' platforms)
