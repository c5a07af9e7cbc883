-- ===== src/Requests/Ratings.antt =====
-- src/requests_app.rs: the stars on file and the aggregate that a rating answers with.
use arcade_launcher_server.Base.{
  ℕ, ◌+◌, ◌*◌, ◌≤◌, ◌≡◌, refl, inl, inr, Bool, true, false, not, ◌||◌, Option, none, some, List, [],
  ◌∷◌, any, Text, Faults, All, All-update_where, count_where, update_where, select_first, ◌==◌,
  Bool-cases, Option-cases, arith,
}
use arcade_launcher_server.Requests.Board.{
  ℤ, pos, negsuc, Rating, Board, BoardSession, rated, CreateRequest, clamp_stars, rated_by,
  upsert_rating, sum_stars, count_ratings, api_rate, add_vote, api_vote, insert_request,
  api_create_request, api_status,
}
use arcade_launcher_server.Requests.Votes.{Event, creates, votes, rates, sets_status, step, run}

abbrev Fair : Rating → Type 0
Fair g = (1 ≤ g.stars) × (g.stars ≤ 5)

clamp-Fair : (z : ℤ) (n : ℕ) → clamp_stars z ≡ some n → (1 ≤ n) × (n ≤ 5)
unfolding clamp_stars
clamp-Fair (pos m) n e = ground arith
clamp-Fair (negsuc m) n e = absurd cc

upsert-Fair :
    (id user_id stars now : ℕ) (gs : List Rating)
    → 1 ≤ stars
    → stars ≤ 5
    → All Fair gs
    → All Fair (upsert_rating id user_id stars now gs)
unfolding upsert_rating
upsert-Fair id user_id stars now gs low high k = elim (Bool-cases (any (rated_by id user_id) gs)) [
  | inl there ↦ rw there (All-update_where _ _ gs (λ g m _. (low, high)) (λ g m _. m) k)
  | inr new ↦ rw new ((low, high), k)
]

updated-count :
    (id user_id : ℕ) (h : Rating → Rating) (gs : List Rating)
    → ((g : Rating) → (h g).request_id ≡ g.request_id)
    → any (rated_by id user_id) gs ≡ true
    → 1 ≤ count_ratings id (update_where (rated_by id user_id) h gs)
unfolding count_ratings count_where update_where
updated-count id user_id h [] keeps e = absurd (cc)
updated-count id user_id h (g ∷ gs) keeps e =
    ground (arith, keeps g, updated-count id user_id h gs keeps)

upsert-count :
    (id user_id stars now : ℕ) (gs : List Rating)
    → 1 ≤ count_ratings id (upsert_rating id user_id stars now gs)
unfolding upsert_rating count_ratings count_where
upsert-count id user_id stars now gs = elim (Bool-cases (any (rated_by id user_id) gs)) [
  | inl there ↦ rw there (updated-count id user_id _ gs (λ g. refl) there)
  | inr new ↦ rw new (ground arith)
]

sum-bounds :
    (id : ℕ) (gs : List Rating)
    → All Fair gs
    → (count_ratings id gs ≤ sum_stars id gs) × (sum_stars id gs ≤ 5 * count_ratings id gs)
unfolding count_ratings count_where sum_stars
sum-bounds id [] k = omega arith
sum-bounds id (g ∷ gs) (k, ks) = ground (arith, sum-bounds id gs ks)

add-ratings :
    (f : Faults) (id : ℕ) (session : BoardSession) (now : ℕ) (s : Board)
    → (add_vote f id session now s).1.ratings ≡ s.ratings
unfolding add_vote
add-ratings f id session now s = ground arith

create-ratings :
    (f : Faults) (e : Bool) (c : Option BoardSession) (req : CreateRequest) (now : ℕ) (s : Board)
    → (api_create_request f e c req now s).2.ratings ≡ s.ratings
unfolding api_create_request insert_request
create-ratings f e none req now s = refl
create-ratings f e (some session) req now s =
    elim (Option-cases (select_first (λ r. r.igdb_id == req.igdb_id) s.requests)) [
      | inl missing ↦ ground arith
      | inr (r, there) ↦ ground (arith, add-ratings (λ k. f (k + 4)) r.id session now s)
    ]

vote-ratings :
    (f : Faults) (c : Option BoardSession) (id now : ℕ) (s : Board)
    → (api_vote f c id now s).1.ratings ≡ s.ratings
unfolding api_vote
vote-ratings f none id now s = refl
vote-ratings f (some session) id now s = add-ratings f id session now s

status-ratings :
    (f : Faults) (c : Option BoardSession) (id : ℕ) (t : Text) (now : ℕ) (s : Board)
    → (api_status f c id t now s).1.ratings ≡ s.ratings
unfolding api_status
status-ratings f none id t now s = refl
status-ratings f (some session) id t now s = ground arith

rate-Fair :
    (f : Faults) (c : Option BoardSession) (id : ℕ) (z : ℤ) (now : ℕ) (s : Board)
    → All Fair s.ratings
    → All Fair (api_rate f c id z now s).1.ratings
unfolding api_rate
rate-Fair f none id z now s k = k
rate-Fair f (some session) id z now s k = elim (Option-cases (clamp_stars z)) [
  | inl bad ↦ rw (api_rate, bad) k
  | inr (n, good) ↦
      let (low, high) = clamp-Fair z n good in
      let saved' = upsert-Fair id session.user_id n now s.ratings low high k in
      elim (Bool-cases (f 0 || f 1)) [
        | inl stopped ↦ rw (api_rate, good, stopped) k
        | inr goes ↦ elim (Bool-cases (not (any (λ r. r.id == id) s.requests))) [
          | inl missing ↦ rw (api_rate, good, goes, missing) k
          | inr there ↦ elim (Bool-cases (f 2)) [
            | inl failed ↦ rw (api_rate, good, goes, there, failed) k
            | inr saved ↦ rw (api_rate, good, goes, there, saved) saved'
          ]
        ]
      ]
]

run-Fair : (es : List Event) → All Fair (run es).ratings
unfolding run step
run-Fair [] = tt
run-Fair (creates f e c req now ∷ es) = rw (create-ratings f e c req now (run es)) (run-Fair es)
run-Fair (votes f c id now ∷ es) = rw (vote-ratings f c id now (run es)) (run-Fair es)
run-Fair (rates f c id z now ∷ es) = rate-Fair f c id z now (run es) (run-Fair es)
run-Fair (sets_status f c id t now ∷ es) = rw (status-ratings f c id t now (run es)) (run-Fair es)

-- After any history of the board, whichever statements fail: a rating that is answered with its
-- aggregate is of 1 to 5 stars, counts at least one rating, and the sum of the stars that it reads
-- is between one and five times their number, so the average sent is between 1 and 5.
pub rating_bounds :
    (es : List Event) (f : Faults) (session : BoardSession) (id : ℕ) (z : ℤ) (now n sum count : ℕ)
    → f 3 ≡ false
    → (api_rate f (some session) id z now (run es)).0 ≡ rated id n sum count
    → (1 ≤ n) × (n ≤ 5) × (1 ≤ count) × (count ≤ sum) × (sum ≤ 5 * count)
unfolding api_rate
rating_bounds es f session id z now n sum count reads h = elim (Option-cases (clamp_stars z)) [
  | inl bad ↦ absurd (ground arith)
  | inr (m, good) ↦
      let (low, high) = clamp-Fair z m good in
      let k = upsert-Fair id session.user_id m now (run es).ratings low high (run-Fair es) in
      let some_rating = upsert-count id session.user_id m now (run es).ratings in
      let between = sum-bounds id (upsert_rating id session.user_id m now (run es).ratings) k in
      ground arith
]
