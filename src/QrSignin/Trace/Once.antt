-- ===== src/QrSignin/Trace/Once.antt =====
-- src/qr_auth.rs: a challenge buys one login at most.
use arcade_launcher_server.Base.{
  ℕ, suc, ◌+◌, ◌≡◌, ◌≤◌, refl, inl, inr, Bool, true, false, not, ◌&&◌, Option, none, some, List, [],
  ◌∷◌, Text, Faults, trim, IsCollation, count_where, update_where, delete_where, if◌then◌else◌,
  Bool-cases, Option-cases, arith,
}
use arcade_launcher_server.QrSignin.{
  QrExternals, Challenge, Challenges, State, QrSigninTarget, Tokens, is_consumed, is_open,
  answered_by, is_ready, spent, qr_signin_start, open_challenge, swept, qr_signin_decide,
  parse_target, parse_decision, poll_consume,
}
use arcade_launcher_server.QrSignin.Trace.{
  Event, starts, decides, reads, consumes, World, Flight, step, run, consume_flight, nth,
}

-- Challenges of one identifier that can still be consumed.
abbrev open_count : QrExternals → Text → Challenges → ℕ
open_count x id = count_where (λ r. x.same_text r.id id && not (is_consumed r.state))

abbrev pub granted_count : QrExternals → Text → World → ℕ
granted_count x id w = count_where (λ g. x.same_text g.0 id) w.granted

-- How often a challenge of this identifier was started.
abbrev pub start_count : QrExternals → Text → List Event → ℕ
start_count x id [] = 0
start_count x id (starts f k target device ip ts ∷ es) =
    if x.same_text k.id id then suc (start_count x id es) else start_count x id es
start_count x id (decides f user cid scan_secret action now ∷ es) = start_count x id es
start_count x id (reads f cid poll_token now later is_enabled ∷ es) = start_count x id es
start_count x id (consumes fails n now ∷ es) = start_count x id es

delete-open :
    (x : QrExternals) (id : Text) (p : Challenge → Bool) (rows : Challenges)
    → open_count x id (delete_where p rows) ≤ open_count x id rows
unfolding count_where delete_where
delete-open x id p [] = ground arith
delete-open x id p (r ∷ rows) = ground (arith, delete-open x id p rows)

swept-open :
    (x : QrExternals) (id : Text) (fails : Bool) (ts : ℕ) (rows : Challenges)
    → open_count x id (swept fails ts rows) ≤ open_count x id rows
unfolding swept
swept-open x id true ts rows = ground arith
swept-open x id false ts rows = delete-open x id _ rows

open-open :
    (x : QrExternals) (f : Faults) (k : Tokens) (target : QrSigninTarget) (device ip : Text)
    (ts : ℕ) (rows : Challenges) (id : Text)
    → open_count x id (open_challenge x f k target device ip ts rows).1
      ≤ (if x.same_text k.id id then 1 else 0) + open_count x id rows
unfolding open_challenge count_where
open-open x f k target device ip ts rows id = ground arith

start-open :
    (x : QrExternals) (f : Faults) (k : Tokens) (target device ip : Text) (ts : ℕ)
    (rows : Challenges) (id : Text)
    → open_count x id (qr_signin_start x f k target device ip ts rows).1
      ≤ (if x.same_text k.id id then 1 else 0) + open_count x id rows
unfolding qr_signin_start
start-open x f k target device ip ts rows id = elim (Option-cases (parse_target target)) [
  | inl bad ↦ rw (qr_signin_start, bad) (ground arith)
  | inr (t, good) ↦ elim (Bool-cases (f 0)) [
    | inl down ↦ rw (qr_signin_start, good, down) (ground arith)
    | inr up ↦
        let opened = open-open x f k t device ip ts (swept (f 1) ts rows) id in
        let sw = swept-open x id (f 1) ts rows in rw (qr_signin_start, good, up) (ground arith)
  ]
]

answer-open :
    (x : QrExternals) (id : Text) (p : Challenge → Bool) (user : ℕ) (state : State)
    (rows : Challenges)
    → is_consumed state ≡ false
    → ((r : Challenge) → p r ≡ true → is_consumed r.state ≡ false)
    → open_count x id (update_where p (answered_by user state) rows) ≡ open_count x id rows
unfolding count_where update_where
answer-open x id p user state [] fresh was = refl
answer-open x id p user state (r ∷ rows) fresh was =
    ground (arith, was r, answer-open x id p user state rows fresh was)

decide-open :
    (x : QrExternals) (f : Faults) (user : Option ℕ) (cid scan_secret action : Text) (now : ℕ)
    (rows : Challenges) (id : Text)
    → open_count x id (qr_signin_decide x f user cid scan_secret action now rows).1
      ≡ open_count x id rows
unfolding qr_signin_decide parse_decision
decide-open x f none cid scan_secret action now rows id = refl
decide-open x f (some user) cid scan_secret action now rows id =
    let pending_only : (r : Challenge)
        → is_open x cid scan_secret now r ≡ true
        → is_consumed r.state ≡ false =
      λ r at. ground arith in
    let same = answer-open x id (is_open x cid scan_secret now) user in
    ground
      (arith, same State.approved rows refl pending_only, same State.denied rows refl pending_only)

-- Consuming closes what it matches.
spend-open :
    (x : QrExternals) (c : IsCollation x.same_text) (cid poll_token : Text) (now : ℕ)
    (rows : Challenges) (id : Text)
    → open_count x id (update_where (is_ready x cid poll_token now) (spent now) rows)
        + (if x.same_text (trim cid) id
            then count_where (is_ready x cid poll_token now) rows
            else 0)
      ≤ open_count x id rows
unfolding count_where update_where
spend-open x c cid poll_token now [] id = ground arith
spend-open x c cid poll_token now (r ∷ rows) id =
    ground (arith, spend-open x c cid poll_token now rows id, c.along r.id (trim cid) id)

consume-open :
    (x : QrExternals) (c : IsCollation x.same_text) (fails : Bool) (a : Flight) (now : ℕ)
    (w : World) (id : Text)
    → open_count x id (consume_flight x fails (some a) now w).rows
        + granted_count x id (consume_flight x fails (some a) now w)
      ≤ open_count x id w.rows + granted_count x id w
unfolding consume_flight poll_consume count_where
consume-open x c fails a now w id = ground (arith, spend-open x c a.id a.poll_token now w.rows id)

run-open :
    (x : QrExternals) (c : IsCollation x.same_text) (es : List Event) (id : Text)
    → open_count x id (run x es).rows + granted_count x id (run x es) ≤ start_count x id es
unfolding run step count_where
run-open x c [] id = ground arith
run-open x c (starts f k target device ip ts ∷ es) id =
    ground (arith, run-open x c es id, start-open x f k target device ip ts (run x es).rows id)
run-open x c (decides f user cid scan_secret action now ∷ es) id =
    ground (
      arith,
      run-open x c es id,
      decide-open x f user cid scan_secret action now (run x es).rows id,
    )
run-open x c (reads f cid poll_token now later is_enabled ∷ es) id =
    ground (arith, run-open x c es id)
run-open x c (consumes fails n now ∷ es) id = elim (Option-cases (nth n (run x es).flights)) [
  | inl missing ↦ rw missing (run-open x c es id)
  | inr (a, there) ↦
      rw there (ground (arith, consume-open x c fails a now (run x es) id, run-open x c es id))
]

-- After any history, where polls may read and consume in any interleaving and any statement may
-- fail, and where the database compares identifiers by a collation: under an identifier, and under
-- those that it takes for the same, no more logins are handed out than challenges were started, so
-- one at most when its random identifier is used once.
pub login_once :
    (x : QrExternals) (c : IsCollation x.same_text) (es : List Event) (id : Text)
    → granted_count x id (run x es) ≤ start_count x id es
login_once x c es id = ground (arith, run-open x c es id)
