-- ===== src/QrSignin/Trace/Approved/Runs.antt =====
-- src/qr_auth.rs: approvals over whole histories.
use arcade_launcher_server.Base.{
  ℕ, ◌≡◌, refl, subst, zero, suc, inl, inr, Bool, true, false, some, List, [], ◌∷◌, Text, trim,
  IsCollation, count_where, Bool-cases, Option-cases, arith, All, All-map, ◌==◌,
}
use arcade_launcher_server.QrSignin.{
  QrExternals, Ticket, Read, replied, ready, is_ready, poll_consume,
}
use arcade_launcher_server.QrSignin.Trace.{
  Event, starts, decides, reads, consumes, World, Flight, step, run, consume_flight, nth,
}
use arcade_launcher_server.QrSignin.Trace.Approved.{
  Approved, Approved-alike, FlightVouched, GrantVouched, IsVouched, start-Vouched, decide-Vouched,
  read-Vouched, spend-Vouched,
}
use arcade_launcher_server.QrSignin.Trace.{take_off}

weaker :
    (A B : ℕ → Text → Type 0) (w : World)
    → ((u : ℕ) (id : Text) → A u id → B u id)
    → IsVouched A w
    → IsVouched B w
weaker A B w h v = record {
  rows =
      All-map w.rows (λ r k u named waiting unrefused. h u r.id (k u named waiting unrefused))
        v.rows;
  flights = All-map w.flights (λ a. h a.ticket.1 (trim a.id)) v.flights;
  granted = All-map w.granted (λ g. h g.1 g.0) v.granted;
}

take_off-IsVouched :
    (A : ℕ → Text → Type 0) (id poll_token : Text) (r : Read) (w : World)
    → ((t : Ticket) → r ≡ ready t → A t.1 (trim id))
    → IsVouched A w
    → IsVouched A (take_off id poll_token r w)
take_off-IsVouched A id poll_token (replied r) w h v = v
take_off-IsVouched A id poll_token (ready t) w h v = record {
  rows = v.rows;
  flights = (h t refl, v.flights);
  granted = v.granted;
}

nth-Vouched :
    (A : ℕ → Text → Type 0) (n : ℕ) (flights : List Flight) (a : Flight)
    → All (FlightVouched A) flights
    → nth n flights ≡ some a
    → FlightVouched A a
nth-Vouched A n [] a v e = absurd cc
nth-Vouched A zero (x ∷ xs) a (k, ks) e =
    let same : x ≡ a = ground arith in subst (FlightVouched A) same k
nth-Vouched A (suc n) (x ∷ xs) a (k, ks) e = nth-Vouched A n xs a ks e

consume-IsVouched :
    (A : ℕ → Text → Type 0) (x : QrExternals) (c : IsCollation x.same_text)
    (alike : (u : ℕ) (id id' : Text) → x.same_text id id' ≡ true → A u id → A u id') (fails : Bool)
    (a : Flight) (now : ℕ) (w : World)
    → FlightVouched A a
    → IsVouched A w
    → IsVouched A (consume_flight x fails (some a) now w)
unfolding consume_flight poll_consume
consume-IsVouched A x c alike true a now w k v = record {
  rows = v.rows;
  flights = v.flights;
  granted = v.granted;
}
consume-IsVouched A x c alike false a now w k v =
    let spent_rows = spend-Vouched A x c alike a.id a.poll_token now w.rows v.rows in
    elim (Bool-cases (count_where (is_ready x a.id a.poll_token now) w.rows == 1)) [
      | inl one ↦
          rw one (record { rows = spent_rows; flights = v.flights; granted = (k, v.granted) })
      | inr none_left ↦
          rw none_left (record { rows = spent_rows; flights = v.flights; granted = v.granted })
    ]

abbrev pub ByLog : QrExternals → List Event → ℕ → Text → Type 0
ByLog x es u id = Approved x u id es

run-IsVouched :
    (x : QrExternals) (c : IsCollation x.same_text) (es : List Event)
    → IsVouched (ByLog x es) (run x es)
unfolding run step
run-IsVouched x c [] = record { rows = tt; flights = tt; granted = tt }
run-IsVouched x c (starts f k target device ip ts ∷ es) =
    let v = run-IsVouched x c es in
    record {
      rows =
          start-Vouched (ByLog x es) x c (Approved-alike x c es) f k target device ip ts _ v.rows;
      flights = v.flights;
      granted = v.granted;
    }
run-IsVouched x c (decides f user cid scan_secret action now ∷ es) =
    let log = decides f user cid scan_secret action now ∷ es in
    let v = weaker (ByLog x es) (ByLog x log) _ (λ u id. inr) (run-IsVouched x c es) in
    record {
      rows =
          decide-Vouched (ByLog x log) x c (Approved-alike x c log) f user cid scan_secret action
            now _ (λ u who word. inl (who, c.itself (trim cid), word)) v.rows;
      flights = v.flights;
      granted = v.granted;
    }
run-IsVouched x c (reads f cid poll_token now later is_enabled ∷ es) =
    let v = run-IsVouched x c es in
    take_off-IsVouched (ByLog x es) cid poll_token _ _
      (λ t.
        read-Vouched (ByLog x es) x c (Approved-alike x c es) f cid poll_token now later is_enabled
          _ t v.rows)
      v
run-IsVouched x c (consumes fails n now ∷ es) =
    let v = run-IsVouched x c es in
    elim (Option-cases (nth n (run x es).flights)) [
      | inl missing ↦ rw missing v
      | inr (a, there) ↦ rw there (
          consume-IsVouched (ByLog x es) x c (Approved-alike x c es) fails a now _
            (nth-Vouched (ByLog x es) n _ a v.flights there) v)
    ]

-- After any history, where polls may read and consume in any interleaving and any statement may
-- fail, and where the database compares identifiers by a collation: each login that was handed out
-- went to an account that, while signed in, answered the challenge, under an identifier that the
-- database takes for the same, with an approving word.
pub login-Approved :
    (x : QrExternals) (c : IsCollation x.same_text) (es : List Event)
    → All (GrantVouched (ByLog x es)) (run x es).granted
login-Approved x c es = (run-IsVouched x c es).granted
