-- ===== src/QrSignin/Trace/Approved.antt =====
-- src/qr_auth.rs: a login goes to an account that approved its challenge.
pub mod Runs
use arcade_launcher_server.Base.{
  ℕ, ◌≡◌, refl, ◌⊎◌, inl, inr, Bool, true, false, not, ◌&&◌, ◌||◌, Option, none, some, List, [],
  ◌∷◌, Text, Faults, trim, IsCollation, select_first, count_where, update_where, delete_where, any,
  if◌then◌else◌, Bool-cases, Option-cases, arith, All, All-map, All-delete_where, All-update_where,
  All-select_first, ◌==◌,
}
use arcade_launcher_server.QrSignin.{
  QrExternals, Challenge, Challenges, State, QrSigninTarget, Tokens, Ticket, Read, replied, ready,
  is_pending, is_denied, challenge, is_open, answered_by, is_ready, spent, qr_signin_start,
  open_challenge, swept, qr_signin_decide, parse_target, parse_decision, poll_read, poll_consume,
  is_polled,
}
use arcade_launcher_server.QrSignin.Trace.{
  Event, starts, decides, reads, consumes, World, Flight, step, run, consume_flight, nth,
}

-- An account that has answered a challenge with an approving word, according to a log.
abbrev pub Approved : QrExternals → ℕ → Text → List Event → Type 0
Approved x u id [] = ⊥
Approved x u id (decides f user cid scan_secret action now ∷ es) =
    ((user ≡ some u)
      × (x.same_text id (trim cid) ≡ true)
      × (parse_decision action ≡ some State.approved))
    ⊎ Approved x u id es
Approved x u id (starts f k target device ip ts ∷ es) = Approved x u id es
Approved x u id (reads f cid poll_token now later is_enabled ∷ es) = Approved x u id es
Approved x u id (consumes fails n now ∷ es) = Approved x u id es

-- An answer to a challenge is one to whatever identifier the database takes for the same.
pub Approved-alike :
    (x : QrExternals) (c : IsCollation x.same_text) (es : List Event) (u : ℕ) (id id' : Text)
    → x.same_text id id' ≡ true
    → Approved x u id es
    → Approved x u id' es
Approved-alike x c [] u id id' e k = absurd k
Approved-alike x c (decides f user cid scan_secret action now ∷ es) u id id' e
      (inl (who, at, word)) =
    inl (who, c.along id' id (trim cid) (c.back id id' e) at, word)
Approved-alike x c (decides f user cid scan_secret action now ∷ es) u id id' e (inr k) =
    inr (Approved-alike x c es u id id' e k)
Approved-alike x c (starts f k target device ip ts ∷ es) u id id' e a =
    Approved-alike x c es u id id' e a
Approved-alike x c (reads f cid poll_token now later is_enabled ∷ es) u id id' e a =
    Approved-alike x c es u id id' e a
Approved-alike x c (consumes fails n now ∷ es) u id id' e a = Approved-alike x c es u id id' e a

parsed :
    (action : Text) (state : State)
    → parse_decision action ≡ some state
    → is_denied state ≡ false
    → parse_decision action ≡ some State.approved
unfolding parse_decision
parsed action state good unrefused = ground arith

-- The account that a challenge names has approved it, unless the challenge is pending or denied.
abbrev pub Vouched : (ℕ → Text → Type 0) → Challenge → Type 0
Vouched A r =
    (u : ℕ) → r.user_id ≡ some u → is_pending r.state ≡ false → is_denied r.state ≡ false → A u r.id

abbrev pub FlightVouched : (ℕ → Text → Type 0) → Flight → Type 0
FlightVouched A a = A a.ticket.1 (trim a.id)

abbrev pub GrantVouched : (ℕ → Text → Type 0) → Text × ℕ → Type 0
GrantVouched A g = A g.1 g.0

pub record IsVouched (A : ℕ → Text → Type 0) (w : World) : Type 0 where
  pub rows : All (Vouched A) w.rows
  pub flights : All (FlightVouched A) w.flights
  pub granted : All (GrantVouched A) w.granted

module _ (A : ℕ → Text → Type 0) (x : QrExternals) (c : IsCollation x.same_text)
    (alike : (u : ℕ) (id id' : Text) → x.same_text id id' ≡ true → A u id → A u id') where
  swept-Vouched :
      (fails : Bool) (ts : ℕ) (rows : Challenges)
      → All (Vouched A) rows
      → All (Vouched A) (swept fails ts rows)
  unfolding swept
  swept-Vouched true ts rows v = v
  swept-Vouched false ts rows v = All-delete_where _ rows (λ r k _. k) v

  new-Vouched :
      (k : Tokens) (target : QrSigninTarget) (device ip : Text) (ts : ℕ)
      → Vouched A (challenge x k target device ip ts)
  new-Vouched k target device ip ts u named waiting unrefused = absurd (ground arith)

  open-Vouched :
      (f : Faults) (k : Tokens) (target : QrSigninTarget) (device ip : Text) (ts : ℕ)
      (rows : Challenges)
      → All (Vouched A) rows
      → All (Vouched A) (open_challenge x f k target device ip ts rows).1
  unfolding open_challenge
  open-Vouched f k target device ip ts rows v = ground (arith, v, new-Vouched k target device ip ts)

  pub start-Vouched :
      (f : Faults) (k : Tokens) (target device ip : Text) (ts : ℕ) (rows : Challenges)
      → All (Vouched A) rows
      → All (Vouched A) (qr_signin_start x f k target device ip ts rows).1
  unfolding qr_signin_start
  start-Vouched f k target device ip ts rows v = elim (Option-cases (parse_target target)) [
    | inl bad ↦ rw (qr_signin_start, bad) v
    | inr (t, good) ↦ elim (Bool-cases (f 0)) [
      | inl down ↦ rw (qr_signin_start, good, down) v
      | inr up ↦
          rw (qr_signin_start, good, up)
            (open-Vouched f k t device ip ts (swept (f 1) ts rows) (swept-Vouched (f 1) ts rows v))
    ]
  ]

  answer-Vouched :
      (user : ℕ) (cid scan_secret : Text) (now : ℕ) (state : State) (rows : Challenges)
      → (is_denied state ≡ false → A user (trim cid))
      → All (Vouched A) rows
      → All (Vouched A) (update_where (is_open x cid scan_secret now) (answered_by user state) rows)
  answer-Vouched user cid scan_secret now state rows by_user v =
      All-update_where (is_open x cid scan_secret now) (answered_by user state) rows
        (λ r k at u named waiting unrefused.
          let same : x.same_text (trim cid) r.id ≡ true = c.back r.id (trim cid) (ground arith) in
          let who : user ≡ u = ground arith in
          alike u (trim cid) r.id same (rw who at (by_user unrefused)))
        (λ r k _. k) v

  pub decide-Vouched :
      (f : Faults) (user : Option ℕ) (cid scan_secret action : Text) (now : ℕ) (rows : Challenges)
      → ((u : ℕ) → user ≡ some u → parse_decision action ≡ some State.approved → A u (trim cid))
      → All (Vouched A) rows
      → All (Vouched A) (qr_signin_decide x f user cid scan_secret action now rows).1
  unfolding qr_signin_decide
  decide-Vouched f none cid scan_secret action now rows by_user v = v
  decide-Vouched f (some user) cid scan_secret action now rows by_user v =
      elim (Option-cases (parse_decision action)) [
        | inl bad ↦ rw (qr_signin_decide, bad) v
        | inr (state, good) ↦ elim (Bool-cases (f 0 || f 1)) [
          | inl down ↦ rw (qr_signin_decide, good, down) v
          | inr up ↦
              rw (qr_signin_decide, good, up)
                (answer-Vouched user cid scan_secret now state rows
                  (λ unrefused. by_user user refl (parsed action state good unrefused)) v)
        ]
      ]

  pub read-Vouched :
      (f : Faults) (cid poll_token : Text) (now later : ℕ) (is_enabled : ℕ → Option Bool)
      (rows : Challenges) (t : Ticket)
      → All (Vouched A) rows
      → poll_read x f cid poll_token now later is_enabled rows ≡ ready t
      → A t.1 (trim cid)
  unfolding poll_read
  read-Vouched f cid poll_token now later is_enabled rows t v there =
      elim (Option-cases (select_first (is_polled x cid poll_token) rows)) [
        | inl missing ↦ absurd (ground arith)
        | inr (r, e) ↦
            let (k, at) = All-select_first (Vouched A) (is_polled x cid poll_token) rows r v e in
            let same : x.same_text r.id (trim cid) ≡ true = ground arith in
            let named : r.user_id ≡ some t.1 = ground arith in
            alike t.1 r.id (trim cid) same (k t.1 named (ground arith) (ground arith))
      ]

  pub spend-Vouched :
      (cid poll_token : Text) (now : ℕ) (rows : Challenges)
      → All (Vouched A) rows
      → All (Vouched A) (update_where (is_ready x cid poll_token now) (spent now) rows)
  spend-Vouched cid poll_token now rows v =
      All-update_where (is_ready x cid poll_token now) (spent now) rows
        (λ r k at u named waiting unrefused. k u named (ground arith) (ground arith)) (λ r k _. k) v
