-- ===== src/Social/Friends/Consent.antt =====
-- src/social_api.rs: a friendship stands only between accounts that both turned to one another.
use mathlib.Core.Path.{subst₂}
use arcade_launcher_server.Social.Friends.Cases.{
  found_row, request-missing, request_cases, respond_cases, block_cases,
}
use arcade_launcher_server.Base.{
  ℕ, ◌<◌, ◌≡◌, refl, ◌⊎◌, inl, inr, Bool, true, false, Option, none, some, List, Text, Faults, All,
  delete_where, leb, if◌then◌else◌, ==_iff, All-delete_where, All-update_where, All-select_first,
  select_first, Bool-cases, arith, ◌==◌,
}
use arcade_launcher_server.Social.State.{
  accepted, is_accepted, Friendship, Social, pair, is_row, sweep_expired_requests, is_expired,
}
use arcade_launcher_server.Social.Friends.{
  Account, Action, accept, accept_row, new_row, is_asked, api_social_request, meet_request,
  open_request, api_social_respond, api_social_block, end_live_call, unfriended,
}

-- A row is kept under its ordered pair. Its requester turned to the other account, and if the
-- row is accepted the other account turned to the requester.
pub record Consented (turned : ℕ → ℕ → Type 0) (r : Friendship) : Type 0 where
  pub ordered : r.user_lo < r.user_hi
  pub party : (r.requested_by ≡ r.user_lo) ⊎ (r.requested_by ≡ r.user_hi)
  pub asked_lo : r.requested_by ≡ r.user_lo → turned r.user_lo r.user_hi
  pub asked_hi : r.requested_by ≡ r.user_hi → turned r.user_hi r.user_lo
  pub both : r.status ≡ accepted → turned r.user_lo r.user_hi × turned r.user_hi r.user_lo

pub Consented-mono :
    {T U : ℕ → ℕ → Type 0} (r : Friendship)
    → ((a b : ℕ) → T a b → U a b)
    → Consented T r
    → Consented U r
Consented-mono r h c = record {
  ordered = c.ordered;
  party = c.party;
  asked_lo = λ e. h _ _ (c.asked_lo e);
  asked_hi = λ e. h _ _ (c.asked_hi e);
  both = λ e. let (x, y) = c.both e in (h _ _ x, h _ _ y);
}

module _ (U : ℕ → ℕ → Type 0) where
  -- The requester of a row between two accounts turned to the other one.
  asker-turned :
      (me other : ℕ) (r : Friendship)
      → Consented U r
      → is_row me other r ≡ true
      → r.requested_by ≡ other
      → U other me
  unfolding pair
  asker-turned me other r c row asked = elim c.party [
    | inl lo ↦
        let me_hi : r.user_hi ≡ me = ground (arith, c.ordered) in
        let other_lo : r.user_lo ≡ other = ground arith in subst₂ U other_lo me_hi (c.asked_lo lo)
    | inr hi ↦
        let me_lo : r.user_lo ≡ me = ground (arith, c.ordered) in
        let other_hi : r.user_hi ≡ other = ground arith in subst₂ U other_hi me_lo (c.asked_hi hi)
  ]

  accept-Consented :
      (me other now : ℕ) (r : Friendship)
      → Consented U r
      → U me other
      → U other me
      → is_row me other r ≡ true
      → Consented U (accept_row now r)
  unfolding pair
  accept-Consented me other now r c mine theirs row = record {
    ordered = c.ordered;
    party = c.party;
    asked_lo = c.asked_lo;
    asked_hi = c.asked_hi;
    both = λ _. elim (Bool-cases (leb me other)) [
      | inl up ↦
          let lo : me ≡ r.user_lo = ground arith in
          let hi : other ≡ r.user_hi = ground arith in (subst₂ U lo hi mine, subst₂ U hi lo theirs)
      | inr down ↦
          let hi : me ≡ r.user_hi = ground arith in
          let lo : other ≡ r.user_lo = ground arith in (subst₂ U lo hi theirs, subst₂ U hi lo mine)
    ];
  }

  new_row-Consented :
      (me other now : ℕ) → U me other → (other == me) ≡ false → Consented U (new_row me other now)
  unfolding pair
  new_row-Consented me other now mine differ = elim (Bool-cases (leb me other)) [
    | inl up ↦ rw up (record {
      ordered = ground arith;
      party = inl refl;
      asked_lo = λ _. mine;
      asked_hi = λ e. absurd (ground arith);
      both = λ e. absurd (cc);
    })
    | inr down ↦ rw down (record {
      ordered = ground arith;
      party = inr refl;
      asked_lo = λ e. absurd (ground arith);
      asked_hi = λ _. mine;
      both = λ e. absurd (cc);
    })
  ]

  dropped :
      (p : Friendship → Bool) (rs : List Friendship)
      → All (Consented U) rs
      → All (Consented U) (delete_where p rs)
  dropped p rs = All-delete_where p rs (λ r c _. c)

  open_request-Consented :
      (f : Faults) (me : Account) (other now : ℕ) (policy : Text) (s : Social)
      → U me.id other
      → (other == me.id) ≡ false
      → All (Consented U) s.friendships
      → All (Consented U) (open_request f me other now policy s).state.friendships
  unfolding open_request
  open_request-Consented f me other now policy s mine differ k =
      ground (arith, new_row-Consented me.id other now mine differ)

  meet_request-Consented :
      (f : Faults) (me : Account) (other now : ℕ) (policy : Text) (existing : Option Friendship)
      (s : Social)
      → U me.id other
      → (other == me.id) ≡ false
      → ((r : Friendship) → existing ≡ some r → Consented U r × (is_row me.id other r ≡ true))
      → All (Consented U) s.friendships
      → All (Consented U) (meet_request f me other now policy existing s).state.friendships
  unfolding meet_request
  meet_request-Consented f me other now policy none s mine differ found k =
      open_request-Consented f me other now policy s mine differ k
  meet_request-Consented f me other now policy (some r) s mine differ found k =
      elim (Bool-cases (r.requested_by == other)) [
        | inl asked ↦
            let theirs =
              asker-turned me.id other r (found r refl).0 (found r refl).1 ((==_iff _ _).0 asked) in
            let updated =
              All-update_where (is_row me.id other) (accept_row now) s.friendships
                (λ x c row. accept-Consented me.id other now x c mine theirs row) (λ x c _. c) k in
            elim (Bool-cases (is_accepted r.status)) [
              | inl done ↦ rw done k
              | inr new ↦
                  rw (new, asked)
                    (elim (Bool-cases (f 8)) [
                      | inl lost ↦ rw lost k
                      | inr saved ↦ rw saved updated
                    ])
            ]
        | inr not_asked ↦ elim (Bool-cases (is_accepted r.status)) [
          | inl done ↦ rw done k
          | inr new ↦ rw (new, not_asked) k
        ]
      ]

  sweep-Consented :
      (fails : Bool) (now : ℕ) (s : Social)
      → All (Consented U) s.friendships
      → All (Consented U) (sweep_expired_requests fails now s).friendships
  unfolding sweep_expired_requests
  sweep-Consented true now s k = k
  sweep-Consented false now s k = dropped (is_expired now) s.friendships k

  selected :
      (fails : Bool) (me other : ℕ) (rs : List Friendship)
      → All (Consented U) rs
      → (r : Friendship) → (if fails then none else select_first (is_row me other) rs) ≡ some r
      → Consented U r × (is_row me other r ≡ true)
  selected true me other rs k r e = absurd (cc)
  selected false me other rs k r e = All-select_first (Consented U) (is_row me other) rs r k e

  unfriended-Consented :
      (fails : Bool) (me other : ℕ) (s : Social)
      → All (Consented U) s.friendships
      → All (Consented U) (unfriended fails me other s).friendships
  unfriended-Consented true me other s k = k
  unfriended-Consented false me other s k = dropped (is_row me other) s.friendships k

  pub request-Consented :
      (f : Faults) (me : Account) (target : Option ℕ) (now : ℕ) (s : Social)
      → ((other : ℕ) → target ≡ some other → U me.id other)
      → All (Consented U) s.friendships
      → All (Consented U) (api_social_request f me target now s).state.friendships
  request-Consented f me none now s turned k = rw (request-missing f me now s) k
  request-Consented f me (some other) now s turned k =
      let swept = sweep-Consented (f 4) now s k in
      request_cases (λ t. All (Consented U) t.friendships) f me other now s k swept
        λ policy _ differ.
          meet_request-Consented f me other now policy (found_row f me other now s) _
            (turned other refl) differ (selected (f 7) me.id other _ swept) swept

  pub respond-Consented :
      (f : Faults) (me : Account) (other now : ℕ) (action : Action) (s : Social)
      → (action ≡ accept → U me.id other)
      → All (Consented U) s.friendships
      → All (Consented U) (api_social_respond f me other now action s).state.friendships
  respond-Consented f me other now action s turned k =
      respond_cases (λ t. All (Consented U) t.friendships) f me other now action s k
        (λ taken.
          All-update_where (is_asked me.id other) (accept_row now) s.friendships
            (λ r c hit.
              let row : is_row me.id other r ≡ true = ground arith in
              accept-Consented me.id other now r c (turned taken)
                (asker-turned me.id other r c row (ground arith)) row)
            (λ r c _. c) k)
        (dropped (is_row me.id other) s.friendships k)
        (λ _. dropped (is_asked me.id other) s.friendships k)

  pub block-Consented :
      (f : Faults) (me : Account) (other : ℕ) (block : Bool) (s : Social)
      → All (Consented U) s.friendships
      → All (Consented U) (api_social_block f me other block s).state.friendships
  unfolding end_live_call
  block-Consented f me other block s k =
      let cut = unfriended-Consented (f 1) me.id other s k in
      block_cases (λ t. All (Consented U) t.friendships) f me other block s k (λ _. cut) (λ _. cut)
        k
