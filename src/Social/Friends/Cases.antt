-- ===== src/Social/Friends/Cases.antt =====
-- src/social_api.rs: the states in which a handler can leave the tables, as rules for a predicate.
use arcade_launcher_server.Base.{
  ℕ, ◌≡◌, refl, inl, inr, Bool, true, false, Option, none, some, List, ◌∷◌, Text, Faults,
  delete_where, update_where, leb, ◌||◌, if◌then◌else◌, count_where, select_first, Option-cases,
  Bool-cases, arith, ◌==◌,
}
use arcade_launcher_server.Social.Blocks.{friend_request, interaction_refusal, valid_block_target}
use arcade_launcher_server.Social.State.{
  is_accepted, Friendship, Social, is_pair, is_row, block_pair, sweep_expired_requests, has_ignored,
}
use arcade_launcher_server.Social.Friends.{
  Account, Action, accept, decline, cancel, remove, ignore, other_action, accept_row, new_row,
  is_asked, api_social_request, meet_request, open_request, api_social_respond, respond,
  api_social_block, block_other, unblock_other, end_live_call, unfriended, listed,
}

abbrev pub found_row : Faults → Account → ℕ → ℕ → Social → Option Friendship
found_row f me other now s =
    if f 7
    then none
    else select_first (is_row me.id other) (sweep_expired_requests (f 4) now s).friendships

pub request-missing :
    (f : Faults) (me : Account) (now : ℕ) (s : Social)
    → (api_social_request f me none now s).state ≡ s
unfolding api_social_request
request-missing f me now s = ground arith

-- What holds of the state, of the swept state and of what a row or a new row makes of that, holds
-- after the request.
pub request_cases :
    (P : Social → Type 0) (f : Faults) (me : Account) (other now : ℕ) (s : Social)
    → P s
    → P (sweep_expired_requests (f 4) now s)
    → ((policy : Text)
        → interaction_refusal (block_pair (f 1) s me.id other) friend_request ≡ none
        → (other == me.id) ≡ false
        → P
            (meet_request f me other now policy
              (found_row f me other now s)
              (sweep_expired_requests (f 4) now s)).state)
    → P (api_social_request f me (some other) now s).state
unfolding api_social_request
request_cases P f me other now s here swept met = elim (Bool-cases (f 0)) [
  | inl e ↦ rw e here
  | inr e ↦ rw e (elim (Bool-cases (other == me.id)) [
    | inl self ↦ rw self here
    | inr differ ↦
        rw differ
          (elim (Option-cases
            (interaction_refusal (block_pair (f 1) s me.id other) friend_request)) [
              | inr (t, refused) ↦ rw refused here
              | inl free ↦
                  rw free
                    (elim (Bool-cases
                      (has_ignored (f 2) s other me.id || has_ignored (f 3) s me.id other)) [
                        | inl hush ↦ rw hush here
                        | inr heard ↦ rw heard (elim (Bool-cases (f 6)) [
                          | inl lost ↦ rw lost swept
                          | inr kept ↦ rw kept (met _ free differ)
                        ])
                      ])
            ])
  ])
]

pub meet_cases :
    (P : Social → Type 0) (f : Faults) (me : Account) (other now : ℕ) (policy : Text)
    (existing : Option Friendship) (s : Social)
    → P s
    → P (record s {
      friendships = update_where (is_row me.id other) (accept_row now) s.friendships;
    })
    → P (record s { friendships = new_row me.id other now ∷ s.friendships })
    → P (meet_request f me other now policy existing s).state
unfolding meet_request open_request
meet_cases P f me other now policy none s here met asked = ground arith
meet_cases P f me other now policy (some r) s here met asked =
    elim (Bool-cases (is_accepted r.status)) [
      | inl done ↦ rw done here
      | inr new ↦ elim (Bool-cases (r.requested_by == other)) [
        | inl theirs ↦
            rw (new, theirs)
              (elim (Bool-cases (f 8)) [ inl lost ↦ rw lost here | inr saved ↦ rw saved met ])
        | inr mine ↦ rw (new, mine) here
      ]
    ]

abbrev pub accepted_state : Account → ℕ → ℕ → Social → Social
accepted_state me other now s = record s {
  friendships = update_where (is_asked me.id other) (accept_row now) s.friendships;
}

branch_cases :
    (P : Social → Type 0) (f : Faults) (me : Account) (other now : ℕ) (action : Action) (s : Social)
    → P s
    → (action ≡ accept → P (accepted_state me other now s))
    → P (record s { friendships = delete_where (is_row me.id other) s.friendships })
    → ((ignores : List (ℕ × ℕ))
        → P (record s {
          friendships = delete_where (is_asked me.id other) s.friendships;
          ignores = ignores;
        }))
    → P (respond f me other now action s).state
unfolding respond
branch_cases P f me other now accept s here taken gone hushed = elim (Bool-cases (f 1)) [
  | inl e ↦ rw e here
  | inr e ↦ rw e (elim (Bool-cases (leb 1 (count_where (is_asked me.id other) s.friendships))) [
    | inl found ↦ rw found (taken refl)
    | inr none_found ↦ rw none_found here
  ])
]
branch_cases P f me other now decline s here taken gone hushed = elim (Bool-cases (f 1)) [
  | inl e ↦ rw e here
  | inr e ↦ rw e gone
]
branch_cases P f me other now cancel s here taken gone hushed = elim (Bool-cases (f 1)) [
  | inl e ↦ rw e here
  | inr e ↦ rw e gone
]
branch_cases P f me other now remove s here taken gone hushed = elim (Bool-cases (f 1)) [
  | inl e ↦ rw e here
  | inr e ↦ rw e gone
]
branch_cases P f me other now ignore s here taken gone hushed = elim (Bool-cases (f 1)) [
  | inl e ↦ rw e here
  | inr e ↦ rw e (hushed _)
]
branch_cases P f me other now (other_action a) s here taken gone hushed = here

pub respond_cases :
    (P : Social → Type 0) (f : Faults) (me : Account) (other now : ℕ) (action : Action) (s : Social)
    → P s
    → (action ≡ accept → P (accepted_state me other now s))
    → P (record s { friendships = delete_where (is_row me.id other) s.friendships })
    → ((ignores : List (ℕ × ℕ))
        → P (record s {
          friendships = delete_where (is_asked me.id other) s.friendships;
          ignores = ignores;
        }))
    → P (api_social_respond f me other now action s).state
unfolding api_social_respond
respond_cases P f me other now action s here taken gone hushed = elim (Bool-cases (f 0)) [
  | inl e ↦ rw e here
  | inr e ↦ rw e (branch_cases P f me other now action s here taken gone hushed)
]

pub block_cases :
    (P : Social → Type 0) (f : Faults) (me : Account) (other : ℕ) (block : Bool) (s : Social)
    → P s
    → (valid_block_target me.id other ≡ true → P (unfriended (f 1) me.id other s))
    → (valid_block_target me.id other ≡ true
        → P (end_live_call me.id other (listed (f 1) me.id other s)))
    → P (record s { blocks = delete_where (is_pair me.id other) s.blocks })
    → P (api_social_block f me other block s).state
unfolding api_social_block block_other unblock_other
block_cases P f me other block s here cut full freed =
    elim (Bool-cases (valid_block_target me.id other)) [
      | inr bad ↦ rw bad here
      | inl good ↦
          rw good (elim (Bool-cases (f 0)) [ inl e ↦ rw e here | inr e ↦ rw e (sides block good) ])
    ]
  where
    sides :
        (b : Bool)
        → valid_block_target me.id other ≡ true
        → P (if b then block_other f me other s else unblock_other f me other s).state
    sides true good = elim (Bool-cases (f 2)) [ inl e ↦ rw e (cut good) | inr e ↦ rw e (full good) ]
    sides false good = elim (Bool-cases (f 1)) [ inl e ↦ rw e here | inr e ↦ rw e freed ]
