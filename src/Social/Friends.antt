-- ===== src/Social/Friends.antt =====
-- src/social_api.rs: the handlers that request, answer and end friendships, and those that block.
-- `f` says which database call fails, by its place in the handler; the clock is read once.
pub mod Cases
pub mod Consent
pub mod Blocking
use arcade_launcher_server.Base.{
  ℕ, ◌+◌, Bool, true, false, not, ◌&&◌, ◌||◌, Option, none, some, List, [], ◌∷◌, ◌++◌, Text, codes,
  text_eq, Faults, ◌==◌, leb, if◌then◌else◌, select_first, count_where, update_where, delete_where,
  is_some,
}
use arcade_launcher_server.Calls.{ended_either_way}
use arcade_launcher_server.Social.Blocks.{
  BlockPair, friend_request, interaction_refusal, on_block, valid_block_target,
}
use arcade_launcher_server.Social.State.{
  Status, pending, accepted, is_accepted, is_pending, Friendship, Social, pair, is_pair, is_row,
  block_pair, has_ignored, shares_mutual_friend, friend_policy_of, sweep_expired_requests, has_pair,
}

abbrev pub friend_request_ttl_secs : ℕ
friend_request_ttl_secs = 2592000

abbrev pub friend_request_max_outgoing : ℕ
friend_request_max_outgoing = 50

pub data Reply : Type 0 where
  request_sent now_accepted removed ignored blocked unblocked : Reply
  no_such_user invalid_target already_friends not_accepting mutual_only too_many : Reply
  no_pending_request unknown_action server_error : Reply
  forbidden : Text → Reply

-- What a handler sends out besides its reply: frames that are pushed to an account, XP that is
-- awarded, and durable notifications with their actor.
pub data Effect : Type 0 where
  push_request : (to sender : ℕ) → Text → Effect
  push_accepted push_removed push_call_end : (to about : ℕ) → Effect
  award_xp : (user amount : ℕ) → Effect
  notify_request notify_accepted : (user actor : ℕ) → Text → Effect

pub record Outcome : Type 0 where
  pub reply : Reply
  pub state : Social
  pub effects : List Effect

abbrev pub answer : Reply → Social → Outcome
answer r s = record { reply = r; state = s; effects = [] }

pub record Account : Type 0 where
  pub id : ℕ
  pub username : Text

abbrev accept_effects : Account → ℕ → List Effect
accept_effects me other =
    push_accepted other me.id
    ∷ push_accepted me.id other
    ∷ award_xp me.id 10
    ∷ award_xp other 10
    ∷ notify_accepted other me.id me.username
    ∷ []

abbrev pub accept_row : ℕ → Friendship → Friendship
accept_row now r = record r { status = accepted; updated_at = now }

abbrev pub new_row : ℕ → ℕ → ℕ → Friendship
new_row me other now = record {
  user_lo = (pair me other).0;
  user_hi = (pair me other).1;
  status = pending;
  requested_by = me;
  created_at = now;
  updated_at = now;
  expires_at = some (now + friend_request_ttl_secs);
}

-- From the policy on: no row is known for the two accounts. The insertion fails on a second row
-- with the same key.
unfoldable pub open_request : Faults → Account → ℕ → ℕ → Text → Social → Outcome
open_request f me other now policy s =
    if text_eq policy (codes "nobody")
    then answer not_accepting s
    else if text_eq policy (codes "mutual") && not (shares_mutual_friend (f 9) (f 10) s me.id other)
    then answer mutual_only s
    else if not (f 11)
        && leb friend_request_max_outgoing
            (count_where (λ r. is_pending r.status && r.requested_by == me.id) s.friendships)
    then answer too_many s
    else if f 12 || is_some (select_first (is_row me.id other) s.friendships)
    then answer server_error s
    else record {
      reply = request_sent;
      state = record s { friendships = new_row me.id other now ∷ s.friendships };
      effects = push_request other me.id me.username ∷ notify_request other me.id me.username ∷ [];
    }

-- From the existing row on.
unfoldable pub meet_request : Faults → Account → ℕ → ℕ → Text → Option Friendship → Social → Outcome
meet_request f me other now policy none s = open_request f me other now policy s
meet_request f me other now policy (some r) s =
    if is_accepted r.status
    then answer already_friends s
    else if r.requested_by == other
    then record {
      reply = now_accepted;
      state = if f 8 then s else record s {
        friendships = update_where (is_row me.id other) (accept_row now) s.friendships;
      };
      effects = accept_effects me other;
    }
    else answer request_sent s

-- `api_social_request`, for a signed-in caller; `target` is what `find_user` gives.
unfoldable pub api_social_request : Faults → Account → Option ℕ → ℕ → Social → Outcome
unfolding open_request meet_request
api_social_request f me target now s = if f 0 then answer server_error s else elim target [
  | none ↦ answer no_such_user s
  | some other ↦
      if other == me.id
      then answer invalid_target s
      else elim (interaction_refusal (block_pair (f 1) s me.id other) friend_request) [
        | some reason ↦ answer (forbidden reason) s
        | none ↦
            if has_ignored (f 2) s other me.id || has_ignored (f 3) s me.id other
            then answer request_sent s
            else let swept = sweep_expired_requests (f 4) now s in
              let policy = friend_policy_of (f 5) swept other in
              if f 6
              then answer server_error swept
              else meet_request f me other now policy
                  (if f 7 then none else select_first (is_row me.id other) swept.friendships) swept
      ]
]

pub data Action : Type 0 where
  accept decline cancel remove ignore : Action
  other_action : Text → Action

-- WHERE … AND status='pending' AND requested_by=:other
abbrev pub is_asked : ℕ → ℕ → Friendship → Bool
is_asked me other r = is_row me other r && is_pending r.status && r.requested_by == other

abbrev drop_row : Faults → Account → ℕ → Social → Outcome
drop_row f me other s = if f 1 then answer server_error s else record {
  reply = removed;
  state = record s { friendships = delete_where (is_row me.id other) s.friendships };
  effects = push_removed other me.id ∷ push_removed me.id other ∷ [];
}

-- INSERT IGNORE INTO a table whose key is the pair.
abbrev pub insert_ignore : ℕ → ℕ → List (ℕ × ℕ) → List (ℕ × ℕ)
insert_ignore a b ps = if has_pair a b ps then ps else (a, b) ∷ ps

-- The branches of `match body.action`.
unfoldable pub respond : Faults → Account → ℕ → ℕ → Action → Social → Outcome
respond f me other now accept s =
    if f 1
    then answer server_error s
    else if leb 1 (count_where (is_asked me.id other) s.friendships)
    then record {
      reply = now_accepted;
      state = record s {
        friendships = update_where (is_asked me.id other) (accept_row now) s.friendships;
      };
      effects = accept_effects me other;
    }
    else answer no_pending_request s
respond f me other now decline s = drop_row f me other s
respond f me other now cancel s = drop_row f me other s
respond f me other now remove s = drop_row f me other s
respond f me other now ignore s =
    if f 1
    then answer server_error s
    else answer ignored (record s {
      friendships = delete_where (is_asked me.id other) s.friendships;
      ignores = if f 2 then s.ignores else insert_ignore me.id other s.ignores;
    })
respond f me other now (other_action a) s = answer unknown_action s

unfoldable pub api_social_respond : Faults → Account → ℕ → ℕ → Action → Social → Outcome
unfolding respond
api_social_respond f me other now action s =
    if f 0 then answer server_error s else respond f me other now action s

-- `ON_BLOCK.end_live_call`: both directions of the voice pair, which is one pair, and one ring.
unfoldable pub end_live_call : ℕ → ℕ → Social → Social
end_live_call me other s = record s {
  voice = delete_where (is_pair (pair me other).0 (pair me other).1) s.voice;
  rings = (ended_either_way me other s.rings).1;
}

abbrev drop_friendship : Bool → ℕ → ℕ → Social → Social
drop_friendship fails me other s =
    if fails then s else record s { friendships = delete_where (is_row me other) s.friendships }

abbrev pub unfriended : Bool → ℕ → ℕ → Social → Social
unfriended fails me other s =
    if on_block.drop_friendship then drop_friendship fails me other s else s

abbrev pub listed : Bool → ℕ → ℕ → Social → Social
listed fails me other s =
    let u = unfriended fails me other s in record u { blocks = insert_ignore me other u.blocks }

-- `body.block`: the friendship goes first, then the block is listed, then the call is ended.
unfoldable pub block_other : Faults → Account → ℕ → Social → Outcome
unfolding end_live_call
block_other f me other s =
    if f 2 then answer server_error (unfriended (f 1) me.id other s) else record {
      reply = blocked;
      state =
          if on_block.end_live_call
          then end_live_call me.id other (listed (f 1) me.id other s)
          else listed (f 1) me.id other s;
      effects =
          (if on_block.end_live_call
            then push_call_end me.id other ∷ push_call_end other me.id ∷ []
            else [])
          ++ (push_removed other me.id ∷ push_removed me.id other ∷ []);
    }

pub unblock_other : Faults → Account → ℕ → Social → Outcome
unblock_other f me other s =
    if f 1
    then answer server_error s
    else answer unblocked (record s { blocks = delete_where (is_pair me.id other) s.blocks })

unfoldable pub api_social_block : Faults → Account → ℕ → Bool → Social → Outcome
unfolding block_other unblock_other
api_social_block f me other block s =
    if not (valid_block_target me.id other)
    then answer invalid_target s
    else if f 0
    then answer server_error s
    else if block
    then block_other f me other s
    else unblock_other f me other s
