-- ===== src/Social/Friends/Blocking.antt =====
-- src/social_api.rs: what a block has done when it reports success.
use arcade_launcher_server.Base.{
  ℕ, ◌≡◌, refl, inl, inr, Bool, true, false, none, some, List, [], ◌∷◌, Faults, arith, select_first,
  delete_where, Bool-cases,
}
use arcade_launcher_server.Calls.{Ringing, lookup}
use arcade_launcher_server.Calls.Keys.{IsKeyed, ended_either_way_one}
use arcade_launcher_server.Social.Blocks.{valid_block_target}
use arcade_launcher_server.Social.State.{Social, pair, is_pair, is_row, has_pair, are_friends}
use arcade_launcher_server.Social.Voice.{voice_allowed}
use arcade_launcher_server.Social.Friends.{
  Account, blocked, insert_ignore, block_other, unblock_other, api_social_block, end_live_call,
}

delete-select :
    {A : Type 0} (p : A → Bool) (rs : List A) → select_first p (delete_where p rs) ≡ none
unfolding select_first delete_where
delete-select p [] = refl
delete-select p (r ∷ rs) = elim (Bool-cases (p r)) [
  | inl hit ↦ rw (hit, delete-select p rs)
  | inr miss ↦ rw (miss, miss, delete-select p rs)
]

delete-has_pair :
    (a b : ℕ) (ps : List (ℕ × ℕ)) → has_pair a b (delete_where (is_pair a b) ps) ≡ false
unfolding has_pair delete_where
delete-has_pair a b [] = refl
delete-has_pair a b (p ∷ ps) = ground (arith, delete-has_pair a b ps)

insert-has_pair : (a b : ℕ) (ps : List (ℕ × ℕ)) → has_pair a b (insert_ignore a b ps) ≡ true
unfolding has_pair
insert-has_pair a b ps = ground arith

-- What a successful block leaves.
pub record Severed (me other : ℕ) (s : Social) : Type 0 where
  pub listed_block : has_pair me other s.blocks ≡ true
  pub not_friends : are_friends false s me other ≡ false
  pub no_voice : voice_allowed me other s ≡ false

-- A block that answers "blocked", and whose deletion of the friendship did not fail, has listed
-- the block, ended the friendship and closed the voice pair of the two accounts.
pub block-Severed :
    (f : Faults) (me : Account) (other : ℕ) (block : Bool) (s : Social)
    → (api_social_block f me other block s).reply ≡ blocked
    → f 1 ≡ false
    → Severed me.id other (api_social_block f me other block s).state
unfolding api_social_block block_other unblock_other end_live_call are_friends voice_allowed
block-Severed f me other block s done ok =
    let valid : valid_block_target me.id other ≡ true = ground arith in
    let held : f 0 ≡ false = ground arith in
    let blocking : block ≡ true = ground arith in
    let stored : f 2 ≡ false = ground arith in
    rw (valid, held, blocking, stored, ok)
      (record {
        listed_block = insert-has_pair me.id other s.blocks;
        not_friends = rw (delete-select (is_row me.id other) s.friendships);
        no_voice = delete-has_pair (pair me.id other).0 (pair me.id other).1 s.voice;
      })

-- In a table where no pair rings twice: a successful block by an account that rings the other one
-- stops that ring, and leaves a ring in the opposite direction as it was.
pub block_one_ring :
    (f : Faults) (me : Account) (other : ℕ) (block : Bool) (s : Social) (r : Ringing)
    → (api_social_block f me other block s).reply ≡ blocked
    → IsKeyed s.rings
    → lookup me.id other s.rings ≡ some r
    → (lookup me.id other (api_social_block f me other block s).state.rings ≡ none)
      × (lookup other me.id (api_social_block f me other block s).state.rings
          ≡ lookup other me.id s.rings)
unfolding api_social_block block_other unblock_other end_live_call valid_block_target
block_one_ring f me other block s r done k there =
    ground (arith, ended_either_way_one me.id other s.rings r k)
