-- ===== src/Social/Log/Clear.antt =====
-- src/social_api.rs and src/blocks.rs: what a block rules out for as long as it stands.
mod Calling
pub mod Runs
use arcade_launcher_server.Base.{
  ℕ, ◌≤◌, ◌<◌, ◌≡◌, refl, ◌⊎◌, inl, inr, Bool, true, false, Option, none, some, List, [], ◌∷◌, Text,
  Faults, All, All-map, All-delete_where, All-update_where, All-select_first, select_first,
  delete_where, update_where, leb, Option-cases, Bool-cases, arith, ◌==◌, text_eq, codes,
}
use arcade_launcher_server.Calls.{Entry, Rings, expired}
use arcade_launcher_server.Social.Blocks.{
  friend_request, call, interaction_refusal, any_block, valid_block_target,
}
use arcade_launcher_server.Social.State.{
  Friendship, Social, accepted, pair, is_pair, is_row, are_friends, block_pair, has_pair,
  sweep_expired_requests, is_expired,
}
use arcade_launcher_server.Social.Voice.{
  Surroundings, ring_timeout_secs, voice_signal, signal_kind, drop_voice_for, sweep_rings,
  disallow_all, disallow_voice, allow_voice, voice_allowed,
}
use arcade_launcher_server.Social.Friends.{
  Account, Action, accept, accept_row, is_asked, new_row, api_social_request, api_social_respond,
  api_social_block, end_live_call, unfriended, listed, insert_ignore,
}
use arcade_launcher_server.Social.Friends.Cases.{
  meet_cases, request_cases, request-missing, respond_cases, block_cases, accepted_state,
}
use arcade_launcher_server.Social.Log.{
  Event, requests, responds, blocks, signals, disconnects, connects, ticks, step, run, fresh,
}

-- Neither of two accounts blocks the other, by a table of blocks.
abbrev pub Clear : List (ℕ × ℕ) → ℕ → ℕ → Type 0
Clear bs a b = (has_pair a b bs ≡ false) × (has_pair b a bs ≡ false)

abbrev pub ClearRow : List (ℕ × ℕ) → Friendship → Type 0
ClearRow bs r = (r.user_lo < r.user_hi) × Clear bs r.user_lo r.user_hi

abbrev pub ClearPair : List (ℕ × ℕ) → ℕ × ℕ → Type 0
ClearPair bs p = (p.0 ≤ p.1) × Clear bs p.0 p.1

-- With `strict`, the open voice pairs are clear too.
pub record IsClear (strict : Bool) (s : Social) : Type 0 where
  pub rows : All (ClearRow s.blocks) s.friendships
  pub voices : strict ≡ true → All (ClearPair s.blocks) s.voice

-- The reads of the block table, and the deletion of the friendship by a block, did not fail.
abbrev pub IsReliable : Event → Type 0
IsReliable (requests f me target now) = f 1 ≡ false
IsReliable (responds f me other now action) = Unit {0}
IsReliable (blocks f me other block) = f 1 ≡ false
IsReliable (signals f uid to kind video w) = f 0 ≡ false
IsReliable (disconnects user) = Unit {0}
IsReliable (connects user) = Unit {0}
IsReliable (ticks now) = Unit {0}

pub not_blocked :
    (s : Social) (a b : ℕ)
    (p : (interaction_refusal (block_pair false s a b) friend_request ≡ none)
      ⊎ (interaction_refusal (block_pair false s a b) call ≡ none))
    → Clear s.blocks a b
unfolding interaction_refusal block_pair
not_blocked s a b p = ground arith

new_row-Clear :
    (bs : List (ℕ × ℕ)) (me other now : ℕ)
    → (other == me) ≡ false
    → Clear bs me other
    → ClearRow bs (new_row me other now)
unfolding pair
new_row-Clear bs me other now differ clear = ground arith

sweep-IsClear :
    (strict : Bool)
    → (fails : Bool) (now : ℕ) (s : Social) → IsClear strict s
    → IsClear strict (sweep_expired_requests fails now s)
unfolding sweep_expired_requests
sweep-IsClear strict true now s c = c
sweep-IsClear strict false now s c = record {
  rows = All-delete_where (is_expired now) s.friendships (λ r k _. k) c.rows;
  voices = c.voices;
}

updated-IsClear :
    (strict : Bool)
    → (p : Friendship → Bool) (now : ℕ) (s : Social) → IsClear strict s
    → All (ClearRow s.blocks) (update_where p (accept_row now) s.friendships)
updated-IsClear strict p now s c =
    All-update_where p (accept_row now) s.friendships (λ r k _. k) (λ r k _. k) c.rows

swept-new-row :
    (fails : Bool) (now : ℕ) (s : Social) (me other : ℕ)
    → (other == me) ≡ false
    → Clear s.blocks me other
    → ClearRow (sweep_expired_requests fails now s).blocks (new_row me other now)
unfolding sweep_expired_requests
swept-new-row true now s me other differ clear = new_row-Clear s.blocks me other now differ clear
swept-new-row false now s me other differ clear = new_row-Clear s.blocks me other now differ clear

pub request-IsClear :
    (strict : Bool)
    → (f : Faults) (me : Account) (target : Option ℕ) (now : ℕ) (s : Social) → f 1 ≡ false
    → IsClear strict s
    → IsClear strict (api_social_request f me target now s).state
request-IsClear strict f me none now s ok c = rw (request-missing f me now s) c
request-IsClear strict f me (some other) now s ok c =
    let swept = sweep-IsClear strict (f 4) now s c in
    request_cases (IsClear strict) f me other now s c swept λ policy free differ.
      let open_pair : Clear s.blocks me.id other =
        not_blocked s me.id other (inl (rw ok at free)) in
      meet_cases (IsClear strict) f me other now policy _ _ swept
        (record {
          rows = updated-IsClear strict (is_row me.id other) now _ swept;
          voices = swept.voices;
        })
        (record {
          rows = (swept-new-row (f 4) now s me.id other differ open_pair, swept.rows);
          voices = swept.voices;
        })

pub respond-IsClear :
    (strict : Bool)
    → (f : Faults) (me : Account) (other now : ℕ) (action : Action) (s : Social) → IsClear strict s
    → IsClear strict (api_social_respond f me other now action s).state
respond-IsClear strict f me other now action s c =
    respond_cases (IsClear strict) f me other now action s c
      (λ _. record {
        rows = updated-IsClear strict (is_asked me.id other) now s c;
        voices = c.voices;
      })
      (record {
        rows = All-delete_where (is_row me.id other) s.friendships (λ r k _. k) c.rows;
        voices = c.voices;
      })
      (λ _. record {
        rows = All-delete_where (is_asked me.id other) s.friendships (λ r k _. k) c.rows;
        voices = c.voices;
      })

-- A row or a voice pair of other accounts stays clear when a block is listed.
row-insert :
    (bs : List (ℕ × ℕ)) (me other : ℕ) (r : Friendship)
    → ClearRow bs r
    → is_row me other r ≡ false
    → ClearRow (insert_ignore me other bs) r
unfolding pair has_pair
row-insert bs me other r c away = ground arith

voice-insert :
    (bs : List (ℕ × ℕ)) (me other : ℕ) (p : ℕ × ℕ)
    → ClearPair bs p
    → is_pair (pair me other).0 (pair me other).1 p ≡ false
    → ClearPair (insert_ignore me other bs) p
unfolding pair has_pair
voice-insert bs me other p c away = ground arith

has_pair-delete :
    (a b : ℕ) (p : ℕ × ℕ → Bool) (bs : List (ℕ × ℕ))
    → has_pair a b bs ≡ false
    → has_pair a b (delete_where p bs) ≡ false
unfolding has_pair delete_where
has_pair-delete a b p [] h = refl
has_pair-delete a b p (x ∷ bs) h = ground (arith, has_pair-delete a b p bs)

pub block-IsClear :
    (strict : Bool)
    → (f : Faults) (me : Account) (other : ℕ) (block : Bool) (s : Social) → f 1 ≡ false
    → IsClear strict s
    → IsClear strict (api_social_block f me other block s).state
unfolding end_live_call
block-IsClear strict f me other block s ok c =
    block_cases (IsClear strict) f me other block s c
      (λ _. rw ok (record {
        rows = All-delete_where (is_row me.id other) s.friendships (λ r k _. k) c.rows;
        voices = c.voices;
      }))
      (λ _. rw ok (record {
        rows =
            All-delete_where (is_row me.id other) s.friendships (row-insert s.blocks me.id other)
              c.rows;
        voices = λ on.
            All-delete_where (is_pair (pair me.id other).0 (pair me.id other).1) s.voice
              (voice-insert s.blocks me.id other) (c.voices on);
      }))
      (record {
        rows =
            All-map s.friendships
              (λ r k. (
                k.0,
                (
                  has_pair-delete r.user_lo r.user_hi (is_pair me.id other) s.blocks k.1.0,
                  has_pair-delete r.user_hi r.user_lo (is_pair me.id other) s.blocks k.1.1,
                ),
              ))
              c.rows;
        voices = λ on.
            All-map s.voice
              (λ p k. (
                k.0,
                (
                  has_pair-delete p.0 p.1 (is_pair me.id other) s.blocks k.1.0,
                  has_pair-delete p.1 p.0 (is_pair me.id other) s.blocks k.1.1,
                ),
              ))
              (c.voices on);
      })
