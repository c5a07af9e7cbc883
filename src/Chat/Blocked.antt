-- ===== src/Chat/Blocked.antt =====
-- src/social_api.rs: a block and the messages after it.
use arcade_launcher_server.Base.{
  ℕ, ◌≡◌, refl, inl, inr, Bool, true, false, ◌&&◌, ◌||◌, [], Text, Faults, ◌==◌, is_empty,
  Bool-cases, arith,
}
use arcade_launcher_server.Social.Blocks.{interaction_refusal}
use arcade_launcher_server.Social.State.{has_pair, block_pair}
use arcade_launcher_server.Social.Friends.{Account, blocked, api_social_block}
use arcade_launcher_server.Social.Friends.Blocking.{block-Severed}
use arcade_launcher_server.Chat.{Chat, is_dropped, handle_ws_chat}

dropped-empty :
    (same_text : Text → Text → Bool)
    → (g : Faults) (uid to : ℕ) (text : Text) (r : ℕ) (n : Text) (a now : ℕ) (s : Chat)
    → is_dropped g uid to s ≡ true
    → handle_ws_chat same_text g uid to text r n a now s ≡ ([], s)
unfolding handle_ws_chat
dropped-empty same_text g uid to text r n a now s e =
    elim (Bool-cases (to == 0 || (is_empty text && a == 0))) [
      | inl blank ↦ rw (handle_ws_chat, blank) refl
      | inr filled ↦ rw (handle_ws_chat, filled, e) refl
    ]

-- A block in either direction stops a message.
blocked-dropped :
    (g : Faults) (uid to : ℕ) (s : Chat)
    → g 0 ≡ false
    → (has_pair uid to s.social.blocks || has_pair to uid s.social.blocks) ≡ true
    → is_dropped g uid to s ≡ true
unfolding is_dropped block_pair interaction_refusal
blocked-dropped g uid to s works listed = ground arith

-- After a block that answers "blocked", and whose deletion of the friendship did not fail, no direct
-- message passes between the two accounts, in either direction: nothing is stored and nobody gets a
-- frame. The look-up of the block must not fail, since the code lets a message pass then.
pub block_stops_messages :
    (same_text : Text → Text → Bool)
    → (f g : Faults) (me : Account) (other : ℕ) (block : Bool) (s : Chat) (text : Text) (r : ℕ)
      (n : Text) (a now : ℕ)
    → (api_social_block f me other block s.social).reply ≡ blocked
    → f 1 ≡ false
    → g 0 ≡ false
    → (handle_ws_chat same_text g me.id other text r n a now
          (record s { social = (api_social_block f me other block s.social).state })
        ≡ ([], record s { social = (api_social_block f me other block s.social).state }))
      × (handle_ws_chat same_text g other me.id text r n a now
            (record s { social = (api_social_block f me other block s.social).state })
          ≡ ([], record s { social = (api_social_block f me other block s.social).state }))
block_stops_messages same_text f g me other block s text r n a now done ok works =
    let severed = block-Severed f me other block s.social done ok in
    let after : Chat = record s { social = (api_social_block f me other block s.social).state } in
    let listed = severed.listed_block in
    (
      dropped-empty same_text g me.id other text r n a now after
          (blocked-dropped g me.id other after works (ground arith)),
      dropped-empty same_text g other me.id text r n a now after
          (blocked-dropped g other me.id after works (ground arith)),
    )
