-- ===== src/Social/Log/Clear/Runs.antt =====
-- src/social_api.rs: blocks over whole histories.
use arcade_launcher_server.Base.{
  ℕ, ◌≡◌, ◌≢◌, refl, Bool, inl, inr, true, false, some, List, [], ◌∷◌, All, All-select_first,
  select_first, leb, Option-cases, Bool-cases, arith,
}
use arcade_launcher_server.Calls.{incoming_for}
use arcade_launcher_server.Social.State.{Social, pair, is_row, are_friends, has_pair}
use arcade_launcher_server.Social.Voice.{voice_allowed}
use arcade_launcher_server.Social.Log.{
  Event, requests, responds, blocks, signals, disconnects, connects, ticks, step, run, fresh,
}
use arcade_launcher_server.Social.Log.Clear.{Clear, ClearRow, ClearPair, IsClear, IsReliable}
use arcade_launcher_server.Social.Log.Clear.Calling.{
  voice_signal-IsClear, sweep_rings-IsClear, drop_rings-IsClear, replay_rings-IsClear,
}
use arcade_launcher_server.Social.Log.Clear.{request-IsClear, respond-IsClear, block-IsClear}
use arcade_launcher_server.Social.Voice.{handle_ws_audio}

-- The socket starts of a history replayed no call between accounts of which one blocks the other.
-- A ring can outlive a block when both accounts rang each other.
abbrev pub ClearReplays : List Event → Type 0
ClearReplays [] = Unit {0}
ClearReplays (connects user ∷ es) =
    All (λ e. Clear (run es fresh).blocks e.0 user) (incoming_for user (run es fresh).rings)
    × ClearReplays es
ClearReplays (_ ∷ es) = ClearReplays es

run-IsClear :
    (strict : Bool) (es : List Event)
    → All IsReliable es
    → (strict ≡ true → ClearReplays es)
    → IsClear strict (run es fresh)
unfolding run step
run-IsClear strict [] ok re = record { rows = tt; voices = λ on. tt }
run-IsClear strict (requests f me target now ∷ es) (ok, oks) re =
    request-IsClear strict f me target now (run es fresh) ok (run-IsClear strict es oks re)
run-IsClear strict (responds f me other now action ∷ es) (ok, oks) re =
    respond-IsClear strict f me other now action (run es fresh) (run-IsClear strict es oks re)
run-IsClear strict (blocks f me other block ∷ es) (ok, oks) re =
    block-IsClear strict f me other block (run es fresh) ok (run-IsClear strict es oks re)
run-IsClear strict (signals f uid to kind video w ∷ es) (ok, oks) re =
    voice_signal-IsClear strict f uid to kind video w (run es fresh) ok
      (run-IsClear strict es oks re)
run-IsClear strict (disconnects user ∷ es) (ok, oks) re =
    drop_rings-IsClear strict user (run es fresh) (run-IsClear strict es oks re)
run-IsClear strict (connects user ∷ es) (ok, oks) re =
    replay_rings-IsClear strict user (incoming_for user (run es fresh).rings) (run es fresh)
      (λ on. (re on).0) (run-IsClear strict es oks (λ on. (re on).1))
run-IsClear strict (ticks now ∷ es) (ok, oks) re =
    sweep_rings-IsClear strict now (run es fresh) (run-IsClear strict es oks re)

found_pair :
    (a b : ℕ) (ps bs : List (ℕ × ℕ)) → All (ClearPair bs) ps → has_pair a b ps ≡ true → Clear bs a b
unfolding has_pair
found_pair a b [] bs k h = absurd cc
found_pair a b (p ∷ ps) bs (k, ks) h = ground (arith, found_pair a b ps bs ks)

voice-Clear :
    (s : Social) (a b : ℕ) → IsClear true s → voice_allowed a b s ≡ true → Clear s.blocks a b
unfolding voice_allowed pair
voice-Clear s a b c h = elim (Bool-cases (leb a b)) [
  | inl le ↦ found_pair a b s.voice s.blocks (c.voices refl) (ground arith)
  | inr gt ↦ let (x, y) = found_pair b a s.voice s.blocks (c.voices refl) (ground arith) in (y, x)
]

friends-Clear :
    (s : Social) (a b : ℕ) → IsClear false s → are_friends false s a b ≡ true → Clear s.blocks a b
unfolding are_friends pair
friends-Clear s a b c h = elim (Option-cases (select_first (is_row a b) s.friendships)) [
  | inl missing ↦ absurd (ground arith)
  | inr (r, e) ↦
      let (k, row) = All-select_first (ClearRow s.blocks) (is_row a b) _ r c.rows e in ground arith
]

-- After any history in which the reads of the block table and the deletions of a friendship by a
-- block did not fail: while one account blocks the other, in either direction, the two are not
-- friends.
pub block-unfriends :
    (es : List Event) (a b : ℕ)
    → All IsReliable es
    → has_pair a b (run es fresh).blocks ≡ true
    → (are_friends false (run es fresh) a b ≡ false)
      × (are_friends false (run es fresh) b a ≡ false)
block-unfriends es a b ok held =
    let c = run-IsClear false es ok (λ on. absurd (cc)) in
    let there = friends-Clear (run es fresh) a b c in
    let back = friends-Clear (run es fresh) b a c in ground arith

-- After any history in which the reads of the block table and the deletions of a friendship by a
-- block did not fail, and in which no socket, when it opened, was given a call that was still ringing
-- between two accounts of which one blocked the other: while one account blocks the other, the hub
-- relays no audio frame from either of them to the other.
pub block-silences :
    (es : List Event) (a b : ℕ) (bytes : List ℕ)
    → All IsReliable es
    → ClearReplays es
    → has_pair a b (run es fresh).blocks ≡ true
    → ((t : ℕ × List ℕ) → handle_ws_audio a bytes (run es fresh) ≡ some t → t.0 ≢ b)
      × ((t : ℕ × List ℕ) → handle_ws_audio b bytes (run es fresh) ≡ some t → t.0 ≢ a)
unfolding handle_ws_audio
block-silences es a b bytes ok replays held =
    let c = run-IsClear true es ok (λ on. replays) in
    let there = voice-Clear (run es fresh) a b c in
    let back = voice-Clear (run es fresh) b a c in
    (λ t sent same. ground arith, λ t sent same. ground arith)
