-- ===== src/Social/Log/Tests.antt =====
-- Histories of requests, answers, blocks and calls, and the theorems at concrete ones.
use arcade_launcher_server.Base.{
  ℕ, ◌≡◌, ◌≢◌, refl, true, false, some, List, [], ◌∷◌, Faults, All, codes, text_eq, select_first,
  delete_where, update_where, count_where,
}
use arcade_launcher_server.Calls.{incoming_for, start, lookup}
use arcade_launcher_server.Social.Blocks.{interaction_refusal, valid_block_target}
use arcade_launcher_server.Social.State.{
  pair, are_friends, has_pair, block_pair, has_ignored, shares_mutual_friend, friend_policy_of,
  sweep_expired_requests,
}
use arcade_launcher_server.Social.Voice.{
  Surroundings, handle_ws_audio, voice_allowed, voice_signal, signal_kind, allow_voice,
  replay_rings, from_le_bytes, to_le_bytes,
}
use arcade_launcher_server.Social.Friends.{
  Account, accept, api_social_request, api_social_respond, api_social_block, meet_request,
  open_request, respond, block_other, end_live_call,
}
use arcade_launcher_server.Social.Log.{
  Event, requests, responds, blocks, signals, connects, run, step, fresh, Acted, friends-Acted,
}
use arcade_launcher_server.Social.Log.Clear.{IsReliable}
use arcade_launcher_server.Social.Log.Clear.Runs.{ClearReplays, block-unfriends, block-silences}

abbrev no_faults : Faults
no_faults k = false

abbrev anna : Account
anna = record { id = 1; username = codes "anna" }

abbrev ben : Account
ben = record { id = 2; username = codes "ben" }

abbrev around : Surroundings
around = record { online = true; woken = false; online_later = true; now = 1200 }

abbrev friends_calling : List Event
friends_calling =
    signals no_faults 2 1 (codes "invite") false around
    ∷ signals no_faults 1 2 (codes "invite") false around
    ∷ responds no_faults ben 1 1100 accept
    ∷ requests no_faults anna (some 2) 1000
    ∷ []

friends : are_friends false (run friends_calling fresh) 1 2 ≡ true
unfolding are_friends run step api_social_request api_social_respond meet_request open_request
    respond interaction_refusal block_pair has_ignored has_pair friend_policy_of
    shares_mutual_friend sweep_expired_requests select_first delete_where update_where count_where
    text_eq pair voice_signal signal_kind allow_voice
friends = refl

friends-Acted_example : Acted 1 2 friends_calling × Acted 2 1 friends_calling
friends-Acted_example = friends-Acted friends_calling 1 2 friends

audio :
    handle_ws_audio 1 (2 ∷ 0 ∷ 0 ∷ 0 ∷ 0 ∷ 0 ∷ 0 ∷ 0 ∷ 77 ∷ []) (run friends_calling fresh)
    ≡ some (2, 1 ∷ 0 ∷ 0 ∷ 0 ∷ 0 ∷ 0 ∷ 0 ∷ 0 ∷ 77 ∷ [])
unfolding handle_ws_audio from_le_bytes to_le_bytes voice_allowed are_friends run step
    api_social_request api_social_respond meet_request open_request respond interaction_refusal
    block_pair has_ignored has_pair friend_policy_of shares_mutual_friend sweep_expired_requests
    select_first delete_where update_where count_where text_eq pair voice_signal signal_kind
    allow_voice
audio = refl

abbrev then_blocked : List Event
then_blocked = blocks no_faults ben 1 true ∷ connects 1 ∷ friends_calling

reliable : All IsReliable then_blocked
reliable = (refl, (tt, (refl, (refl, (tt, (refl, tt))))))

held : has_pair 2 1 (run then_blocked fresh).blocks ≡ true
unfolding incoming_for start lookup replay_rings run step api_social_block block_other end_live_call
    valid_block_target has_pair api_social_request api_social_respond meet_request open_request
    respond interaction_refusal block_pair has_ignored friend_policy_of shares_mutual_friend
    sweep_expired_requests select_first delete_where update_where count_where text_eq pair
    voice_signal signal_kind allow_voice are_friends
held = refl

block-unfriends_example :
    (are_friends false (run then_blocked fresh) 2 1 ≡ false)
    × (are_friends false (run then_blocked fresh) 1 2 ≡ false)
block-unfriends_example = block-unfriends then_blocked 2 1 reliable held

abbrev frame : List ℕ
frame = 1 ∷ 0 ∷ 0 ∷ 0 ∷ 0 ∷ 0 ∷ 0 ∷ 0 ∷ 77 ∷ []

replays : ClearReplays then_blocked
unfolding incoming_for start lookup replay_rings run step api_social_block block_other end_live_call
    valid_block_target has_pair api_social_request api_social_respond meet_request open_request
    respond interaction_refusal block_pair has_ignored friend_policy_of shares_mutual_friend
    sweep_expired_requests select_first delete_where update_where count_where text_eq pair
    voice_signal signal_kind allow_voice are_friends
replays = (((refl, refl), tt), tt)

block-silences_example :
    ((t : ℕ × List ℕ) → handle_ws_audio 2 frame (run then_blocked fresh) ≡ some t → t.0 ≢ 1)
    × ((t : ℕ × List ℕ) → handle_ws_audio 1 frame (run then_blocked fresh) ≡ some t → t.0 ≢ 2)
block-silences_example = block-silences then_blocked 2 1 frame reliable replays held
