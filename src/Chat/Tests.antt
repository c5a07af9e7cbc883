-- ===== src/Chat/Tests.antt =====
-- Small histories of direct messages, and the theorems at concrete ones.
use arcade_launcher_server.Base.{
  ◌≡◌, ◌⊎◌, refl, inl, inr, false, true, none, some, List, [], ◌∷◌, Faults, codes, is_empty,
  select_first, update_where, take, text_eq, is_ascii_alphanumeric,
}
use arcade_launcher_server.Social.Blocks.{interaction_refusal, valid_block_target}
use arcade_launcher_server.Social.State.{block_pair, are_friends, has_ignored, has_pair}
use arcade_launcher_server.Social.Friends.{
  Account, blocked, api_social_block, block_other, end_live_call,
}
use arcade_launcher_server.Social.Log.{fresh}
use arcade_launcher_server.Chat.{
  Attachment, Chat, dm_policy_of, is_dropped, link_attachment, insert_message, store_with,
  handle_ws_chat,
}
use arcade_launcher_server.Chat.Attachments.{
  basename, drop_dots, sanitize_filename, api_social_attachment_presign, download, may_download,
  api_social_attachment_get,
}
use arcade_launcher_server.Chat.Steps.{Event, chats, edits, presigns, run, step}
use arcade_launcher_server.Chat.Authors.{Grown}
use arcade_launcher_server.Chat.Authors.Kept.{step-Grown}
use arcade_launcher_server.Chat.Access.{SentTo}
use arcade_launcher_server.Chat.Steps
use arcade_launcher_server.Chat.Screenshots
use arcade_launcher_server.Chat.Screenshots.{
  Screenshot, shares, messages, owner_of, joined, api_social_screenshot_create,
  api_social_screenshots_get,
}
use arcade_launcher_server.Chat.Screenshots.Registered.{Shared}
use arcade_launcher_server.Chat.Screenshots.Shown.{fetch-Sanctioned}
use arcade_launcher_server.Chat.Once.{sent_once}
use arcade_launcher_server.Chat.Blocked.{block_stops_messages}

abbrev no_faults : Faults
no_faults k = false

abbrev anna : Account
anna = record { id = 1; username = codes "anna" }

-- Account 1 uploads a picture and sends it to account 2.
abbrev picture_sent : List Event
picture_sent =
    chats no_faults 1 2 (codes "look") 0 (codes "n1") 1 1010
    ∷ presigns no_faults true 1 (codes "dm/") (codes "../cat.png") [] 900
    ∷ []

abbrev picture : Attachment
picture = record {
  id = 1;
  owner_id = 1;
  message_id = some 1;
  object_key = codes "dm/cat.png";
  filename = codes "cat.png";
  content_type = none;
  size = 900;
}

shown :
    api_social_attachment_get no_faults true 2 1 (run text_eq picture_sent fresh) ≡ download picture
unfolding api_social_attachment_get may_download run step handle_ws_chat is_dropped dm_policy_of
    link_attachment insert_message store_with api_social_attachment_presign sanitize_filename
    basename drop_dots select_first update_where text_eq interaction_refusal block_pair has_ignored
    has_pair are_friends is_ascii_alphanumeric
shown = refl

-- Account 1 shows the picture as a screenshot too, and account 3 fetches it there.
abbrev picture_shared : List Screenshots.Event
picture_shared =
    shares no_faults 1 (codes "zelda") 1 none 1020
    ∷ messages (chats no_faults 1 2 (codes "look") 0 (codes "n1") 1 1010)
    ∷ messages (presigns no_faults true 1 (codes "dm/") (codes "../cat.png") [] 900)
    ∷ []

abbrev screenshot : Screenshot
screenshot = record {
  id = 1;
  user_id = 1;
  game_id = codes "zelda";
  attachment_id = 1;
  caption = none;
  created_at = 1020;
}

listed :
    api_social_screenshots_get text_eq no_faults true
      (codes "zelda")
      (Screenshots.run text_eq picture_shared fresh)
    ≡ some ((screenshot, picture) ∷ [])
unfolding Screenshots.run Screenshots.step Steps.run api_social_screenshots_get
    api_social_screenshot_create owner_of joined Steps.step handle_ws_chat is_dropped dm_policy_of
    link_attachment insert_message store_with api_social_attachment_presign sanitize_filename
    basename drop_dots select_first update_where text_eq interaction_refusal block_pair has_ignored
    has_pair are_friends is_ascii_alphanumeric
listed = refl

fetch-Sanctioned_example :
    (picture.owner_id ≡ 3)
    ⊎ (SentTo 3 picture (Screenshots.run text_eq picture_shared fresh).chat.messages
        ⊎ Shared picture.owner_id picture.id picture_shared)
fetch-Sanctioned_example =
    fetch-Sanctioned text_eq picture_shared fresh 3 picture
      (inr (no_faults, true, codes "zelda", (screenshot, picture) ∷ [], listed, inl refl))

step-Grown_example :
    Grown
      (edits no_faults 1 1 (codes "look!") 1020)
      (run text_eq picture_sent fresh).messages
      (step text_eq
        (edits no_faults 1 1 (codes "look!") 1020)
        (run text_eq picture_sent fresh)).messages
step-Grown_example =
    step-Grown text_eq picture_sent fresh (edits no_faults 1 1 (codes "look!") 1020)

went_out :
    is_empty
      (handle_ws_chat text_eq no_faults 1 2
        (codes "hi")
        0
        (codes "n2")
        0
        1030
        (run text_eq picture_sent fresh)).0
    ≡ false
unfolding run step handle_ws_chat is_dropped dm_policy_of link_attachment insert_message store_with
    api_social_attachment_presign sanitize_filename basename drop_dots select_first update_where
    text_eq interaction_refusal block_pair has_ignored has_pair are_friends is_ascii_alphanumeric
went_out = refl

same_nonce : text_eq (take 40 (codes "n2")) (take 40 (codes "n2")) ≡ true
unfolding text_eq
same_nonce = refl

sent_once_example :
    (handle_ws_chat text_eq no_faults 1 2
      (codes "hi")
      0
      (codes "n2")
      0
      1031
      (handle_ws_chat text_eq no_faults 1 2
        (codes "hi")
        0
        (codes "n2")
        0
        1030
        (run text_eq picture_sent fresh)).1).1.messages
    ≡ (handle_ws_chat text_eq no_faults 1 2
        (codes "hi")
        0
        (codes "n2")
        0
        1030
        (run text_eq picture_sent fresh)).1.messages
sent_once_example =
    sent_once text_eq no_faults no_faults 1 2 2 (codes "hi") (codes "hi") 0 0 (codes "n2") 0 0 1030
      1031 (run text_eq picture_sent fresh) refl same_nonce refl went_out

told :
    (api_social_block no_faults anna 2 true (run text_eq picture_sent fresh).social).reply ≡ blocked
unfolding api_social_block block_other end_live_call valid_block_target
told = refl

abbrev after_block : Chat
after_block = record (run text_eq picture_sent fresh) {
  social = (api_social_block no_faults anna 2 true (run text_eq picture_sent fresh).social).state;
}

block_stops_messages_example :
    (handle_ws_chat text_eq no_faults 1 2 (codes "hi") 0 (codes "n3") 0 1040 after_block
      ≡ ([], after_block))
    × (handle_ws_chat text_eq no_faults 2 1 (codes "hi") 0 (codes "n3") 0 1040 after_block
        ≡ ([], after_block))
block_stops_messages_example =
    block_stops_messages text_eq no_faults no_faults anna 2 true (run text_eq picture_sent fresh)
      (codes "hi") 0 (codes "n3") 0 1040 told refl refl
