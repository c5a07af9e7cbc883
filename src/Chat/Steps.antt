-- ===== src/Chat/Steps.antt =====
-- src/social_api.rs: histories of direct messages, with whatever happens to friendships, blocks and
-- policies in between. A log has its newest event at the head.
use arcade_launcher_server.Base.{ℕ, Bool, Option, none, List, [], ◌∷◌, Text, Faults}
use arcade_launcher_server.Social.State.{Social}
use arcade_launcher_server.Chat.{
  Chat, handle_ws_chat, record_missed_call, handle_ws_edit, handle_ws_delete, handle_ws_react,
  mark_conversation_read,
}
use arcade_launcher_server.Chat.Attachments.{api_social_attachment_presign, api_social_history}

pub data Event : Type 0 where
  chats : Faults → (uid to : ℕ) → Text → ℕ → Text → (attachment now : ℕ) → Event
  misses : Faults → (caller callee : ℕ) → Bool → ℕ → Event
  edits : Faults → (uid id : ℕ) → Text → ℕ → Event
  deletes : Faults → (uid id now : ℕ) → Event
  reacts : Faults → (uid id : ℕ) → Text → Bool → Event
  reads : Faults → (me peer now : ℕ) → Event
  pages : Faults → (me other since limit before now : ℕ) → Event
  presigns : Faults → Bool → ℕ → (folder name content_type : Text) → ℕ → Event
  relates : Social → (ℕ → Option Text) → Event

unfoldable pub step : (same_text : Text → Text → Bool) → Event → Chat → Chat
step same_text (chats f uid to text r n a now) s =
    (handle_ws_chat same_text f uid to text r n a now s).1
step same_text (misses f caller callee video now) s =
    (record_missed_call f caller callee video now s).1
step same_text (edits f uid id text now) s = (handle_ws_edit f uid id text now s).1
step same_text (deletes f uid id now) s = (handle_ws_delete f uid id now s).1
step same_text (reacts f uid id emoji on) s = (handle_ws_react same_text f uid id emoji on s).1
step same_text (reads f me peer now) s = (mark_conversation_read f me peer now s).1
step same_text (pages f me other since limit before now) s =
    (api_social_history f me other since limit before now s).1
step same_text (presigns f on me folder name ct size) s =
    (api_social_attachment_presign f on me folder name ct size s).1
step same_text (relates social policy) s = record s { social = social; dm_policy = policy }

unfoldable pub run : (same_text : Text → Text → Bool) → List Event → Social → Chat
unfolding step
run same_text [] social = record {
  social = social;
  dm_policy = λ u. none;
  messages = [];
  reactions = [];
  attachments = [];
  next_message = 1;
  next_attachment = 1;
}
run same_text (e ∷ es) social = step same_text e (run same_text es social)
