-- ===== src/Chat.antt =====
-- src/social_api.rs: direct messages, over the friendships and blocks of Social. `f` numbers the
-- database calls of a handler that fail; where the code goes on with a fallback, so does the model.
-- Frames are what the hub pushes, with the account that they go to. The
-- database compares nonces and emoji by the collation of its tables, which is `same_text` here.
pub mod Attachments
pub mod Steps
pub mod Screenshots
pub mod Once
pub mod Blocked
pub mod Authors
pub mod Owners
pub mod Access
mod Tests
use arcade_launcher_server.Base.{
  ℕ, ◌+◌, suc, Bool, true, false, not, ◌&&◌, ◌||◌, Option, none, some, List, [], ◌∷◌, any, keep,
  take, Text, codes, text_eq, Faults, ◌==◌, ltb, leb, max, if◌then◌else◌, select_first,
  update_where, delete_where, is_empty, is_some,
}
use arcade_launcher_server.Social.Blocks.{Interaction, direct_message, interaction_refusal}
use arcade_launcher_server.Social.State.{Social, block_pair, has_ignored, are_friends}

-- A row of `social_messages`.
pub record Message : Type 0 where
  pub id : ℕ
  pub sender_id : ℕ
  pub receiver_id : ℕ
  pub body : Text
  pub created_at : ℕ
  pub read_at : Option ℕ
  pub edited_at : Option ℕ
  pub deleted_at : Option ℕ
  pub reply_to : Option ℕ
  pub client_nonce : Option Text
  pub kind : Text

-- A row of `social_message_reactions`, by its key.
pub record Reaction : Type 0 where
  pub message_id : ℕ
  pub user_id : ℕ
  pub emoji : Text

-- A row of `social_attachments`.
pub record Attachment : Type 0 where
  pub id : ℕ
  pub owner_id : ℕ
  pub message_id : Option ℕ
  pub object_key : Text
  pub filename : Text
  pub content_type : Option Text
  pub size : ℕ

-- `dm_policy` is the column of `social_friend_settings`, where an account has a row.
pub record Chat : Type 0 where
  pub social : Social
  pub dm_policy : ℕ → Option Text
  pub messages : List Message
  pub reactions : List Reaction
  pub attachments : List Attachment
  pub next_message : ℕ
  pub next_attachment : ℕ

pub data Frame : Type 0 where
  chat :
      (id sender receiver : ℕ)
      → Text
      → ℕ
      → (reply_to : Option ℕ) → (nonce : Option Text) → (attachment : ℕ) → Frame
  missed_call : (id sender receiver : ℕ) → Text → ℕ → Frame
  chat_edit : ℕ → Text → ℕ → Frame
  chat_delete : ℕ → Frame
  reaction : (id user : ℕ) → Text → Bool → Frame
  read_receipt : (reader up_to : ℕ) → Frame
  chat_backfill : List Message → Frame

-- The frames go out in this order.
abbrev pub Sent : Type 0
Sent = List (ℕ × Frame) × Chat

abbrev or_everyone : Option Text → Text
or_everyone none = codes "everyone"
or_everyone (some p) = p

unfoldable pub dm_policy_of : Bool → Chat → ℕ → Text
dm_policy_of fails s user = if fails then codes "everyone" else or_everyone (s.dm_policy user)

-- What stops a message before it is stored.
unfoldable pub is_dropped : Faults → ℕ → ℕ → Chat → Bool
unfolding dm_policy_of
is_dropped f uid to s =
    let policy = dm_policy_of (f 1) s to in
    is_some (interaction_refusal (block_pair (f 0) s.social uid to) direct_message)
    || text_eq policy (codes "nobody")
    || (text_eq policy (codes "friends") && not (are_friends (f 2) s.social uid to))
    || has_ignored (f 3) s.social to uid

-- UPDATE social_attachments SET message_id=:m WHERE id=:a AND owner_id=:o AND message_id IS NULL
abbrev pub linkable : ℕ → ℕ → Attachment → Bool
linkable owner attachment_id a =
    a.id == attachment_id && a.owner_id == owner && not (is_some a.message_id)

unfoldable pub link_attachment : Bool → ℕ → ℕ → ℕ → Chat → Bool × Chat
link_attachment fails owner attachment_id message_id s =
    if attachment_id == 0 || message_id == 0 || fails then (false, s) else (
      any (linkable owner attachment_id) s.attachments,
      record s {
        attachments =
            update_where (linkable owner attachment_id)
              (λ a. record a { message_id = some message_id }) s.attachments;
      },
    )

-- A message on its way, once it has passed the checks.
pub record Draft : Type 0 where
  pub sender : ℕ
  pub receiver : ℕ
  pub text : Text
  pub reply : Option ℕ
  pub nonce : Option Text
  pub attachment : ℕ

-- The row that was stored, or found: its identifier, its time and what it replies to.
abbrev Stored : Type 0
Stored = ℕ × ℕ × Option ℕ

abbrev pub new_message : ℕ → Draft → ℕ → Message
new_message id d ts = record {
  id = id;
  sender_id = d.sender;
  receiver_id = d.receiver;
  body = d.text;
  created_at = ts;
  read_at = none;
  edited_at = none;
  deleted_at = none;
  reply_to = d.reply;
  client_nonce = d.nonce;
  kind = codes "text";
}

unfoldable pub insert_message : Bool → Draft → ℕ → Chat → Option Stored × Chat
insert_message fails d ts s = if fails then (none, s) else (
  some (s.next_message, ts, d.reply),
  record s {
    messages = new_message s.next_message d ts ∷ s.messages;
    next_message = suc s.next_message;
  },
)

abbrev has_nonce : (same_text : Text → Text → Bool) → ℕ → Text → Message → Bool
has_nonce same_text uid n m =
    m.sender_id == uid && elim m.client_nonce [ none ↦ false | some k ↦ same_text k n ]

abbrev found_or : Option Message → Option Stored × Chat → Chat → Option Stored × Chat
found_or none inserted s = inserted
found_or (some m) inserted s = (some (m.id, m.created_at, m.reply_to), s)

-- A failing search for the nonce reads as none found.
unfoldable pub store_with :
    (same_text : Text → Text → Bool)
    → Faults
    → Option Text
    → Draft
    → ℕ
    → Chat
    → Option Stored × Chat
unfolding insert_message
store_with same_text f none d ts s = insert_message (f 6) d ts s
store_with same_text f (some n) d ts s =
    if f 5
    then insert_message (f 6) d ts s
    else found_or (select_first (has_nonce same_text d.sender n) s.messages)
        (insert_message (f 6) d ts s) s

abbrev pub store_message :
    (same_text : Text → Text → Bool) → Faults → Draft → ℕ → Chat → Option Stored × Chat
store_message same_text f d ts s = store_with same_text f d.nonce d ts s

-- From the stored row on: the attachment and the two frames.
abbrev pub deliver : Faults → Draft → Option Stored × Chat → Sent
deliver f d (none, s) = ([], s)
deliver f d (some (id, ts, reply), s) =
    let (linked, s1) = link_attachment (f 7) d.sender d.attachment id s in
    let frame =
      chat id d.sender d.receiver d.text ts reply d.nonce (if linked then d.attachment else 0) in
    ((d.receiver, frame) ∷ (d.sender, frame) ∷ [], s1)

abbrev pub draft : ℕ → ℕ → Text → ℕ → Text → ℕ → Draft
draft uid to text reply_to client_nonce attachment_id = record {
  sender = uid;
  receiver = to;
  text = take 4000 text;
  reply = if ltb 0 reply_to then some reply_to else none;
  nonce = if is_empty client_nonce then none else some (take 40 client_nonce);
  attachment = attachment_id;
}

unfoldable pub handle_ws_chat :
    (same_text : Text → Text → Bool)
    → Faults
    → (uid to : ℕ) → Text
    → (reply_to : ℕ) → Text
    → (attachment_id now : ℕ) → Chat
    → Sent
unfolding is_dropped store_with
handle_ws_chat same_text f uid to text reply_to client_nonce attachment_id now s =
    if to == 0 || (is_empty text && attachment_id == 0)
    then ([], s)
    else if is_dropped f uid to s || f 4
    then ([], s)
    else let d = draft uid to text reply_to client_nonce attachment_id in
      deliver f d (store_message same_text f d now s)

abbrev pub missed_body : Bool → Text
missed_body video = if video then codes "Missed video call" else codes "Missed call"

unfoldable pub record_missed_call : Faults → ℕ → ℕ → Bool → ℕ → Chat → Sent
record_missed_call f caller callee video now s =
    if f 0 || f 1
    then ([], s)
    else let frame = missed_call s.next_message caller callee (missed_body video) now in
      (
        (callee, frame) ∷ (caller, frame) ∷ [],
        record s {
          messages =
              record {
                id = s.next_message;
                sender_id = caller;
                receiver_id = callee;
                body = missed_body video;
                created_at = now;
                read_at = none;
                edited_at = none;
                deleted_at = none;
                reply_to = none;
                client_nonce = none;
                kind = codes "call_missed";
              }
              ∷ s.messages;
          next_message = suc s.next_message;
        },
      )

-- A message that its sender may still change.
abbrev pub own_live : ℕ → ℕ → Message → Bool
own_live uid msg_id m = m.id == msg_id && m.sender_id == uid && not (is_some m.deleted_at)

abbrev pub both : Message → Frame → List (ℕ × Frame)
both m frame = (m.receiver_id, frame) ∷ (m.sender_id, frame) ∷ []

abbrev pub change_message : Bool → ℕ → (Message → Message) → Chat → Chat
change_message fails msg_id g s =
    if fails then s else record s { messages = update_where (λ m. m.id == msg_id) g s.messages }

unfoldable pub handle_ws_edit : Faults → ℕ → ℕ → Text → ℕ → Chat → Sent
handle_ws_edit f uid msg_id text now s =
    if msg_id == 0 || is_empty text || f 0 || f 1
    then ([], s)
    else elim (select_first (own_live uid msg_id) s.messages) [
      | none ↦ ([], s)
      | some m ↦ (
        both m (chat_edit msg_id (take 4000 text) now),
        change_message (f 2) msg_id (λ q. record q { body = take 4000 text; edited_at = some now })
            s,
      )
    ]

unfoldable pub handle_ws_delete : Faults → ℕ → ℕ → ℕ → Chat → Sent
handle_ws_delete f uid msg_id now s =
    if msg_id == 0 || f 0 || f 1
    then ([], s)
    else elim (select_first (own_live uid msg_id) s.messages) [
      | none ↦ ([], s)
      | some m ↦ (
        both m (chat_delete msg_id),
        change_message (f 2) msg_id (λ q. record q { body = []; deleted_at = some now }) s,
      )
    ]

abbrev is_reaction : (same_text : Text → Text → Bool) → ℕ → ℕ → Text → Reaction → Bool
is_reaction same_text msg_id uid emoji r =
    r.message_id == msg_id && r.user_id == uid && same_text r.emoji emoji

unfoldable pub set_reaction :
    (same_text : Text → Text → Bool) → ℕ → ℕ → Text → Bool → List Reaction → List Reaction
set_reaction same_text msg_id uid emoji true rs =
    if any (is_reaction same_text msg_id uid emoji) rs
    then rs
    else record { message_id = msg_id; user_id = uid; emoji = emoji } ∷ rs
set_reaction same_text msg_id uid emoji false rs =
    delete_where (is_reaction same_text msg_id uid emoji) rs

unfoldable pub handle_ws_react :
    (same_text : Text → Text → Bool) → Faults → ℕ → ℕ → Text → Bool → Chat → Sent
unfolding set_reaction
handle_ws_react same_text f uid msg_id emoji on s =
    if msg_id == 0 || is_empty emoji || f 0 || f 1
    then ([], s)
    else elim (select_first (λ m. m.id == msg_id) s.messages) [
      | none ↦ ([], s)
      | some m ↦
          let frame = reaction msg_id uid (take 32 emoji) on in
          if not (uid == m.sender_id) && not (uid == m.receiver_id) then ([], s) else (
            (m.sender_id, frame) ∷ (m.receiver_id, frame) ∷ [],
            if f 2 then s else record s {
              reactions = set_reaction same_text msg_id uid (take 32 emoji) on s.reactions;
            },
          )
    ]

abbrev pub inbound : ℕ → ℕ → Message → Bool
inbound me peer m = m.receiver_id == me && m.sender_id == peer

-- MAX(id), 0 where there is none.
abbrev max_id : List Message → ℕ
max_id [] = 0
max_id (m ∷ ms) = max m.id (max_id ms)

abbrev pub mark_read : Bool → ℕ → ℕ → ℕ → Chat → Chat
mark_read fails me peer now s = if fails then s else record s {
  messages =
      update_where (λ m. inbound me peer m && not (is_some m.read_at))
        (λ m. record m { read_at = some now }) s.messages;
}

unfoldable pub mark_conversation_read : Faults → ℕ → ℕ → ℕ → Chat → Sent
mark_conversation_read f me peer now s = if peer == 0 || f 0 then ([], s) else (
  (peer, read_receipt me (if f 1 then 0 else max_id (keep (inbound me peer) s.messages))) ∷ [],
  mark_read (f 2) me peer now s,
)
