-- ===== src/Chat/Attachments.antt =====
-- src/social_api.rs: the files of direct messages, and the pages of a conversation. Messages stand
-- in the table by their identifiers, the newest first.
use arcade_launcher_server.Base.{
  ℕ, ◌*◌, suc, Bool, false, not, ◌&&◌, ◌||◌, Option, none, some, List, [], ◌∷◌, ◌++◌, map, reverse,
  any, keep, take, Text, Faults, is_ascii_alphanumeric, ◌==◌, ltb, min, max, if◌then◌else◌,
  select_first, is_empty,
}
use arcade_launcher_server.Chat.{Message, Attachment, Chat, Sent, chat_backfill, mark_read}

-- The bound of an attachment's size in bytes, 25 MiB. A size below 1 is refused too.
abbrev pub attachment_max_bytes : ℕ
attachment_max_bytes = 25 * 1024 * 1024

abbrev is_separator : ℕ → Bool
is_separator c = c == b'/' || c == b'\\'

-- `name.rsplit(['/', '\\']).next()`: what follows the last separator.
unfoldable pub basename : Text → Text
basename [] = []
basename (c ∷ s) = if any is_separator (c ∷ s) then basename s else c ∷ s

abbrev pub safe_character : ℕ → ℕ
safe_character c =
    if is_ascii_alphanumeric c || c == b'.' || c == b'-' || c == b'_' then c else b'_'

unfoldable pub drop_dots : Text → Text
drop_dots [] = []
drop_dots (c ∷ s) = if c == b'.' then drop_dots s else c ∷ s

unfoldable pub sanitize_filename : Text → Text
unfolding basename drop_dots
sanitize_filename name =
    reverse (drop_dots (reverse (drop_dots (map safe_character (take 120 (basename name))))))

pub data PresignReply : Type 0 where
  not_configured bad_size bad_filename presign_failed : PresignReply
  presigned : (id : ℕ) → (object_key : Text) → PresignReply

-- `folder` is the caller's part of the key, of the account, the time and a random number. The
-- content type is kept as far as 128 characters.
unfoldable pub api_social_attachment_presign :
    Faults
    → Bool
    → ℕ
    → (folder filename content_type : Text) → (size : ℕ) → Chat
    → PresignReply × Chat
unfolding sanitize_filename
api_social_attachment_presign f configured me folder filename content_type size s =
    let safe = sanitize_filename filename in
    if not configured
    then (not_configured, s)
    else if size == 0 || ltb attachment_max_bytes size
    then (bad_size, s)
    else if is_empty safe
    then (bad_filename, s)
    else if f 0 || f 1
    then (presign_failed, s)
    else (
      presigned s.next_attachment (folder ++ safe),
      record s {
        attachments =
            record {
              id = s.next_attachment;
              owner_id = me;
              message_id = none;
              object_key = folder ++ safe;
              filename = safe;
              content_type = if is_empty content_type then none else some (take 128 content_type);
              size = size;
            }
            ∷ s.attachments;
        next_attachment = suc s.next_attachment;
      },
    )

pub data DownloadReply : Type 0 where
  downloads_off download_failed no_such_attachment not_yours : DownloadReply
  download : Attachment → DownloadReply

abbrev pub is_party : ℕ → Message → Bool
is_party me m = m.sender_id == me || m.receiver_id == me

abbrev party_of : ℕ → Option Message → Bool
party_of me none = false
party_of me (some m) = is_party me m

-- A failing query for the message reads as no message.
unfoldable pub may_download : Bool → ℕ → Attachment → Chat → Bool
may_download fails me a s = a.owner_id == me || elim a.message_id [
  | none ↦ false
  | some mid ↦ not fails && party_of me (select_first (λ m. m.id == mid) s.messages)
]

unfoldable pub api_social_attachment_get : Faults → Bool → ℕ → ℕ → Chat → DownloadReply
unfolding may_download
api_social_attachment_get f configured me id s =
    if not configured
    then downloads_off
    else if f 0
    then download_failed
    else if f 1
    then no_such_attachment
    else elim (select_first (λ a. a.id == id) s.attachments) [
      | none ↦ no_such_attachment
      | some a ↦ if may_download (f 2) me a s then download a else not_yours
    ]

abbrev pub between : ℕ → ℕ → Message → Bool
between me other m =
    (m.sender_id == me && m.receiver_id == other) || (m.sender_id == other && m.receiver_id == me)

abbrev in_window : ℕ → ℕ → Message → Bool
in_window since before m = if ltb 0 before then ltb m.id before else ltb since m.id

-- A page of a conversation, the oldest message first, with the read marks from before the call.
unfoldable pub api_social_history :
    Faults → (me other since limit before now : ℕ) → Chat → Option (List Message) × Chat
api_social_history f me other since limit before now s = if f 0 || f 1 then (none, s) else (
  some (
      reverse (
        take (min 500 (max 1 limit))
          (keep (λ m. between me other m && in_window since before m) s.messages))),
  mark_read (f 2) me other now s,
)

-- The messages that a client has missed, the oldest first, and 500 at most.
unfoldable pub backfill_messages : Faults → ℕ → ℕ → Chat → Sent
backfill_messages f uid after_id s = if f 0 || f 1 then ([], s) else (
  (
    uid,
    chat_backfill (take 500 (reverse (keep (λ m. is_party uid m && ltb after_id m.id) s.messages))),
  )
      ∷ [],
  s,
)
