-- ===== src/Chat/Access.antt =====
-- src/social_api.rs: whom the file of a direct message is shown to.
use arcade_launcher_server.Base.{
  ℕ, ◌≡◌, ◌⊎◌, inl, inr, Bool, true, Option, none, some, List, Faults, Text, All, All-select_first,
  ◌==◌, select_first, Bool-cases, Option-cases, arith,
}
use arcade_launcher_server.Social.State.{Social}
use arcade_launcher_server.Chat.{Message, Attachment, Chat}
use arcade_launcher_server.Chat.Attachments.{download, may_download, api_social_attachment_get}
use arcade_launcher_server.Chat.Steps.{Event, run}
use arcade_launcher_server.Chat.Owners.{From, Linked}
use arcade_launcher_server.Chat.Owners.Runs.{run-IsSound}

-- The owner sent the file to `me`.
abbrev pub SentTo : ℕ → Attachment → List Message → Type 0
SentTo me a ms =
    (mid : ℕ) × (m : Message) × (a.message_id ≡ some mid)
    × (select_first (λ q. q.id == mid) ms ≡ some m)
    × (m.sender_id ≡ a.owner_id)
    × (m.receiver_id ≡ me)

Linked-From :
    (ms : List Message) (n owner mid : ℕ) (o : Option ℕ)
    → o ≡ some mid
    → Linked ms n owner o
    → All (From owner mid) ms
Linked-From ms n owner mid none e k = absurd (cc)
Linked-From ms n owner mid (some i) e (lt, k) = let same : i ≡ mid = ground arith in rw same at k

may-SentTo :
    (fails : Bool) (me : ℕ) (a : Attachment) (s : Chat)
    → Linked s.messages s.next_message a.owner_id a.message_id
    → may_download fails me a s ≡ true
    → (a.owner_id ≡ me) ⊎ SentTo me a s.messages
unfolding may_download
may-SentTo fails me a s linked shown = elim (Bool-cases (a.owner_id == me)) [
  | inl own ↦ inl (ground arith)
  | inr other ↦ elim (Option-cases a.message_id) [
    | inl unsent ↦ absurd (ground arith)
    | inr (mid, sent) ↦ elim (Option-cases (select_first (λ q. q.id == mid) s.messages)) [
      | inl gone ↦ absurd (ground arith)
      | inr (m, there) ↦
          let (from, hit) =
            All-select_first (From a.owner_id mid) (λ q. q.id == mid) s.messages m
              (Linked-From s.messages s.next_message a.owner_id mid a.message_id sent linked)
              there in
          let sender = from hit in inr (mid, m, sent, there, sender, ground arith)
    ]
  ]
]

-- After any history of messages, edits, deletions, uploads, blocks and policies, whichever queries
-- fail: the endpoint for files shows a file to the account that uploaded it, and to nobody else but
-- the receiver of the message that this account sent it with.
pub download-SentTo :
    (same_text : Text → Text → Bool)
    → (es : List Event) (social : Social) (f : Faults) (configured : Bool) (me id : ℕ)
      (a : Attachment)
    → api_social_attachment_get f configured me id (run same_text es social) ≡ download a
    → (a.owner_id ≡ me) ⊎ SentTo me a (run same_text es social).messages
unfolding api_social_attachment_get
download-SentTo same_text es social f configured me id a h =
    let s = run same_text es social in
    let k = run-IsSound same_text es social in
    elim (Option-cases (select_first (λ b. b.id == id) s.attachments)) [
      | inl missing ↦ absurd (ground arith)
      | inr (b, there) ↦
          let (linked, _) =
            All-select_first (λ c. Linked s.messages s.next_message c.owner_id c.message_id)
              (λ b. b.id == id) s.attachments b k.owned there in
          elim (Bool-cases (may_download (f 2) me b s)) [
            | inl may ↦
                let same : b ≡ a = ground arith in rw same at (may-SentTo (f 2) me b s linked may)
            | inr may_not ↦ absurd (ground arith)
          ]
    ]
