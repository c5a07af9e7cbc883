-- ===== src/Chat/Owners.antt =====
-- src/social_api.rs: that a file is linked to a message of its owner, and stays so.
pub mod Runs
use arcade_launcher_server.Base.{
  ℕ, suc, ◌<◌, ◌≡◌, ◌⊎◌, refl, inl, inr, Bool, true, false, not, ◌&&◌, ◌||◌, Option, none, some,
  List, [], ◌∷◌, any, Text, Faults, All, All-map, All-update_where, All-select_first, ◌==◌, ==_iff,
  if◌then◌else◌, select_first, update_where, is_some, is_empty, Bool-cases, Option-cases, arith,
  take,
}
use arcade_launcher_server.Social.State.{Social}
use arcade_launcher_server.Chat.{
  Message, Attachment, Chat, Draft, draft, new_message, linkable, link_attachment, insert_message,
  store_message, has_nonce, deliver, is_dropped, handle_ws_chat, record_missed_call, own_live,
  change_message, handle_ws_edit, handle_ws_delete, handle_ws_react, inbound, mark_read,
  mark_conversation_read,
}
use arcade_launcher_server.Chat.Attachments.{
  api_social_attachment_presign, api_social_history, may_download, download, is_party,
  api_social_attachment_get,
}
use arcade_launcher_server.Chat.Steps.{
  Event, chats, misses, edits, deletes, reacts, reads, pages, presigns, relates, step, run,
}

-- No two messages have one identifier.
abbrev pub DistinctIds : List Message → Type 0
DistinctIds [] = Unit {0}
DistinctIds (m ∷ ms) = All (λ q. (q.id == m.id) ≡ false) ms × DistinctIds ms

-- Whatever message has the identifier `id` is from `owner`.
abbrev pub From : ℕ → ℕ → Message → Type 0
From owner id q = (q.id == id) ≡ true → q.sender_id ≡ owner

-- A file that is linked is linked to a message of its owner.
abbrev pub Linked : List Message → ℕ → ℕ → Option ℕ → Type 0
Linked ms n owner none = Unit {0}
Linked ms n owner (some id) = (id < n) × All (From owner id) ms

pub record IsSound (s : Chat) : Type 0 where
  pub distinct : DistinctIds s.messages
  pub below : All (λ m. m.id < s.next_message) s.messages
  pub owned : All (λ a. Linked s.messages s.next_message a.owner_id a.message_id) s.attachments

-- A change of messages that keeps who sent them.
module _ (p : Message → Bool) (g : Message → Message) (id_kept : (m : Message) → (g m).id ≡ m.id)
    (sender_kept : (m : Message) → (g m).sender_id ≡ m.sender_id) where
  update-Distinct : (ms : List Message) → DistinctIds ms → DistinctIds (update_where p g ms)
  unfolding update_where
  update-Distinct [] d = tt
  update-Distinct (m ∷ ms) (d, ds) =
      let kept : All (λ q. (q.id == m.id) ≡ false) (update_where p g ms) =
        All-update_where p g ms (λ q k _. rw (id_kept q) k) (λ q k _. k) d in
      elim (Bool-cases (p m)) [
        | inl hit ↦ rw (hit, id_kept m) (kept, update-Distinct ms ds)
        | inr miss ↦ rw miss (kept, update-Distinct ms ds)
      ]

  update-Linked :
      (ms : List Message) (n owner : ℕ) (o : Option ℕ)
      → Linked ms n owner o
      → Linked (update_where p g ms) n owner o
  update-Linked ms n owner none k = tt
  update-Linked ms n owner (some id) (lt, k) =
      (lt, All-update_where p g ms (λ q m _. rw (id_kept q, sender_kept q) m) (λ q m _. m) k)

  pub update-IsSound :
      (s : Chat) → IsSound s → IsSound (record s { messages = update_where p g s.messages })
  update-IsSound s k = record {
    distinct = update-Distinct s.messages k.distinct;
    below = All-update_where p g s.messages (λ q m _. rw (id_kept q) m) (λ q m _. m) k.below;
    owned =
        All-map s.attachments
          (λ a l. update-Linked s.messages s.next_message a.owner_id a.message_id l) k.owned;
  }

add-Linked :
    (m : Message) (ms : List Message) (n owner : ℕ) (o : Option ℕ)
    → m.id ≡ n
    → Linked ms n owner o
    → Linked (m ∷ ms) (suc n) owner o
add-Linked m ms n owner none e k = tt
add-Linked m ms n owner (some id) e (lt, k) = (omega arith, (λ hit. absurd (ground arith), k))

pub add-IsSound :
    (m : Message) (s : Chat)
    → m.id ≡ s.next_message
    → IsSound s
    → IsSound (record s { messages = m ∷ s.messages; next_message = suc s.next_message })
add-IsSound m s e k = record {
  distinct = (All-map s.messages (λ q b. ground arith) k.below, k.distinct);
  below = (omega arith, All-map s.messages (λ q b. omega arith) k.below);
  owned =
      All-map s.attachments
        (λ a l. add-Linked m s.messages s.next_message a.owner_id a.message_id e l) k.owned;
}

pub link-IsSound :
    (fails : Bool) (owner attachment_id id : ℕ) (s : Chat)
    → id < s.next_message
    → All (From owner id) s.messages
    → IsSound s
    → IsSound (link_attachment fails owner attachment_id id s).1
unfolding link_attachment
link-IsSound fails owner attachment_id id s lt from k =
    elim (Bool-cases (attachment_id == 0 || id == 0 || fails)) [
      | inl stopped ↦ rw stopped k
      | inr goes ↦ rw goes (record {
        distinct = k.distinct;
        below = k.below;
        owned =
            All-update_where (linkable owner attachment_id) _ s.attachments
              (λ a l hit. let same : a.owner_id ≡ owner = ground arith in (lt, rw same from))
              (λ a l _. l) k.owned;
      })
    ]

-- The identifier of a message that is found has its sender.
pub select-From :
    (p : Message → Bool) (m : Message) (ms : List Message)
    → DistinctIds ms
    → select_first p ms ≡ some m
    → All (From m.sender_id m.id) ms
unfolding select_first
select-From p m [] d there = tt
select-From p m (q ∷ ms) (d, ds) there = elim (Bool-cases (p q)) [
  | inl hit ↦
      let same : q ≡ m = ground arith in
      rw (← same) ((λ _. refl), All-map ms (λ r away at. absurd (cc)) d)
  | inr miss ↦
      let tail : select_first p ms ≡ some m = ground arith in
      let (away, _) = All-select_first (λ r. (r.id == q.id) ≡ false) p ms m d tail in
      (λ at. absurd (ground arith), select-From p m ms ds tail)
]
