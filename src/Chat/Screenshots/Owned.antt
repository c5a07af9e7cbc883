-- ===== src/Chat/Screenshots/Owned.antt =====
-- src/social_api.rs: that a file keeps its owner.
use arcade_launcher_server.Base.{
  ℕ, suc, ◌≡◌, ◌⊎◌, refl, inl, inr, Bool, true, false, ◌&&◌, ◌||◌, Option, none, some, ◌∷◌, Text,
  Faults, ◌==◌, select_first, update_where, is_empty, Bool-cases, Option-cases, arith, ltb, ap, ◌∙◌,
}
use arcade_launcher_server.Chat.{
  Attachment, Message, Chat, Draft, draft, linkable, link_attachment, insert_message, store_with,
  store_message, has_nonce, deliver, is_dropped, handle_ws_chat, record_missed_call, own_live,
  change_message, handle_ws_edit, handle_ws_delete, handle_ws_react, mark_read,
  mark_conversation_read,
}
use arcade_launcher_server.Chat.Attachments.{
  attachment_max_bytes, sanitize_filename, api_social_attachment_presign, api_social_history,
}
use arcade_launcher_server.Chat.Steps.{
  Event, chats, misses, edits, deletes, reacts, reads, pages, presigns, relates, step,
}

abbrev pub link_to : ℕ → Attachment → Attachment
link_to mid a = record a { message_id = some mid }

-- What a step does to the files: it links some to a message, adds one of a new number, or nothing.
pub record Linked (s s' : Chat) : Type 0 where
  pub picked : Attachment → Bool
  pub mid : ℕ
  pub linked : s'.attachments ≡ update_where picked (link_to mid) s.attachments
  pub same_next : s'.next_attachment ≡ s.next_attachment

pub record Added (s s' : Chat) : Type 0 where
  pub file : Attachment
  pub numbered : file.id ≡ s.next_attachment
  pub added : s'.attachments ≡ file ∷ s.attachments
  pub next : s'.next_attachment ≡ suc s.next_attachment

abbrev pub Kept : Chat → Chat → Type 0
Kept s s' = (s'.attachments ≡ s.attachments) × (s'.next_attachment ≡ s.next_attachment)

insert-Kept :
    (fails : Bool) (d : Draft) (ts : ℕ) (s : Chat) → Kept s (insert_message fails d ts s).1
unfolding insert_message
insert-Kept true d ts s = (refl, refl)
insert-Kept false d ts s = (refl, refl)

store-Kept :
    (same_text : Text → Text → Bool) (f : Faults) (o : Option Text) (d : Draft) (ts : ℕ) (s : Chat)
    → Kept s (store_with same_text f o d ts s).1
unfolding store_with
store-Kept same_text f none d ts s = insert-Kept (f 6) d ts s
store-Kept same_text f (some n) d ts s = elim (Bool-cases (f 5)) [
  | inl fails ↦ rw fails (insert-Kept (f 6) d ts s)
  | inr works ↦ elim (Option-cases (select_first (has_nonce same_text d.sender n) s.messages)) [
    | inl new ↦ rw (works, new) (insert-Kept (f 6) d ts s)
    | inr (m, there) ↦ rw (works, there) (refl, refl)
  ]
]

link-Linked :
    (fails : Bool) (owner id mid : ℕ) (s : Chat)
    → Kept s (link_attachment fails owner id mid s).1
      ⊎ Linked s (link_attachment fails owner id mid s).1
unfolding link_attachment
link-Linked fails owner id mid s = elim (Bool-cases (id == 0 || mid == 0 || fails)) [
  | inl stopped ↦ rw stopped (inl (refl, refl))
  | inr goes ↦
      rw goes
        (inr (record { picked = linkable owner id; mid = mid; linked = refl; same_next = refl }))
]

abbrev pub FileMove : Chat → Chat → Type 0
FileMove s s' = Kept s s' ⊎ (Linked s s' ⊎ Added s s')

deliver-FileMove :
    (f : Faults) (d : Draft) (o : Option (ℕ × ℕ × Option ℕ) × Chat) (s : Chat)
    → Kept s o.1
    → FileMove s (deliver f d o).1
deliver-FileMove f d (none, s1) s k = inl k
deliver-FileMove f d (some (id, ts, reply), s1) s (k, n) =
    elim (link-Linked (f 7) d.sender d.attachment id s1) [
      | inl (k', n') ↦ inl (k' ∙ k, n' ∙ n)
      | inr l ↦ inr (
          inl (record {
            picked = l.picked;
            mid = l.mid;
            linked = l.linked ∙ ap (update_where l.picked (link_to l.mid)) k;
            same_next = l.same_next ∙ n;
          }))
    ]

chat-FileMove :
    (same_text : Text → Text → Bool) (f : Faults) (uid to : ℕ) (text : Text) (r : ℕ) (n : Text)
    (a now : ℕ) (s : Chat)
    → FileMove s (handle_ws_chat same_text f uid to text r n a now s).1
unfolding handle_ws_chat
chat-FileMove same_text f uid to text r n a now s =
    elim (Bool-cases (to == 0 || (is_empty text && a == 0))) [
      | inl blank ↦ rw (handle_ws_chat, blank) (inl (refl, refl))
      | inr filled ↦ elim (Bool-cases (is_dropped f uid to s || f 4)) [
        | inl dropped ↦ rw (handle_ws_chat, filled, dropped) (inl (refl, refl))
        | inr goes ↦
            let d = draft uid to text r n a in
            rw (handle_ws_chat, filled, goes)
              (deliver-FileMove f d (store_message same_text f d now s) s
                (store-Kept same_text f d.nonce d now s))
      ]
    ]

change-Kept :
    (fails : Bool) (id : ℕ) (g : Message → Message) (s : Chat)
    → Kept s (change_message fails id g s)
change-Kept true id g s = (refl, refl)
change-Kept false id g s = (refl, refl)

mark-Kept : (fails : Bool) (me peer now : ℕ) (s : Chat) → Kept s (mark_read fails me peer now s)
mark-Kept true me peer now s = (refl, refl)
mark-Kept false me peer now s = (refl, refl)

edit-Kept :
    (f : Faults) (uid id : ℕ) (text : Text) (now : ℕ) (s : Chat)
    → Kept s (handle_ws_edit f uid id text now s).1
unfolding handle_ws_edit
edit-Kept f uid id text now s = elim (Bool-cases (id == 0 || is_empty text || f 0 || f 1)) [
  | inl stopped ↦ rw stopped (refl, refl)
  | inr goes ↦ elim (Option-cases (select_first (own_live uid id) s.messages)) [
    | inl missing ↦ rw (goes, missing) (refl, refl)
    | inr (m, there) ↦ rw (goes, there) (change-Kept (f 2) id _ s)
  ]
]

delete-Kept : (f : Faults) (uid id now : ℕ) (s : Chat) → Kept s (handle_ws_delete f uid id now s).1
unfolding handle_ws_delete
delete-Kept f uid id now s = elim (Bool-cases (id == 0 || f 0 || f 1)) [
  | inl stopped ↦ rw stopped (refl, refl)
  | inr goes ↦ elim (Option-cases (select_first (own_live uid id) s.messages)) [
    | inl missing ↦ rw (goes, missing) (refl, refl)
    | inr (m, there) ↦ rw (goes, there) (change-Kept (f 2) id _ s)
  ]
]

react-Kept :
    (same_text : Text → Text → Bool) (f : Faults) (uid id : ℕ) (emoji : Text) (on : Bool) (s : Chat)
    → Kept s (handle_ws_react same_text f uid id emoji on s).1
unfolding handle_ws_react
react-Kept same_text f uid id emoji on s = (ground arith, ground arith)

read-Kept :
    (f : Faults) (me peer now : ℕ) (s : Chat) → Kept s (mark_conversation_read f me peer now s).1
unfolding mark_conversation_read
read-Kept f me peer now s = elim (Bool-cases (peer == 0 || f 0)) [
  | inl stopped ↦ rw stopped (refl, refl)
  | inr goes ↦ rw goes (mark-Kept (f 2) me peer now s)
]

page-Kept :
    (f : Faults) (me other since limit before now : ℕ) (s : Chat)
    → Kept s (api_social_history f me other since limit before now s).1
unfolding api_social_history
page-Kept f me other since limit before now s = elim (Bool-cases (f 0 || f 1)) [
  | inl stopped ↦ rw stopped (refl, refl)
  | inr goes ↦ rw goes (mark-Kept (f 2) me other now s)
]

missed-Kept :
    (f : Faults) (caller callee : ℕ) (video : Bool) (now : ℕ) (s : Chat)
    → Kept s (record_missed_call f caller callee video now s).1
unfolding record_missed_call
missed-Kept f caller callee video now s = elim (Bool-cases (f 0 || f 1)) [
  | inl stopped ↦ rw stopped (refl, refl)
  | inr goes ↦ rw goes (refl, refl)
]

presign-FileMove :
    (f : Faults) (on : Bool) (me : ℕ) (folder name ct : Text) (size : ℕ) (s : Chat)
    → FileMove s (api_social_attachment_presign f on me folder name ct size s).1
unfolding api_social_attachment_presign
presign-FileMove f false me folder name ct size s = inl (refl, refl)
presign-FileMove f true me folder name ct size s =
    elim (Bool-cases (size == 0 || ltb attachment_max_bytes size)) [
      | inl bad ↦ rw bad (inl (refl, refl))
      | inr good ↦ elim (Bool-cases (is_empty (sanitize_filename name))) [
        | inl blank ↦ rw (good, blank) (inl (refl, refl))
        | inr named ↦ elim (Bool-cases (f 0 || f 1)) [
          | inl fails ↦ rw (good, named, fails) (inl (refl, refl))
          | inr works ↦
              rw (good, named, works)
                (inr (inr (record { file = _; numbered = refl; added = refl; next = refl })))
        ]
      ]
    ]

pub step-FileMove :
    (same_text : Text → Text → Bool) (e : Event) (s : Chat) → FileMove s (step same_text e s)
unfolding step
step-FileMove same_text (chats f uid to text r n a now) s =
    chat-FileMove same_text f uid to text r n a now s
step-FileMove same_text (misses f caller callee video now) s =
    inl (missed-Kept f caller callee video now s)
step-FileMove same_text (edits f uid id text now) s = inl (edit-Kept f uid id text now s)
step-FileMove same_text (deletes f uid id now) s = inl (delete-Kept f uid id now s)
step-FileMove same_text (reacts f uid id emoji on) s =
    inl (react-Kept same_text f uid id emoji on s)
step-FileMove same_text (reads f me peer now) s = inl (read-Kept f me peer now s)
step-FileMove same_text (pages f me other since limit before now) s =
    inl (page-Kept f me other since limit before now s)
step-FileMove same_text (presigns f on me folder name ct size) s =
    presign-FileMove f on me folder name ct size s
step-FileMove same_text (relates social policy) s = inl (refl, refl)
