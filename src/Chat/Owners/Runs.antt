-- ===== src/Chat/Owners/Runs.antt =====
-- src/social_api.rs: who can fetch the file of a direct message.
use arcade_launcher_server.Base.{
  ℕ, ◌<◌, ◌≡◌, refl, inl, inr, Bool, true, false, not, ◌&&◌, ◌||◌, Option, none, some, List, [],
  ◌∷◌, Text, Faults, All, All-map, All-select_first, ◌==◌, ltb, select_first, is_empty, Bool-cases,
  Option-cases, arith,
}
use arcade_launcher_server.Social.State.{Social}
use arcade_launcher_server.Chat.{
  Message, Chat, Draft, draft, new_message, insert_message, store_with, store_message, has_nonce,
  deliver, is_dropped, handle_ws_chat, record_missed_call, own_live, change_message, handle_ws_edit,
  handle_ws_delete, handle_ws_react, mark_read, mark_conversation_read,
}
use arcade_launcher_server.Chat.Attachments.{
  api_social_attachment_presign, attachment_max_bytes, sanitize_filename, api_social_history,
}
use arcade_launcher_server.Chat.Steps.{
  Event, chats, misses, edits, deletes, reacts, reads, pages, presigns, relates, step, run,
}
use arcade_launcher_server.Chat.Owners.{
  From, IsSound, update-IsSound, add-IsSound, link-IsSound, select-From,
}

-- What a message that was stored, or found, comes to.
record StoredWell (d : Draft) (id : ℕ) (s : Chat) : Type 0 where
  sound : IsSound s
  below_next : id < s.next_message
  from : All (From d.sender id) s.messages

abbrev Well : Draft → Option (ℕ × ℕ × Option ℕ) × Chat → Type 0
Well d (none, s) = IsSound s
Well d (some (id, ts, reply), s) = StoredWell d id s

insert-Well :
    (fails : Bool) (d : Draft) (ts : ℕ) (s : Chat)
    → IsSound s
    → Well d (insert_message fails d ts s)
unfolding insert_message
insert-Well true d ts s k = k
insert-Well false d ts s k = record {
  sound = add-IsSound (new_message s.next_message d ts) s refl k;
  below_next = omega arith;
  from = ((λ _. refl), All-map s.messages (λ q b at. absurd (ground arith)) k.below);
}

store-Well :
    (same_text : Text → Text → Bool)
    → (f : Faults) (o : Option Text) (d : Draft) (ts : ℕ) (s : Chat) → IsSound s
    → Well d (store_with same_text f o d ts s)
unfolding store_with
store-Well same_text f none d ts s k = insert-Well (f 6) d ts s k
store-Well same_text f (some n) d ts s k =
    let inserted = insert-Well (f 6) d ts s k in
    elim (Bool-cases (f 5)) [
      | inl fails ↦ rw fails inserted
      | inr works ↦ elim (Option-cases (select_first (has_nonce same_text d.sender n) s.messages)) [
        | inl new ↦ rw (works, new) inserted
        | inr (m, there) ↦
            let (lt, hit) =
              All-select_first (λ q. q.id < s.next_message) (has_nonce same_text d.sender n)
                s.messages m k.below there in
            let same : m.sender_id ≡ d.sender = ground arith in
            rw (works, there)
              (record {
                sound = k;
                below_next = lt;
                from =
                    rw same at
                      (select-From (has_nonce same_text d.sender n) m s.messages k.distinct there);
              })
      ]
    ]

deliver-IsSound :
    (f : Faults) (d : Draft) (o : Option (ℕ × ℕ × Option ℕ) × Chat)
    → Well d o
    → IsSound (deliver f d o).1
deliver-IsSound f d (none, s) k = k
deliver-IsSound f d (some (id, ts, reply), s) k =
    link-IsSound (f 7) d.sender d.attachment id s k.below_next k.from k.sound

chat-IsSound :
    (same_text : Text → Text → Bool)
    → (f : Faults) (uid to : ℕ) (text : Text) (r : ℕ) (n : Text) (a now : ℕ) (s : Chat) → IsSound s
    → IsSound (handle_ws_chat same_text f uid to text r n a now s).1
unfolding handle_ws_chat
chat-IsSound same_text f uid to text r n a now s k =
    elim (Bool-cases (to == 0 || (is_empty text && a == 0))) [
      | inl blank ↦ rw (handle_ws_chat, blank) k
      | inr filled ↦ elim (Bool-cases (is_dropped f uid to s || f 4)) [
        | inl dropped ↦ rw (handle_ws_chat, filled, dropped) k
        | inr goes ↦
            let d = draft uid to text r n a in
            rw (handle_ws_chat, filled, goes)
              (deliver-IsSound f d (store_message same_text f d now s)
                (store-Well same_text f d.nonce d now s k))
      ]
    ]

missed-IsSound :
    (f : Faults) (caller callee : ℕ) (video : Bool) (now : ℕ) (s : Chat)
    → IsSound s
    → IsSound (record_missed_call f caller callee video now s).1
unfolding record_missed_call
missed-IsSound f caller callee video now s k = elim (Bool-cases (f 0 || f 1)) [
  | inl stopped ↦ rw stopped k
  | inr goes ↦ rw goes (add-IsSound _ s refl k)
]

change-IsSound :
    (fails : Bool) (id : ℕ) (g : Message → Message) (s : Chat)
    → ((m : Message) → (g m).id ≡ m.id)
    → ((m : Message) → (g m).sender_id ≡ m.sender_id)
    → IsSound s
    → IsSound (change_message fails id g s)
change-IsSound true id g s same_id same_sender k = k
change-IsSound false id g s same_id same_sender k =
    update-IsSound (λ m. m.id == id) g same_id same_sender s k

edit-IsSound :
    (f : Faults) (uid id : ℕ) (text : Text) (now : ℕ) (s : Chat)
    → IsSound s
    → IsSound (handle_ws_edit f uid id text now s).1
unfolding handle_ws_edit
edit-IsSound f uid id text now s k = elim (Bool-cases (id == 0 || is_empty text || f 0 || f 1)) [
  | inl stopped ↦ rw stopped k
  | inr goes ↦ elim (Option-cases (select_first (own_live uid id) s.messages)) [
    | inl missing ↦ rw (goes, missing) k
    | inr (m, there) ↦ rw (goes, there) (change-IsSound (f 2) id _ s (λ q. refl) (λ q. refl) k)
  ]
]

delete-IsSound :
    (f : Faults) (uid id now : ℕ) (s : Chat)
    → IsSound s
    → IsSound (handle_ws_delete f uid id now s).1
unfolding handle_ws_delete
delete-IsSound f uid id now s k = elim (Bool-cases (id == 0 || f 0 || f 1)) [
  | inl stopped ↦ rw stopped k
  | inr goes ↦ elim (Option-cases (select_first (own_live uid id) s.messages)) [
    | inl missing ↦ rw (goes, missing) k
    | inr (m, there) ↦ rw (goes, there) (change-IsSound (f 2) id _ s (λ q. refl) (λ q. refl) k)
  ]
]

mark-IsSound :
    (fails : Bool) (me peer now : ℕ) (s : Chat)
    → IsSound s
    → IsSound (mark_read fails me peer now s)
mark-IsSound true me peer now s k = k
mark-IsSound false me peer now s k = update-IsSound _ _ (λ q. refl) (λ q. refl) s k

read-IsSound :
    (f : Faults) (me peer now : ℕ) (s : Chat)
    → IsSound s
    → IsSound (mark_conversation_read f me peer now s).1
unfolding mark_conversation_read
read-IsSound f me peer now s k = elim (Bool-cases (peer == 0 || f 0)) [
  | inl stopped ↦ rw stopped k
  | inr goes ↦ rw goes (mark-IsSound (f 2) me peer now s k)
]

page-IsSound :
    (f : Faults) (me other since limit before now : ℕ) (s : Chat)
    → IsSound s
    → IsSound (api_social_history f me other since limit before now s).1
unfolding api_social_history
page-IsSound f me other since limit before now s k = elim (Bool-cases (f 0 || f 1)) [
  | inl stopped ↦ rw stopped k
  | inr goes ↦ rw goes (mark-IsSound (f 2) me other now s k)
]

react-IsSound :
    (same_text : Text → Text → Bool)
    → (f : Faults) (uid id : ℕ) (emoji : Text) (on : Bool) (s : Chat) → IsSound s
    → IsSound (handle_ws_react same_text f uid id emoji on s).1
unfolding handle_ws_react
react-IsSound same_text f uid id emoji on s k =
    elim (Bool-cases (id == 0 || is_empty emoji || f 0 || f 1)) [
      | inl stopped ↦ rw stopped k
      | inr goes ↦ elim (Option-cases (select_first (λ m. m.id == id) s.messages)) [
        | inl missing ↦ rw (goes, missing) k
        | inr (m, there) ↦
            elim (Bool-cases (not (uid == m.sender_id) && not (uid == m.receiver_id))) [
              | inl other ↦ rw (goes, there, other) k
              | inr party ↦ elim (Bool-cases (f 2)) [
                | inl fails ↦ rw (goes, there, party, fails) k
                | inr works ↦
                    rw (goes, there, party, works)
                      (record { distinct = k.distinct; below = k.below; owned = k.owned })
              ]
            ]
      ]
    ]

presign-IsSound :
    (f : Faults) (on : Bool) (me : ℕ) (folder name ct : Text) (size : ℕ) (s : Chat)
    → IsSound s
    → IsSound (api_social_attachment_presign f on me folder name ct size s).1
unfolding api_social_attachment_presign
presign-IsSound f false me folder name ct size s k = k
presign-IsSound f true me folder name ct size s k =
    elim (Bool-cases (size == 0 || ltb attachment_max_bytes size)) [
      | inl bad ↦ rw bad k
      | inr good ↦ elim (Bool-cases (is_empty (sanitize_filename name))) [
        | inl blank ↦ rw (good, blank) k
        | inr named ↦ elim (Bool-cases (f 0 || f 1)) [
          | inl fails ↦ rw (good, named, fails) k
          | inr works ↦
              rw (good, named, works)
                (record { distinct = k.distinct; below = k.below; owned = (tt, k.owned) })
        ]
      ]
    ]

pub run-IsSound :
    (same_text : Text → Text → Bool)
    → (es : List Event) (social : Social) → IsSound (run same_text es social)
unfolding run step
run-IsSound same_text [] social = record { distinct = tt; below = tt; owned = tt }
run-IsSound same_text (chats f uid to text r n a now ∷ es) social =
    chat-IsSound same_text f uid to text r n a now (run same_text es social)
      (run-IsSound same_text es social)
run-IsSound same_text (misses f caller callee video now ∷ es) social =
    missed-IsSound f caller callee video now (run same_text es social)
      (run-IsSound same_text es social)
run-IsSound same_text (edits f uid id text now ∷ es) social =
    edit-IsSound f uid id text now (run same_text es social) (run-IsSound same_text es social)
run-IsSound same_text (deletes f uid id now ∷ es) social =
    delete-IsSound f uid id now (run same_text es social) (run-IsSound same_text es social)
run-IsSound same_text (reacts f uid id emoji on ∷ es) social =
    react-IsSound same_text f uid id emoji on (run same_text es social)
      (run-IsSound same_text es social)
run-IsSound same_text (reads f me peer now ∷ es) social =
    read-IsSound f me peer now (run same_text es social) (run-IsSound same_text es social)
run-IsSound same_text (pages f me other since limit before now ∷ es) social =
    page-IsSound f me other since limit before now (run same_text es social)
      (run-IsSound same_text es social)
run-IsSound same_text (presigns f on me folder name ct size ∷ es) social =
    presign-IsSound f on me folder name ct size (run same_text es social)
      (run-IsSound same_text es social)
run-IsSound same_text (relates social' policy ∷ es) social =
    let k = run-IsSound same_text es social in
    record { distinct = k.distinct; below = k.below; owned = k.owned }
