-- ===== src/Chat/Authors/Kept.antt =====
-- src/social_api.rs: what a history of direct messages leaves of each message.
use arcade_launcher_server.Base.{
  ℕ, ◌≡◌, refl, inl, inr, Bool, ◌||◌, List, Text, Faults, ◌==◌, select_first, is_empty, Bool-cases,
  Option-cases, arith,
}
use arcade_launcher_server.Social.State.{Social}
use arcade_launcher_server.Chat.{
  Chat, record_missed_call, own_live, handle_ws_edit, handle_ws_delete, handle_ws_react,
  mark_conversation_read,
}
use arcade_launcher_server.Chat.Attachments.{api_social_attachment_presign, api_social_history}
use arcade_launcher_server.Chat.Owners.{DistinctIds}
use arcade_launcher_server.Chat.Owners.Runs.{run-IsSound}
use arcade_launcher_server.Chat.Authors.{Grown, Changes-refl}
use arcade_launcher_server.Chat.Steps.{
  Event, chats, misses, edits, deletes, reacts, reads, pages, presigns, relates, step, run,
}
use arcade_launcher_server.Chat.Authors.Steps.{
  same, change-Grown, mark-Grown, chat-Front, Front-Grown,
}

edit-Grown :
    (f : Faults) (uid id : ℕ) (text : Text) (now : ℕ) (s : Chat)
    → DistinctIds s.messages
    → Grown (edits f uid id text now) s.messages (handle_ws_edit f uid id text now s).1.messages
unfolding handle_ws_edit
edit-Grown f uid id text now s d = elim (Bool-cases (id == 0 || is_empty text || f 0 || f 1)) [
  | inl stopped ↦ rw stopped (inl (Changes-refl _ s.messages))
  | inr goes ↦ elim (Option-cases (select_first (own_live uid id) s.messages)) [
    | inl missing ↦ rw (goes, missing) (inl (Changes-refl _ s.messages))
    | inr (m, there) ↦
        rw (goes, there)
          (change-Grown (edits f uid id text now) (f 2) uid id _ m s
            (λ q live. record {
              same_id = refl;
              same_sender = refl;
              same_receiver = refl;
              same_nonce = refl;
              text = inr (live.1, ground (arith, live.0));
              mark = inl refl;
            })
            d there)
  ]
]

delete-Grown :
    (f : Faults) (uid id now : ℕ) (s : Chat)
    → DistinctIds s.messages
    → Grown (deletes f uid id now) s.messages (handle_ws_delete f uid id now s).1.messages
unfolding handle_ws_delete
delete-Grown f uid id now s d = elim (Bool-cases (id == 0 || f 0 || f 1)) [
  | inl stopped ↦ rw stopped (inl (Changes-refl _ s.messages))
  | inr goes ↦ elim (Option-cases (select_first (own_live uid id) s.messages)) [
    | inl missing ↦ rw (goes, missing) (inl (Changes-refl _ s.messages))
    | inr (m, there) ↦
        rw (goes, there)
          (change-Grown (deletes f uid id now) (f 2) uid id _ m s
            (λ q live. record {
              same_id = refl;
              same_sender = refl;
              same_receiver = refl;
              same_nonce = refl;
              text = inr (live.1, ground (arith, live.0));
              mark = inl refl;
            })
            d there)
  ]
]

react-messages :
    (same_text : Text → Text → Bool)
    → (f : Faults) (uid id : ℕ) (emoji : Text) (on : Bool) (s : Chat)
    → (handle_ws_react same_text f uid id emoji on s).1.messages ≡ s.messages
unfolding handle_ws_react
react-messages same_text f uid id emoji on s =
    elim (Option-cases (select_first (λ m. m.id == id) s.messages)) [
      | inl missing ↦ ground arith
      | inr (m, there) ↦ ground arith
    ]

presign-messages :
    (f : Faults) (on : Bool) (me : ℕ) (folder name ct : Text) (size : ℕ) (s : Chat)
    → (api_social_attachment_presign f on me folder name ct size s).1.messages ≡ s.messages
unfolding api_social_attachment_presign
presign-messages f on me folder name ct size s = ground arith

read-Grown :
    (f : Faults) (me peer now : ℕ) (s : Chat)
    → Grown (reads f me peer now) s.messages (mark_conversation_read f me peer now s).1.messages
unfolding mark_conversation_read
read-Grown f me peer now s = elim (Bool-cases (peer == 0 || f 0)) [
  | inl stopped ↦ rw stopped (inl (Changes-refl _ s.messages))
  | inr goes ↦ rw goes (mark-Grown (reads f me peer now) (f 2) me peer now s (ground arith))
]

page-Grown :
    (f : Faults) (me other since limit before now : ℕ) (s : Chat)
    → Grown
        (pages f me other since limit before now)
        s.messages
        (api_social_history f me other since limit before now s).1.messages
unfolding api_social_history
page-Grown f me other since limit before now s = elim (Bool-cases (f 0 || f 1)) [
  | inl stopped ↦ rw stopped (inl (Changes-refl _ s.messages))
  | inr goes ↦
      rw goes
        (mark-Grown (pages f me other since limit before now) (f 2) me other now s (ground arith))
]

missed-Grown :
    (f : Faults) (caller callee : ℕ) (video : Bool) (now : ℕ) (s : Chat)
    → Grown
        (misses f caller callee video now)
        s.messages
        (record_missed_call f caller callee video now s).1.messages
unfolding record_missed_call
missed-Grown f caller callee video now s = elim (Bool-cases (f 0 || f 1)) [
  | inl stopped ↦ rw stopped (inl (Changes-refl _ s.messages))
  | inr goes ↦ rw goes (inr (_, refl))
]

-- After any history of direct messages, whichever queries fail, the next event leaves every message
-- in its place, with its number, its two parties and its nonce, and puts one new message in front at
-- most. The text and the deletion of a message change only by an edit or a deletion of its own
-- sender, and only while it is not deleted; the read mark is set only by its receiver, and only once.
pub step-Grown :
    (same_text : Text → Text → Bool)
    → (es : List Event) (social : Social) (e : Event)
    → Grown e
        (run same_text es social).messages
        (step same_text e (run same_text es social)).messages
unfolding step
step-Grown same_text es social (chats f uid to text r n a now) =
    Front-Grown _ _ _ (chat-Front same_text f uid to text r n a now (run same_text es social))
step-Grown same_text es social (misses f caller callee video now) =
    missed-Grown f caller callee video now (run same_text es social)
step-Grown same_text es social (edits f uid id text now) =
    edit-Grown f uid id text now (run same_text es social)
      (run-IsSound same_text es social).distinct
step-Grown same_text es social (deletes f uid id now) =
    delete-Grown f uid id now (run same_text es social) (run-IsSound same_text es social).distinct
step-Grown same_text es social (reacts f uid id emoji on) =
    same _ _ _ (react-messages same_text f uid id emoji on (run same_text es social))
step-Grown same_text es social (reads f me peer now) =
    read-Grown f me peer now (run same_text es social)
step-Grown same_text es social (pages f me other since limit before now) =
    page-Grown f me other since limit before now (run same_text es social)
step-Grown same_text es social (presigns f on me folder name ct size) =
    same _ _ _ (presign-messages f on me folder name ct size (run same_text es social))
step-Grown same_text es social (relates social' policy) =
    inl (Changes-refl _ (run same_text es social).messages)
