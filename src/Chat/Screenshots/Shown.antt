-- ===== src/Chat/Screenshots/Shown.antt =====
-- src/social_api.rs: whom a file is shown to, by the message that carries it or as a screenshot.
use arcade_launcher_server.Base.{
  ℕ, zero, suc, ◌≡◌, ◌⊎◌, refl, ◌∙◌, inl, inr, Bool, not, ◌||◌, Option, some, List, [], ◌∷◌, keep,
  take, Text, Faults, All, All-keep, All-select_first, ◌==◌, select_first, Bool-cases, Option-cases,
  arith,
}
use arcade_launcher_server.Social.State.{Social}
use arcade_launcher_server.Chat.{Attachment}
use arcade_launcher_server.Chat.Attachments.{download, api_social_attachment_get}
use arcade_launcher_server.Chat.Steps
use arcade_launcher_server.Chat.Access.{SentTo, download-SentTo}
use arcade_launcher_server.Chat.Screenshots.{
  Screenshot, Gallery, owner_of, api_social_screenshot_create, api_social_screenshot_delete, joined,
  api_social_screenshots_get, Event, messages, shares, unshares, step, run,
}
use arcade_launcher_server.Chat.Screenshots.Registered.{Shared, Registered, IsOwned, run-IsOwned}

messages_of : List Event → List Steps.Event
messages_of [] = []
messages_of (messages e ∷ es) = e ∷ messages_of es
messages_of (shares f me game_id aid caption now ∷ es) = messages_of es
messages_of (unshares f me id ∷ es) = messages_of es

create-chat :
    (f : Faults) (me : ℕ) (game_id : Text) (aid : ℕ) (caption : Option Text) (now : ℕ) (g : Gallery)
    → (api_social_screenshot_create f me game_id aid caption now g).1.chat ≡ g.chat
unfolding api_social_screenshot_create
create-chat f me game_id aid caption now g = ground arith

delete-chat :
    (f : Faults) (me id : ℕ) (g : Gallery) → (api_social_screenshot_delete f me id g).chat ≡ g.chat
unfolding api_social_screenshot_delete
delete-chat f me id g = ground arith

run-chat :
    (same_text : Text → Text → Bool) (es : List Event) (social : Social)
    → (run same_text es social).chat ≡ Steps.run same_text (messages_of es) social
unfolding run step messages_of Steps.run api_social_screenshot_delete
run-chat same_text [] social = refl
run-chat same_text (messages e ∷ es) social = rw (run-chat same_text es social) refl
run-chat same_text (shares f me game_id aid caption now ∷ es) social =
    create-chat f me game_id aid caption now (run same_text es social)
    ∙ run-chat same_text es social
run-chat same_text (unshares f me id ∷ es) social =
    delete-chat f me id (run same_text es social) ∙ run-chat same_text es social

-- The file is in a list that the endpoint for screenshots answers with.
abbrev Listed : Attachment → List (Screenshot × Attachment) → Type 0
Listed a [] = ⊥
Listed a (p ∷ out) = (p.1 ≡ a) ⊎ Listed a out

Listed-take :
    (n : ℕ) (a : Attachment) (out : List (Screenshot × Attachment))
    → Listed a (take n out)
    → Listed a out
Listed-take zero a out l = absurd l
Listed-take (suc n) a [] l = absurd l
Listed-take (suc n) a (p ∷ out) (inl here) = inl here
Listed-take (suc n) a (p ∷ out) (inr l) = inr (Listed-take n a out l)

joined-Shared :
    (es : List Event) (files : List Attachment) (qs : List Screenshot) (a : Attachment)
    → All (Registered es files) qs
    → Listed a (joined files qs)
    → Shared a.owner_id a.id es
unfolding joined owner_of
joined-Shared es files [] a k l = absurd l
joined-Shared es files (q ∷ qs) a ((owned, m), k) l =
    elim (Option-cases (select_first (λ b. b.id == q.attachment_id) files)) [
      | inl missing ↦ joined-Shared es files qs a k (rw (joined, missing) at l)
      | inr (b, there) ↦ elim (found_or b l there) [
        | inr rest ↦ joined-Shared es files qs a k rest
        | inl here ↦
            let (_, hit) =
              All-select_first (λ c. Unit {0}) (λ b. b.id == q.attachment_id) files b (units files)
                there in
            let number : q.attachment_id ≡ b.id = ground arith in
            let owner : q.user_id ≡ b.owner_id = ground (arith, of_found b there) in
            rw here at (rw (number, owner) at m)
      ]
    ]
  where
    units : (cs : List Attachment) → All (λ c. Unit {0}) cs
    units [] = tt
    units (c ∷ cs) = (tt, units cs)

    found_or :
        (b : Attachment)
        → Listed a (joined files (q ∷ qs))
        → select_first (λ b. b.id == q.attachment_id) files ≡ some b
        → (b ≡ a) ⊎ Listed a (joined files qs)
    found_or b l there = rw (joined, there) at l

    of_found :
        (b : Attachment)
        → select_first (λ b. b.id == q.attachment_id) files ≡ some b
        → owner_of q.attachment_id files ≡ some b.owner_id
    of_found b there = rw (owner_of, there) refl

-- The account fetches the file, by the endpoint for files or by the one for screenshots.
abbrev pub Fetches : (Text → Text → Bool) → ℕ → Attachment → Gallery → Type 0
Fetches same_text me a g =
    ((f : Faults) × (configured : Bool) × (id : ℕ) × (api_social_attachment_get f configured me id
          g.chat
        ≡ download a))
    ⊎ ((f : Faults) × (configured : Bool) × (game_id : Text) × (out : List
          (Screenshot × Attachment))
        × (api_social_screenshots_get same_text f configured game_id g ≡ some out)
        × Listed a out)

gallery-Shared :
    (same_text : Text → Text → Bool) (es : List Event) (g : Gallery) (f : Faults)
    (configured : Bool) (game_id : Text) (out : List (Screenshot × Attachment)) (a : Attachment)
    → IsOwned es g
    → api_social_screenshots_get same_text f configured game_id g ≡ some out
    → Listed a out
    → Shared a.owner_id a.id es
unfolding api_social_screenshots_get
gallery-Shared same_text es g f configured game_id out a k h l =
    elim (Bool-cases (not configured || f 0 || f 1)) [
      | inl stopped ↦ absurd (ground arith)
      | inr goes ↦
          let qs = keep (λ s. same_text s.game_id (take 80 game_id)) g.screenshots in
          let same : take 50 (joined g.chat.attachments qs) ≡ out = ground arith in
          joined-Shared es g.chat.attachments qs a
            (All-keep (Registered es g.chat.attachments) _ g.screenshots k.registered)
            (Listed-take 50 a (joined g.chat.attachments qs) (rw (← same) at l))
    ]

-- After any history of messages, edits, deletions, uploads, blocks, policies and screenshots,
-- whichever queries fail: an account that fetches a file, by the endpoint for files or by the one for
-- screenshots, has uploaded it, or is the receiver of the message that its owner sent it with, or
-- the owner has registered it as a screenshot, which anyone who is signed in may fetch.
pub fetch-Sanctioned :
    (same_text : Text → Text → Bool) (es : List Event) (social : Social) (me : ℕ) (a : Attachment)
    → Fetches same_text me a (run same_text es social)
    → (a.owner_id ≡ me)
      ⊎ (SentTo me a (run same_text es social).chat.messages ⊎ Shared a.owner_id a.id es)
fetch-Sanctioned same_text es social me a (inl (f, configured, id, h)) =
    let chat = run-chat same_text es social in
    let sent =
      download-SentTo same_text (messages_of es) social f configured me id a (rw chat at h) in
    elim (rw (← chat) at sent) [ inl own ↦ inl own | inr m ↦ inr (inl m) ]
fetch-Sanctioned same_text es social me a (inr (f, configured, game_id, out, h, l)) = inr (
    inr (
      gallery-Shared same_text es (run same_text es social) f configured game_id out a
        (run-IsOwned same_text es social) h l))
