-- ===== src/Chat/Screenshots.antt =====
-- src/social_api.rs: files that their owners show to everyone, as screenshots of a game. The entry in
-- the activity feed that a new screenshot leaves is not part of the model.
pub mod Owned
pub mod Registered
pub mod Shown
use arcade_launcher_server.Base.{
  ℕ, suc, Bool, true, false, not, ◌&&◌, ◌||◌, Option, none, some, List, [], ◌∷◌, keep, take, Text,
  Faults, ◌==◌, if◌then◌else◌, select_first, delete_where, is_empty,
}
use arcade_launcher_server.Social.State.{Social}
use arcade_launcher_server.Chat.{Attachment, Chat}
use arcade_launcher_server.Chat.Steps

-- A row of `game_screenshots`.
pub record Screenshot : Type 0 where
  pub id : ℕ
  pub user_id : ℕ
  pub game_id : Text
  pub attachment_id : ℕ
  pub caption : Option Text
  pub created_at : ℕ

pub record Gallery : Type 0 where
  pub chat : Chat
  pub screenshots : List Screenshot
  pub next_screenshot : ℕ

pub data ShareReply : Type 0 where
  game_required not_your_attachment share_failed : ShareReply
  shared : (id : ℕ) → ShareReply

-- SELECT owner_id … WHERE id=:a
unfoldable pub owner_of : ℕ → List Attachment → Option ℕ
owner_of attachment_id files = elim (select_first (λ a. a.id == attachment_id) files) [
  | none ↦ none
  | some a ↦ some a.owner_id
]

abbrev pub is_mine : ℕ → Option ℕ → Bool
is_mine me none = false
is_mine me (some owner) = owner == me

abbrev pub new_screenshot : ℕ → ℕ → Text → ℕ → Option Text → ℕ → Screenshot
new_screenshot id me game_id attachment_id caption now = record {
  id = id;
  user_id = me;
  game_id = game_id;
  attachment_id = attachment_id;
  caption = caption;
  created_at = now;
}

abbrev shortened : Option Text → Option Text
shortened none = none
shortened (some t) = some (take 280 t)

-- A failing query for the owner reads as no attachment.
unfoldable pub api_social_screenshot_create :
    Faults → ℕ → Text → ℕ → Option Text → ℕ → Gallery → ShareReply × Gallery
unfolding owner_of
api_social_screenshot_create f me game_id attachment_id caption now g =
    if is_empty (take 80 game_id)
    then (game_required, g)
    else if f 0
    then (share_failed, g)
    else if f 1 || not (is_mine me (owner_of attachment_id g.chat.attachments))
    then (not_your_attachment, g)
    else if f 2
    then (share_failed, g)
    else (
      shared g.next_screenshot,
      record g {
        screenshots =
            new_screenshot g.next_screenshot me (take 80 game_id) attachment_id (shortened caption)
              now
            ∷ g.screenshots;
        next_screenshot = suc g.next_screenshot;
      },
    )

unfoldable pub api_social_screenshot_delete : Faults → ℕ → ℕ → Gallery → Gallery
api_social_screenshot_delete f me id g =
    if f 0 || f 1
    then g
    else record g { screenshots = delete_where (λ s. s.id == id && s.user_id == me) g.screenshots }

abbrev cons_found :
    Screenshot → Option Attachment → List (Screenshot × Attachment) → List (Screenshot × Attachment)
cons_found s none out = out
cons_found s (some a) out = (s, a) ∷ out

-- JOIN social_attachments a ON a.id = s.attachment_id
unfoldable pub joined : List Attachment → List Screenshot → List (Screenshot × Attachment)
joined files [] = []
joined files (s ∷ ss) =
    cons_found s (select_first (λ a. a.id == s.attachment_id) files) (joined files ss)

-- The newest first, whoever of the signed-in accounts asks; `same_text` is the collation of the
-- column.
unfoldable pub api_social_screenshots_get :
    (Text → Text → Bool) → Faults → Bool → Text → Gallery → Option (List (Screenshot × Attachment))
unfolding joined
api_social_screenshots_get same_text f configured game_id g =
    if not configured || f 0 || f 1
    then none
    else some (
        take 50 (
          joined g.chat.attachments
            (keep (λ s. same_text s.game_id (take 80 game_id)) g.screenshots)))

pub data Event : Type 0 where
  messages : Steps.Event → Event
  shares : Faults → (me : ℕ) → Text → (attachment_id : ℕ) → Option Text → ℕ → Event
  unshares : Faults → (me id : ℕ) → Event

module _ (same_text : Text → Text → Bool) where
  unfoldable pub step : Event → Gallery → Gallery
  step (messages e) g = record g { chat = Steps.step same_text e g.chat }
  step (shares f me game_id attachment_id caption now) g =
      (api_social_screenshot_create f me game_id attachment_id caption now g).1
  step (unshares f me id) g = api_social_screenshot_delete f me id g

  -- The newest event is at the head.
  unfoldable pub run : List Event → Social → Gallery
  unfolding step
  run [] social = record {
    chat = Steps.run same_text [] social;
    screenshots = [];
    next_screenshot = 1;
  }
  run (e ∷ es) social = step e (run es social)
