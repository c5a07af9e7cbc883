-- ===== src/Social/Blocks.antt =====
-- src/blocks.rs: what a block between two accounts stops, and what the caller is told.
use arcade_launcher_server.Base.{
  ℕ, ◌≡◌, refl, ◌↔◌, Bool, true, false, not, ◌&&◌, ◌||◌, Option, none, some, Text, codes, ◌==◌,
  if◌then◌else◌, contains, lowercase, arith,
}

pub record BlockPair : Type 0 where
  pub i_blocked_them : Bool
  pub they_blocked_me : Bool

abbrev pub any_block : BlockPair → Bool
any_block p = p.i_blocked_them || p.they_blocked_me

pub data Interaction : Type 0 where
  friend_request direct_message call discover : Interaction

-- The words for somebody on the caller's own list.
pub own_block_text : Interaction → Text
own_block_text friend_request =
    codes "You have blocked this person. Unblock them to send a request."
own_block_text direct_message =
    codes "You have blocked this person. Unblock them to send a message."
own_block_text call = codes "You have blocked this person. Unblock them to call."
own_block_text discover = codes "Blocked"

-- The words for a caller whom the other account blocks.
pub their_block_text : Interaction → Text
their_block_text friend_request = codes "This person is not accepting friend requests."
their_block_text direct_message = codes "This message could not be delivered."
their_block_text call = codes "This person cannot be reached."
their_block_text discover = codes "Unavailable"

unfoldable pub interaction_refusal : BlockPair → Interaction → Option Text
interaction_refusal p what =
    if not (any_block p)
    then none
    else if p.i_blocked_them
    then some (own_block_text what)
    else some (their_block_text what)

pub record BlockEffects : Type 0 where
  pub drop_friendship : Bool
  pub end_live_call : Bool
  pub drop_presence : Bool

abbrev pub on_block : BlockEffects
on_block = record { drop_friendship = true; end_live_call = true; drop_presence = true }

abbrev pub on_unblock : BlockEffects
on_unblock = record { drop_friendship = false; end_live_call = false; drop_presence = false }

unfoldable pub valid_block_target : ℕ → ℕ → Bool
valid_block_target me target = not (target == 0) && not (me == 0) && not (target == me)

pub refusal-none_iff :
    (p : BlockPair) (what : Interaction)
    → (interaction_refusal p what ≡ none) ↔ (any_block p ≡ false)
unfolding interaction_refusal
refusal-none_iff p what = ground arith

their_block_text-silent :
    (what : Interaction) → contains (lowercase (their_block_text what)) (codes "block") ≡ false
unfolding their_block_text contains lowercase
their_block_text-silent friend_request = refl
their_block_text-silent direct_message = refl
their_block_text-silent call = refl
their_block_text-silent discover = refl

-- Whoever is only blocked by the other account is refused in words that do not name a block.
pub refusal-silent :
    (p : BlockPair) (what : Interaction) (t : Text)
    → p.i_blocked_them ≡ false
    → interaction_refusal p what ≡ some t
    → contains (lowercase t) (codes "block") ≡ false
unfolding interaction_refusal
refusal-silent p what t mine told =
    let e : t ≡ their_block_text what = ground arith in rw e (their_block_text-silent what)
