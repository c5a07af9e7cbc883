-- ===== src/Sockets/Presence.antt =====
-- src/social_api.rs: the last-known presence of an account, and what others see of it.
use arcade_launcher_server.Base.{
  ℕ, ◌+◌, Bool, not, ◌||◌, Option, none, some, List, [], ◌∷◌, any, take, Text, codes, text_eq,
  is_empty, ◌==◌, ltb, if◌then◌else◌,
}

-- A row of `social_presence`, without its account.
pub record Presence : Type 0 where
  pub state : Text
  pub game_id : Option Text
  pub game_title : Option Text
  pub status_text : Option Text
  pub updated_at : ℕ

abbrev pub Presences : Type 0
Presences = ℕ → Option Presence

abbrev pub presence_stale_secs : ℕ
presence_stale_secs = 70

-- INSERT … ON DUPLICATE KEY UPDATE
unfoldable pub set_presence : Bool → ℕ → Presence → Presences → Presences
set_presence fails user p m u = if fails then m u else if user == u then some p else m u

-- What others see: the state, the game and the status.
abbrev pub Shown : Type 0
Shown = Text × Option Text × Option Text × Option Text

abbrev pub shown_offline : Shown
shown_offline = (codes "offline", none, none, none)

abbrev shown_row : Bool → ℕ → Option Presence → Shown
shown_row online_hint now none = shown_offline
shown_row online_hint now (some p) =
    let fresh = online_hint || ltb now (p.updated_at + presence_stale_secs) in
    if not fresh || text_eq p.state (codes "invisible")
    then shown_offline
    else (p.state, p.game_id, p.game_title, p.status_text)

unfoldable pub presence_of : Bool → ℕ → Bool → ℕ → Presences → Shown
presence_of fails user online_hint now m =
    if fails then shown_offline else shown_row online_hint now (m user)

pub record PresenceFrame : Type 0 where
  pub state : Text
  pub dnd : Bool
  pub game_id : Text
  pub game_title : Text
  pub status_text : Text

abbrev known_states : List Text
known_states =
    codes "online"
    ∷ codes "away"
    ∷ codes "busy"
    ∷ codes "invisible"
    ∷ codes "ingame"
    ∷ codes "offline"
    ∷ []

unfoldable pub chosen_state : PresenceFrame → Text
chosen_state e =
    if e.dnd
    then codes "busy"
    else if any (text_eq e.state) known_states
    then e.state
    else codes "online"

abbrev given : Text → Option Text
given t = if is_empty t then none else some t

abbrev pub in_game : PresenceFrame → Text → Option Text
in_game e t = if text_eq (chosen_state e) (codes "ingame") then given t else none

-- The "presence" arm of `handle_ws_message`.
unfoldable pub handle_presence : Bool → ℕ → PresenceFrame → ℕ → Presences → Presences
unfolding set_presence chosen_state
handle_presence fails uid e now m =
    set_presence fails uid
      (record {
        state = chosen_state e;
        game_id = in_game e e.game_id;
        game_title = in_game e e.game_title;
        status_text = if is_empty e.status_text then none else some (take 128 e.status_text);
        updated_at = now;
      })
      m
