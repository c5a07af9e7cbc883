-- ===== src/Sockets/Closing.antt =====
-- src/social_api.rs: the end of `social_socket`, over the registry, the calls and the direct
-- messages. The lists of devices and the presence that it then pushes only read the state.
use arcade_launcher_server.Base.{
  ℕ, ◌+◌, Bool, none, List, [], ◌∷◌, ◌++◌, codes, Faults, if◌then◌else◌,
}
use arcade_launcher_server.Calls.{Entry, drop_for}
use arcade_launcher_server.Social.Voice.{drop_voice_for}
use arcade_launcher_server.Chat.{Chat, Frame, Sent, record_missed_call}
use arcade_launcher_server.Sockets.{SocialHub, unregister}
use arcade_launcher_server.Sockets.Presence.{Presence, Presences, set_presence}

pub record Gateway : Type 0 where
  pub hub : SocialHub
  pub chat : Chat
  pub presences : Presences

-- Two statements for each call: `f 0` and `f 1` for the first of them, `f 2` and `f 3` for the next.
unfoldable pub record_missed_calls : Faults → ℕ → List Entry → Chat → Sent
record_missed_calls f now [] s = ([], s)
record_missed_calls f now (e ∷ es) s =
    let first = record_missed_call f e.0 e.1 e.2.video now s in
    let rest = record_missed_calls (λ k. f (k + 2)) now es first.1 in (first.0 ++ rest.0, rest.1)

abbrev offline_row : ℕ → Presence
offline_row now = record {
  state = codes "offline";
  game_id = none;
  game_title = none;
  status_text = none;
  updated_at = now;
}

abbrev pub without_calls : ℕ → Chat → Chat
without_calls uid s = record s {
  social = record (drop_voice_for uid s.social) { rings = (drop_for uid s.social.rings).1 };
}

unfoldable pub close_socket :
    Bool → Faults → (uid conn_id now : ℕ) → Gateway → List (ℕ × Frame) × Gateway
unfolding record_missed_calls
close_socket fails f uid conn_id now g =
    let closed = unregister uid conn_id g.hub in
    let missed = drop_for uid g.chat.social.rings in
    let noted = record_missed_calls f now missed.0 (without_calls uid g.chat) in
    if closed.0
    then (
      noted.0,
      record {
        hub = closed.1;
        chat = noted.1;
        presences = set_presence fails uid (offline_row now) g.presences;
      },
    )
    else ([], record g { hub = closed.1 })
