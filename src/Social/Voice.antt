-- ===== src/Social/Voice.antt =====
-- src/social_api.rs: call signalling, the pairs that may exchange audio, and the audio relay.
-- What the surroundings answer is an argument: whether the callee has a live socket, at the two
-- places that ask, and whether a push notification was accepted for it.
use arcade_launcher_server.Base.{
  ℕ, ◌+◌, ◌*◌, ◌/◌, ◌%◌, suc, zero, Bool, not, ◌&&◌, ◌||◌, Option, none, some, List, [], ◌∷◌, ◌++◌,
  Text, codes, text_eq, Faults, ◌==◌, ltb, if◌then◌else◌, delete_where, is_some, take, drop, length,
}
use arcade_launcher_server.Calls.{
  Entry, Ringing, start, answered, ended_either_way, drop_for, expired,
}
use arcade_launcher_server.Social.Blocks.{call, interaction_refusal}
use arcade_launcher_server.Social.State.{Social, pair, is_pair, block_pair, are_friends, has_pair}

abbrev pub ring_timeout_secs : ℕ
ring_timeout_secs = 60

-- Frames that are pushed to an account, and missed calls that are written to the conversation.
pub data Signal : Type 0 where
  unreachable timed_out : (to about : ℕ) → Signal
  relay : (to sender : ℕ) → Text → Signal
  missed_call : (caller callee : ℕ) → Bool → Signal

unfoldable pub allow_voice : ℕ → ℕ → Social → Social
allow_voice a b s =
    let p = pair a b in
    if has_pair p.0 p.1 s.voice then s else record s { voice = (p.0, p.1) ∷ s.voice }

unfoldable pub disallow_voice : ℕ → ℕ → Social → Social
disallow_voice a b s = record s { voice = delete_where (is_pair (pair a b).0 (pair a b).1) s.voice }

unfoldable pub voice_allowed : ℕ → ℕ → Social → Bool
voice_allowed a b s = has_pair (pair a b).0 (pair a b).1 s.voice

abbrev ring_start : ℕ → ℕ → Bool → ℕ → Social → Social
ring_start caller callee video now s = record s { rings = start caller callee video now s.rings }

-- The facts that the handler asks for on its way.
pub record Surroundings : Type 0 where
  pub online : Bool
  pub woken : Bool
  pub online_later : Bool
  pub now : ℕ

abbrev missed_signals : Option Entry → List Signal
missed_signals none = []
missed_signals (some e) = missed_call e.0 e.1 e.2.video ∷ []

-- `match kind`, and the relay that follows it.
unfoldable pub signal_kind : ℕ → ℕ → Text → Bool → ℕ → Social → Social × List Signal
unfolding allow_voice disallow_voice
signal_kind uid to kind video now s =
    if text_eq kind (codes "invite")
    then (ring_start uid to video now (allow_voice uid to s), relay to uid kind ∷ [])
    else if text_eq kind (codes "accept")
    then (
      record (allow_voice uid to s) { rings = (answered to uid s.rings).1 },
      relay to uid kind ∷ [],
    )
    else if text_eq kind (codes "end")
    then (
      record (disallow_voice uid to s) { rings = (ended_either_way uid to s.rings).1 },
      missed_signals (ended_either_way uid to s.rings).0 ++ (relay to uid kind ∷ []),
    )
    else (s, relay to uid kind ∷ [])

-- The "voice_signal" arm of `handle_ws_message`.
unfoldable pub voice_signal :
    Faults → ℕ → ℕ → Text → Bool → Surroundings → Social → Social × List Signal
unfolding signal_kind
voice_signal f uid to kind video w s =
    if not (to == 0)
      && not (is_some (interaction_refusal (block_pair (f 0) s uid to) call))
      && are_friends (f 1) s uid to
    then (if text_eq kind (codes "invite") && not w.online && w.woken
        then (ring_start uid to video w.now (allow_voice uid to s), [])
        else if text_eq kind (codes "invite") && not w.online_later
        then (s, unreachable uid to ∷ missed_call uid to video ∷ [])
        else signal_kind uid to kind video w.now s)
    else (s, [])

-- `drop_voice_for`, when the last socket of an account closes.
unfoldable pub drop_voice_for : ℕ → Social → Social
drop_voice_for user s = record s { voice = delete_where (λ p. p.0 == user || p.1 == user) s.voice }

-- An account whose last socket has closed: its voice pairs and its rings go.
unfoldable pub drop_user : ℕ → Social → Social
unfolding drop_voice_for
drop_user user s = record (drop_voice_for user s) { rings = (drop_for user s.rings).1 }

-- The calls that still ring an account when a socket of it opens, each with its voice pair.
unfoldable pub replay_rings : ℕ → List (ℕ × Ringing) → Social → Social
unfolding allow_voice
replay_rings user [] s = s
replay_rings user (e ∷ live) s = replay_rings user live (allow_voice e.0 user s)

abbrev expired_signals : List Entry → List Signal
expired_signals [] = []
expired_signals (e ∷ es) = timed_out e.0 e.1 ∷ missed_call e.0 e.1 e.2.video ∷ expired_signals es

unfoldable pub disallow_all : List Entry → Social → Social
unfolding disallow_voice
disallow_all [] s = s
disallow_all (e ∷ es) s = disallow_all es (disallow_voice e.0 e.1 s)

-- One tick of `start_ring_sweeper`.
unfoldable pub sweep_rings : ℕ → Social → Social × List Signal
unfolding disallow_all
sweep_rings now s =
    let (out, rest) = expired now ring_timeout_secs s.rings in
    (disallow_all out (record s { rings = rest }), expired_signals out)

-- A number from its little-endian bytes, and its eight bytes.
unfoldable pub from_le_bytes : List ℕ → ℕ
from_le_bytes [] = 0
from_le_bytes (b ∷ bs) = b + 256 * from_le_bytes bs

unfoldable pub to_le_bytes : ℕ → ℕ → List ℕ
to_le_bytes zero n = []
to_le_bytes (suc k) n = n % 256 ∷ to_le_bytes k (n / 256)

-- `handle_ws_audio`: the target and the frame that its sockets receive.
unfoldable pub handle_ws_audio : ℕ → List ℕ → Social → Option (ℕ × List ℕ)
unfolding from_le_bytes to_le_bytes voice_allowed
handle_ws_audio uid bytes s =
    if ltb (length bytes) 8
    then none
    else let target = from_le_bytes (take 8 bytes) in
      if target == 0 || not (voice_allowed uid target s)
      then none
      else some (target, to_le_bytes 8 uid ++ drop 8 bytes)
