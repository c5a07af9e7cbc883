-- ===== src/Sockets/Departed.antt =====
-- src/social_api.rs: what the last socket of an account leaves behind.
use mathlib.Core.List.{reverse_aux-eq, append_assoc}
use arcade_launcher_server.Base.{
  ℕ, ◌+◌, ◌≡◌, refl, inl, inr, Bool, true, false, not, ◌||◌, Option, none, some, List, [], ◌∷◌,
  ◌++◌, map, reverse, keep, Text, codes, Faults, All, Bool-cases, Option-cases, ◌==◌, ==_refl,
  if◌then◌else◌, delete_where, text_eq,
}
use arcade_launcher_server.Calls.{Entry, involves, drop_for}
use arcade_launcher_server.Calls.Keys.{IsKeyed}
use arcade_launcher_server.Calls.Sweep.{drop_for-keep}
use arcade_launcher_server.Social.Voice.{drop_voice_for}
use arcade_launcher_server.Chat.{Chat, Message, record_missed_call}
use arcade_launcher_server.Sockets.{
  SocialConn, SocialHub, put_conns, retain_conns, unregister, went, is_online,
}
use arcade_launcher_server.Sockets.Presence.{set_presence, presence_of, shown_offline}
use arcade_launcher_server.Sockets.Closing.{
  Gateway, record_missed_calls, without_calls, close_socket,
}

abbrev pub Note : Type 0
Note = ℕ × ℕ × Text

-- The two parties and the kind of a message, and those of the record of a missed call.
abbrev pub note : Message → Note
note m = (m.sender_id, m.receiver_id, m.kind)

abbrev pub call_note : Entry → Note
call_note e = (e.0, e.1, codes "call_missed")

record_missed_calls-notes :
    (f : Faults) (now : ℕ) (es : List Entry) (s : Chat)
    → ((k : ℕ) → f k ≡ false)
    → map note (record_missed_calls f now es s).1.messages
      ≡ reverse (map call_note es) ++ map note s.messages
unfolding record_missed_calls record_missed_call
record_missed_calls-notes f now [] s works = refl
record_missed_calls-notes f now (e ∷ es) s works =
    let notes = map call_note es in
    rw
      (
        record_missed_calls-notes (λ k. f (k + 2)) now es
            (record_missed_call f e.0 e.1 e.2.video now s).1 (λ k. works (k + 2)),
        works 0,
        works 1,
        reverse_aux-eq notes (call_note e ∷ []),
        append_assoc (reverse notes) (call_note e ∷ []) (map note s.messages),
      )
      refl

record_missed_calls-social :
    (f : Faults) (now : ℕ) (es : List Entry) (s : Chat)
    → (record_missed_calls f now es s).1.social ≡ s.social
unfolding record_missed_calls record_missed_call
record_missed_calls-social f now [] s = refl
record_missed_calls-social f now (e ∷ es) s =
    rw
      (record_missed_calls-social (λ k. f (k + 2)) now es
        (record_missed_call f e.0 e.1 e.2.video now s).1)
      (kept)
  where
    kept : (record_missed_call f e.0 e.1 e.2.video now s).1.social ≡ s.social
    kept = elim (Bool-cases (f 0 || f 1)) [ inl fails ↦ rw fails refl | inr works ↦ rw works refl ]

-- An account without sockets: nobody sees it, no call stands open, its rings are gone from the
-- table, and each of them is a missed call in the conversation.
pub record Departed (uid : ℕ) (g g' : Gateway) : Type 0 where
  pub gone : is_online uid g'.hub ≡ false
  pub hidden :
      (online_hint : Bool) (now : ℕ)
      → presence_of false uid online_hint now g'.presences ≡ shown_offline
  pub silent : All (λ p. (p.0 == uid || p.1 == uid) ≡ false) g'.chat.social.voice
  pub rings : g'.chat.social.rings ≡ keep (λ e. not (involves uid e)) g.chat.social.rings
  pub recorded :
      map note g'.chat.messages
      ≡ reverse (map call_note (keep (involves uid) g.chat.social.rings))
        ++ map note g.chat.messages

went-gone : (old : Option (List SocialConn)) (rest : List SocialConn) → went old (some rest) ≡ false
went-gone none rest = refl
went-gone (some v) rest = refl

unregister-gone :
    (uid conn_id : ℕ) (h : SocialHub)
    → (unregister uid conn_id h).0 ≡ true
    → is_online uid (unregister uid conn_id h).1 ≡ false
unfolding unregister is_online put_conns
unregister-gone uid conn_id h last = elim (Option-cases (retain_conns conn_id (h.conns uid))) [
  | inl empty ↦ rw (is_online, empty, ==_refl uid) refl
  | inr (rest, left) ↦
      let stays = went-gone (h.conns uid) rest in absurd (cc (rw (unregister, left) at last, stays))
]

voices-silent :
    (uid : ℕ) (ps : List (ℕ × ℕ))
    → All
        (λ p. (p.0 == uid || p.1 == uid) ≡ false)
        (delete_where (λ p. p.0 == uid || p.1 == uid) ps)
unfolding delete_where
voices-silent uid [] = tt
voices-silent uid (p ∷ ps) = elim (Bool-cases (p.0 == uid || p.1 == uid)) [
  | inl hit ↦ rw hit (voices-silent uid ps)
  | inr miss ↦ rw miss (miss, voices-silent uid ps)
]

either : (b : Bool) → (if b then shown_offline else shown_offline) ≡ shown_offline
either true = refl
either false = refl

-- When the last socket of an account closes, and no statement fails: the account is offline and
-- shown to nobody, no call of its stays open, exactly the rings from and to it leave the table, and
-- each of them becomes one missed call between its two parties, in front of the messages of before.
-- No pair rings twice in the table.
pub close-Departed :
    (fails : Bool) (f : Faults) (uid conn_id now : ℕ) (g : Gateway)
    → fails ≡ false
    → ((k : ℕ) → f k ≡ false)
    → IsKeyed g.chat.social.rings
    → (unregister uid conn_id g.hub).0 ≡ true
    → Departed uid g (close_socket fails f uid conn_id now g).1
unfolding close_socket set_presence presence_of text_eq drop_voice_for
close-Departed fails f uid conn_id now g done works keyed last =
    let rings = g.chat.social.rings in
    let split = drop_for-keep uid rings keyed in
    let s = without_calls uid g.chat in
    let social = record_missed_calls-social f now (drop_for uid rings).0 s in
    let notes = record_missed_calls-notes f now (drop_for uid rings).0 s works in
    rw last (record {
      gone = unregister-gone uid conn_id g.hub last;
      hidden = λ online_hint later. rw (done, ==_refl uid) (either _);
      silent = rw social (voices-silent uid g.chat.social.voice);
      rings = rw (social, split) refl;
      recorded = rw (notes, split) refl;
    })
