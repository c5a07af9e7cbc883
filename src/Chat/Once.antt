-- ===== src/Chat/Once.antt =====
-- src/social_api.rs: a message that a client sends again.
use arcade_launcher_server.Base.{
  ℕ, ◌≡◌, refl, inl, inr, Bool, true, false, ◌&&◌, ◌||◌, Option, none, some, is_some, List, [], ◌∷◌,
  any, Text, take, Faults, ◌==◌, ==_refl, select_first, is_empty, Bool-cases, Option-cases, arith,
}
use arcade_launcher_server.Chat.{
  Message, Chat, Draft, draft, new_message, insert_message, store_with, has_nonce, deliver,
  is_dropped, handle_ws_chat,
}
use arcade_launcher_server.Chat.Authors.Steps.{deliver-messages}

abbrev Known : (same_text : Text → Text → Bool) → ℕ → Text → List Message → Type 0
Known same_text uid n ms = any (has_nonce same_text uid n) ms ≡ true

select-any :
    (p : Message → Bool) (ms : List Message)
    → any p ms ≡ true
    → (m : Message) × (select_first p ms ≡ some m)
unfolding select_first
select-any p [] h = absurd (cc)
select-any p (m ∷ ms) h = elim (Bool-cases (p m)) [
  | inl hit ↦ rw hit (m, refl)
  | inr miss ↦ rw miss (select-any p ms (rw miss at h))
]

any-select :
    (p : Message → Bool) (m : Message) (ms : List Message)
    → select_first p ms ≡ some m
    → any p ms ≡ true
unfolding select_first
any-select p m [] there = absurd (cc)
any-select p m (q ∷ ms) there = ground (arith, any-select p m ms)

insert-Known :
    (same_text : Text → Text → Bool)
    → (fails : Bool) (d : Draft) (n : Text) (ts : ℕ) (s : Chat) → d.nonce ≡ some n
    → same_text n n ≡ true
    → is_some (insert_message fails d ts s).0 ≡ true
    → Known same_text d.sender n (insert_message fails d ts s).1.messages
unfolding insert_message
insert-Known same_text true d n ts s given alike stored = absurd (cc)
insert-Known same_text false d n ts s given alike stored =
    let mine : has_nonce same_text d.sender n (new_message s.next_message d ts) ≡ true =
      ground (arith, given, ==_refl d.sender, alike) in
    rw mine refl

store-Known :
    (same_text : Text → Text → Bool)
    → (f : Faults) (d : Draft) (n : Text) (ts : ℕ) (s : Chat) → d.nonce ≡ some n
    → same_text n n ≡ true
    → is_some (store_with same_text f (some n) d ts s).0 ≡ true
    → Known same_text d.sender n (store_with same_text f (some n) d ts s).1.messages
unfolding store_with
store-Known same_text f d n ts s given alike stored = elim (Bool-cases (f 5)) [
  | inl fails ↦ rw fails (insert-Known same_text (f 6) d n ts s given alike (rw fails at stored))
  | inr works ↦ elim (Option-cases (select_first (has_nonce same_text d.sender n) s.messages)) [
    | inl new ↦
        rw (works, new)
          (insert-Known same_text (f 6) d n ts s given alike (rw (works, new) at stored))
    | inr (m, there) ↦
        rw (works, there) (any-select (has_nonce same_text d.sender n) m s.messages there)
  ]
]

again-messages :
    (same_text : Text → Text → Bool)
    → (g : Faults) (d : Draft) (n : Text) (ts : ℕ) (s : Chat) → g 5 ≡ false
    → Known same_text d.sender n s.messages
    → (store_with same_text g (some n) d ts s).1.messages ≡ s.messages
unfolding store_with
again-messages same_text g d n ts s works known =
    let (m, there) = select-any (has_nonce same_text d.sender n) s.messages known in
    rw (works, there) refl

deliver-some :
    (f : Faults) (d : Draft) (o : Option (ℕ × ℕ × Option ℕ) × Chat)
    → is_empty (deliver f d o).0 ≡ false
    → is_some o.0 ≡ true
deliver-some f d (none, s) h = absurd (cc)
deliver-some f d (some (id, ts, reply), s) h = refl

-- The draft of a message with a nonce.
abbrev nonced : ℕ → ℕ → Text → ℕ → Text → ℕ → Draft
nonced uid to text r n a = record (draft uid to text r n a) { nonce = some (take 40 n) }

sent-Known :
    (same_text : Text → Text → Bool)
    → (f : Faults) (uid to : ℕ) (text : Text) (r : ℕ) (n : Text) (a now : ℕ) (s : Chat)
    → is_empty n ≡ false
    → same_text (take 40 n) (take 40 n) ≡ true
    → is_empty (handle_ws_chat same_text f uid to text r n a now s).0 ≡ false
    → Known same_text uid
        (take 40 n)
        (handle_ws_chat same_text f uid to text r n a now s).1.messages
unfolding handle_ws_chat
sent-Known same_text f uid to text r n a now s given alike sent =
    elim (Bool-cases (to == 0 || (is_empty text && a == 0))) [
      | inl blank ↦ absurd (ground arith)
      | inr filled ↦ elim (Bool-cases (is_dropped f uid to s || f 4)) [
        | inl dropped ↦ absurd (ground arith)
        | inr goes ↦
            let d = nonced uid to text r n a in
            let o = store_with same_text f (some (take 40 n)) d now s in
            let some_row = deliver-some f d o (rw (handle_ws_chat, filled, goes, given) at sent) in
            rw (handle_ws_chat, filled, goes, given, deliver-messages f d o)
              (store-Known same_text f d (take 40 n) now s refl alike some_row)
      ]
    ]

again_same :
    (same_text : Text → Text → Bool)
    → (g : Faults) (uid to : ℕ) (text : Text) (r : ℕ) (n : Text) (a now : ℕ) (s : Chat)
    → is_empty n ≡ false
    → g 5 ≡ false
    → Known same_text uid (take 40 n) s.messages
    → (handle_ws_chat same_text g uid to text r n a now s).1.messages ≡ s.messages
unfolding handle_ws_chat
again_same same_text g uid to text r n a now s given works known =
    elim (Bool-cases (to == 0 || (is_empty text && a == 0))) [
      | inl blank ↦ rw (handle_ws_chat, blank) refl
      | inr filled ↦ elim (Bool-cases (is_dropped g uid to s || g 4)) [
        | inl dropped ↦ rw (handle_ws_chat, filled, dropped) refl
        | inr goes ↦
            let d = nonced uid to text r n a in
            let o = store_with same_text g (some (take 40 n)) d now s in
            rw (handle_ws_chat, filled, goes, given, deliver-messages g d o)
              (again-messages same_text g d (take 40 n) now s works known)
      ]
    ]

-- A message that went out with a nonce is stored once: whatever the same account then sends with
-- that nonce, to whomever, adds and changes no message, provided that the search for the nonce does
-- not fail and that the database finds a nonce equal to itself.
pub sent_once :
    (same_text : Text → Text → Bool)
    → (f g : Faults) (uid to to' : ℕ) (text text' : Text) (r r' : ℕ) (n : Text) (a a' now now' : ℕ)
      (s : Chat)
    → is_empty n ≡ false
    → same_text (take 40 n) (take 40 n) ≡ true
    → g 5 ≡ false
    → is_empty (handle_ws_chat same_text f uid to text r n a now s).0 ≡ false
    → (handle_ws_chat same_text g uid to' text' r' n a' now'
        (handle_ws_chat same_text f uid to text r n a now s).1).1.messages
      ≡ (handle_ws_chat same_text f uid to text r n a now s).1.messages
sent_once same_text f g uid to to' text text' r r' n a a' now now' s given alike works sent =
    again_same same_text g uid to' text' r' n a' now'
      (handle_ws_chat same_text f uid to text r n a now s).1 given works
      (sent-Known same_text f uid to text r n a now s given alike sent)
