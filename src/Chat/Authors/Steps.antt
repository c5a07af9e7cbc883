-- ===== src/Chat/Authors/Steps.antt =====
-- src/social_api.rs: what each event does to the messages.
use arcade_launcher_server.Base.{
  ℕ, ◌≡◌, ◌⊎◌, refl, inl, inr, Bool, true, false, not, ◌&&◌, ◌||◌, Option, none, some, List, [],
  ◌∷◌, Text, Faults, All, All-map, All-select_first, ◌==◌, select_first, is_some, is_empty,
  Bool-cases, Option-cases, arith,
}
use arcade_launcher_server.Chat.{
  Message, Chat, Draft, draft, new_message, link_attachment, insert_message, store_with, has_nonce,
  deliver, is_dropped, handle_ws_chat, own_live, change_message, inbound, mark_read,
}
use arcade_launcher_server.Chat.Owners.{DistinctIds}
use arcade_launcher_server.Chat.Authors.{
  reads_as, Allowed, Grown, Changes-refl, Changes-update, select-All,
}
use arcade_launcher_server.Chat.Steps.{Event}

pub same : (e : Event) (ms ms' : List Message) → ms' ≡ ms → Grown e ms ms'
same e ms ms' eq = rw eq (inl (Changes-refl e ms))

-- The rows that an edit or a deletion finds are live and their sender's.
abbrev pub Live : ℕ → Message → Type 0
Live uid q = (q.sender_id ≡ uid) × (q.deleted_at ≡ none)

own-Live :
    (uid id : ℕ) (m : Message) (ms : List Message)
    → DistinctIds ms
    → select_first (own_live uid id) ms ≡ some m
    → All (λ q. (q.id == id) ≡ true → Live uid q) ms
own-Live uid id m ms d there =
    let (_, hit) = All-select_first (λ q. Unit {0}) (own_live uid id) ms m (units ms) there in
    let at : m.id ≡ id = ground arith in
    let live : Live uid m = (ground arith, ground arith) in
    rw at at (select-All (Live uid) (own_live uid id) m ms d live there)
  where
    units : (ms : List Message) → All (λ q. Unit {0}) ms
    units [] = tt
    units (q ∷ qs) = (tt, units qs)

pub change-Grown :
    (e : Event) (fails : Bool) (uid id : ℕ) (g : Message → Message) (m : Message) (s : Chat)
    → ((q : Message) → Live uid q → Allowed e q (g q))
    → DistinctIds s.messages
    → select_first (own_live uid id) s.messages ≡ some m
    → Grown e s.messages (change_message fails id g s).messages
change-Grown e true uid id g m s allowed d there = inl (Changes-refl e s.messages)
change-Grown e false uid id g m s allowed d there = inl (
    Changes-update e (λ q. q.id == id) g s.messages
      (All-map s.messages (λ q k at. allowed q (k at)) (own-Live uid id m s.messages d there)))

pub mark-Grown :
    (e : Event) (fails : Bool) (me peer now : ℕ) (s : Chat)
    → reads_as e me ≡ true
    → Grown e s.messages (mark_read fails me peer now s).messages
mark-Grown e true me peer now s actor = inl (Changes-refl e s.messages)
mark-Grown e false me peer now s actor = inl (
    Changes-update e (λ m. inbound me peer m && not (is_some m.read_at)) _ s.messages
      (each s.messages))
  where
    each :
        (ms : List Message)
        → All
            (λ m.
              (inbound me peer m && not (is_some m.read_at)) ≡ true
              → Allowed e m (record m { read_at = some now }))
            ms
    each [] = tt
    each (m ∷ ms) = (
      λ hit.
          let receiver : me ≡ m.receiver_id = ground arith in
          record {
            same_id = refl;
            same_sender = refl;
            same_receiver = refl;
            same_nonce = refl;
            text = inl (refl, refl);
            mark = inr (ground arith, rw receiver at actor);
          },
      each ms,
    )

-- A message that is sent adds one row or none.
abbrev pub Front : List Message → List Message → Type 0
Front ms ms' = (ms' ≡ ms) ⊎ ((m : Message) × (ms' ≡ m ∷ ms))

link-messages :
    (fails : Bool) (owner a id : ℕ) (s : Chat)
    → (link_attachment fails owner a id s).1.messages ≡ s.messages
unfolding link_attachment
link-messages fails owner a id s = ground arith

pub deliver-messages :
    (f : Faults) (d : Draft) (o : Option (ℕ × ℕ × Option ℕ) × Chat)
    → (deliver f d o).1.messages ≡ o.1.messages
deliver-messages f d (none, s) = refl
deliver-messages f d (some (id, ts, reply), s) = link-messages (f 7) d.sender d.attachment id s

insert-Front :
    (fails : Bool) (d : Draft) (ts : ℕ) (s : Chat)
    → Front s.messages (insert_message fails d ts s).1.messages
unfolding insert_message
insert-Front true d ts s = inl refl
insert-Front false d ts s = inr (new_message s.next_message d ts, refl)

store-Front :
    (same_text : Text → Text → Bool)
    → (f : Faults) (o : Option Text) (d : Draft) (ts : ℕ) (s : Chat)
    → Front s.messages (store_with same_text f o d ts s).1.messages
unfolding store_with
store-Front same_text f none d ts s = insert-Front (f 6) d ts s
store-Front same_text f (some n) d ts s = elim (Bool-cases (f 5)) [
  | inl fails ↦ rw fails (insert-Front (f 6) d ts s)
  | inr works ↦ elim (Option-cases (select_first (has_nonce same_text d.sender n) s.messages)) [
    | inl new ↦ rw (works, new) (insert-Front (f 6) d ts s)
    | inr (m, there) ↦ rw (works, there) (inl refl)
  ]
]

pub chat-Front :
    (same_text : Text → Text → Bool)
    → (f : Faults) (uid to : ℕ) (text : Text) (r : ℕ) (n : Text) (a now : ℕ) (s : Chat)
    → Front s.messages (handle_ws_chat same_text f uid to text r n a now s).1.messages
unfolding handle_ws_chat
chat-Front same_text f uid to text r n a now s =
    elim (Bool-cases (to == 0 || (is_empty text && a == 0))) [
      | inl blank ↦ rw (handle_ws_chat, blank) (inl refl)
      | inr filled ↦ elim (Bool-cases (is_dropped f uid to s || f 4)) [
        | inl dropped ↦ rw (handle_ws_chat, filled, dropped) (inl refl)
        | inr goes ↦
            let d = draft uid to text r n a in
            let kept = deliver-messages f d (store_with same_text f d.nonce d now s) in
            rw (handle_ws_chat, filled, goes, kept) (store-Front same_text f d.nonce d now s)
      ]
    ]

pub Front-Grown : (e : Event) (ms ms' : List Message) → Front ms ms' → Grown e ms ms'
Front-Grown e ms ms' (inl eq) = same e ms ms' eq
Front-Grown e ms ms' (inr new) = inr new
