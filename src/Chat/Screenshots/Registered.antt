-- ===== src/Chat/Screenshots/Registered.antt =====
-- src/social_api.rs: that a screenshot is of a file of the account that registered it.
use arcade_launcher_server.Base.{
  ℕ, suc, ◌<◌, ◌≡◌, ◌⊎◌, refl, sym, subst, inl, inr, Bool, true, false, not, ◌||◌, Option, none,
  some, List, [], ◌∷◌, take, Text, Faults, All, All-map, All-update_where, All-delete_where,
  All-select_first, ◌==◌, select_first, update_where, is_empty, Bool-cases, Option-cases,
  if◌then◌else◌, arith,
}
use arcade_launcher_server.Social.State.{Social}
use arcade_launcher_server.Chat.{Attachment, Chat}
use arcade_launcher_server.Chat.Steps
use arcade_launcher_server.Chat.Screenshots.{
  Screenshot, Gallery, owner_of, is_mine, api_social_screenshot_create,
  api_social_screenshot_delete, Event, messages, shares, unshares, step, run,
}
use arcade_launcher_server.Chat.Screenshots.Owned.{link_to, FileMove, step-FileMove}

-- The account registered the file as a screenshot.
abbrev pub Shared : ℕ → ℕ → List Event → Type 0
Shared u aid [] = ⊥
Shared u aid (shares f me game_id attachment_id caption now ∷ es) =
    ((me ≡ u) × (attachment_id ≡ aid)) ⊎ Shared u aid es
Shared u aid (messages e ∷ es) = Shared u aid es
Shared u aid (unshares f me id ∷ es) = Shared u aid es

abbrev pub Below : ℕ → List Attachment → Type 0
Below n files = All (λ a. a.id < n) files

owner_of-cons :
    (id : ℕ) (a : Attachment) (files : List Attachment)
    → owner_of id (a ∷ files) ≡ (if a.id == id then some a.owner_id else owner_of id files)
unfolding owner_of select_first
owner_of-cons id a files = elim (Bool-cases (a.id == id)) [
  | inl here ↦ rw (owner_of, here) refl
  | inr away ↦ rw (owner_of, away) refl
]

owner_of-link :
    (p : Attachment → Bool) (mid id : ℕ) (files : List Attachment)
    → owner_of id (update_where p (link_to mid) files) ≡ owner_of id files
unfolding update_where
owner_of-link p mid id [] = refl
owner_of-link p mid id (a ∷ files) =
    let rest = update_where p (link_to mid) files in
    elim (Bool-cases (p a)) [
      | inl hit ↦
          rw
            (
              hit,
              owner_of-cons id (link_to mid a) rest,
              owner_of-cons id a files,
              owner_of-link p mid id files,
            )
            refl
      | inr miss ↦
          rw (miss, owner_of-cons id a rest, owner_of-cons id a files, owner_of-link p mid id files)
            refl
    ]

owner_of-Below :
    (n id u : ℕ) (files : List Attachment) → Below n files → owner_of id files ≡ some u → id < n
unfolding owner_of
owner_of-Below n id u files k owned = elim (Option-cases (select_first (λ a. a.id == id) files)) [
  | inl missing ↦ absurd (ground arith)
  | inr (a, there) ↦
      let (lt, hit) = All-select_first (λ a. a.id < n) (λ a. a.id == id) files a k there in
      ground arith
]

owner_of-added :
    (n id u : ℕ) (a : Attachment) (files : List Attachment)
    → a.id ≡ n
    → Below n files
    → owner_of id files ≡ some u
    → owner_of id (a ∷ files) ≡ some u
owner_of-added n id u a files e k owned =
    let lt = owner_of-Below n id u files k owned in
    let away : (a.id == id) ≡ false = ground arith in rw (owner_of-cons id a files, away) owned

step-Below :
    (s s' : Chat)
    → FileMove s s'
    → Below s.next_attachment s.attachments
    → Below s'.next_attachment s'.attachments
step-Below s s' (inl (k, n)) b =
    subst (λ files. Below s'.next_attachment files) (sym k)
      (subst (λ m. Below m s.attachments) (sym n) b)
step-Below s s' (inr (inl l)) b =
    subst (λ files. Below s'.next_attachment files) (sym l.linked)
      (subst (λ m. Below m (update_where l.picked (link_to l.mid) s.attachments)) (sym l.same_next)
        (All-update_where l.picked (link_to l.mid) s.attachments (λ a k _. k) (λ a k _. k) b))
step-Below s s' (inr (inr l)) b =
    let grown : Below (suc s.next_attachment) (l.file ∷ s.attachments) =
      (let e = l.numbered in omega arith, All-map s.attachments (λ a lt. omega arith) b) in
    subst (λ files. Below s'.next_attachment files) (sym l.added)
      (subst (λ m. Below m (l.file ∷ s.attachments)) (sym l.next) grown)

step-owner_of :
    (s s' : Chat) (id u : ℕ)
    → FileMove s s'
    → Below s.next_attachment s.attachments
    → owner_of id s.attachments ≡ some u
    → owner_of id s'.attachments ≡ some u
step-owner_of s s' id u (inl (k, n)) b owned =
    subst (λ files. owner_of id files ≡ some u) (sym k) owned
step-owner_of s s' id u (inr (inl l)) b owned =
    subst (λ files. owner_of id files ≡ some u) (sym l.linked)
      (rw (owner_of-link l.picked l.mid id s.attachments) owned)
step-owner_of s s' id u (inr (inr l)) b owned =
    subst (λ files. owner_of id files ≡ some u) (sym l.added)
      (owner_of-added s.next_attachment id u l.file s.attachments l.numbered b owned)

-- Every screenshot is of a file of its account, which registered it.
abbrev pub Registered : List Event → List Attachment → Screenshot → Type 0
Registered es files q =
    (owner_of q.attachment_id files ≡ some q.user_id) × Shared q.user_id q.attachment_id es

pub record IsOwned (es : List Event) (g : Gallery) : Type 0 where
  pub below : Below g.chat.next_attachment g.chat.attachments
  pub registered : All (Registered es g.chat.attachments) g.screenshots

widen :
    (e : Event) (es : List Event) (files : List Attachment) (qs : List Screenshot)
    → ((u aid : ℕ) → Shared u aid es → Shared u aid (e ∷ es))
    → All (Registered es files) qs
    → All (Registered (e ∷ es) files) qs
widen e es files qs h k = All-map qs (λ q (o, m). (o, h q.user_id q.attachment_id m)) k

mine : (me : ℕ) (o : Option ℕ) → is_mine me o ≡ true → o ≡ some me
mine me none h = absurd (cc)
mine me (some u) h = let same : u ≡ me = ground arith in rw same refl

create-Registered :
    (f : Faults) (me : ℕ) (game_id : Text) (aid : ℕ) (caption : Option Text) (now : ℕ) (g : Gallery)
    (es : List Event)
    → IsOwned es g
    → IsOwned
        (shares f me game_id aid caption now ∷ es)
        (api_social_screenshot_create f me game_id aid caption now g).1
unfolding api_social_screenshot_create
create-Registered f me game_id aid caption now g es k =
    let event = shares f me game_id aid caption now in
    let before = widen event es g.chat.attachments g.screenshots (λ u i. inr) k.registered in
    elim (Bool-cases (is_empty (take 80 game_id))) [
      | inl blank ↦ rw blank (record { below = k.below; registered = before })
      | inr named ↦ elim (Bool-cases (f 0)) [
        | inl down ↦ rw (named, down) (record { below = k.below; registered = before })
        | inr up ↦ elim (Bool-cases (f 1 || not (is_mine me (owner_of aid g.chat.attachments)))) [
          | inl foreign ↦ rw (named, up, foreign) (record { below = k.below; registered = before })
          | inr own ↦ elim (Bool-cases (f 2)) [
            | inl fails ↦
                rw (named, up, own, fails) (record { below = k.below; registered = before })
            | inr works ↦
                let owner = mine me (owner_of aid g.chat.attachments) (ground arith) in
                rw (named, up, own, works)
                  (record { below = k.below; registered = ((owner, inl (refl, refl)), before) })
          ]
        ]
      ]
    ]

delete-Registered :
    (f : Faults) (me id : ℕ) (g : Gallery) (es : List Event)
    → IsOwned es g
    → IsOwned (unshares f me id ∷ es) (api_social_screenshot_delete f me id g)
unfolding api_social_screenshot_delete
delete-Registered f me id g es k = elim (Bool-cases (f 0 || f 1)) [
  | inl fails ↦ rw fails (record { below = k.below; registered = k.registered })
  | inr works ↦ rw works (record {
    below = k.below;
    registered = All-delete_where _ g.screenshots (λ q m _. m) k.registered;
  })
]

pub run-IsOwned :
    (same_text : Text → Text → Bool) (es : List Event) (social : Social)
    → IsOwned es (run same_text es social)
unfolding run step Steps.run
run-IsOwned same_text [] social = record { below = tt; registered = tt }
run-IsOwned same_text (messages e ∷ es) social =
    let g = run same_text es social in
    let k = run-IsOwned same_text es social in
    let done = step-FileMove same_text e g.chat in
    record {
      below = step-Below g.chat (Steps.step same_text e g.chat) done k.below;
      registered =
          All-map g.screenshots
            (λ q (o, m). (
              step-owner_of g.chat (Steps.step same_text e g.chat) q.attachment_id q.user_id done
                  k.below o,
              m,
            ))
            k.registered;
    }
run-IsOwned same_text (shares f me game_id aid caption now ∷ es) social =
    create-Registered f me game_id aid caption now (run same_text es social) es
      (run-IsOwned same_text es social)
run-IsOwned same_text (unshares f me id ∷ es) social =
    delete-Registered f me id (run same_text es social) es (run-IsOwned same_text es social)
