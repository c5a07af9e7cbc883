-- ===== src/Credentials/Names/Queries.antt =====
-- src/crypto.rs: that a cleaned search query is clean.
use arcade_launcher_server.Base.{
  ℕ, ◌≤◌, ◌≡◌, refl, ap, inl, inr, false, not, List, [], ◌∷◌, ◌++◌, keep, length, Text, All,
  All-append, All-keep, join, is_whitespace, is_control, is_empty, ltb, ok, Bool-cases, arith,
}
use arcade_launcher_server.Credentials.Names.{
  cons_to_first, split_spaces, split_whitespace, space, clean_query, sanitize_search_query,
}

abbrev Solid : Text → Type 0
Solid w = All (λ c. is_whitespace c ≡ false) w

abbrev Plain : Text → Type 0
Plain w = All (λ c. is_control c ≡ false) w

split_spaces-word : (w s : Text) → Solid w → split_spaces (w ++ space ++ s) ≡ w ∷ split_spaces s
unfolding split_spaces is_whitespace
split_spaces-word [] s k = refl
split_spaces-word (c ∷ w) s (solid, k) = rw (split_spaces-word w s k, solid) refl

split_spaces-last : (w : Text) → Solid w → split_spaces w ≡ w ∷ []
unfolding split_spaces
split_spaces-last [] k = refl
split_spaces-last (c ∷ w) (solid, k) = rw (split_spaces-last w k, solid) refl

-- A word: neither empty nor with a space in it.
abbrev IsWord : Text → Type 0
IsWord w = Solid w × (is_empty w ≡ false)

split_whitespace-join : (ws : List Text) → All IsWord ws → split_whitespace (join space ws) ≡ ws
unfolding split_whitespace split_spaces join
split_whitespace-join [] k = refl
split_whitespace-join (w ∷ []) ((solid, full), k) = rw (split_spaces-last w solid, full) refl
split_whitespace-join (w ∷ v ∷ ws) ((solid, full), k) =
    let rest = split_whitespace-join (v ∷ ws) k in
    rw (split_spaces-word w (join space (v ∷ ws)) solid, full) (ap (λ vs. w ∷ vs) rest)

cons-Solid :
    (c : ℕ) (ws : List Text)
    → is_whitespace c ≡ false
    → All Solid ws
    → All Solid (cons_to_first c ws)
cons-Solid c [] e k = ((e, tt), tt)
cons-Solid c (w ∷ ws) e (k, ks) = ((e, k), ks)

split_spaces-Solid : (s : Text) → All Solid (split_spaces s)
unfolding split_spaces
split_spaces-Solid [] = (tt, tt)
split_spaces-Solid (c ∷ s) = elim (Bool-cases (is_whitespace c)) [
  | inl hit ↦ rw hit (tt, split_spaces-Solid s)
  | inr miss ↦ rw miss (cons-Solid c (split_spaces s) miss (split_spaces-Solid s))
]

keep-IsWord : (ws : List Text) → All Solid ws → All IsWord (keep (λ w. not (is_empty w)) ws)
keep-IsWord [] k = tt
keep-IsWord ([] ∷ ws) (k, ks) = keep-IsWord ws ks
keep-IsWord ((c ∷ w) ∷ ws) (k, ks) = ((k, refl), keep-IsWord ws ks)

split_whitespace-IsWord : (s : Text) → All IsWord (split_whitespace s)
unfolding split_whitespace
split_whitespace-IsWord s = keep-IsWord (split_spaces s) (split_spaces-Solid s)

cons-Plain :
    (c : ℕ) (ws : List Text) → is_control c ≡ false → All Plain ws → All Plain (cons_to_first c ws)
cons-Plain c [] e k = ((e, tt), tt)
cons-Plain c (w ∷ ws) e (k, ks) = ((e, k), ks)

split_spaces-Plain : (s : Text) → Plain s → All Plain (split_spaces s)
unfolding split_spaces
split_spaces-Plain [] k = (tt, tt)
split_spaces-Plain (c ∷ s) (e, k) = elim (Bool-cases (is_whitespace c)) [
  | inl hit ↦ rw hit (tt, split_spaces-Plain s k)
  | inr miss ↦ rw miss (cons-Plain c (split_spaces s) e (split_spaces-Plain s k))
]

join-Plain : (ws : List Text) → All Plain ws → Plain (join space ws)
unfolding join is_control
join-Plain [] k = tt
join-Plain (w ∷ []) (k, ks) = k
join-Plain (w ∷ v ∷ ws) (k, ks) =
    All-append (λ c. is_control c ≡ false) (w ++ space) (join space (v ∷ ws))
      (All-append (λ c. is_control c ≡ false) w space k (refl, tt)) (join-Plain (v ∷ ws) ks)

keep-Plain : (s : Text) → Plain (keep (λ c. not (is_control c)) s)
keep-Plain [] = tt
keep-Plain (c ∷ s) = ground (arith, keep-Plain s)

keep-same : (s : Text) → Plain s → keep (λ c. not (is_control c)) s ≡ s
keep-same [] k = refl
keep-same (c ∷ s) (e, k) = rw e (ap (λ t. c ∷ t) (keep-same s k))

clean_query-Plain : (q : Text) → Plain (clean_query q)
unfolding clean_query split_whitespace
clean_query-Plain q =
    let s = keep (λ c. not (is_control c)) q in
    join-Plain (split_whitespace s) (
      All-keep Plain (λ w. not (is_empty w)) (split_spaces s) (split_spaces-Plain s (keep-Plain q)))

pub clean_query-same : (q : Text) → clean_query (clean_query q) ≡ clean_query q
unfolding clean_query
clean_query-same q =
    let s = keep (λ c. not (is_control c)) q in
    rw
      (
        clean_query,
        keep-same (clean_query q) (clean_query-Plain q),
        split_whitespace-join (split_whitespace s) (split_whitespace-IsWord s),
      )
      refl

-- A query that is accepted has no control character and 120 characters at most, and it is accepted
-- again as it stands.
pub sanitize_search_query-ok :
    (q r : Text)
    → sanitize_search_query q ≡ ok r
    → All (λ c. is_control c ≡ false) r × (length r ≤ 120) × (sanitize_search_query r ≡ ok r)
unfolding sanitize_search_query
sanitize_search_query-ok q r h = elim (Bool-cases (is_empty (clean_query q))) [
  | inl blank ↦ absurd (ground arith)
  | inr some_text ↦ elim (Bool-cases (ltb 120 (length (clean_query q)))) [
    | inl long ↦ absurd (ground arith)
    | inr short ↦
        let same : clean_query q ≡ r = ground arith in
        let plain = clean_query-Plain q in
        let again = clean_query-same q in
        rw (← same) (plain, ground arith, rw (sanitize_search_query, again, some_text, short) refl)
  ]
]
