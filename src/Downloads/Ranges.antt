-- ===== src/Downloads/Ranges.antt =====
-- src/files.rs: which ranges are accepted, and what is sent for them.
use arcade_launcher_server.Base.{
  ℕ, zero, suc, ◌+◌, ◌-◌, ◌≤◌, ◌<◌, min, ◌≡◌, refl, subst, ◌⊎◌, false, Option, none, some, List, [],
  ◌∷◌, Text, trim, length, take, drop, length-take, length-drop, split_on, arith, Bool-cases,
  Option-cases, inl, inr, ok, err, is_empty, ◌==◌,
}
use arcade_launcher_server.Downloads.{
  u64_max, Range, suffix_range, bounded_range, end_of, range_of, parse_range, parse_u64, split_once,
  first_piece, stream_file, reply_for, served, FileReply, Status, full, partial_content,
}

-- A range of a file of a given size.
abbrev pub IsWithin : ℕ → ℕ × ℕ → Type 0
IsWithin size r = (r.0 ≤ r.1) × (r.1 < size)

suffix-IsWithin :
    (o : Option ℕ) (size : ℕ) (r : ℕ × ℕ)
    → 0 < size
    → suffix_range o size ≡ ok (some r)
    → IsWithin size r
suffix-IsWithin none size r pos given = absurd cc
suffix-IsWithin (some n) size r pos given = ground arith

bounded-IsWithin :
    (start end size : ℕ) (r : ℕ × ℕ) → bounded_range start end size ≡ ok (some r) → IsWithin size r
bounded-IsWithin start end size r given = ground arith

range_of-IsWithin :
    (start_s end_s : Text) (size : ℕ) (r : ℕ × ℕ)
    → 0 < size
    → range_of start_s end_s size ≡ ok (some r)
    → IsWithin size r
unfolding range_of
range_of-IsWithin start_s end_s size r pos given = elim (Bool-cases (is_empty start_s)) [
  | inl open_start ↦
      suffix-IsWithin (parse_u64 end_s) size r pos (rw (range_of, open_start) at given)
  | inr named ↦ elim (Option-cases (parse_u64 start_s)) [
    | inl bad ↦ absurd (ground arith)
    | inr (start, good) ↦ elim (Option-cases (end_of end_s size)) [
      | inl bad ↦ absurd (ground arith)
      | inr (end, fine) ↦
          bounded-IsWithin start end size r (rw (range_of, named, good, fine) at given)
    ]
  ]
]

-- A range that is accepted for a file that is not empty lies in the file, whatever the header says.
pub parse_range-IsWithin :
    (header : Option Text) (size : ℕ) (r : ℕ × ℕ)
    → 0 < size
    → parse_range header size ≡ ok (some r)
    → IsWithin size r
unfolding parse_range
parse_range-IsWithin none size r pos given = absurd cc
parse_range-IsWithin (some header) size r pos given =
    elim (Option-cases (split_once b'-' (trim (first_piece (split_on b',' (drop 6 header)))))) [
      | inl whole ↦ absurd (ground arith)
      | inr ((start_s, end_s), cut) ↦ ground (arith, range_of-IsWithin start_s end_s size r pos)
    ]

-- What a file reply is, for the bytes of the file.
pub record IsExact (bytes : List ℕ) (r : FileReply) : Type 0 where
  pub announced : length r.body ≡ r.content_length
  pub complete : r.status ≡ full → r.body ≡ bytes

take-all : (n : ℕ) (xs : List ℕ) → length xs ≤ n → take n xs ≡ xs
take-all zero [] h = refl
take-all (suc n) [] h = refl
take-all zero (x ∷ xs) h = absurd (omega arith)
take-all (suc n) (x ∷ xs) h = rw (take-all n xs (omega arith)) refl

-- The length that is announced for a range is the one of the bytes that are sent.
sent :
    (start end : ℕ) (status : Status) (bytes : List ℕ)
    → length bytes ≤ u64_max
    → (length bytes ≡ 0) ⊎ IsWithin (length bytes) (start, end)
    → length (served status start end bytes).body ≡ (served status start end bytes).content_length
sent start end status bytes small (inl empty) =
    let len = length-take 0 (drop start bytes) in ground (arith, len)
sent start end status bytes small (inr (le, lt)) =
    let len = length-take (min (end - start + 1) u64_max) (drop start bytes) in
    ground (arith, len, length-drop start bytes)

served-full :
    (bytes : List ℕ)
    → length bytes ≤ u64_max
    → (served full 0 (length bytes - 1) bytes).body ≡ bytes
served-full [] small = refl
served-full (x ∷ xs) small =
    let all_of : min (length (x ∷ xs) - 1 - 0 + 1) u64_max ≡ length (x ∷ xs) = omega arith in
    let some_there : (length (x ∷ xs) == 0) ≡ false = ground arith in
    rw (some_there, all_of) (take-all (length (x ∷ xs)) (x ∷ xs) (omega arith))

empty-suffix :
    (bytes : List ℕ) (r : ℕ × ℕ) (header : Option Text)
    → parse_range header (length bytes) ≡ ok (some r)
    → (length bytes ≡ 0) ⊎ IsWithin (length bytes) r
empty-suffix bytes r header given = elim (Bool-cases (length bytes == 0)) [
  | inl empty ↦ inl (ground arith)
  | inr some_there ↦ inr (parse_range-IsWithin header (length bytes) r (ground arith) given)
]

reply-IsExact :
    (bytes : List ℕ) (o : Range) (r : FileReply)
    → length bytes ≤ u64_max
    → ((p : ℕ × ℕ) → o ≡ ok (some p) → (length bytes ≡ 0) ⊎ IsWithin (length bytes) p)
    → reply_for bytes o ≡ ok r
    → IsExact bytes r
unfolding reply_for
reply-IsExact bytes (err e) r small fits given = absurd cc
reply-IsExact bytes (ok none) r small fits given =
    let whole : IsExact bytes (served full 0 (length bytes - 1) bytes) = record {
      announced = sent 0 (length bytes - 1) full bytes small (ground arith);
      complete = λ _. served-full bytes small;
    } in
    let e : served full 0 (length bytes - 1) bytes ≡ r = cc in subst (IsExact bytes) e whole
reply-IsExact bytes (ok (some (start, end))) r small fits given =
    let part : IsExact bytes (served partial_content start end bytes) = record {
      announced = sent start end partial_content bytes small (fits (start, end) refl);
      complete = λ h. absurd cc;
    } in
    let e : served partial_content start end bytes ≡ r = cc in subst (IsExact bytes) e part

-- Whatever the range header says, a reply with a file of less than 2^64 bytes sends as many bytes
-- as its length announces, and a reply that is not partial sends the whole file.
pub stream_file-IsExact :
    (bytes : List ℕ) (range : Option Text) (r : FileReply)
    → length bytes ≤ u64_max
    → stream_file bytes range ≡ ok r
    → IsExact bytes r
unfolding stream_file
stream_file-IsExact bytes range r small given =
    reply-IsExact bytes (parse_range range (length bytes)) r small (λ p. empty-suffix bytes p range)
      given
