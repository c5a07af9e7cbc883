-- ===== src/Downloads.antt =====
-- src/files.rs: byte ranges, and the chunks in which files are listed and served. A file is the
-- list of its bytes. Sizes and positions are `u64`; a fixed hash and the text of the addresses are
-- parameters.
pub mod Chunks
pub mod Ranges
mod Tests
use arcade_launcher_server.Base.{
  ℕ, zero, suc, ◌+◌, ◌-◌, ◌*◌, ◌^◌, min, Bool, true, false, not, ◌&&◌, ◌||◌, Option, none, some,
  List, [], ◌∷◌, Text, codes, trim, starts_with, split_on, is_ascii_digit, is_empty, all, length,
  take, drop, ltb, leb, ◌==◌, if◌then◌else◌, Result, ok, err,
}

abbrev pub u64_max : ℕ
u64_max = 18446744073709551615

unfoldable pub chunk_size : ℕ
chunk_size = 1024 * 1024

abbrev pub saturating_mul : ℕ → ℕ → ℕ
saturating_mul a b = min (a * b) u64_max

-- The address of a chunk is left to the code that prints it.
pub record ManifestChunk : Type 0 where
  pub index : ℕ
  pub offset : ℕ
  pub size : ℕ
  pub sha256 : Text

-- `read_exact` of so many bytes at a position, which fails when the file ends before.
abbrev pub read_exact : ℕ → ℕ → List ℕ → Option (List ℕ)
read_exact offset want bytes =
    if leb (offset + want) (length bytes) then some (take want (drop offset bytes)) else none

abbrev pub add_chunk : ManifestChunk → Option (List ManifestChunk) → Option (List ManifestChunk)
add_chunk m none = none
add_chunk m (some ms) = some (m ∷ ms)

-- The loop of `chunks_for_file`, on fuel: `none` is a read that fails, or no fuel.
unfoldable pub chunk_loop : (List ℕ → Text) → ℕ → List ℕ → ℕ → ℕ → ℕ → Option (List ManifestChunk)
chunk_loop sha zero bytes size offset index = none
chunk_loop sha (suc fuel) bytes size offset index =
    let want = min (size - offset) chunk_size in
    let rest = chunk_loop sha fuel bytes size (offset + want) (suc index) in
    if ltb offset size
    then elim (read_exact offset want bytes) [
      | none ↦ none
      | some buf ↦
          add_chunk (record { index = index; offset = offset; size = want; sha256 = sha buf }) rest
    ]
    else some []

-- Every turn of the loop moves on, so one more turn than there are bytes is enough.
unfoldable pub chunks_for_file : (List ℕ → Text) → List ℕ → ℕ → Option (List ManifestChunk)
unfolding chunk_loop
chunks_for_file sha bytes size = chunk_loop sha (suc size) bytes size 0 0

-- The body that is served for a chunk, if the chunk is in range.
unfoldable pub stream_chunk : List ℕ → ℕ → Option (List ℕ)
stream_chunk bytes chunk_index =
    let size = length bytes in
    let start = saturating_mul chunk_index chunk_size in
    if leb size start then none else some (take (min chunk_size (size - start)) (drop start bytes))

pub data RangeError : Type 0 where
  unsupported_unit invalid_range invalid_suffix not_satisfiable bad_number : RangeError

abbrev digits : ℕ → Text → ℕ
digits n [] = n
digits n (c ∷ s) = digits (n * 10 + (c - b'0')) s

abbrev unsigned : Text → Text
unsigned [] = []
unsigned (c ∷ s) = if c == b'+' then s else c ∷ s

-- `str::parse::<u64>`: decimal digits after an optional plus sign.
unfoldable pub parse_u64 : Text → Option ℕ
parse_u64 s =
    let t = unsigned s in
    if is_empty t || not (all is_ascii_digit t) || ltb u64_max (digits 0 t)
    then none
    else some (digits 0 t)

abbrev pub first_piece : List Text → Text
first_piece [] = []
first_piece (p ∷ ps) = p

-- `str::split_once('-')`
unfoldable pub split_once : ℕ → Text → Option (Text × Text)
split_once sep [] = none
split_once sep (c ∷ s) =
    let rest = split_once sep s in
    if c == sep then some ([], s) else elim rest [ none ↦ none | some (a, b) ↦ some (c ∷ a, b) ]

abbrev pub Range : Type 0
Range = Result (Option (ℕ × ℕ)) RangeError

abbrev pub suffix_range : Option ℕ → ℕ → Range
suffix_range none size = err bad_number
suffix_range (some suffix) size =
    if suffix == 0 then err invalid_suffix else ok (some (size - suffix, size - 1))

abbrev pub bounded_range : ℕ → ℕ → ℕ → Range
bounded_range start end size =
    if leb size start || ltb end start
    then err not_satisfiable
    else ok (some (start, min end (size - 1)))

abbrev pub end_of : Text → ℕ → Option ℕ
end_of end_s size = if is_empty end_s then some (size - 1) else parse_u64 end_s

-- From the two sides of the dash on.
unfoldable pub range_of : Text → Text → ℕ → Range
unfolding parse_u64
range_of start_s end_s size =
    if is_empty start_s then suffix_range (parse_u64 end_s) size else elim (parse_u64 start_s) [
      | none ↦ err bad_number
      | some start ↦ elim (end_of end_s size) [
        | none ↦ err bad_number
        | some end ↦ bounded_range start end size
      ]
    ]

unfoldable pub parse_range : Option Text → ℕ → Range
unfolding range_of split_once split_on starts_with trim
parse_range none size = ok none
parse_range (some header) size =
    if starts_with header (codes "bytes=")
    then elim (split_once b'-' (trim (first_piece (split_on b',' (drop 6 header))))) [
      | none ↦ err invalid_range
      | some (start_s, end_s) ↦ range_of start_s end_s size
    ]
    else err unsupported_unit

pub data Status : Type 0 where
  full partial_content : Status

-- The status, the announced length and the bytes of a file that is there.
pub record FileReply : Type 0 where
  pub status : Status
  pub content_length : ℕ
  pub body : List ℕ

abbrev pub served : Status → ℕ → ℕ → List ℕ → FileReply
served status start end bytes =
    let len = if length bytes == 0 then 0 else min (end - start + 1) u64_max in
    record { status = status; content_length = len; body = take len (drop start bytes) }

unfoldable pub reply_for : List ℕ → Range → Result FileReply RangeError
reply_for bytes (err e) = err e
reply_for bytes (ok none) = ok (served full 0 (length bytes - 1) bytes)
reply_for bytes (ok (some (start, end))) = ok (served partial_content start end bytes)

unfoldable pub stream_file : List ℕ → Option Text → Result FileReply RangeError
unfolding parse_range reply_for
stream_file bytes range = reply_for bytes (parse_range range (length bytes))
