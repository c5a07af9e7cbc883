-- ===== src/Downloads/Tests.antt =====
-- Ranges and chunks of concrete files.
use arcade_launcher_server.Base.{
  ℕ, ◌≡◌, refl, some, List, [], ◌∷◌, Text, codes, length, trim, split_on, starts_with, ok, err,
  is_ascii_digit, arith,
}
use arcade_launcher_server.Downloads.{
  parse_range, range_of, parse_u64, split_once, not_satisfiable, stream_file, reply_for, served,
  partial_content, chunks_for_file,
}
use arcade_launcher_server.Downloads.Chunks.{Listing, chunks-Listing}
use arcade_launcher_server.Downloads.Ranges.{IsExact, stream_file-IsExact}

abbrev bytes : List ℕ
bytes = 10 ∷ 11 ∷ 12 ∷ 13 ∷ 14 ∷ []

abbrev sum : List ℕ → Text
sum b = length b ∷ []

past_the_end : parse_range (some (codes "bytes=5-")) 5 ≡ err not_satisfiable
unfolding parse_range range_of parse_u64 split_once split_on starts_with trim is_ascii_digit
past_the_end = refl

last_two : parse_range (some (codes "bytes=-2")) 5 ≡ ok (some (3, 4))
unfolding parse_range range_of parse_u64 split_once split_on starts_with trim is_ascii_digit
last_two = refl

sent_two : stream_file bytes (some (codes "bytes=-2")) ≡ ok (served partial_content 3 4 bytes)
unfolding stream_file reply_for parse_range range_of parse_u64 split_once split_on starts_with trim
    is_ascii_digit
sent_two = refl

stream_file-IsExact_example : IsExact bytes (served partial_content 3 4 bytes)
stream_file-IsExact_example =
    stream_file-IsExact bytes (some (codes "bytes=-2")) (served partial_content 3 4 bytes)
      (omega arith) sent_two

chunks-Listing_example : Listing sum bytes 0 (chunks_for_file sum bytes (length bytes))
chunks-Listing_example = chunks-Listing sum bytes (omega arith)
