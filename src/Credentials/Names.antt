-- ===== src/Credentials/Names.antt =====
-- src/crypto.rs: names for files, databases and searches, and what a settings page shows of a
-- secret. The length of a number of bytes is that of its UTF-8.
pub mod Queries
use arcade_launcher_server.Base.{
  ℕ, Bool, true, false, not, ◌&&◌, ◌||◌, Option, none, some, List, [], ◌∷◌, ◌++◌, map, reverse, any,
  all, keep, take, length, Text, codes, text_eq, contains, starts_with, lowercase,
  to_ascii_lowercase, byte_len, join, is_ascii_alphanumeric, is_whitespace, is_control, is_empty,
  ◌==◌, ltb, leb, if◌then◌else◌, Result, ok, err, drop,
}

abbrev pub cons_to_first : ℕ → List Text → List Text
cons_to_first c [] = (c ∷ []) ∷ []
cons_to_first c (w ∷ ws) = (c ∷ w) ∷ ws

unfoldable pub split_spaces : Text → List Text
split_spaces [] = [] ∷ []
split_spaces (c ∷ s) =
    let rest = split_spaces s in if is_whitespace c then [] ∷ rest else cons_to_first c rest

-- `str::split_whitespace`: the pieces between spaces that are not empty.
unfoldable pub split_whitespace : Text → List Text
unfolding split_spaces
split_whitespace s = keep (λ w. not (is_empty w)) (split_spaces s)

abbrev pub space : Text
space = b' ' ∷ []

abbrev file_character : ℕ → ℕ
file_character c = if is_ascii_alphanumeric c || c == b'-' || c == b'_' then c else b'_'

unfoldable pub safe_file_part : Text → Text
safe_file_part value = map file_character value

pub data NameError : Type 0 where
  bad_length bad_character query_required query_too_long : NameError

unfoldable pub validate_db_identifier : Text → Option NameError
validate_db_identifier value =
    if is_empty value || ltb 64 (byte_len value)
    then some bad_length
    else if not (all (λ c. is_ascii_alphanumeric c || c == b'_') value)
    then some bad_character
    else none

unfoldable pub clean_query : Text → Text
unfolding split_whitespace
clean_query query = join space (split_whitespace (keep (λ c. not (is_control c)) query))

unfoldable pub sanitize_search_query : Text → Result Text NameError
unfolding clean_query
sanitize_search_query query =
    if is_empty (clean_query query)
    then err query_required
    else if ltb 120 (length (clean_query query))
    then err query_too_long
    else ok (clean_query query)

unfoldable pub is_sensitive_key : Text → Bool
is_sensitive_key key =
    let k = lowercase key in
    contains k (codes "secret") || contains k (codes "password") || contains k (codes "token")

-- The first four characters and the last four.
unfoldable pub masked_value : Text → Text
masked_value value =
    if is_empty value
    then []
    else if leb (length value) 8
    then codes "********"
    else take 4 value ++ codes "..." ++ reverse (take 4 (reverse value))

unfoldable pub normalize_title : Text → Text
unfolding split_whitespace
normalize_title title = join space (
    split_whitespace
      (map (λ c. if is_ascii_alphanumeric c then to_ascii_lowercase c else b' ') title))

abbrev noise : List Text
noise =
    codes "usa"
    ∷ codes "eur"
    ∷ codes "europe"
    ∷ codes "jpn"
    ∷ codes "jap"
    ∷ codes "japan"
    ∷ codes "ntsc"
    ∷ codes "pal"
    ∷ codes "world"
    ∷ codes "proper"
    ∷ codes "repack"
    ∷ codes "readnfo"
    ∷ codes "multi"
    ∷ codes "disc"
    ∷ codes "disk"
    ∷ codes "cd"
    ∷ codes "dvd"
    ∷ codes "iso"
    ∷ codes "decrypted"
    ∷ codes "encrypted"
    ∷ codes "demo"
    ∷ codes "beta"
    ∷ codes "unl"
    ∷ codes "rev"
    ∷ codes "fitgirl"
    ∷ codes "dodi"
    ∷ codes "elamigos"
    ∷ codes "razor1911"
    ∷ codes "codex"
    ∷ codes "plaza"
    ∷ codes "skidrow"
    ∷ []

abbrev is_digit : ℕ → Bool
is_digit c = leb b'0' c && leb c b'9'

abbrev is_version : Text → Bool
is_version [] = false
is_version (c ∷ []) = false
is_version (c ∷ d ∷ s) = c == b'v' && all is_digit (d ∷ s)

unfoldable pub is_noise_token : Text → Bool
is_noise_token t = any (text_eq t) noise || is_version t

unfoldable pub match_key : Text → Text
unfolding normalize_title is_noise_token
match_key title =
    join space (keep (λ t. not (is_noise_token t)) (split_whitespace (normalize_title title)))

-- `split(['(', '[']).next()`
abbrev before_bracket : Text → Text
before_bracket [] = []
before_bracket (c ∷ s) = if c == b'(' || c == b'[' then [] else c ∷ before_bracket s

unfoldable pub clean_igdb_title : Text → Text
unfolding split_whitespace
clean_igdb_title title = join space (
    split_whitespace
      (map (λ c. if c == b'_' || c == b'-' || c == b'.' then b' ' else c) (before_bracket title)))
