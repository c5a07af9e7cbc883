-- ===== src/Downloads/Chunks.antt =====
-- src/files.rs: the listed chunks make up the file, and each is what is served under its index.
use arcade_launcher_server.Base.{
  ℕ, zero, suc, ◌+◌, ◌-◌, ◌*◌, ◌≤◌, ◌<◌, min, ◌≡◌, refl, true, false, Option, some, List, [], ◌∷◌,
  ◌++◌, Text, All, length, take, drop, take-append-drop, ltb, leb, arith, Bool-cases, inl, inr,
}
use arcade_launcher_server.Downloads.{
  chunk_size, u64_max, ManifestChunk, chunk_loop, chunks_for_file, stream_chunk, saturating_mul,
}

drop-drop : (o n : ℕ) (xs : List ℕ) → drop n (drop o xs) ≡ drop (o + n) xs
drop-drop zero n xs = let e : 0 + n ≡ n = omega arith in rw e refl
drop-drop (suc o) n (x ∷ xs) =
    let e : suc o + n ≡ suc (o + n) = omega arith in rw e (drop-drop o n xs)
drop-drop (suc o) zero [] = let e : suc o + 0 ≡ suc o = omega arith in rw e refl
drop-drop (suc o) (suc n) [] = let e : suc o + suc n ≡ suc (o + suc n) = omega arith in rw e refl

drop-all : (o : ℕ) (xs : List ℕ) → length xs ≤ o → drop o xs ≡ []
drop-all zero [] h = refl
drop-all zero (x ∷ xs) h = absurd (omega arith)
drop-all (suc o) [] h = refl
drop-all (suc o) (x ∷ xs) h = drop-all o xs (omega arith)

piece : (o n : ℕ) (xs : List ℕ) → take n (drop o xs) ++ drop (o + n) xs ≡ drop o xs
piece o n xs = rw⁻¹ (drop-drop o n xs) (take-append-drop n (drop o xs))

positive : 1 ≤ chunk_size
unfolding chunk_size
positive = omega arith

-- The bytes of a chunk, and of a list of chunks.
abbrev pub bytes_of : List ℕ → ManifestChunk → List ℕ
bytes_of bytes m = take m.size (drop m.offset bytes)

abbrev pub contents : List ℕ → List ManifestChunk → List ℕ
contents bytes [] = []
contents bytes (m ∷ ms) = bytes_of bytes m ++ contents bytes ms

-- A chunk is served as it is listed, is not empty, and has the hash of its bytes.
pub record IsServed (sha : List ℕ → Text) (bytes : List ℕ) (m : ManifestChunk) : Type 0 where
  pub same : stream_chunk bytes m.index ≡ some (bytes_of bytes m)
  pub bounds : (1 ≤ m.size) × (m.size ≤ chunk_size) × (m.offset + m.size ≤ length bytes)
  pub hash : m.sha256 ≡ sha (bytes_of bytes m)

-- A listing of the bytes from a position on.
pub record Listing (sha : List ℕ → Text) (bytes : List ℕ) (offset : ℕ)
    (o : Option (List ManifestChunk)) : Type 0 where
  pub chunks : List ManifestChunk
  pub given : o ≡ some chunks
  pub whole : contents bytes chunks ≡ drop offset bytes
  pub served : All (IsServed sha bytes) chunks

next-offset :
    (index size : ℕ)
    → min (index * chunk_size) size < size
    → min (index * chunk_size) size + min (size - min (index * chunk_size) size) chunk_size
      ≡ min (suc index * chunk_size) size
next-offset index size h = omega arith

serve :
    (sha : List ℕ → Text) (bytes : List ℕ) (index : ℕ)
    → length bytes ≤ u64_max
    → min (index * chunk_size) (length bytes) < length bytes
    → stream_chunk bytes index
      ≡ some (
          take
            (min (length bytes - min (index * chunk_size) (length bytes)) chunk_size)
            (drop (min (index * chunk_size) (length bytes)) bytes))
unfolding stream_chunk
serve sha bytes index small inside =
    let start : min (index * chunk_size) (length bytes) ≡ index * chunk_size = omega arith in
    let sat : saturating_mul index chunk_size ≡ index * chunk_size = omega arith in
    let n : min chunk_size (length bytes - index * chunk_size)
        ≡ min (length bytes - index * chunk_size) chunk_size =
      omega arith in
    let fit : leb (length bytes) (index * chunk_size) ≡ false = ground arith in
    rw (stream_chunk, sat, fit, n, start) refl

loop-Listing :
    (sha : List ℕ → Text) (fuel : ℕ) (bytes : List ℕ) (index offset : ℕ)
    → length bytes ≤ u64_max
    → offset ≡ min (index * chunk_size) (length bytes)
    → length bytes < fuel + offset
    → Listing sha bytes offset (chunk_loop sha fuel bytes (length bytes) offset index)
unfolding chunk_loop
loop-Listing sha zero bytes index offset small at fuelled = absurd (omega arith)
loop-Listing sha (suc fuel) bytes index offset small at fuelled =
    elim (Bool-cases (ltb offset (length bytes))) [
      | inr past ↦ rw past (record {
        chunks = [];
        given = refl;
        whole = rw (drop-all offset bytes (ground arith));
        served = tt;
      })
      | inl inside ↦
          let want : ℕ = min (length bytes - offset) chunk_size in
          let before : offset < length bytes = ground arith in
          let moved : offset + want ≡ min (suc index * chunk_size) (length bytes) =
            omega (arith, next-offset index (length bytes), at, before) in
          let rest =
            loop-Listing sha fuel bytes (suc index) (offset + want) small moved
              (omega (arith, positive, fuelled, before)) in
          let room : leb (offset + want) (length bytes) ≡ true = ground arith in
          let body : stream_chunk bytes index ≡ some (take want (drop offset bytes)) =
            rw at (serve sha bytes index small (omega (arith, at, before))) in
          rw (inside, room, rest.given)
            (record {
              chunks =
                  record {
                    index = index;
                    offset = offset;
                    size = want;
                    sha256 = sha (take want (drop offset bytes));
                  }
                  ∷ rest.chunks;
              given = refl;
              whole = rw rest.whole (piece offset want bytes);
              served = (
                record {
                  same = body;
                  bounds = (omega (arith, positive, before), omega arith, omega (arith, before));
                  hash = refl;
                },
                rest.served,
              );
            })
    ]

-- The listing of a file of less than 2^64 bytes, by its right size, comes to an end and leaves nothing out: the listed
-- chunks are the file when they are put one after the other, each of them is served under its
-- index as it is listed, none is empty or longer than 1 MiB, and each has the hash of its bytes.
pub chunks-Listing :
    (sha : List ℕ → Text) (bytes : List ℕ)
    → length bytes ≤ u64_max
    → Listing sha bytes 0 (chunks_for_file sha bytes (length bytes))
unfolding chunks_for_file
chunks-Listing sha bytes small =
    loop-Listing sha (suc (length bytes)) bytes 0 0 small (omega arith) (omega arith)
