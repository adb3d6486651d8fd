-- ===== src/Downloads/Served.antt =====
-- Chunks from a server that gives all of a range at its first request.
use simulation_ai.Prelude.{
  ℕ, ◌+◌, ◌-◌, ◌*◌, ◌≤◌, ◌<◌, Option, none, some, ◌++◌, ◌≡◌, refl, arith, inl, inr, nat_eq,
  nat_eq_iff, Bool-cases,
}
use simulation_ai.Prelude.Lists.{length, length-append}
use simulation_ai.Result.{ok}
use simulation_ai.Downloads.Slices.{slice, IsPrefix-refl, length-slice}
use simulation_ai.Downloads.Chunks.{
  Bytes, Fetch, serves, append_part, drop_long, size_of, chunk_length, download_chunk, last_byte,
  try_chunk, check_part,
}
use simulation_ai.Downloads.Assembled.{IsHonest, expected-chunk, kept-fits}

module _ (size : ℕ) (content : Bytes) where
  -- the first request of a range gives all of it
  abbrev pub IsServing : (ℕ → ℕ → ℕ → Fetch) → Type 0
  IsServing fetch =
      (start end : ℕ) → fetch start end 0 ≡ serves (slice start (end + 1 - start) content)

  pub IsServing-IsHonest :
      (fetch : ℕ → ℕ → ℕ → Fetch) → IsServing fetch → IsHonest size content fetch
  IsServing-IsHonest fetch serving start end bytes e =
      let same : bytes ≡ slice start (end + 1 - start) content = cc (e, serving start end) in
      rw same (IsPrefix-refl (slice start (end + 1 - start) content))

  size-append :
      (part : Option Bytes) (bytes : Bytes)
      → size_of (append_part part bytes) ≡ size_of part + length bytes
  unfolding size_of append_part
  size-append none bytes = omega arith
  size-append (some b) bytes = length-append b bytes

  check-full :
      (expected : ℕ) (part : Option Bytes) (bytes : Bytes)
      → size_of (append_part part bytes) ≡ expected
      → check_part expected (ok none) (append_part part bytes) ≡ ok tt
  unfolding size_of append_part check_part
  check-full expected none bytes e = rw ((nat_eq_iff (length bytes) expected).1 e) refl
  check-full expected (some b) bytes e = rw ((nat_eq_iff (length (b ++ bytes)) expected).1 e) refl

  served-ok :
      (index : ℕ) (fetch : ℕ → ℕ → ℕ → Fetch) (kept : Option Bytes)
      → 1 ≤ size
      → index * size < length content
      → IsServing fetch
      → size_of kept ≤ chunk_length size index (length content)
      → (let tried =
            try_chunk
              (fetch (index * size + size_of kept) (last_byte size (length content) index))
              0
              3
              none
              kept
              0 in
          check_part (chunk_length size index (length content)) tried.outcome tried.part ≡ ok tt)
  unfolding try_chunk chunk_length
  served-ok index fetch kept some_size h serving fits =
      let start = index * size + size_of kept in
      let end = last_byte size (length content) index in
      let bytes = slice start (end + 1 - start) content in
      let width = expected-chunk size content index some_size h in
      let l : length bytes ≡ end + 1 - start =
        length-slice start (end + 1 - start) content (omega (arith, width, fits, h)) in
      rw (serving start end, try_chunk)
        (check-full (chunk_length size index (length content)) kept bytes
          (omega (arith, size-append kept bytes, l, width, fits)))

  -- a chunk of such a server is downloaded
  pub download_chunk-ok :
      (index : ℕ) (fetch : ℕ → ℕ → ℕ → Fetch) (part : Option Bytes)
      → 1 ≤ size
      → index * size < length content
      → IsServing fetch
      → (download_chunk size (length content) fetch index part).outcome ≡ ok tt
  unfolding download_chunk
  download_chunk-ok index fetch part some_size h serving =
      let width = chunk_length size index (length content) in
      let kept = drop_long width part in
      rw (expected-chunk size content index some_size h)
        (elim (Bool-cases (nat_eq (size_of kept) width)) [
          | inl there ↦ rw there refl
          | inr missing ↦
              rw missing
                (served-ok index fetch kept some_size h serving (kept-fits size content width part))
        ])
