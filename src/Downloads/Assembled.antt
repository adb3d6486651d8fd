-- ===== src/Downloads/Assembled.antt =====
-- The chunks of a download that succeeds hold the ranges of the file that the server has.
use simulation_ai.Prelude.{
  ℕ, ◌+◌, ◌-◌, ◌*◌, ◌≤◌, ◌<◌, Option, none, some, [], ◌++◌, ◌≡◌, refl, sym, ap, ◌∙◌, arith, inl,
  inr, ltb, nat_eq, nat_eq_iff, Bool-cases,
}
use simulation_ai.Prelude.Lists.{length}
use simulation_ai.Result.{ok}
use simulation_ai.Downloads.Slices.{
  slice, IsPrefix, IsPrefix-refl, IsPrefix-whole, IsPrefix-append, length-slice,
}
use simulation_ai.Downloads.Attempts.{FirstServes, first-serves}
use simulation_ai.Downloads.Chunks.{
  Bytes, Fetch, serves, append_part, drop_long, size_of, chunk_length, download_chunk, last_byte,
}

module _ (size : ℕ) (content : Bytes) where
  -- the bytes of a chunk
  abbrev pub range : ℕ → Bytes
  range index = slice (index * size) (chunk_length size index (length content)) content

  abbrev pub IsWhole : ℕ → Option Bytes → Type 0
  IsWhole index part = part ≡ some (range index)

  -- a part that can be resumed: it is too long, and will be deleted, or holds the beginning of its range
  abbrev pub IsUsable : ℕ → Option Bytes → Type 0
  IsUsable index part =
      (b : Bytes)
      → part ≡ some b
      → length b ≤ chunk_length size index (length content)
      → IsPrefix b (range index)

  -- bytes that the first reply to a range gives are a beginning of what the server has there
  abbrev pub IsHonest : (ℕ → ℕ → ℕ → Fetch) → Type 0
  IsHonest fetch =
      (start end : ℕ) (bytes : Bytes)
      → fetch start end 0 ≡ serves bytes
      → IsPrefix bytes (slice start (end + 1 - start) content)

  pub length-range :
      (index : ℕ)
      → index * size < length content
      → length (range index) ≡ chunk_length size index (length content)
  unfolding chunk_length
  length-range index h =
      length-slice (index * size) (chunk_length size index (length content)) content (omega arith)

  pub IsWhole-IsUsable :
      (index : ℕ) (part : Option Bytes) → IsWhole index part → IsUsable index part
  IsWhole-IsUsable index part h b e l =
      let same : b ≡ range index = cc in rw same (IsPrefix-refl (range index))

  pub expected-chunk :
      (index : ℕ)
      → 1 ≤ size
      → index * size < length content
      → last_byte size (length content) index + 1 - index * size
        ≡ chunk_length size index (length content)
  unfolding last_byte chunk_length
  expected-chunk index some_size h = omega arith

  kept-IsUsable :
      (index : ℕ) (part : Option Bytes)
      → IsUsable index part
      → IsUsable index (drop_long (chunk_length size index (length content)) part)
  unfolding drop_long
  kept-IsUsable index part usable =
      elim (Bool-cases (ltb (chunk_length size index (length content)) (size_of part))) [
        | inl long ↦ rw long (λ b e l. cc)
        | inr short ↦ rw short usable
      ]

  -- the bytes that are there, and those that a reply adds, fill the range
  filled :
      (index : ℕ) (p bytes : Bytes)
      → 1 ≤ size
      → index * size < length content
      → IsPrefix p (range index)
      → IsPrefix bytes (
          slice
            (index * size + length p)
            (last_byte size (length content) index + 1 - (index * size + length p))
            content)
      → length (p ++ bytes) ≡ chunk_length size index (length content)
      → p ++ bytes ≡ range index
  filled index p bytes some_size h first next full =
      let width = chunk_length size index (length content) in
      let same : last_byte size (length content) index + 1 - (index * size + length p)
          ≡ width - length p =
        omega (arith, expected-chunk index some_size h) in
      let next' : IsPrefix bytes (slice (index * size + length p) (width - length p) content) =
        rw (← same) next in
      IsPrefix-whole (p ++ bytes) (range index)
        (IsPrefix-append (index * size) width content p bytes first next')
        (full ∙ sym (length-range index h))

  fetched-IsWhole :
      (index : ℕ) (fetch : ℕ → ℕ → ℕ → Fetch) (kept after : Option Bytes)
      → 1 ≤ size
      → index * size < length content
      → IsHonest fetch
      → IsUsable index kept
      → size_of kept ≤ chunk_length size index (length content)
      → FirstServes
          (fetch (index * size + size_of kept) (last_byte size (length content) index))
          (chunk_length size index (length content))
          kept
          after
      → IsWhole index after
  unfolding append_part size_of
  fetched-IsWhole index fetch none after some_size h honest usable fits first =
      let e : length first.bytes ≡ chunk_length size index (length content) =
        ap size_of (sym first.appended) ∙ first.full in
      first.appended
      ∙ ap some (
          filled index [] first.bytes some_size h (range index, refl)
            (honest _ _ first.bytes first.served) e)
  fetched-IsWhole index fetch (some p) after some_size h honest usable fits first =
      let e : length (p ++ first.bytes) ≡ chunk_length size index (length content) =
        ap size_of (sym first.appended) ∙ first.full in
      first.appended
      ∙ ap some (
          filled index p first.bytes some_size h (usable p refl fits)
            (honest _ _ first.bytes first.served) e)

  pub kept-fits : (width : ℕ) (part : Option Bytes) → size_of (drop_long width part) ≤ width
  unfolding drop_long size_of
  kept-fits width none = ground arith
  kept-fits width (some b) = ground arith

  complete-IsWhole :
      (index : ℕ) (kept : Option Bytes)
      → 1 ≤ size
      → index * size < length content
      → IsUsable index kept
      → size_of kept ≡ chunk_length size index (length content)
      → IsWhole index kept
  unfolding size_of chunk_length
  complete-IsWhole index none some_size h usable e = absurd (omega (arith, e))
  complete-IsWhole index (some b) some_size h usable e = ap some (
      IsPrefix-whole b (range index) (usable b refl (omega (arith, e)))
        (e ∙ sym (length-range index h)))

  -- a chunk that was downloaded
  pub download_chunk-IsWhole :
      (index : ℕ) (fetch : ℕ → ℕ → ℕ → Fetch) (part : Option Bytes)
      → 1 ≤ size
      → index * size < length content
      → IsHonest fetch
      → IsUsable index part
      → (download_chunk size (length content) fetch index part).outcome ≡ ok tt
      → IsWhole index (download_chunk size (length content) fetch index part).part
  unfolding download_chunk
  download_chunk-IsWhole index fetch part some_size h honest usable =
      let width = chunk_length size index (length content) in
      let kept = drop_long width part in
      let usable' = kept-IsUsable index part usable in
      let fits = kept-fits width part in
      rw (expected-chunk index some_size h) (elim (Bool-cases (nat_eq (size_of kept) width)) [
        | inl there ↦ rw there (λ g.
            complete-IsWhole index kept some_size h usable'
              ((nat_eq_iff (size_of kept) width).0 there))
        | inr missing ↦ rw missing (λ g.
            fetched-IsWhole index fetch kept _ some_size h honest usable' fits (
              first-serves
                (fetch (index * size + size_of kept) (last_byte size (length content) index)) 2
                width kept
                (fetch (index * size + size_of kept) (last_byte size (length content) index) 0) refl
                g))
      ])
