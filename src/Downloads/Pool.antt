-- ===== src/Downloads/Pool.antt =====
-- The pool of downloads and the assembly of the chunks.
use simulation_ai.Prelude.{
  ℕ, zero, suc, ◌+◌, ◌-◌, ◌*◌, ◌≤◌, ◌<◌, true, false, Option, none, some, List, [], ◌∷◌, ◌++◌, ◌≡◌,
  refl, sym, ap, ◌∙◌, arith, ◌⊎◌, inl, inr, nat_eq, nat_eq_iff, Bool-cases,
}
use simulation_ai.Prelude.Lists.{
  length, take, drop, take-append-drop, take-min, drop-drop, drop_all, length-drop,
}
use simulation_ai.Result.{Result, ok, err}
use simulation_ai.Downloads.Slices.{IsPrefix-whole}
use simulation_ai.Downloads.Assembled.{
  range, IsWhole, IsUsable, IsHonest, IsWhole-IsUsable, length-range, download_chunk-IsWhole,
}
use simulation_ai.Downloads.Served.{IsServing, download_chunk-ok}
use simulation_ai.Downloads.Chunks.{
  Bytes, Parts, Fetch, put_part, chunk_length, is_complete, pending, whole_part, assemble,
  download_chunk, download_all, first_error,
}

abbrev pub In : ℕ → List ℕ → Type 0
In i [] = ⊥
In i (j ∷ l) = (i ≡ j) ⊎ In i l

first_error-ok : (a b : Result (Unit {0})) → first_error a b ≡ ok tt → (a ≡ ok tt) × (b ≡ ok tt)
unfolding first_error
first_error-ok (ok u) b h = (refl, h)
first_error-ok (err e) b h = cc

module _ (size : ℕ) (content : Bytes) where
  pub record AreUsable (count : ℕ) (parts : Parts) : Type 0 where
    pub usable : (i : ℕ) → i < count → IsUsable size content i (parts i)

  -- an index that is listed, or whose chunk is there
  abbrev pub Found : List ℕ → Parts → ℕ → Type 0
  Found l parts i = In i l ⊎ IsWhole size content i (parts i)

  put-AreUsable :
      (count index : ℕ) (part : Option Bytes) (parts : Parts)
      → IsWhole size content index part
      → AreUsable count parts
      → AreUsable count (put_part index part parts)
  unfolding put_part
  put-AreUsable count index part parts whole before = record {
    usable = λ i h. elim (Bool-cases (nat_eq i index)) [
      | inl same ↦ rw same (
          let e : index ≡ i = sym ((nat_eq_iff i index).0 same) in
          rw (← e) (IsWhole-IsUsable size content index part whole))
      | inr other ↦ rw other (before.usable i h)
    ];
  }

  put-Found :
      (index : ℕ) (l : List ℕ) (part : Option Bytes) (parts : Parts) (i : ℕ)
      → IsWhole size content index part
      → Found (index ∷ l) parts i
      → Found l (put_part index part parts) i
  unfolding put_part
  put-Found index l part parts i whole found = elim (Bool-cases (nat_eq i index)) [
    | inl same ↦
        rw same (let e : index ≡ i = sym ((nat_eq_iff i index).0 same) in inr (rw (← e) whole))
    | inr other ↦ rw other (later other found)
  ]
    where
      later : nat_eq i index ≡ false → Found (index ∷ l) parts i → Found l parts i
      later other (inl (inl e)) = absurd (ground arith)
      later other (inl (inr h)) = inl h
      later other (inr h) = inr h

  -- If no download failed, every chunk that is listed or was there is there.
  pub download_all-IsWhole :
      (count : ℕ) (fetch : ℕ → ℕ → ℕ → ℕ → Fetch) (l : List ℕ) (parts : Parts)
      → 1 ≤ size
      → ((i : ℕ) → i < count → i * size < length content)
      → ((i : ℕ) → IsHonest size content (fetch i))
      → ((i : ℕ) → In i l → i < count)
      → AreUsable count parts
      → (download_all size (length content) fetch l parts).outcome ≡ ok tt
      → (i : ℕ) → i < count
      → Found l parts i
      → IsWhole size content i ((download_all size (length content) fetch l parts).parts i)
  unfolding download_all
  download_all-IsWhole count fetch [] parts some_size inside honest listed usable h i below
        (inr whole) =
      whole
  download_all-IsWhole count fetch [] parts some_size inside honest listed usable h i below
        (inl none_left) =
      elim none_left [ ]
  download_all-IsWhole count fetch (index ∷ l) parts some_size inside honest listed usable h i below
        found =
      let here = listed index (inl refl) in
      let chunk = download_chunk size (length content) (fetch index) index (parts index) in
      let (first, rest) = first_error-ok _ _ h in
      let whole =
        download_chunk-IsWhole size content index (fetch index) (parts index) some_size
          (inside index here) (honest index) (usable.usable index here) first in
      download_all-IsWhole count fetch l (put_part index chunk.part parts) some_size inside honest
        (λ j g. listed j (inr g)) (put-AreUsable count index chunk.part parts whole usable) rest i
        below (put-Found index l chunk.part parts i whole found)

  -- the pool on a server that serves
  pub download_all-ok :
      (count : ℕ) (fetch : ℕ → ℕ → ℕ → ℕ → Fetch) (l : List ℕ) (parts : Parts)
      → 1 ≤ size
      → ((i : ℕ) → i < count → i * size < length content)
      → ((i : ℕ) → IsServing size content (fetch i))
      → ((i : ℕ) → In i l → i < count)
      → (download_all size (length content) fetch l parts).outcome ≡ ok tt
  unfolding download_all first_error
  download_all-ok count fetch [] parts some_size inside serving listed = refl
  download_all-ok count fetch (index ∷ l) parts some_size inside serving listed =
      rw
        (download_chunk-ok size content index (fetch index) (parts index) some_size
          (inside index (listed index (inl refl))) (serving index))
        (download_all-ok count fetch l _ some_size inside serving (λ j g. listed j (inr g)))

  -- a chunk that is not pending is there
  pub pending-Found :
      (parts : Parts) (index count i : ℕ)
      → index ≤ i
      → i < index + count
      → In i (pending size (length content) parts index count)
        ⊎ (is_complete size (length content) i (parts i) ≡ true)
  unfolding pending
  pending-Found parts index zero i above below = absurd (omega arith)
  pending-Found parts index (suc count) i above below =
      elim (Bool-cases (is_complete size (length content) index (parts index))) [
        | inl complete ↦ rw complete (elim (Bool-cases (nat_eq i index)) [
          | inl same ↦
              inr (let e : index ≡ i = sym ((nat_eq_iff i index).0 same) in rw (← e) complete)
          | inr other ↦ pending-Found parts (suc index) count i (ground arith) (ground arith)
        ])
        | inr missing ↦ rw missing (elim (Bool-cases (nat_eq i index)) [
          | inl same ↦ inl (inl ((nat_eq_iff i index).0 same))
          | inr other ↦
              elim (pending-Found parts (suc index) count i (ground arith) (ground arith)) [
                | inl h ↦ inl (inr h)
                | inr h ↦ inr h
              ]
        ])
      ]

  In-lt :
      (i index last : ℕ) (l : List ℕ)
      → (In i l → i < last)
      → index < last
      → In i (index ∷ l)
      → i < last
  In-lt i index last l rest first (inl e) = omega arith
  In-lt i index last l rest first (inr h) = rest h

  pub pending-lt :
      (parts : Parts) (index count i : ℕ)
      → In i (pending size (length content) parts index count)
      → i < index + count
  unfolding pending
  pending-lt parts index zero i = λ h. elim h [ ]
  pending-lt parts index (suc count) i =
      let later : In i (pending size (length content) parts (suc index) count)
          → i < index + suc count =
        λ h. omega (arith, pending-lt parts (suc index) count i h) in
      elim (Bool-cases (is_complete size (length content) index (parts index))) [
        | inl complete ↦ rw complete later
        | inr missing ↦ rw missing (In-lt i index (index + suc count) _ later (omega arith))
      ]

  pub complete-IsWhole :
      (i : ℕ) (part : Option Bytes)
      → i * size < length content
      → IsUsable size content i part
      → is_complete size (length content) i part ≡ true
      → IsWhole size content i part
  unfolding is_complete
  complete-IsWhole i none h usable e = cc
  complete-IsWhole i (some b) h usable e =
      let same = (nat_eq_iff (length b) (chunk_length size i (length content))).0 e in
      ap some (
        IsPrefix-whole b (range size content i) (usable b refl (omega (arith, same)))
          (same ∙ sym (length-range size content i h)))

  range-drop :
      (i : ℕ) → range size content i ++ drop (suc i * size) content ≡ drop (i * size) content
  unfolding chunk_length
  range-drop i =
      let rest = drop (i * size) content in
      let l : length content - i * size ≡ length rest = sym (length-drop (i * size) content) in
      let e : i * size + size ≡ suc i * size = omega arith in
      ap (λ t. t ++ drop (suc i * size) content) (take-min size (length content - i * size) rest l)
      ∙ ap (λ d. take size rest ++ d)
          (sym (drop-drop size (i * size) content ∙ ap (λ n. drop n content) e))
      ∙ take-append-drop size rest

  pub assemble-IsWhole :
      (parts : Parts) (index count : ℕ)
      → ((i : ℕ) → i < index + count → i * size < length content)
      → ((i : ℕ) → i < index + count → IsWhole size content i (parts i))
      → length content ≤ (index + count) * size
      → assemble size (length content) parts index count ≡ ok (drop (index * size) content)
  unfolding assemble whole_part is_complete
  assemble-IsWhole parts index zero inside whole enough = ap ok (
      sym (
        drop_all (index * size) content
          (let e : index + 0 ≡ index = omega arith in rw (← e) enough)))
  assemble-IsWhole parts index (suc count) inside whole enough =
      let here : index < index + suc count = omega arith in
      let sum : index + suc count ≡ suc index + count = omega arith in
      let complete =
        (nat_eq_iff (length (range size content index))
            (chunk_length size index (length content))).1
          (length-range size content index (inside index here)) in
      let rest =
        assemble-IsWhole parts (suc index) count (λ i h. inside i (rw sum h))
          (λ i h. whole i (rw sum h)) (rw (← sum) enough) in
      rw (whole index here, complete, rest, range-drop index) refl
