-- ===== src/Downloads/Slices.antt =====
-- Ranges of a text of bytes, and the files that hold a beginning of one.
use simulation_ai.Prelude.{ℕ, ◌+◌, ◌-◌, ◌≤◌, List, [], ◌∷◌, ◌++◌, ◌≡◌, refl, sym, ap, ◌∙◌, arith}
use simulation_ai.Prelude.Lists.{
  length, take, drop, length-append, length-take, length-drop, length-zero, drop-append, drop-drop,
  drop-take,
}

module _ {ℓ} {A : Type ℓ} where
  -- `len` elements from `start` on
  abbrev pub slice : ℕ → ℕ → List A → List A
  slice start len xs = take len (drop start xs)

  abbrev pub IsPrefix : List A → List A → Type ℓ
  IsPrefix xs ys = (rest : List A) × (xs ++ rest ≡ ys)

  append_nil : (xs : List A) → xs ++ [] ≡ xs
  append_nil [] = refl
  append_nil (x ∷ xs) = ap (◌∷◌ x) (append_nil xs)

  append_assoc : (xs ys zs : List A) → (xs ++ ys) ++ zs ≡ xs ++ (ys ++ zs)
  append_assoc [] ys zs = refl
  append_assoc (x ∷ xs) ys zs = ap (◌∷◌ x) (append_assoc xs ys zs)

  pub IsPrefix-refl : (xs : List A) → IsPrefix xs xs
  IsPrefix-refl xs = ([], append_nil xs)

  -- a beginning of the same length is the whole
  pub IsPrefix-whole : (xs ys : List A) → IsPrefix xs ys → length xs ≡ length ys → xs ≡ ys
  IsPrefix-whole xs ys (rest, e) h =
      let l : length rest ≡ 0 = omega (arith, length-append xs rest, ap length e) in
      let nothing = length-zero rest l in sym (append_nil xs) ∙ ap (λ l. xs ++ l) (sym nothing) ∙ e

  -- what follows a beginning of a range, is the rest of the range
  pub slice_rest :
      (start len : ℕ) (xs p rest : List A)
      → p ++ rest ≡ slice start len xs
      → slice (start + length p) (len - length p) xs ≡ rest
  slice_rest start len xs p rest e =
      ap (take (len - length p)) (sym (drop-drop (length p) start xs))
      ∙ sym (drop-take (length p) len (drop start xs))
      ∙ ap (drop (length p)) (sym e)
      ∙ drop-append p rest

  pub IsPrefix-append :
      (start len : ℕ) (xs p q : List A)
      → IsPrefix p (slice start len xs)
      → IsPrefix q (slice (start + length p) (len - length p) xs)
      → IsPrefix (p ++ q) (slice start len xs)
  IsPrefix-append start len xs p q (rest, e) (rest', f) =
      (rest', append_assoc p q rest' ∙ ap (λ l. p ++ l) (f ∙ slice_rest start len xs p rest e) ∙ e)

  pub length-slice :
      (start len : ℕ) (xs : List A) → start + len ≤ length xs → length (slice start len xs) ≡ len
  length-slice start len xs h = omega (arith, length-take len (drop start xs), length-drop start xs)
