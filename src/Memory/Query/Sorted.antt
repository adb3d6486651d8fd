-- ===== src/Memory/Query/Sorted.antt =====
-- The order of scored memories, and their sort.
use mathlib.Core.Path.{subst}
use mathlib.Core.List.{Memᴰ}
use simulation_ai.Prelude.{
  true, false, not, ◌||◌, List, [], ◌∷◌, ◌≡◌, inl, inr, refl, sym, arith, Bool-cases,
}
use simulation_ai.Prelude.Lists.{All}
use simulation_ai.Runtime.{Runtime}
use simulation_ai.Memory.Query.{Floats, Ranked, key_less, insert_ranked, sort_ranked}

-- The order of floats that are numbers: one of two is less, or they are equal, and so along a chain.
pub record IsOrder {Float : Type 0} (fl : Floats Float) : Type 0 where
  pub equal_if : (a b : Float) → fl.equal a b ≡ not (fl.less a b || fl.less b a)
  pub asym : (a b : Float) → fl.less a b ≡ true → fl.less b a ≡ false
  pub weak : (a b c : Float) → fl.less a b ≡ false → fl.less b c ≡ false → fl.less a c ≡ false

module _ (rt : Runtime) {Float : Type 0} (fl : Floats Float) (order : IsOrder fl) where
  key_asym : (a b : Ranked Float) → key_less rt fl a b ≡ true → key_less rt fl b a ≡ false
  unfolding key_less
  key_asym a b h = ground (
    arith,
    order.equal_if a.score b.score,
    order.equal_if b.score a.score,
    order.asym a.score b.score,
  )

  key_weak :
      (a b c : Ranked Float)
      → key_less rt fl a b ≡ false
      → key_less rt fl b c ≡ false
      → key_less rt fl a c ≡ false
  unfolding key_less
  key_weak a b c h k = ground (
    arith,
    order.equal_if a.score b.score,
    order.equal_if b.score c.score,
    order.equal_if a.score c.score,
    order.weak a.score b.score c.score,
    order.weak c.score a.score b.score,
    order.weak b.score c.score a.score,
    order.weak c.score b.score a.score,
    order.asym a.score b.score,
    order.asym b.score c.score,
    order.asym a.score c.score,
  )

  pub key_score :
      (a b : Ranked Float) → key_less rt fl a b ≡ false → fl.less a.score b.score ≡ false
  unfolding key_less
  key_score a b h = ground (arith, order.equal_if a.score b.score)

  -- No later one of the list has a greater key.
  abbrev pub Descending : List (Ranked Float) → Type 0
  Descending [] = Unit
  Descending (a ∷ l) = All (λ b. key_less rt fl a b ≡ false) l × Descending l

  All-below :
      (a b : Ranked Float) (l : List (Ranked Float))
      → key_less rt fl a b ≡ false
      → All (λ c. key_less rt fl b c ≡ false) l
      → All (λ c. key_less rt fl a c ≡ false) l
  All-below a b [] h all = tt
  All-below a b (c ∷ l) h all = (key_weak a b c h all.0, All-below a b l h all.1)

  All-insert_ranked :
      (P : Ranked Float → Type 0) (a : Ranked Float) (l : List (Ranked Float))
      → P a
      → All P l
      → All P (insert_ranked rt fl a l)
  unfolding insert_ranked
  All-insert_ranked P a [] h all = (h, tt)
  All-insert_ranked P a (b ∷ l) h all = elim (Bool-cases (key_less rt fl a b)) [
    | inl less ↦ rw less (all.0, All-insert_ranked P a l h all.1)
    | inr other ↦ rw other (h, all)
  ]

  insert_ranked-Descending :
      (a : Ranked Float) (l : List (Ranked Float))
      → Descending l
      → Descending (insert_ranked rt fl a l)
  unfolding insert_ranked
  insert_ranked-Descending a [] d = (tt, tt)
  insert_ranked-Descending a (b ∷ l) d = elim (Bool-cases (key_less rt fl a b)) [
    | inl less ↦ rw less (
      All-insert_ranked (λ c. key_less rt fl b c ≡ false) a l (key_asym a b less) d.0,
      insert_ranked-Descending a l d.1,
    )
    | inr other ↦ rw other ((other, All-below a b l other d.0), d)
  ]

  pub sort_ranked-Descending : (l : List (Ranked Float)) → Descending (sort_ranked rt fl l)
  unfolding sort_ranked
  sort_ranked-Descending [] = tt
  sort_ranked-Descending (a ∷ l) =
      insert_ranked-Descending a (sort_ranked rt fl l) (sort_ranked-Descending l)

  pub All-sort_ranked :
      (P : Ranked Float → Type 0) (l : List (Ranked Float)) → All P l → All P (sort_ranked rt fl l)
  unfolding sort_ranked
  All-sort_ranked P [] all = tt
  All-sort_ranked P (a ∷ l) all =
      All-insert_ranked P a (sort_ranked rt fl l) all.0 (All-sort_ranked P l all.1)

  head-insert_ranked :
      (a : Ranked Float) (l : List (Ranked Float)) → Memᴰ a (insert_ranked rt fl a l)
  unfolding insert_ranked
  head-insert_ranked a [] = Memᴰ.head refl
  head-insert_ranked a (b ∷ l) = elim (Bool-cases (key_less rt fl a b)) [
    | inl less ↦ rw less (Memᴰ.tail (head-insert_ranked a l))
    | inr other ↦ rw other (Memᴰ.head refl)
  ]

  tail-insert_ranked :
      (a c : Ranked Float) (l : List (Ranked Float)) → Memᴰ c l → Memᴰ c (insert_ranked rt fl a l)
  unfolding insert_ranked
  tail-insert_ranked a c [] m = elim m [ ]
  tail-insert_ranked a c (b ∷ l) (Memᴰ.head e) = elim (Bool-cases (key_less rt fl a b)) [
    | inl less ↦ rw less (Memᴰ.head e)
    | inr other ↦ rw other (Memᴰ.tail (Memᴰ.head e))
  ]
  tail-insert_ranked a c (b ∷ l) (Memᴰ.tail m) = elim (Bool-cases (key_less rt fl a b)) [
    | inl less ↦ rw less (Memᴰ.tail (tail-insert_ranked a c l m))
    | inr other ↦ rw other (Memᴰ.tail (Memᴰ.tail m))
  ]

  pub sort_ranked-Mem :
      (c : Ranked Float) (l : List (Ranked Float)) → Memᴰ c l → Memᴰ c (sort_ranked rt fl l)
  unfolding sort_ranked
  sort_ranked-Mem c [] m = elim m [ ]
  sort_ranked-Mem c (a ∷ l) (Memᴰ.head {x = x} e) =
      subst (λ b. Memᴰ b (insert_ranked rt fl a (sort_ranked rt fl l))) (sym e)
        (head-insert_ranked a (sort_ranked rt fl l))
  sort_ranked-Mem c (a ∷ l) (Memᴰ.tail m) =
      tail-insert_ranked a c (sort_ranked rt fl l) (sort_ranked-Mem c l m)
