-- ===== src/Memory/Query/Ranking.antt =====
-- What a query of memories returns: the best of them, in order.
use mathlib.Core.Path.{subst}
use mathlib.Core.List.{Memᴰ}
use simulation_ai.Prelude.{
  ℕ, zero, suc, ◌≤◌, true, false, String, List, [], ◌∷◌, ◌≡◌, ◌⊎◌, inl, inr, refl, sym, ap, arith,
  Bool-cases,
}
use simulation_ai.Prelude.Int.{ℤ, negsuc}
use simulation_ai.Prelude.Lists.{All, length, take, length-take}
use simulation_ai.Runtime.{Runtime}
use simulation_ai.Model.Records.{MemoryRecord}
use simulation_ai.Memory.Query.{
  Floats, Ranked, key_less, sort_ranked, is_relevant, relevant, places, score_all, ranked_memories,
  tokens, distinct,
}
use simulation_ai.Memory.Query.Sorted.{
  IsOrder, Descending, key_score, sort_ranked-Descending, All-sort_ranked, sort_ranked-Mem,
}

All-take : {A : Type 0} (P : A → Type 0) (n : ℕ) (l : List A) → All P l → All P (take n l)
All-take P zero l all = tt
All-take P (suc n) [] all = tt
All-take P (suc n) (a ∷ l) all = (all.0, All-take P n l all.1)

All-Mem : {A : Type 0} (P : A → Type 0) (a : A) (l : List A) → All P l → Memᴰ a l → P a
All-Mem P a [] all m = elim m [ ]
All-Mem P a (b ∷ l) all (Memᴰ.head e) = subst P (sym e) all.0
All-Mem P a (b ∷ l) all (Memᴰ.tail m) = All-Mem P a l all.1 m

All-intro : {A : Type 0} (P : A → Type 0) (l : List A) → ((a : A) → Memᴰ a l → P a) → All P l
All-intro P [] h = tt
All-intro P (a ∷ l) h = (h a (Memᴰ.head refl), All-intro P l (λ b m. h b (Memᴰ.tail m)))

module _ (rt : Runtime) {Float : Type 0} (fl : Floats Float) (order : IsOrder fl) where
  Descending-take :
      (n : ℕ) (l : List (Ranked Float))
      → Descending rt fl order l
      → Descending rt fl order (take n l)
  Descending-take zero l d = tt
  Descending-take (suc n) [] d = tt
  Descending-take (suc n) (a ∷ l) d = (All-take _ n l d.0, Descending-take n l d.1)

  All-relevant :
      (P : Ranked Float → Type 0) (l : List (Ranked Float))
      → All P l
      → All (λ a. (is_relevant rt fl a ≡ true) × P a) (relevant rt fl l)
  unfolding relevant
  All-relevant P [] all = tt
  All-relevant P (a ∷ l) all = elim (Bool-cases (is_relevant rt fl a)) [
    | inl is ↦ rw is ((is, all.0), All-relevant P l all.1)
    | inr other ↦ rw other (All-relevant P l all.1)
  ]

  All-kept :
      (P : Ranked Float → Type 0) (l : List (Ranked Float)) → All P l → All P (relevant rt fl l)
  unfolding relevant
  All-kept P [] all = tt
  All-kept P (a ∷ l) all = elim (Bool-cases (is_relevant rt fl a)) [
    | inl is ↦ rw is (all.0, All-kept P l all.1)
    | inr other ↦ rw other (All-kept P l all.1)
  ]

  Descending-relevant :
      (l : List (Ranked Float))
      → Descending rt fl order l
      → Descending rt fl order (relevant rt fl l)
  unfolding relevant
  Descending-relevant [] d = tt
  Descending-relevant (a ∷ l) d = elim (Bool-cases (is_relevant rt fl a)) [
    | inl is ↦ rw is (All-kept _ l d.0, Descending-relevant l d.1)
    | inr other ↦ rw other (Descending-relevant l d.1)
  ]

  length-relevant : (l : List (Ranked Float)) → length (relevant rt fl l) ≤ length l
  unfolding relevant
  length-relevant [] = omega arith
  length-relevant (a ∷ l) = ground (arith, length-relevant l)

  relevant-Mem :
      (a : Ranked Float) (l : List (Ranked Float))
      → is_relevant rt fl a ≡ true
      → Memᴰ a l
      → Memᴰ a (relevant rt fl l)
  unfolding relevant
  relevant-Mem a [] is m = elim m [ ]
  relevant-Mem a (b ∷ l) is (Memᴰ.head e) = rw (← e) (rw is (Memᴰ.head refl))
  relevant-Mem a (b ∷ l) is (Memᴰ.tail m) = elim (Bool-cases (is_relevant rt fl b)) [
    | inl kept ↦ rw kept (Memᴰ.tail (relevant-Mem a l is m))
    | inr other ↦ rw other (relevant-Mem a l is m)
  ]

  relevant-same :
      (l : List (Ranked Float)) → All (λ a. is_relevant rt fl a ≡ true) l → relevant rt fl l ≡ l
  unfolding relevant
  relevant-same [] all = refl
  relevant-same (a ∷ l) all = rw (all.0) (ap (◌∷◌ a) (relevant-same l all.1))

  -- what is not in the first `n` of a sorted list is not before any of them, and there are `n`
  take_or_later :
      (n : ℕ) (a : Ranked Float) (l : List (Ranked Float))
      → Descending rt fl order l
      → Memᴰ a l
      → Memᴰ a (take n l)
        ⊎ ((length (take n l) ≡ n) × All (λ b. key_less rt fl b a ≡ false) (take n l))
  take_or_later n a [] d m = elim m [ ]
  take_or_later zero a (b ∷ l) d m = inr (refl, tt)
  take_or_later (suc n) a (b ∷ l) d (Memᴰ.head e) = inl (Memᴰ.head e)
  take_or_later (suc n) a (b ∷ l) d (Memᴰ.tail m) = elim (take_or_later n a l d.1 m) [
    | inl found ↦ inl (Memᴰ.tail found)
    | inr (full, after) ↦ inr (ap (λ k. suc k) full, (All-Mem _ a l d.0 m, after))
  ]

  relevant_above :
      (a b : Ranked Float)
      → is_relevant rt fl a ≡ true
      → key_less rt fl b a ≡ false
      → is_relevant rt fl b ≡ true
  unfolding is_relevant
  relevant_above a b is above = ground (
    arith,
    order.weak (fl.hundredths (negsuc 19)) b.score a.score,
    key_score rt fl order b a above,
  )

  -- The best of these scored memories, at most `places` of them.
  pub record IsRanking (limit : ℤ) (all result : List (Ranked Float)) : Type 0 where
    pub descending : Descending rt fl order result
    pub within : length result ≤ places rt fl limit
    pub sound : All (λ a. (is_relevant rt fl a ≡ true) × Memᴰ a all) result
    pub complete :
        All
          (λ a.
            is_relevant rt fl a ≡ true
            → Memᴰ a result
              ⊎ ((length result ≡ places rt fl limit)
                  × All (λ b. key_less rt fl b a ≡ false) result))
          all

  cut_complete :
      (n : ℕ) (a : Ranked Float) (l : List (Ranked Float))
      → Descending rt fl order l
      → is_relevant rt fl a ≡ true
      → Memᴰ a l
      → Memᴰ a (relevant rt fl (take n l))
        ⊎ ((length (relevant rt fl (take n l)) ≡ n)
            × All (λ b. key_less rt fl b a ≡ false) (relevant rt fl (take n l)))
  cut_complete n a l d is m = elim (take_or_later n a l d m) [
    | inl found ↦ inl (relevant-Mem a (take n l) is found)
    | inr (full, after) ↦
        let all = relevant-same (take n l) (
          All-intro _ (take n l)
            λ b there. relevant_above a b is (All-Mem _ b (take n l) after there)) in
        inr (rw all (full, after))
  ]

  -- Over an order of the floats: a query returns memories of the list with their scores, each relevant, in
  -- descending order of the score and then of the logical time, and no more than the limit allows. A relevant
  -- memory that is not among them has no greater key than any of them, and then there are as many as the limit
  -- allows.
  pub ranked_memories-IsRanking :
      (records : List MemoryRecord) (query branch : String) (object_ids : List String) (limit : ℤ)
      → IsRanking limit
          (score_all rt fl (tokens rt query) (distinct object_ids) branch records)
          (ranked_memories rt fl records query branch object_ids limit)
  unfolding ranked_memories
  ranked_memories-IsRanking records query branch object_ids limit =
      let all = score_all rt fl (tokens rt query) (distinct object_ids) branch records in
      let n = places rt fl limit in
      let sorted = sort_ranked rt fl all in
      let d = sort_ranked-Descending rt fl order all in
      record {
        descending = Descending-relevant (take n sorted) (Descending-take n sorted d);
        within = omega (arith, length-relevant (take n sorted), length-take n sorted);
        sound = All-relevant _ (take n sorted) (
            All-take _ n sorted
              (All-sort_ranked rt fl order _ all (All-intro (λ a. Memᴰ a all) all λ a m. m)));
        complete =
            All-intro _ all
              λ a m is. cut_complete n a sorted d is (sort_ranked-Mem rt fl order a all m);
      }
