-- ===== src/Json/Lists.antt =====
-- Python's lists of values, and the positions that an index expression names in them.
use simulation_ai.Prelude.{
  ℕ, zero, suc, ◌+◌, ◌-◌, ◌<◌, Option, none, some, ◌≡◌, refl, arith, leb, ltb, if◌then◌else◌,
}
use simulation_ai.Prelude.Int.{ℤ, pos, negsuc}
use simulation_ai.Json.{Value, Items, nil, cons}

-- `len(xs)`
unfoldable pub count : Items → ℕ
count nil = 0
count (cons v xs) = suc (count xs)

unfoldable pub item_at : Items → ℕ → Option Value
item_at nil i = none
item_at (cons v xs) zero = some v
item_at (cons v xs) (suc i) = item_at xs i

unfoldable pub set_item : Items → ℕ → Value → Items
set_item nil i w = nil
set_item (cons v xs) zero w = cons w xs
set_item (cons v xs) (suc i) w = cons v (set_item xs i w)

-- `xs.insert(i, w)` for `0 <= i`; past the end it appends
unfoldable pub insert_item : Items → ℕ → Value → Items
insert_item nil i w = cons w nil
insert_item (cons v xs) zero w = cons w (cons v xs)
insert_item (cons v xs) (suc i) w = cons v (insert_item xs i w)

unfoldable pub delete_item : Items → ℕ → Items
delete_item nil i = nil
delete_item (cons v xs) zero = xs
delete_item (cons v xs) (suc i) = cons v (delete_item xs i)

-- `xs.append(w)`
unfoldable pub append_item : Items → Value → Items
append_item nil w = cons w nil
append_item (cons v xs) w = cons v (append_item xs w)

-- The place of `xs[i]` in a list of `n` items, `none` for an IndexError.
unfoldable pub place : ℤ → ℕ → Option ℕ
place (pos i) n = if ltb i n then some i else none
place (negsuc i) n = if ltb i n then some (n - suc i) else none

-- The place at which `xs.insert(i, w)` inserts: it is clamped to the list.
unfoldable pub insert_place : ℤ → ℕ → ℕ
insert_place (pos i) n = if leb i n then i else n
insert_place (negsuc i) n = n - suc i

pub item_at-set_item_self :
    (xs : Items) (i : ℕ) (w : Value) → i < count xs → item_at (set_item xs i w) i ≡ some w
unfolding count item_at set_item
item_at-set_item_self nil i w h = elim h [ ]
item_at-set_item_self (cons v xs) zero w h = refl
item_at-set_item_self (cons v xs) (suc i) w h = item_at-set_item_self xs i w (omega arith)

pub count-set_item : (xs : Items) (i : ℕ) (w : Value) → count (set_item xs i w) ≡ count xs
unfolding count set_item
count-set_item nil i w = refl
count-set_item (cons v xs) zero w = refl
count-set_item (cons v xs) (suc i) w = omega (arith, count-set_item xs i w)

pub count-append_item : (xs : Items) (w : Value) → count (append_item xs w) ≡ count xs + 1
unfolding count append_item
count-append_item nil w = omega arith
count-append_item (cons v xs) w = omega (arith, count-append_item xs w)

pub place-lt : (i : ℤ) (n p : ℕ) → place i n ≡ some p → p < n
unfolding place
place-lt (pos i) n p h = ground arith
place-lt (negsuc i) n p h = ground arith
