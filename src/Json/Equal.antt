-- ===== src/Json/Equal.antt =====
-- Python's `==` on the values: dicts compare without their order, `True` is 1, and 1 is 1.0.
use simulation_ai.Prelude.{
  ℕ, String, Bool, true, false, ◌&&◌, Option, none, some, ◌≡◌, refl, ◌==◌, nat_eq, if◌then◌else◌,
}
use simulation_ai.Prelude.Int.{ℤ, pos, ◌*ℤ◌, eqb_ℤ}
use simulation_ai.Json.{
  Value, null, bool, int, float, str, arr, obj, Items, nil, cons, Fields, end, field,
}
use simulation_ai.Json.Dict.{lookup, size}

abbrev pub million : ℕ
million = 1000000

-- A number in millionths.
unfoldable pub number : Value → Option ℤ
unfolding ◌*ℤ◌
number (bool b) = some (if b then pos million else pos 0)
number (int n) = some (n *ℤ pos million)
number (float m) = some m
number _ = none

is_null : Value → Bool
is_null null = true
is_null _ = false

same_text : String → Value → Bool
same_text s (str t) = s == t
same_text s _ = false

same_number : Option ℤ → Option ℤ → Bool
same_number (some a) (some b) = eqb_ℤ a b
same_number _ _ = false

as_items : Value → Option Items
as_items (arr xs) = some xs
as_items _ = none

as_fields : Value → Option Fields
as_fields (obj d) = some d
as_fields _ = none

item_head : Items → Option Value
item_head nil = none
item_head (cons v xs) = some v

item_tail : Items → Items
item_tail nil = nil
item_tail (cons v xs) = xs

is_nil : Items → Bool
is_nil nil = true
is_nil (cons v xs) = false

unfoldable mutual
  unfolding number is_null same_text same_number as_items as_fields item_head item_tail is_nil
      lookup size

  pub py_eq : Value → Value → Bool
  py_eq null b = is_null b
  py_eq (bool x) b = same_number (number (bool x)) (number b)
  py_eq (int n) b = same_number (number (int n)) (number b)
  py_eq (float m) b = same_number (some m) (number b)
  py_eq (str s) b = same_text s b
  py_eq (arr xs) b = elim (as_items b) [ none ↦ false | some ys ↦ eq_items xs ys ]
  py_eq (obj d) b = elim (as_fields b) [
    | none ↦ false
    | some e ↦ nat_eq (size d) (size e) && eq_fields d e
  ]

  pub eq_items : Items → Items → Bool
  eq_items nil ys = is_nil ys
  eq_items (cons x xs) ys = elim (item_head ys) [
    | none ↦ false
    | some y ↦ py_eq x y && eq_items xs (item_tail ys)
  ]

  -- every entry of the first dict is in the second
  pub eq_fields : Fields → Fields → Bool
  eq_fields end e = true
  eq_fields (field k v d) e = elim (lookup k e) [
    | none ↦ false
    | some w ↦ py_eq v w && eq_fields d e
  ]

py_eq_runs :
    py_eq
      (obj (field "a" (bool true) (field "b" (int (pos 2)) end)))
      (obj (field "b" (float (pos 2000000)) (field "a" (int (pos 1)) end)))
    ≡ true
unfolding py_eq
py_eq_runs = refl
