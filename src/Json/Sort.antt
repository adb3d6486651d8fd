-- ===== src/Json/Sort.antt =====
-- `sort_keys=True` of `json.dumps`: the keys of every dict in the order of their code points.
-- A record that is written so and read back has its dicts in this order.
use Prim.Native.Char.{code}
use Prim.Native.String.{[], ◌∷◌}
use simulation_ai.Prelude.{String, Bool, true, false, ◌≡◌, refl, ltb, if◌then◌else◌, arith}
use simulation_ai.Json.{
  Value, null, bool, int, float, str, arr, obj, Items, nil, cons, Fields, end, field,
}

-- `s < t`
unfoldable pub str_lt : String → String → Bool
str_lt [] [] = false
str_lt [] (d ∷ t) = true
str_lt (c ∷ s) [] = false
str_lt (c ∷ s) (d ∷ t) =
    if ltb (code c) (code d) then true else if ltb (code d) (code c) then false else str_lt s t

unfoldable pub insert_field : String → Value → Fields → Fields
insert_field k v end = field k v end
insert_field k v (field j w d) =
    if str_lt j k then field j w (insert_field k v d) else field k v (field j w d)

unfoldable mutual
  unfolding insert_field str_lt

  pub sort_keys : Value → Value
  sort_keys null = null
  sort_keys (bool b) = bool b
  sort_keys (int n) = int n
  sort_keys (float m) = float m
  sort_keys (str s) = str s
  sort_keys (arr xs) = arr (sort_items xs)
  sort_keys (obj d) = obj (sort_fields d)

  pub sort_items : Items → Items
  sort_items nil = nil
  sort_items (cons x xs) = cons (sort_keys x) (sort_items xs)

  pub sort_fields : Fields → Fields
  sort_fields end = end
  sort_fields (field k v d) = insert_field k (sort_keys v) (sort_fields d)

pub str_lt_asymm : (s t : String) → str_lt s t ≡ true → str_lt t s ≡ false
unfolding str_lt
str_lt_asymm [] [] h = refl
str_lt_asymm [] (d ∷ t) h = refl
str_lt_asymm (c ∷ s) [] h = cc
str_lt_asymm (c ∷ s) (d ∷ t) h = ground (arith, str_lt_asymm s t)

sort_runs :
    sort_keys (obj (field "b" null (field "a" (obj (field "z" null (field "y" null end))) end)))
    ≡ obj (field "a" (obj (field "y" null (field "z" null end))) (field "b" null end))
unfolding sort_keys
sort_runs = refl
