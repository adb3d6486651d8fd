-- ===== src/Json/Sorted.antt =====
-- Sorting the keys twice is sorting them once, and it loses no entry.
use mathlib.Core.Option
use simulation_ai.Prelude.{
  String, false, some, ◌≡◌, refl, ap, inl, inr, arith, Bool-cases, ◌==◌, eq_iff, if◌then◌else◌,
}
use simulation_ai.Json.{
  Value, null, bool, int, float, str, arr, obj, Items, nil, cons, Fields, end, field,
}
use simulation_ai.Json.Dict.{lookup}
use simulation_ai.Json.Sort.{str_lt, str_lt_asymm, insert_field, sort_keys, sort_items, sort_fields}

-- The key may stand before the entries of the dict.
abbrev Before : String → Fields → Type 0
Before k end = Unit
Before k (field j v d) = str_lt j k ≡ false

-- The keys ascend, and every value has sorted keys.
abbrev IsSorted : Fields → Type 0
IsSorted end = Unit
IsSorted (field k v d) = Before k d × (sort_keys v ≡ v) × IsSorted d

Before-insert_field :
    (i k : String) (v : Value) (d : Fields)
    → str_lt k i ≡ false
    → Before i d
    → Before i (insert_field k v d)
unfolding insert_field
Before-insert_field i k v end h b = h
Before-insert_field i k v (field j w d) h b = ground arith

insert_field-IsSorted :
    (k : String) (v : Value) (d : Fields)
    → sort_keys v ≡ v
    → IsSorted d
    → IsSorted (insert_field k v d)
unfolding insert_field
insert_field-IsSorted k v end e s = (tt, e, tt)
insert_field-IsSorted k v (field j w d) e (b, ew, s) = elim (Bool-cases (str_lt j k)) [
  | inl lt ↦
      rw lt
        (Before-insert_field j k v d (str_lt_asymm j k lt) b, ew, insert_field-IsSorted k v d e s)
  | inr ge ↦ rw ge (ge, e, (b, ew, s))
]

insert_field_first :
    (k : String) (v : Value) (d : Fields) → Before k d → insert_field k v d ≡ field k v d
unfolding insert_field
insert_field_first k v end b = refl
insert_field_first k v (field j w d) b = rw b

sort_fields_fixed : (d : Fields) → IsSorted d → sort_fields d ≡ d
unfolding sort_keys
sort_fields_fixed end s = refl
sort_fields_fixed (field k v d) (b, e, s) =
    rw (e, sort_fields_fixed d s) (insert_field_first k v d b)

mutual
  unfolding sort_keys

  sort_keys_again : (v : Value) → sort_keys (sort_keys v) ≡ sort_keys v
  sort_keys_again null = refl
  sort_keys_again (bool b) = refl
  sort_keys_again (int n) = refl
  sort_keys_again (float m) = refl
  sort_keys_again (str s) = refl
  sort_keys_again (arr xs) = ap arr (sort_items_again xs)
  sort_keys_again (obj d) = ap obj (sort_fields_fixed (sort_fields d) (sort_fields-IsSorted d))

  sort_items_again : (xs : Items) → sort_items (sort_items xs) ≡ sort_items xs
  sort_items_again nil = refl
  sort_items_again (cons x xs) = cc (sort_keys_again x, sort_items_again xs)

  sort_fields-IsSorted : (d : Fields) → IsSorted (sort_fields d)
  sort_fields-IsSorted end = tt
  sort_fields-IsSorted (field k v d) =
      insert_field-IsSorted k (sort_keys v) (sort_fields d) (sort_keys_again v)
        (sort_fields-IsSorted d)

pub sort_keys_idem : (v : Value) → sort_keys (sort_keys v) ≡ sort_keys v
sort_keys_idem v = sort_keys_again v

pub sort_fields_idem : (d : Fields) → sort_fields (sort_fields d) ≡ sort_fields d
sort_fields_idem d = sort_fields_fixed (sort_fields d) (sort_fields-IsSorted d)

lookup-insert_field :
    (k j : String) (v : Value) (d : Fields)
    → lookup j (insert_field k v d) ≡ (if k == j then some v else lookup j d)
unfolding lookup insert_field
lookup-insert_field k j v end = refl
lookup-insert_field k j v (field i w d) =
    ground (arith, eq_iff k j, eq_iff i j, str_lt_asymm i k, lookup-insert_field k j v d)

-- A key keeps its value, with its keys sorted.
pub lookup-sort_fields :
    (j : String) (d : Fields) → lookup j (sort_fields d) ≡ Option.map sort_keys (lookup j d)
unfolding lookup sort_keys
lookup-sort_fields j end = refl
lookup-sort_fields j (field k v d) =
    ground (arith, lookup-insert_field k j (sort_keys v) (sort_fields d), lookup-sort_fields j d)
