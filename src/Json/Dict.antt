-- ===== src/Json/Dict.antt =====
-- Python's dicts with text keys, in insertion order.
use simulation_ai.Prelude.{
  ℕ, suc, String, Bool, true, false, ◌||◌, Option, none, some, ◌≡◌, ◌≢◌, refl, arith, List, [], ◌∷◌,
  ◌==◌, eq_iff, if◌then◌else◌,
}
use simulation_ai.Json.{Value, Fields, end, field}

-- `d.get(k)`
unfoldable pub lookup : String → Fields → Option Value
lookup k end = none
lookup k (field j v d) = if j == k then some v else lookup k d

-- `k in d`
unfoldable pub contains : String → Fields → Bool
contains k end = false
contains k (field j v d) = j == k || contains k d

-- `d[k] = v`
unfoldable pub put : String → Value → Fields → Fields
put k v end = field k v end
put k v (field j w d) = if j == k then field j v d else field j w (put k v d)

-- `del d[k]`
unfoldable pub erase : String → Fields → Fields
erase k end = end
erase k (field j w d) = let rest = erase k d in if j == k then rest else field j w rest

-- `d.get(k, default)`
unfoldable pub get_or : String → Value → Fields → Value
unfolding lookup
get_or k default d = elim (lookup k d) [ none ↦ default | some v ↦ v ]

-- `len(d)`, `list(d)`
unfoldable pub size : Fields → ℕ
size end = 0
size (field k v d) = suc (size d)

unfoldable pub keys : Fields → List String
keys end = []
keys (field k v d) = k ∷ keys d

pub lookup-put :
    (k j : String) (v : Value) (d : Fields)
    → lookup j (put k v d) ≡ (if k == j then some v else lookup j d)
unfolding lookup put
lookup-put k j v end = refl
lookup-put k j v (field i w d) =
    ground (arith, eq_iff k j, eq_iff i k, eq_iff i j, lookup-put k j v d)

pub lookup-erase :
    (k j : String) (d : Fields) → lookup j (erase k d) ≡ (if k == j then none else lookup j d)
unfolding lookup erase
lookup-erase k j end = ground arith
lookup-erase k j (field i w d) =
    ground (arith, eq_iff k j, eq_iff i k, eq_iff i j, lookup-erase k j d)

pub contains-lookup :
    (k : String) (d : Fields) → contains k d ≡ elim (lookup k d) [ none ↦ false | some _ ↦ true ]
unfolding contains lookup
contains-lookup k end = refl
contains-lookup k (field j v d) = ground (arith, contains-lookup k d)

pub lookup-put_ne :
    (k j : String) (v : Value) (d : Fields) → k ≢ j → lookup j (put k v d) ≡ lookup j d
lookup-put_ne k j v d ne = ground (arith, lookup-put k j v d, eq_iff k j)

pub lookup-put_self : (k : String) (v : Value) (d : Fields) → lookup k (put k v d) ≡ some v
lookup-put_self k v d = ground (arith, lookup-put k k v d, eq_iff k k)

pub lookup-erase_ne : (k j : String) (d : Fields) → k ≢ j → lookup j (erase k d) ≡ lookup j d
lookup-erase_ne k j d ne = ground (arith, lookup-erase k j d, eq_iff k j)

pub get_or-put :
    (k j : String) (v default : Value) (d : Fields)
    → get_or j default (put k v d) ≡ (if k == j then v else get_or j default d)
unfolding get_or
get_or-put k j v default d = ground (arith, lookup-put k j v d)

pub erase-put : (k : String) (v : Value) (d : Fields) → erase k (put k v d) ≡ erase k d
unfolding erase put
erase-put k v end = ground (arith, eq_iff k k)
erase-put k v (field j w d) = ground (arith, eq_iff j k, eq_iff k k, erase-put k v d)
