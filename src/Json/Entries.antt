-- ===== src/Json/Entries.antt =====
-- Dicts without their order: a sorted dict is determined by its entries.
use mathlib.Core.Option
use simulation_ai.Prelude.{
  String, true, false, none, some, ◌≡◌, ◌↔◌, refl, sym, ap, ◌∙◌, inl, inr, arith, Bool-cases, ◌==◌,
  eq_iff, eq_refl,
}
use simulation_ai.Json.{Value, Fields, end, field}
use simulation_ai.Json.Dict.{lookup}
use simulation_ai.Json.Order.{str_lt_irrefl, str_lt_trans, str_lt_total}
use simulation_ai.Json.Sort.{str_lt, insert_field, sort_keys, sort_fields}
use simulation_ai.Json.Sorted.{lookup-sort_fields}

-- The key stands before all keys of the dict.
abbrev Under : String → Fields → Type 0
Under k end = Unit
Under k (field j v d) = (str_lt k j ≡ true) × Under k d

abbrev Ascends : Fields → Type 0
Ascends end = Unit
Ascends (field k v d) = Under k d × Ascends d

-- No key twice, as in every dict.
abbrev pub IsDict : Fields → Type 0
IsDict end = Unit
IsDict (field k v d) = (lookup k d ≡ none) × IsDict d

Under-below : (i k : String) (d : Fields) → str_lt i k ≡ true → Under k d → Under i d
Under-below i k end h u = tt
Under-below i k (field j v d) h (lt, u) = (str_lt_trans i k j h lt, Under-below i k d h u)

lookup-Under : (k : String) (d : Fields) → Under k d → lookup k d ≡ none
unfolding lookup
lookup-Under k end u = refl
lookup-Under k (field j v d) (lt, u) =
    let other : (j == k) ≡ false = ground (arith, eq_iff j k, str_lt_irrefl k, lt) in
    rw other (lookup-Under k d u)

Under-insert_field :
    (i k : String) (v : Value) (d : Fields)
    → str_lt i k ≡ true
    → Under i d
    → Under i (insert_field k v d)
unfolding insert_field
Under-insert_field i k v end h u = (h, tt)
Under-insert_field i k v (field j w d) h (lt, u) = elim (Bool-cases (str_lt j k)) [
  | inl before ↦ rw before (lt, Under-insert_field i k v d h u)
  | inr after ↦ rw after (h, (lt, u))
]

before-absent :
    (k j : String) (w : Value) (d : Fields)
    → lookup k (field j w d) ≡ none
    → str_lt j k ≡ false
    → str_lt k j ≡ true
unfolding lookup
before-absent k j w d absent after = elim (Bool-cases (str_lt k j)) [
  | inl first ↦ first
  | inr other ↦ let same = (eq_iff j k).1 (str_lt_total j k after other) in cc (rw same at absent)
]

insert_field-Ascends :
    (k : String) (v : Value) (d : Fields)
    → lookup k d ≡ none
    → Ascends d
    → Ascends (insert_field k v d)
unfolding insert_field lookup
insert_field-Ascends k v end absent a = (tt, tt)
insert_field-Ascends k v (field j w d) absent (u, a) = elim (Bool-cases (str_lt j k)) [
  | inl before ↦ rw before (
      let apart : (j == k) ≡ false = ground (arith, eq_iff j k, str_lt_irrefl k) in
      let later : lookup k d ≡ none = rw apart at absent in
      (Under-insert_field j k v d before u, insert_field-Ascends k v d later a))
  | inr after ↦ rw after (
      let first = before-absent k j w d absent after in
      ((first, Under-below k j d first u), (u, a)))
]

sort_fields-Ascends : (d : Fields) → IsDict d → Ascends (sort_fields d)
unfolding sort_keys
sort_fields-Ascends end h = tt
sort_fields-Ascends (field k v d) (absent, h) =
    insert_field-Ascends k (sort_keys v) (sort_fields d)
      (lookup-sort_fields k d ∙ ap (Option.map sort_keys) absent) (sort_fields-Ascends d h)

found-first : (k : String) (v : Value) (d : Fields) → lookup k (field k v d) ≡ some v
unfolding lookup
found-first k v d = rw (eq_refl k) refl

-- the keys of the first entries
same-first :
    (k i : String) (v w : Value) (d e : Fields)
    → Ascends (field k v d)
    → Ascends (field i w e)
    → ((j : String) → lookup j (field k v d) ≡ lookup j (field i w e))
    → k ≡ i
same-first k i v w d e (u, a) (x, b) h = elim (Bool-cases (str_lt k i)) [
  | inl before ↦
      let absent = lookup-Under k (field i w e) (before, Under-below k i e before x) in
      cc (sym (found-first k v d) ∙ h k ∙ absent)
  | inr not_before ↦ elim (Bool-cases (str_lt i k)) [
    | inl after ↦
        let absent = lookup-Under i (field k v d) (after, Under-below i k d after u) in
        cc (sym (found-first i w e) ∙ sym (h i) ∙ absent)
    | inr not_after ↦ str_lt_total k i not_before not_after
  ]
]

same-rest :
    (k : String) (v w : Value) (d e : Fields)
    → Under k d
    → Under k e
    → ((j : String) → lookup j (field k v d) ≡ lookup j (field k w e))
    → (j : String) → lookup j d ≡ lookup j e
unfolding lookup
same-rest k v w d e u x h j = elim (Bool-cases (k == j)) [
  | inl here ↦
      let same : k ≡ j = (eq_iff k j).0 here in
      rw (← same) (lookup-Under k d u ∙ sym (lookup-Under k e x))
  | inr other ↦ let at_j = h j in rw other at at_j
]

Ascends-same :
    (d e : Fields) → Ascends d → Ascends e → ((j : String) → lookup j d ≡ lookup j e) → d ≡ e
unfolding lookup
Ascends-same end end a b h = refl
Ascends-same end (field i w e) a b h = cc (h i ∙ found-first i w e)
Ascends-same (field k v d) end a b h = cc (sym (found-first k v d) ∙ h k)
Ascends-same (field k v d) (field i w e) (u, a) (x, b) h =
    let key : k ≡ i = same-first k i v w d e (u, a) (x, b) h in
    let h' : (j : String) → lookup j (field k v d) ≡ lookup j (field k w e) = rw (← key) at h in
    let x' : Under k e = rw (← key) at x in
    let value = sym (found-first k v d) ∙ h' k ∙ found-first k w e in
    let rest = Ascends-same d e a b (same-rest k v w d e u x' h') in cc (key, value, rest)

-- Two dicts have the same entries, whatever their order, and that of the dicts in their values.
abbrev pub SameEntries : Fields → Fields → Type 0
SameEntries d e =
    (j : String) → Option.map sort_keys (lookup j d) ≡ Option.map sort_keys (lookup j e)

pub sort_fields-SameEntries :
    (d e : Fields) → IsDict d → IsDict e → (sort_fields d ≡ sort_fields e) ↔ SameEntries d e
sort_fields-SameEntries d e is_dict is_dict' = (
  λ same j. sym (lookup-sort_fields j d) ∙ ap (lookup j) same ∙ lookup-sort_fields j e,
  λ same.
      Ascends-same (sort_fields d) (sort_fields e) (sort_fields-Ascends d is_dict)
        (sort_fields-Ascends e is_dict')
        (λ j. lookup-sort_fields j d ∙ same j ∙ sym (lookup-sort_fields j e)),
)
