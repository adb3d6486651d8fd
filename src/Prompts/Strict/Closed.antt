-- ===== src/Prompts/Strict/Closed.antt =====
-- What a compatible schema is like at every node that the provider reads.
use simulation_ai.Prelude.{
  not-eq_false, String, Bool, true, false, ◌||◌, List, [], ◌∷◌, ◌++◌, ◌==◌, ◌≡◌, refl, ap, ◌∙◌,
  arith, eq_iff, if◌then◌else◌, Bool-cases, inl, inr,
}
use simulation_ai.Prelude.Lists.{all}
use simulation_ai.Json.{null, obj, Fields, end, empty_list}
use simulation_ai.Json.Dict.{get_or, contains, keys}
use simulation_ai.Result.{Result, ok, err, ◌>>=◌}
use simulation_ai.Model.{one_of}
use simulation_ai.Prompts.Strict.{
  Findings, then_found, found, node_findings, object_findings, is_object_node, set_of, same_set,
  properties_of, is_false, is_map,
}

-- An object of a strict schema has no other properties, and requires exactly those that it has.
pub record IsClosed (n : Fields) : Type 0 where
  pub additional : is_false (get_or "additionalProperties" null n) ≡ true
  pub is_dict : is_map (get_or "properties" (obj end) n) ≡ true
  pub required : List String
  pub is_required : set_of (get_or "required" empty_list n) ≡ ok (required, false)
  pub exactly : (name : String) → one_of name required ≡ one_of name (keys (properties_of n))

pub record IsStrict (n : Fields) : Type 0 where
  pub no_ref : contains "$ref" n ≡ false
  pub no_dynamic_ref : contains "$dynamicRef" n ≡ false
  pub closed : is_object_node n ≡ true → IsClosed n

append_nil : (xs ys : Findings) → (xs ++ ys) ≡ [] → (xs ≡ []) × (ys ≡ [])
append_nil [] ys h = (refl, h)
append_nil (x ∷ xs) ys h = cc

pub then_found_nil :
    (first rest : Result Findings)
    → then_found first rest ≡ ok []
    → (first ≡ ok []) × (rest ≡ ok [])
unfolding then_found
then_found_nil (err e) rest h = cc
then_found_nil (ok xs) (err e) h = cc
then_found_nil (ok xs) (ok ys) h =
    let same : (xs ++ ys) ≡ [] = cc in let (p, q) = append_nil xs ys same in (rw p refl, rw q refl)

found_nil : (bad : Bool) (path message : String) → found bad path message ≡ [] → bad ≡ false
unfolding found
found_nil true path message h = cc
found_nil false path message h = refl

-- two lists of texts that are the same set
one_of-all :
    (x : String) (xs ys : List String)
    → all (λ y. one_of y ys) xs ≡ true
    → one_of x xs ≡ true
    → one_of x ys ≡ true
unfolding one_of
one_of-all x [] ys h m = cc
one_of-all x (z ∷ xs) ys h m = elim (Bool-cases (x == z)) [
  | inl e ↦ let q : x ≡ z = (eq_iff x z).0 e in rw q (ground arith)
  | inr e ↦ one_of-all x xs ys (ground arith) (ground arith)
]

same_both :
    (x : String) (xs ys : List String)
    → all (λ y. one_of y ys) xs ≡ true
    → all (λ y. one_of y xs) ys ≡ true
    → (b c : Bool) → one_of x xs ≡ b
    → one_of x ys ≡ c
    → b ≡ c
same_both x xs ys h k true true p q = refl
same_both x xs ys h k false false p q = refl
same_both x xs ys h k true false p q = let r = one_of-all x xs ys h p in cc
same_both x xs ys h k false true p q = let r = one_of-all x ys xs k q in cc

same_set-exactly :
    (xs : List String) (others : Bool) (ys : List String)
    → same_set (xs, others) ys ≡ true
    → (others ≡ false) × ((x : String) → one_of x xs ≡ one_of x ys)
unfolding same_set
same_set-exactly xs true ys h = cc
same_set-exactly xs false ys h = (
  refl,
  λ x. same_both x xs ys (ground arith) (ground arith) (one_of x xs) (one_of x ys) refl refl,
)

three_found :
    (a b c : Bool) (path k l m : String)
    → (found a path k ++ (found b path l ++ found c path m)) ≡ []
    → (a ≡ false) × (b ≡ false) × (c ≡ false)
unfolding found
three_found true b c path k l m h = cc
three_found false true c path k l m h = cc
three_found false false true path k l m h = cc
three_found false false false path k l m h = (refl, refl, refl)

object_findings-IsClosed :
    (path : String) (node : Fields) (required : List String) (others : Bool)
    → set_of (get_or "required" empty_list node) ≡ ok (required, others)
    → object_findings path node (required, others) ≡ []
    → IsClosed node
unfolding object_findings
object_findings-IsClosed path node required others e h =
    let (a, b, c) = three_found _ _ _ path _ _ _ h in
    let (none_else, same) =
      same_set-exactly required others (keys (properties_of node)) (not-eq_false _ c) in
    record {
      additional = not-eq_false _ b;
      is_dict = not-eq_false _ a;
      required = required;
      is_required = e ∙ ap (λ o. ok (required, o)) none_else;
      exactly = same;
    }

object_case :
    (path : String) (node : Fields) (refs : Findings) (r : Result (List String × Bool))
    → set_of (get_or "required" empty_list node) ≡ r
    → (r >>= λ required. ok (refs ++ object_findings path node required)) ≡ ok []
    → (refs ≡ []) × IsClosed node
object_case path node refs (err x) e h = cc
object_case path node refs (ok (required, others)) e h =
    let same : (refs ++ object_findings path node (required, others)) ≡ [] = cc in
    let (p, q) = append_nil refs (object_findings path node (required, others)) same in
    (p, object_findings-IsClosed path node required others e q)

or_false : (a b : Bool) → (a || b) ≡ false → (a ≡ false) × (b ≡ false)
or_false true b h = cc
or_false false b h = (refl, h)

node_case :
    (path message : String) (node : Fields) (is_object : Bool)
    → (if is_object
        then (set_of (get_or "required" empty_list node) >>= λ required. ok (
            found (contains "$ref" node || contains "$dynamicRef" node) path message
            ++ object_findings path node required))
        else ok (found (contains "$ref" node || contains "$dynamicRef" node) path message))
      ≡ ok []
    → is_object_node node ≡ is_object
    → IsStrict node
node_case path message node true h e =
    let (p, closed) = object_case path node _ _ refl h in
    let (a, b) = or_false _ _ (found_nil _ path message p) in
    record { no_ref = a; no_dynamic_ref = b; closed = λ _. closed }
node_case path message node false h e =
    let same : found (contains "$ref" node || contains "$dynamicRef" node) path message ≡ [] = cc in
    let (a, b) = or_false _ _ (found_nil _ path message same) in
    record { no_ref = a; no_dynamic_ref = b; closed = λ q. cc }

pub node_findings-IsStrict :
    (path : String) (node : Fields) → node_findings path node ≡ ok [] → IsStrict node
unfolding node_findings
node_findings-IsStrict path node h = node_case path _ node (is_object_node node) h refl
