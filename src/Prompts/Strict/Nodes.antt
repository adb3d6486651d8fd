-- ===== src/Prompts/Strict/Nodes.antt =====
-- A schema that is found compatible is strict at every node that the provider reads.
use simulation_ai.Prelude.{
  ℕ, zero, suc, String, Bool, true, false, some, [], ◌∷◌, ◌==◌, ◌≡◌, refl, sym, ap, ◌∙◌, arith,
  Bool-cases, ◌⊎◌, inl, inr,
}
use simulation_ai.Prelude.Texts.{str_append}
use simulation_ai.Json.{Value, bool, obj, arr, Items, nil, cons, Fields, end, field}
use simulation_ai.Json.Dict.{lookup}
use simulation_ai.Json.Lists.{item_at}
use simulation_ai.Result.{Result, ok, err, ◌>>=◌}
use simulation_ai.Runtime.{show_nat}
use simulation_ai.Prompts.Strict.{
  Findings, visit, visit_properties, visit_map, visit_each, visit_items, visit_branches, visit_list,
  visit_members, when_object, is_object_node, strict_compatibility, compatibility_of, no_findings,
}
use simulation_ai.Prompts.Strict.Closed.{IsStrict, then_found_nil, node_findings-IsStrict}

-- A node that the visit reaches from a schema.
pub data Node (n : Fields) : Value → Type 0 where
  root : {v : Value} → v ≡ obj n → Node n v
  property :
      {node props : Fields} {child : Value} (name : String)
      → is_object_node node ≡ true
      → lookup "properties" node ≡ some (obj props)
      → lookup name props ≡ some child
      → Node n child
      → Node n (obj node)
  element :
      {node : Fields} {child : Value}
      → lookup "items" node ≡ some child
      → Node n child
      → Node n (obj node)
  branch :
      {node : Fields} {xs : Items} {child : Value} (keyword : String) (i : ℕ)
      → (keyword ≡ "anyOf") ⊎ (keyword ≡ "oneOf") ⊎ (keyword ≡ "allOf")
      → lookup keyword node ≡ some (arr xs)
      → item_at xs i ≡ some child
      → Node n child
      → Node n (obj node)

each_nil :
    (name : String) (d : Fields) (path : String) (child : Value)
    → visit_each d path ≡ ok []
    → lookup name d ≡ some child
    → (p : String) × (visit child p ≡ ok [])
unfolding visit_each lookup
each_nil name end path child h e = cc
each_nil name (field j v d) path child h e =
    let (first, rest) = then_found_nil _ _ h in
    elim (Bool-cases (j == name)) [
      | inl q ↦ (
        str_append path (str_append ".properties." j),
        let same : v ≡ child = ground arith in rw (← same) first,
      )
      | inr q ↦ each_nil name d path child rest (ground arith)
    ]

properties_nil :
    (node props : Fields) (path : String)
    → visit_properties node path ≡ ok []
    → lookup "properties" node ≡ some (obj props)
    → visit_each props path ≡ ok []
unfolding visit_properties visit_map lookup
properties_nil end props path h e = cc
properties_nil (field j v d) props path h e = elim (Bool-cases (j == "properties")) [
  | inl q ↦
      let same : v ≡ obj props = ground arith in
      let here : visit_map v path ≡ ok [] = ground arith in
      ap (λ w. visit_map w path) (sym same) ∙ here
  | inr q ↦ properties_nil d props path (ground arith) (ground arith)
]

items_nil :
    (node : Fields) (path : String) (child : Value)
    → visit_items node path ≡ ok []
    → lookup "items" node ≡ some child
    → (p : String) × (visit child p ≡ ok [])
unfolding visit_items lookup
items_nil end path child h e = cc
items_nil (field j v d) path child h e = elim (Bool-cases (j == "items")) [
  | inl q ↦ (
    str_append path ".items",
    let same : v ≡ child = ground arith in
        let here : visit v (str_append path ".items") ≡ ok [] = ground arith in rw (← same) here,
  )
  | inr q ↦ items_nil d path child (ground arith) (ground arith)
]

members_nil :
    (xs : Items) (index i : ℕ) (path : String) (child : Value)
    → visit_members xs index path ≡ ok []
    → item_at xs i ≡ some child
    → (p : String) × (visit child p ≡ ok [])
unfolding visit_members item_at
members_nil nil index i path child h e = cc
members_nil (cons v xs) index zero path child h e =
    let (first, rest) = then_found_nil _ _ h in
    let same : v ≡ child = cc in
    (str_append path (str_append "[" (str_append (show_nat index) "]")), rw (← same) first)
members_nil (cons v xs) index (suc i) path child h e =
    members_nil xs (suc index) i path child (then_found_nil _ _ h).1 e

branches_nil :
    (keyword : String) (node : Fields) (xs : Items) (path : String)
    → visit_branches keyword node path ≡ ok []
    → lookup keyword node ≡ some (arr xs)
    → (p : String) × (visit_members xs 0 p ≡ ok [])
unfolding visit_branches visit_list lookup
branches_nil keyword end xs path h e = cc
branches_nil keyword (field j v d) xs path h e = elim (Bool-cases (j == keyword)) [
  | inl q ↦ (
    str_append path (str_append "." keyword),
    let same : v ≡ arr xs = ground arith in
        let here : visit_list v (str_append path (str_append "." keyword)) ≡ ok [] = ground arith in
        ap (λ w. visit_list w (str_append path (str_append "." keyword))) (sym same) ∙ here,
  )
  | inr q ↦ branches_nil keyword d xs path (ground arith) (ground arith)
]

-- the parts of a visit that found nothing
pub record Clean (node : Fields) (path : String) : Type 0 where
  pub strict : IsStrict node
  pub properties : is_object_node node ≡ true → visit_properties node path ≡ ok []
  pub elements : visit_items node path ≡ ok []
  pub any_of : visit_branches "anyOf" node path ≡ ok []
  pub one_of : visit_branches "oneOf" node path ≡ ok []
  pub all_of : visit_branches "allOf" node path ≡ ok []

when_true : (b : Bool) (r : Result Findings) → when_object b r ≡ ok [] → b ≡ true → r ≡ ok []
unfolding when_object
when_true true r h e = h
when_true false r h e = cc

visit-Clean : (node : Fields) (path : String) → visit (obj node) path ≡ ok [] → Clean node path
unfolding visit
visit-Clean node path h =
    let (a, h1) = then_found_nil _ _ h in
    let (b, h2) = then_found_nil _ _ h1 in
    let (c, h3) = then_found_nil _ _ h2 in
    let (d, h4) = then_found_nil _ _ h3 in
    let (e, f) = then_found_nil _ _ h4 in
    record {
      strict = node_findings-IsStrict path node a;
      properties = when_true (is_object_node node) _ b;
      elements = c;
      any_of = d;
      one_of = e;
      all_of = f;
    }

branch-Clean :
    (node : Fields) (path keyword : String)
    → Clean node path
    → (keyword ≡ "anyOf") ⊎ (keyword ≡ "oneOf") ⊎ (keyword ≡ "allOf")
    → visit_branches keyword node path ≡ ok []
branch-Clean node path keyword c (inl e) = rw e c.any_of
branch-Clean node path keyword c (inr (inl e)) = rw e c.one_of
branch-Clean node path keyword c (inr (inr e)) = rw e c.all_of

visit-IsStrict :
    (n : Fields) (v : Value) (path : String) → visit v path ≡ ok [] → Node n v → IsStrict n
visit-IsStrict n v path h (root e) =
    let at : visit (obj n) path ≡ ok [] = rw (← e) h in (visit-Clean n path at).strict
visit-IsStrict n _ path h
      (property {node = node} {props = props} {child = child} name o e f below) =
    let props_ok = properties_nil node props path ((visit-Clean node path h).properties o) e in
    let (p, child_ok) = each_nil name props path child props_ok f in
    visit-IsStrict n child p child_ok below
visit-IsStrict n _ path h (element {node = node} {child = child} e below) =
    let (p, child_ok) = items_nil node path child (visit-Clean node path h).elements e in
    visit-IsStrict n child p child_ok below
visit-IsStrict n _ path h (branch {node = node} {xs = xs} {child = child} keyword i w e f below) =
    let (p, xs_ok) =
      branches_nil keyword node xs path (branch-Clean node path keyword (visit-Clean node path h) w)
        e in
    let (q, child_ok) = members_nil xs 0 i p child xs_ok f in
    visit-IsStrict n child q child_ok below

flag_true : (f : Findings) → no_findings f ≡ true → f ≡ []
unfolding no_findings
flag_true [] h = refl
flag_true (x ∷ l) h = cc

compatible_case :
    (schema : Value) (r : Result Findings) (d : Fields)
    → visit schema "$" ≡ r
    → (r >>= λ findings. ok (compatibility_of findings)) ≡ ok d
    → lookup "compatible" d ≡ some (bool true)
    → visit schema "$" ≡ ok []
unfolding compatibility_of lookup
compatible_case schema (err x) d e h c = cc
compatible_case schema (ok f) d e h c =
    let same : compatibility_of f ≡ d = cc in
    let flag : some (bool (no_findings f)) ≡ some (bool true) = ap (lookup "compatible") same ∙ c in
    e ∙ ap ok (flag_true f (cc))

-- A schema that is reported as compatible has no reference at any node that the visit reaches, through
-- properties, items and the three kinds of branches, and each object node there admits no other
-- properties and requires exactly the properties that it has.
pub strict_compatibility-IsStrict :
    (schema : Value) (n d : Fields)
    → strict_compatibility schema ≡ ok d
    → lookup "compatible" d ≡ some (bool true)
    → Node n schema
    → IsStrict n
unfolding strict_compatibility
strict_compatibility-IsStrict schema n d h c below =
    visit-IsStrict n schema "$" (compatible_case schema (visit schema "$") d refl h c) below
