-- ===== src/Prompts/Strict.antt =====
-- `openai_strict_compatibility` of prompts.py: what a schema may hold for the provider's strict mode.
pub mod Closed
pub mod Nodes
use Prim.Native.String
use simulation_ai.Prelude.{
  ℕ, zero, suc, String, Bool, true, false, not, ◌&&◌, ◌||◌, Option, none, some, List, [], ◌∷◌, ◌++◌,
  ◌==◌, ◌≡◌, if◌then◌else◌,
}
use simulation_ai.Prelude.Int.{pos}
use simulation_ai.Prelude.Texts.{str_append}
use simulation_ai.Prelude.Lists.{all}
use simulation_ai.Json.{
  Value, null, bool, int, float, str, arr, obj, Items, nil, cons, Fields, end, field, items,
  empty_list,
}
use simulation_ai.Json.Dict.{lookup, get_or, contains, keys}
use simulation_ai.Json.Equal.{py_eq}
use simulation_ai.Result.{Result, ok, err, ◌>>=◌, type_error}
use simulation_ai.Runtime.{show_nat}
use simulation_ai.Model.{dict, one_of}

-- A finding: the path of a node, and what is wrong there.
abbrev pub Findings : Type 0
Findings = List (String × String)

-- The elements of `set(v)`: the texts, and whether there are others. A dict or a list among them is not
-- hashable.
set_of_items : Items → Result (List String × Bool)
set_of_items nil = ok ([], false)
set_of_items (cons (str s) xs) = do rest ← set_of_items xs; ok (s ∷ rest.0, rest.1)
set_of_items (cons (arr x) xs) = err type_error
set_of_items (cons (obj d) xs) = err type_error
set_of_items (cons v xs) = do rest ← set_of_items xs; ok (rest.0, true)

characters : String → List String
characters String.[] = []
characters (String.◌∷◌ c s) = String.◌∷◌ c String.[] ∷ characters s

unfoldable pub set_of : Value → Result (List String × Bool)
unfolding set_of_items characters keys
set_of (arr xs) = set_of_items xs
set_of (obj d) = ok (keys d, false)
set_of (str s) = ok (characters s, false)
set_of _ = err type_error

-- `set(xs) != set(ys)` for texts, the first with its other elements
unfoldable pub same_set : List String × Bool → List String → Bool
unfolding one_of
same_set (xs, others) ys = not others && all (λ x. one_of x ys) xs && all (λ y. one_of y xs) ys

unfoldable pub properties_of : Fields → Fields
unfolding get_or
properties_of node = elim (get_or "properties" (obj end) node) [ obj d ↦ d | _ ↦ end ]

unfoldable pub is_map : Value → Bool
is_map (obj d) = true
is_map _ = false

unfoldable pub is_false : Value → Bool
is_false (bool false) = true
is_false _ = false

unfoldable pub found : Bool → String → String → Findings
found bad path message = if bad then (path, message) ∷ [] else []

-- what is wrong with a node as an object
unfoldable pub object_findings : String → Fields → List String × Bool → Findings
unfolding found is_map is_false get_or same_set properties_of
object_findings path node required =
    found (not (is_map (get_or "properties" (obj end) node))) path "object properties must be a map"
    ++ (found (not (is_false (get_or "additionalProperties" null node))) path
          "additionalProperties must be false"
        ++ found (not (same_set required (keys (properties_of node)))) path
            "every object property must be required")

unfoldable pub is_object_node : Fields → Bool
unfolding get_or contains py_eq
is_object_node node = py_eq (get_or "type" null node) (str "object") || contains "properties" node

unfoldable pub node_findings : String → Fields → Result Findings
unfolding found contains object_findings is_object_node set_of get_or
node_findings path node =
    if is_object_node node
    then (do
      required ← set_of (get_or "required" empty_list node)
      ok (
          found (contains "$ref" node || contains "$dynamicRef" node) path
            "references are not accepted by the strict compiler"
          ++ object_findings path node required))
    else ok (
        found (contains "$ref" node || contains "$dynamicRef" node) path
          "references are not accepted by the strict compiler")

unfoldable pub then_found : Result Findings → Result Findings → Result Findings
then_found first rest = do xs ← first; ys ← rest; ok (xs ++ ys)

unfoldable pub when_object : Bool → Result Findings → Result Findings
when_object true r = r
when_object false r = ok []

-- The nodes below a node are visited where its entries stand: the values of `properties`, then `items`,
-- then the members of `anyOf`, `oneOf` and `allOf`.
unfoldable mutual
  unfolding node_findings then_found when_object is_object_node show_nat

  pub visit : Value → String → Result Findings
  visit (obj node) path = then_found (node_findings path node) (
      then_found (when_object (is_object_node node) (visit_properties node path)) (
        then_found (visit_items node path) (
          then_found (visit_branches "anyOf" node path)
            (then_found (visit_branches "oneOf" node path) (visit_branches "allOf" node path)))))
  visit (arr xs) path = ok []
  visit null path = ok []
  visit (bool b) path = ok []
  visit (int n) path = ok []
  visit (float m) path = ok []
  visit (str s) path = ok []

  pub visit_properties : Fields → String → Result Findings
  visit_properties end path = ok []
  visit_properties (field k v d) path =
      let here = visit_map v path in
      let rest = visit_properties d path in if k == "properties" then here else rest

  pub visit_map : Value → String → Result Findings
  visit_map (obj d) path = visit_each d path
  visit_map (arr xs) path = ok []
  visit_map null path = ok []
  visit_map (bool b) path = ok []
  visit_map (int n) path = ok []
  visit_map (float m) path = ok []
  visit_map (str s) path = ok []

  pub visit_each : Fields → String → Result Findings
  visit_each end path = ok []
  visit_each (field name child d) path =
      then_found (visit child (str_append path (str_append ".properties." name)))
        (visit_each d path)

  pub visit_items : Fields → String → Result Findings
  visit_items end path = ok []
  visit_items (field k v d) path =
      let here = visit v (str_append path ".items") in
      let rest = visit_items d path in if k == "items" then here else rest

  pub visit_branches : String → Fields → String → Result Findings
  visit_branches keyword end path = ok []
  visit_branches keyword (field k v d) path =
      let here = visit_list v (str_append path (str_append "." keyword)) in
      let rest = visit_branches keyword d path in if k == keyword then here else rest

  pub visit_list : Value → String → Result Findings
  visit_list (arr xs) path = visit_members xs 0 path
  visit_list (obj d) path = ok []
  visit_list null path = ok []
  visit_list (bool b) path = ok []
  visit_list (int n) path = ok []
  visit_list (float m) path = ok []
  visit_list (str s) path = ok []

  pub visit_members : Items → ℕ → String → Result Findings
  visit_members nil index path = ok []
  visit_members (cons child xs) index path =
      then_found (visit child (str_append path (str_append "[" (str_append (show_nat index) "]"))))
        (visit_members xs (suc index) path)

finding_dicts : Findings → List Value
finding_dicts [] = []
finding_dicts ((path, message) ∷ l) =
    obj (dict (("path", str path) ∷ ("message", str message) ∷ [])) ∷ finding_dicts l

unfoldable pub first_findings : ℕ → Findings → Findings
first_findings zero l = []
first_findings (suc n) [] = []
first_findings (suc n) (x ∷ l) = x ∷ first_findings n l

unfoldable pub no_findings : Findings → Bool
no_findings [] = true
no_findings (x ∷ l) = false

unfoldable pub compatibility_of : Findings → Fields
unfolding finding_dicts first_findings no_findings
compatibility_of findings = dict (
    ("compatible", bool (no_findings findings))
    ∷ ("findings", arr (items (finding_dicts (first_findings 100 findings))))
    ∷ (
      "fallback",
      str (
          if no_findings findings
          then "strict-json-schema"
          else "schema-guided-plus-local-validation"),
    )
    ∷ [])

unfoldable pub strict_compatibility : Value → Result Fields
unfolding visit compatibility_of
strict_compatibility schema = do findings ← visit schema "$"; ok (compatibility_of findings)
