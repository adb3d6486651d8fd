-- ===== src/Execution/Parts.antt =====
-- What model_execution.py reads of an invocation and of the provider's answer.
use simulation_ai.Prelude.{
  String, Bool, true, false, not, ◌||◌, Option, none, some, List, [], ◌∷◌, ◌==◌, if◌then◌else◌,
}
use simulation_ai.Prelude.Int.{pos}
use simulation_ai.Prelude.Texts.{str_append, is_empty, is_space, strip}
use simulation_ai.Json.{
  Value, null, bool, int, float, str, arr, obj, Items, nil, cons, Fields, end, field, empty_list,
}
use simulation_ai.Json.Dict.{get_or}
use simulation_ai.Json.Equal.{py_eq}
use simulation_ai.Result.{
  Result, ok, err, guard, ◌>>=◌, ◌>>◌, invalid_invocation, model_refusal, empty_model_output,
}
use simulation_ai.Runtime.{Runtime, str_of}
use simulation_ai.Prompts.Spec.{elements}

-- the keys that the provider does not get
unfoldable pub is_metadata : String → Bool
is_metadata key = key == "$schema" || key == "$id"

unfoldable mutual
  unfolding is_metadata

  -- `clean`
  pub clean : Value → Value
  clean (obj d) = obj (clean_fields d)
  clean (arr xs) = arr (clean_items xs)
  clean null = null
  clean (bool b) = bool b
  clean (int n) = int n
  clean (float m) = float m
  clean (str s) = str s

  pub clean_fields : Fields → Fields
  clean_fields end = end
  clean_fields (field key child d) =
      let rest = clean_fields d in if is_metadata key then rest else field key (clean child) rest

  pub clean_items : Items → Items
  clean_items nil = nil
  clean_items (cons child xs) = cons (clean child) (clean_items xs)

-- `_provider_response_format`
unfoldable pub provider_response_format : Value → Result Fields
unfolding clean get_or
provider_response_format (obj d) = elim (get_or "schema" null (clean_fields d)) [
  | obj schema ↦ ok (clean_fields d)
  | _ ↦ err invalid_invocation
]
provider_response_format _ = err invalid_invocation

-- a text that is not empty
unfoldable pub full_text : Value → Option String
full_text (str s) = if is_empty s then none else some s
full_text _ = none

unfoldable pub content_of : String → Value → Option String
unfolding full_text get_or py_eq
content_of role (obj d) =
    if py_eq (get_or "role" null d) (str role) then full_text (get_or "content" null d) else none
content_of role _ = none

-- `_message_content`
unfoldable pub message_content : String → Items → Result String
unfolding content_of
message_content role nil = err invalid_invocation
message_content role (cons v xs) = elim (content_of role v) [
  | some s ↦ ok s
  | none ↦ message_content role xs
]

-- the text of a part, if it is one
text_part : Value → String
text_part (str s) = s
text_part _ = ""

-- the text of one part of a message, or a refusal
unfoldable pub content_text : Runtime → Value → Result String
unfolding get_or str_of text_part
content_text rt (obj d) =
    let kind = str_of rt (get_or "type" (str "") d) in
    if kind == "refusal" || kind == "output_refusal"
    then err model_refusal
    else ok
        (if kind == "output_text" || kind == "text" then text_part (get_or "text" null d) else "")
content_text rt _ = ok ""

unfoldable pub content_texts : Runtime → List Value → Result String
unfolding content_text
content_texts rt [] = ok ""
content_texts rt (v ∷ l) = do
  s ← content_text rt v
  rest ← content_texts rt l
  ok (str_append s rest)

unfoldable pub item_text : Runtime → Value → Result String
unfolding content_texts get_or py_eq elements
item_text rt (obj d) =
    if py_eq (get_or "type" null d) (str "message")
    then elements (get_or "content" empty_list d) >>= content_texts rt
    else ok ""
item_text rt _ = ok ""

unfoldable pub item_texts : Runtime → List Value → Result String
unfolding item_text
item_texts rt [] = ok ""
item_texts rt (v ∷ l) = do s ← item_text rt v; rest ← item_texts rt l; ok (str_append s rest)

-- the text of the messages
unfoldable pub combined_text : Runtime → Fields → Result String
unfolding item_texts strip is_space get_or elements
combined_text rt d = do
  l ← elements (get_or "output" empty_list d)
  s ← item_texts rt l
  guard (not (is_empty (strip is_space s))) empty_model_output
  ok (strip is_space s)

-- `_extract_output_text`
unfoldable pub extract_output_text : Runtime → Fields → Result String
unfolding combined_text strip is_space get_or
extract_output_text rt d = elim (get_or "output_text" null d) [
  | str s ↦ if is_empty (strip is_space s) then combined_text rt d else ok s
  | _ ↦ combined_text rt d
]

-- `isinstance(v, int) and v >= 0`: a bool is an int too
unfoldable pub is_count : Value → Bool
is_count (int (pos n)) = true
is_count (bool b) = true
is_count _ = false

unfoldable pub usage_of : List String → Fields → Fields
unfolding is_count get_or
usage_of [] d = end
usage_of (name ∷ l) d =
    let rest = usage_of l d in
    let v = get_or name (int (pos 0)) d in if is_count v then field name v rest else rest

-- `_safe_usage`
unfoldable pub safe_usage : Fields → Fields
unfolding usage_of
safe_usage d = usage_of ("input_tokens" ∷ "output_tokens" ∷ "total_tokens" ∷ []) d
