-- ===== src/Engine/Packet.antt =====
-- What the engine does with an interaction packet before anything else: `_sanitize_packet`,
-- `_validate_packet_parent` and `_clean_branch_name`.
use Prim.Native.Char.{Char, code}
use simulation_ai.Prelude.{
  String, Bool, false, not, ◌||◌, List, [], ◌∷◌, ◌==◌, leb, nat_eq, if◌then◌else◌,
}
use simulation_ai.Prelude.Int.{pos}
use simulation_ai.Prelude.Texts.{strip, str_len, is_empty}
use simulation_ai.Json.{
  Value, null, bool, int, str, arr, obj, Fields, items, truthy, empty_list, empty_dict,
}
use simulation_ai.Json.Dict.{contains, put, get_or}
use simulation_ai.Json.Equal.{py_eq}
use simulation_ai.Json.Lists.{append_item}
use simulation_ai.Result.{
  Result, ok, err, guard, ◌>>=◌, ◌>>◌, attribute_error, branch_empty, branch_too_long, stale_packet,
  packet_branch,
}
use simulation_ai.Runtime.{Runtime, str_of}
use simulation_ai.Model.{one_of}
use simulation_ai.Model.State.{SurfaceState}
use simulation_ai.Render.{iterate}

-- `packet.setdefault(key, {})`
unfoldable pub set_default : String → Fields → Fields
set_default key d = if contains key d then d else put key empty_dict d

-- the value of a key that is there, as a dict with its methods
unfoldable pub as_attrs : Value → Result Fields
as_attrs (obj d) = ok d
as_attrs _ = err attribute_error

unfoldable pub has_item : Value → List Value → Bool
has_item v [] = false
has_item v (w ∷ l) = py_eq w v || has_item v l

-- `redactions` with "sensitive-input" in it
unfoldable pub with_redaction : List Value → Value
unfolding has_item
with_redaction l =
    if has_item (str "sensitive-input") l
    then arr (items l)
    else arr (append_item (items l) (str "sensitive-input"))

-- `raw_text or ""`
unfoldable pub or_empty : Value → Value
or_empty v = if truthy v then v else str ""

-- the action of a sensitive typing event, with the text taken out
unfoldable pub redact_action : Runtime → Fields → Fields
unfolding or_empty
redact_action rt action =
    let raw_text = get_or "text" null action in
    let counted =
      if contains "typed_character_count" action
      then action
      else put "typed_character_count" (int (pos (str_len (str_of rt (or_empty raw_text)))))
          action in
    put "text" null counted

-- `bool(target.get("sensitive", False)) and str(action.get("kind", "")) == "type"`; the second
-- test is made only if the first holds
unfoldable pub types_secret : Runtime → Fields → Value → Result Bool
unfolding as_attrs
types_secret rt target action =
    if truthy (get_or "sensitive" (bool false) target)
    then (do a ← as_attrs action; ok (str_of rt (get_or "kind" (str "") a) == "type"))
    else ok false

redact : Runtime → Fields → Result Fields
unfolding redact_action with_redaction as_attrs
redact rt packet = do
  action ← as_attrs (get_or "action" null packet)
  privacy ← as_attrs (get_or "privacy" null packet)
  redactions ← iterate (get_or "redactions" empty_list privacy)
  ok (
      put "privacy" (obj (put "redactions" (with_redaction redactions) privacy))
        (put "action" (obj (redact_action rt action)) packet))

-- the packet with the three parts that every later step reads
unfoldable pub with_defaults : Fields → Fields
unfolding set_default
with_defaults packet = set_default "privacy" (set_default "target" (set_default "action" packet))

unfoldable pub sanitize_packet : Runtime → Fields → Result Fields
unfolding with_defaults types_secret redact
sanitize_packet rt packet =
    let sanitized = with_defaults packet in
    do
      target ← as_attrs (get_or "target" null sanitized)
      secret ← types_secret rt target (get_or "action" null sanitized)
      if secret then redact rt sanitized else ok sanitized

unfoldable pub validate_packet_parent : Runtime → Fields → SurfaceState → Result (Unit {0})
unfolding one_of str_of get_or
validate_packet_parent rt packet current = do
  guard
      (one_of (str_of rt (get_or "parent_state_hash" (str "") packet))
        ("" ∷ "genesis" ∷ current.state_hash ∷ []))
      stale_packet
  guard (str_of rt (get_or "branch" (str current.branch) packet) == current.branch) packet_branch

unfoldable pub is_dash : Char → Bool
is_dash c = nat_eq (code c) b'-' || nat_eq (code c) b'_'

unfoldable pub keep_chars : (Char → Bool) → String → String
keep_chars p String.[] = String.[]
keep_chars p (String.◌∷◌ c s) = let rest = keep_chars p s in if p c then String.◌∷◌ c rest else rest

unfoldable pub clean_branch_name : Runtime → String → Result String
unfolding keep_chars is_dash strip str_len
clean_branch_name rt name =
    let clean = strip is_dash (keep_chars (λ c. rt.is_alnum c || is_dash c) (rt.lower name)) in
    do
      guard (not (is_empty clean)) branch_empty
      guard (leb (str_len clean) 64) branch_too_long
      ok clean
