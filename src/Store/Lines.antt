-- ===== src/Store/Lines.antt =====
-- Which events of the log can be read back. `append_event` writes an event as one line, with the characters
-- beyond ASCII as they are, and `list_events` cuts the file by `splitlines`, which ends a line at three of them.
use Prim.Native.Char.{Char, code}
use simulation_ai.Prelude.{String, Bool, true, not, ◌&&◌, ◌||◌, nat_eq}
use simulation_ai.Json.{Value, str, arr, obj, Items, nil, cons, Fields, end, field}
use simulation_ai.Model.Event.{EventEnvelope, event_dict}

-- U+0085, U+2028 and U+2029; the other ends of lines are written with a backslash
ends_line : Char → Bool
ends_line c = nat_eq (code c) 133 || nat_eq (code c) 8232 || nat_eq (code c) 8233

unfoldable pub is_one_line : String → Bool
unfolding ends_line
is_one_line String.[] = true
is_one_line (String.◌∷◌ c s) = not (ends_line c) && is_one_line s

unfoldable mutual
  unfolding is_one_line

  pub on_one_line : Value → Bool
  on_one_line (str s) = is_one_line s
  on_one_line (arr xs) = items_on_one_line xs
  on_one_line (obj d) = fields_on_one_line d
  on_one_line _ = true

  pub items_on_one_line : Items → Bool
  items_on_one_line nil = true
  items_on_one_line (cons x xs) = on_one_line x && items_on_one_line xs

  pub fields_on_one_line : Fields → Bool
  fields_on_one_line end = true
  fields_on_one_line (field k v d) = is_one_line k && on_one_line v && fields_on_one_line d

-- A line that was cut ends within a text, which `json.loads` rejects.
unfoldable pub reads_back : EventEnvelope → Bool
unfolding fields_on_one_line event_dict
reads_back e = fields_on_one_line (event_dict e)
