-- ===== src/Json/Text.antt =====
-- `canonical_json`: the compact text of a value whose keys are sorted, with the characters beyond ASCII
-- as they are, and the number of its bytes in UTF-8.
use Prim.Native.Char.{Char, code}
use simulation_ai.Prelude.{ℕ, ◌+◌, ◌/◌, ◌%◌, String, true, false, ltb, nat_eq, if◌then◌else◌}
use simulation_ai.Prelude.Texts.{str_append}
use simulation_ai.Json.{
  Value, null, bool, int, float, str, arr, obj, Items, nil, cons, Fields, end, field,
}
use simulation_ai.Json.Sort.{sort_keys}
use simulation_ai.Runtime.{Runtime, show_nat, str_of}

hex_digit : ℕ → String
unfolding show_nat
hex_digit n =
    if ltb n 10
    then show_nat n
    else if nat_eq n 10
    then "a"
    else if nat_eq n 11
    then "b"
    else if nat_eq n 12
    then "c"
    else if nat_eq n 13
    then "d"
    else if nat_eq n 14
    then "e"
    else "f"

-- one character within quotes
json_char : Char → String
unfolding hex_digit
json_char c =
    if nat_eq (code c) 34
    then "\\\""
    else if nat_eq (code c) 92
    then "\\\\"
    else if nat_eq (code c) 10
    then "\\n"
    else if nat_eq (code c) 13
    then "\\r"
    else if nat_eq (code c) 9
    then "\\t"
    else if nat_eq (code c) 8
    then "\\b"
    else if nat_eq (code c) 12
    then "\\f"
    else if ltb (code c) 32
    then str_append "\\u00" (str_append (hex_digit (code c / 16)) (hex_digit (code c % 16)))
    else String.◌∷◌ c String.[]

json_chars : String → String
unfolding json_char
json_chars String.[] = ""
json_chars (String.◌∷◌ c s) = str_append (json_char c) (json_chars s)

quoted : String → String
unfolding json_chars
quoted s = str_append "\"" (str_append (json_chars s) "\"")

unfoldable mutual
  unfolding quoted str_of

  pub json_text : Runtime → Value → String
  json_text rt null = "null"
  json_text rt (bool true) = "true"
  json_text rt (bool false) = "false"
  json_text rt (int n) = str_of rt (int n)
  json_text rt (float m) = str_of rt (float m)
  json_text rt (str s) = quoted s
  json_text rt (arr nil) = "[]"
  json_text rt (arr (cons x xs)) = str_append "[" (str_append (json_text rt x) (json_items rt xs))
  json_text rt (obj end) = "{}"
  json_text rt (obj (field k v d)) =
      str_append "{"
        (str_append (quoted k) (str_append ":" (str_append (json_text rt v) (json_fields rt d))))

  -- what follows the first item of a list, the first entry of a dict
  pub json_items : Runtime → Items → String
  json_items rt nil = "]"
  json_items rt (cons x xs) = str_append "," (str_append (json_text rt x) (json_items rt xs))

  pub json_fields : Runtime → Fields → String
  json_fields rt end = "}"
  json_fields rt (field k v d) =
      str_append ","
        (str_append (quoted k) (str_append ":" (str_append (json_text rt v) (json_fields rt d))))

unfoldable pub canonical_json : Runtime → Value → String
unfolding json_text sort_keys
canonical_json rt v = json_text rt (sort_keys v)

utf8_width : Char → ℕ
utf8_width c =
    if ltb (code c) 128
    then 1
    else if ltb (code c) 2048
    then 2
    else if ltb (code c) 65536
    then 3
    else 4

-- `len(s.encode("utf-8"))`
unfoldable pub utf8_len : String → ℕ
unfolding utf8_width
utf8_len String.[] = 0
utf8_len (String.◌∷◌ c s) = utf8_width c + utf8_len s
