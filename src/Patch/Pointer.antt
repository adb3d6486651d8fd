-- ===== src/Patch/Pointer.antt =====
-- JSON pointers into a document: `_segments`, `_get`, `_set` and `_remove` of validation.py.
-- `_set` and `_remove` find the parent and change it in place; here the changed document is
-- rebuilt along the path. Values of operations are taken not to share parts.
use simulation_ai.Prelude.{
  ℕ, ◌≡◌, refl, String, Bool, not, ◌&&◌, List, [], ◌∷◌, map, ◌==◌, nat_eq, if◌then◌else◌,
}
use simulation_ai.Prelude.Texts.{lstrip, split, replace_pair, py_int}
use Prim.Native.Char.{Char, code}
use simulation_ai.Json.{Value, arr, obj, Items}
use simulation_ai.Json.Dict.{lookup, contains, put, erase}
use simulation_ai.Json.Lists.{
  count, item_at, set_item, insert_item, delete_item, append_item, place, insert_place,
}
use simulation_ai.Result.{
  Result, ok, err, or_raise, ◌>>=◌, value_error, index_error, path_missing, scalar_traversed,
  append_needs_add, parent_not_object, replace_missing, remove_missing,
}

is_slash : Char → Bool
is_slash c = nat_eq (code c) b'/'

-- "~1" stands for "/", then "~0" for "~"
unescape : String → String
unescape s = replace_pair b'~' b'0' "~" (replace_pair b'~' b'1' "/" s)

unfoldable pub segments : String → List String
unfolding is_slash unescape lstrip split replace_pair
segments path = if path == "/" then [] else map unescape (split b'/' (lstrip is_slash path))

-- the place in a list that `xs[int(segment)]` names
unfoldable pub list_place : Items → String → Result ℕ
list_place xs segment = do
  i ← or_raise (py_int segment) value_error
  or_raise (place i (count xs)) index_error

-- one round of the loop of `_get`
unfoldable pub child : Value → String → Result Value
unfolding list_place
child (arr xs) segment = do p ← list_place xs segment; or_raise (item_at xs p) index_error
child (obj d) segment = or_raise (lookup segment d) path_missing
child _ segment = err scalar_traversed

unfoldable pub get : Value → List String → Result Value
get cursor [] = ok cursor
get cursor (segment ∷ rest) = do next ← child cursor segment; get next rest

-- the container with the part that `child` reads replaced
unfoldable pub with_child : Value → String → Value → Result Value
unfolding list_place
with_child (arr xs) segment v = do p ← list_place xs segment; ok (arr (set_item xs p v))
with_child (obj d) segment v = ok (obj (put segment v d))
with_child _ segment v = err scalar_traversed

-- `_set` at the parent
unfoldable pub set_in : Value → String → Value → Bool → Result Value
unfolding list_place
set_in (arr xs) key value add =
    if key == "-"
    then (if add then ok (arr (append_item xs value)) else err append_needs_add)
    else if add
    then (do
      i ← or_raise (py_int key) value_error
      ok (arr (insert_item xs (insert_place i (count xs)) value)))
    else (do p ← list_place xs key; ok (arr (set_item xs p value)))
set_in (obj d) key value add =
    if not add && not (contains key d) then err replace_missing else ok (obj (put key value d))
set_in _ key value add = err parent_not_object

unfoldable pub set : Value → List String → Value → Bool → Result Value
set document [] value add = err index_error
set document (key ∷ []) value add = set_in document key value add
set document (segment ∷ key ∷ rest) value add = do
  next ← child document segment
  next' ← set next (key ∷ rest) value add
  with_child document segment next'

-- `_remove` at the parent
unfoldable pub remove_in : Value → String → Result Value
unfolding list_place
remove_in (arr xs) key = do p ← list_place xs key; ok (arr (delete_item xs p))
remove_in (obj d) key = if contains key d then ok (obj (erase key d)) else err remove_missing
remove_in _ key = err remove_missing

unfoldable pub remove : Value → List String → Result Value
remove document [] = err index_error
remove document (key ∷ []) = remove_in document key
remove document (segment ∷ key ∷ rest) = do
  next ← child document segment
  next' ← remove next (key ∷ rest)
  with_child document segment next'

segments_run :
    (segments "/objects/node.a/x~1y~01" ≡ "objects" ∷ "node.a" ∷ "x/y~1" ∷ [])
    × (segments "/" ≡ [])
    × (segments "//" ≡ "" ∷ [])
unfolding segments
segments_run = (refl, refl, refl)
