-- ===== src/Patch/Lens.antt =====
-- Reading behind a write: `_get` after `_set` and `_remove`.
use simulation_ai.Prelude.{
  ℕ, ◌<◌, ◌≡◌, ◌≢◌, refl, arith, String, Bool, false, List, [], ◌∷◌, inl, inr, Bool-cases, ◌==◌,
}
use simulation_ai.Prelude.Texts.{py_int}
use simulation_ai.Json.{Value, null, arr, obj, Items, Fields}
use simulation_ai.Json.Dict.{lookup, put, erase, lookup-put_self, lookup-put_ne, lookup-erase_ne}
use simulation_ai.Json.Lists.{
  count, place, set_item, item_at-set_item_self, count-set_item, place-lt,
}
use simulation_ai.Result.{ok, or_raise, ◌>>=◌, >>=-eq-ok, or_raise-eq-ok, index_error, value_error}
use simulation_ai.Patch.Pointer.{list_place, child, get, with_child, set_in, set, remove_in, remove}

list_place-lt : (xs : Items) (key : String) (p : ℕ) → list_place xs key ≡ ok p → p < count xs
unfolding list_place
list_place-lt xs key p h =
    let (i, _, e) = >>=-eq-ok (or_raise (py_int key) value_error) _ h in
    place-lt i (count xs) p (or_raise-eq-ok (place i (count xs)) index_error e)

list_place-set_item :
    (xs : Items) (key : String) (p : ℕ) (v : Value)
    → list_place (set_item xs p v) key ≡ list_place xs key
unfolding list_place
list_place-set_item xs key p v = rw (count-set_item xs p v)

child-place :
    (xs : Items) (key : String) (p : ℕ) (v : Value)
    → list_place xs key ≡ ok p
    → child (arr (set_item xs p v)) key ≡ ok v
unfolding child
child-place xs key p v h = rw (
  list_place-set_item xs key p v,
  h,
  ◌>>=◌,
  item_at-set_item_self xs p v (list_place-lt xs key p h),
)

child-put : (d : Fields) (key : String) (v : Value) → child (obj (put key v d)) key ≡ ok v
unfolding child
child-put d key v = rw (lookup-put_self key v d)

-- What was written through a segment is read back through it.
child-with_child :
    (c : Value) (key : String) (v : Value) {c' : Value}
    → with_child c key v ≡ ok c'
    → child c' key ≡ ok v
unfolding with_child
child-with_child (arr xs) key v h =
    let (p, e, r) = >>=-eq-ok (list_place xs key) (λ p. ok (arr (set_item xs p v))) h in
    cc (child-place xs key p v e)
child-with_child (obj d) key v h = cc (child-put d key v)
child-with_child null key v h = cc
child-with_child _ key v h = cc

-- At the last segment a replacement is read back.
child-set_in :
    (c : Value) (key : String) (v : Value) {c' : Value}
    → set_in c key v false ≡ ok c'
    → child c' key ≡ ok v
unfolding set_in
child-set_in (arr xs) key v h = elim (Bool-cases (key == "-")) [
  | inl dash ↦ let bad = rw dash at h in cc
  | inr place ↦
      let good = rw place at h in
      let (p, e, r) = >>=-eq-ok (list_place xs key) (λ p. ok (arr (set_item xs p v))) good in
      cc (child-place xs key p v e)
]
child-set_in (obj d) key v h = ground (arith, child-put d key v)
child-set_in null key v h = cc
child-set_in _ key v h = cc

-- After a replacement that does not raise, the path reads as the value that was written.
pub get-set :
    (document : Value) (path : List String) (v : Value) {document' : Value}
    → set document path v false ≡ ok document'
    → get document' path ≡ ok v
unfolding set get
get-set document [] v h = cc
get-set document (key ∷ []) v h = rw (child-set_in document key v h, ◌>>=◌)
get-set document (segment ∷ key ∷ rest) v h =
    let (next, e, h') = >>=-eq-ok (child document segment) _ h in
    let (next', e', h'') = >>=-eq-ok (set next (key ∷ rest) v false) _ h' in
    rw (child-with_child document segment next' h'', ◌>>=◌) (get-set next (key ∷ rest) v e')

-- Two paths that part at a dict of the document, by two different keys.
pub data Apart : Value → List String → List String → Type 0 where
  parts :
      {document : Value} (d : Fields) (j k : String) (ps qs : List String)
      → document ≡ obj d
      → j ≢ k
      → Apart document (j ∷ ps) (k ∷ qs)
  below :
      {document : Value} (next : Value) (s : String) {ps qs : List String}
      → child document s ≡ ok next
      → Apart next ps qs
      → Apart document (s ∷ ps) (s ∷ qs)

get-lookup :
    (d d' : Fields) (k : String) (qs : List String)
    → lookup k d' ≡ lookup k d
    → get (obj d') (k ∷ qs) ≡ get (obj d) (k ∷ qs)
unfolding get child
get-lookup d d' k qs e = rw e

-- The dict `d'` has the entries of `d` at every key but `j`.
abbrev pub SameBut : String → Fields → Fields → Type 0
SameBut j d d' = (k : String) → j ≢ k → lookup k d' ≡ lookup k d

-- Reading on behind a segment whose part was replaced.
get-with_child :
    (c : Value) (key : String) (v : Value) {c' : Value} (rest : List String)
    → with_child c key v ≡ ok c'
    → get c' (key ∷ rest) ≡ get v rest
unfolding get
get-with_child c key v rest h = rw (child-with_child c key v h, ◌>>=◌)

get-child :
    (c : Value) (key : String) (next : Value) (rest : List String)
    → child c key ≡ ok next
    → get c (key ∷ rest) ≡ get next rest
unfolding get
get-child c key next rest h = rw (h, ◌>>=◌)

-- A write into a dict touches only the entry of the first segment.
pub set-obj :
    (d : Fields) (j : String) (ps : List String) (v : Value) (add : Bool) {document' : Value}
    → set (obj d) (j ∷ ps) v add ≡ ok document'
    → (d' : Fields) × (document' ≡ obj d') × SameBut j d d'
unfolding set set_in with_child
set-obj d j [] v add h = (put j v d, ground arith, λ k ne. lookup-put_ne j k v d ne)
set-obj d j (key ∷ ps) v add h =
    let (next, e, h') = >>=-eq-ok (child (obj d) j) _ h in
    let (next', e', h'') = >>=-eq-ok (set next (key ∷ ps) v add) _ h' in
    (put j next' d, cc, λ k ne. lookup-put_ne j k next' d ne)

pub remove-obj :
    (d : Fields) (j : String) (ps : List String) {document' : Value}
    → remove (obj d) (j ∷ ps) ≡ ok document'
    → (d' : Fields) × (document' ≡ obj d') × SameBut j d d'
unfolding remove remove_in with_child
remove-obj d j [] h = (erase j d, ground arith, λ k ne. lookup-erase_ne j k d ne)
remove-obj d j (key ∷ ps) h =
    let (next, e, h') = >>=-eq-ok (child (obj d) j) _ h in
    let (next', e', h'') = >>=-eq-ok (remove next (key ∷ ps)) _ h' in
    (put j next' d, cc, λ k ne. lookup-put_ne j k next' d ne)

not-Apart-nil : {document : Value} {qs : List String} → ¬ Apart document [] qs
not-Apart-nil a = paths a refl
  where
    paths : {document : Value} {ps qs : List String} → Apart document ps qs → ps ≢ []
    paths (parts d j k ps qs e ne) h = cc
    paths (below next s e a) h = cc

-- A write that does not raise leaves every path that parts from it at a dict as it was.
pub get-set-Apart :
    (document : Value) {document' : Value} {path other : List String} (v : Value) (add : Bool)
    → Apart document path other
    → set document path v add ≡ ok document'
    → get document' other ≡ get document other
unfolding set
get-set-Apart document v add (parts d j k ps qs e ne) h =
    let (d', e', same) = set-obj d j ps v add (rw e at h) in
    rw (e, e') (get-lookup d d' k qs (same k ne))
get-set-Apart document v add (below next s {ps = []} {qs = qs} e a) h = absurd (not-Apart-nil a)
get-set-Apart document v add (below next s {ps = key ∷ ps} {qs = qs} e a) h =
    let (next₁, e₁, h') = >>=-eq-ok (child document s) _ h in
    let (next', e', h'') = >>=-eq-ok (set next₁ (key ∷ ps) v add) _ h' in
    let same : next₁ ≡ next = cc in
    rw (get-with_child document s next' qs h'', get-child document s next qs e)
      (get-set-Apart next v add a (rw same at e'))

-- A removal that does not raise leaves every path that parts from it at a dict as it was.
pub get-remove-Apart :
    (document : Value) {document' : Value} {path other : List String}
    → Apart document path other
    → remove document path ≡ ok document'
    → get document' other ≡ get document other
unfolding remove
get-remove-Apart document (parts d j k ps qs e ne) h =
    let (d', e', same) = remove-obj d j ps (rw e at h) in
    rw (e, e') (get-lookup d d' k qs (same k ne))
get-remove-Apart document (below next s {ps = []} {qs = qs} e a) h = absurd (not-Apart-nil a)
get-remove-Apart document (below next s {ps = key ∷ ps} {qs = qs} e a) h =
    let (next₁, e₁, h') = >>=-eq-ok (child document s) _ h in
    let (next', e', h'') = >>=-eq-ok (remove next₁ (key ∷ ps)) _ h' in
    let same : next₁ ≡ next = cc in
    rw (get-with_child document s next' qs h'', get-child document s next qs e)
      (get-remove-Apart next a (rw same at e'))
