-- ===== src/Patch/Inside.antt =====
-- Writes below the root of the document, and the entry for the identity in the layers.

use simulation_ai.Prelude.{◌≡◌, ◌≢◌, ap, ◌∙◌, String, Bool, Option, some, List, ◌∷◌}
use simulation_ai.Json.{Value, obj, Fields}
use simulation_ai.Json.Dict.{lookup, put, lookup-put_self}
use simulation_ai.Result.{ok, or_raise-eq-ok, >>=-eq-ok, path_missing}
use simulation_ai.Patch.Pointer.{child, set, with_child, remove}
use simulation_ai.Patch.Lens.{SameBut, set-obj, remove-obj}

-- A write two or more segments below the root: it goes into one part, at one of its keys.
pub record Inside (d : Fields) (root key : String) (document' : Value) : Type 0 where
  pub part : Value
  pub part' : Value
  pub is_child : child (obj d) root ≡ ok part
  pub result : document' ≡ obj (put root part' d)
  pub deep : (e : Fields) → part ≡ obj e → (e' : Fields) × (part' ≡ obj e') × SameBut key e e'

pub set-Inside :
    (d : Fields) (root key : String) (ps : List String) (v : Value) (add : Bool) {document' : Value}
    → set (obj d) (root ∷ key ∷ ps) v add ≡ ok document'
    → Inside d root key document'
unfolding set with_child
set-Inside d root key ps v add h =
    let (part, e, h') = >>=-eq-ok (child (obj d) root) _ h in
    let (part', e', h'') = >>=-eq-ok (set part (key ∷ ps) v add) _ h' in
    record {
      part = part;
      part' = part';
      is_child = e;
      result = cc;
      deep = λ f is_obj. set-obj f key ps v add (rw is_obj at e');
    }

pub remove-Inside :
    (d : Fields) (root key : String) (ps : List String) {document' : Value}
    → remove (obj d) (root ∷ key ∷ ps) ≡ ok document'
    → Inside d root key document'
unfolding remove with_child
remove-Inside d root key ps h =
    let (part, e, h') = >>=-eq-ok (child (obj d) root) _ h in
    let (part', e', h'') = >>=-eq-ok (remove part (key ∷ ps)) _ h' in
    record {
      part = part;
      part' = part';
      is_child = e;
      result = cc;
      deep = λ f is_obj. remove-obj f key ps (rw is_obj at e');
    }

-- The document has a dict of layers, with this entry for the identity.
pub record HasIdentity (identity : Option Value) (document : Value) : Type 0 where
  pub fields : Fields
  pub layers : Fields
  pub is_obj : document ≡ obj fields
  pub at : lookup "layer_state" fields ≡ some (obj layers)
  pub kept : lookup "identity" layers ≡ identity

module _ (i : Option Value) {d d' : Value} (h : HasIdentity i d) where
  pub outside :
      (root : String) (fields' : Fields)
      → root ≢ "layer_state"
      → d' ≡ obj fields'
      → SameBut root h.fields fields'
      → HasIdentity i d'
  outside root fields' ne e same = record {
    fields = fields';
    layers = h.layers;
    is_obj = e;
    at = same "layer_state" ne ∙ h.at;
    kept = h.kept;
  }

  pub inside :
      (key : String) → key ≢ "identity" → Inside h.fields "layer_state" key d' → HasIdentity i d'
  unfolding child
  inside key ne w =
      let found = or_raise-eq-ok (lookup "layer_state" h.fields) path_missing w.is_child in
      let part : w.part ≡ obj h.layers = cc (h.at) in
      let (layers', e, same) = w.deep h.layers part in
      record {
        fields = put "layer_state" w.part' h.fields;
        layers = layers';
        is_obj = w.result;
        at = lookup-put_self "layer_state" w.part' h.fields ∙ ap some e;
        kept = same "identity" ne ∙ h.kept;
      }
