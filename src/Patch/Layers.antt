-- ===== src/Patch/Layers.antt =====
-- The identity layer survives every proposal that does not name `layer_state` as a whole.
use simulation_ai.Prelude.{
  ◌≡◌, ◌≢◌, refl, ap, ◌∙◌, String, Bool, Option, some, List, [], ◌∷◌, ◌==◌, eq_iff, inl, inr,
  Bool-cases,
}
use simulation_ai.Prelude.Lists.{All}
use simulation_ai.Json.{Value, obj, Fields}
use simulation_ai.Json.Dict.{lookup}
use simulation_ai.Result.{Result, ok}
use simulation_ai.Result.Loops.{fold_inv}
use simulation_ai.Runtime.{Runtime}
use simulation_ai.Model.Patch.{PatchOperation, PatchProposal}
use simulation_ai.Model.State.{SurfaceState, as_dict, seal}
use simulation_ai.Patch.Pointer.{segments, set, remove}
use simulation_ai.Patch.Rules.{check_segments, check_path, second_is}
use simulation_ai.Patch.Lens.{SameBut, set-obj, remove-obj}
use simulation_ai.Patch.Protected.{test-eq-ok}
use simulation_ai.Patch.Protected.Outcome.{apply_proposal-Applied, validate-each}
use simulation_ai.Patch.Protected.Stamped.{
  from_dict-layer_state, value_field-some, lookup-stamp, is_stamped,
}
use simulation_ai.Patch.{apply_operation, stamp, apply_proposal}
use simulation_ai.Patch.Inside.{Inside, set-Inside, remove-Inside, HasIdentity, outside, inside}

-- The rules let no path into the identity layer through.
check_segments-second :
    (o : PatchOperation) (key : String) (ps : List String)
    → check_segments o ("layer_state" ∷ key ∷ ps) ≡ ok tt
    → key ≢ "identity"
unfolding check_segments second_is
check_segments-second o key ps h e =
    let hit = (eq_iff key "identity").1 e in let refused = rw hit at h in cc

-- A write of either kind, `_set` or `_remove`, by the two facts about it that are used.
record Writer : Type 0 where
  run : Value → List String → Result Value
  at_nil : (d w : Value) → run d [] ≢ ok w
  one :
      (d : Fields) (j : String) (ps : List String) (w : Value)
      → run (obj d) (j ∷ ps) ≡ ok w
      → (d' : Fields) × (w ≡ obj d') × SameBut j d d'
  two :
      (d : Fields) (j key : String) (ps : List String) (w : Value)
      → run (obj d) (j ∷ key ∷ ps) ≡ ok w
      → Inside d j key w

setter : Value → Bool → Writer
unfolding set
setter v add = record {
  run = λ d path. set d path v add;
  at_nil = λ d w e. cc;
  one = λ d j ps w e. set-obj d j ps v add e;
  two = λ d j key ps w e. set-Inside d j key ps v add e;
}

remover : Writer
unfolding remove
remover = record {
  run = remove;
  at_nil = λ d w e. cc;
  one = λ d j ps w e. remove-obj d j ps e;
  two = λ d j key ps w e. remove-Inside d j key ps e;
}

module _ (i : Option Value) (o : PatchOperation) (writer : Writer) {d d' : Value}
    (h : HasIdentity i d) where
  write-below :
      (root : String) (rest : List String)
      → root ≡ "layer_state"
      → (root ∷ rest) ≢ "layer_state" ∷ []
      → check_segments o (root ∷ rest) ≡ ok tt
      → writer.run (obj h.fields) (root ∷ rest) ≡ ok d'
      → HasIdentity i d'
  write-below root [] e ne c run = absurd (ne (cc e))
  write-below root (key ∷ ps) e ne c run =
      inside i h key (check_segments-second o key ps (rw e at c))
        (writer.two h.fields "layer_state" key ps d' (rw e at run))

  write-HasIdentity :
      (path : List String)
      → path ≢ "layer_state" ∷ []
      → check_segments o path ≡ ok tt
      → writer.run d path ≡ ok d'
      → HasIdentity i d'
  write-HasIdentity [] ne c e = absurd (writer.at_nil d d' e)
  write-HasIdentity (root ∷ rest) ne c e = elim (Bool-cases (root == "layer_state")) [
    | inr other ↦
        let (fields', is_obj, same) = writer.one h.fields root rest d' (rw h.is_obj at e) in
        outside i h root fields' (λ p. cc ((eq_iff root "layer_state").1 p, other)) is_obj same
    | inl layers ↦
        write-below root rest ((eq_iff root "layer_state").0 layers) ne c (rw h.is_obj at e)
  ]

apply_operation-HasIdentity :
    (i : Option Value) (d d' : Value) (o : PatchOperation)
    → (segments o.path ≢ "layer_state" ∷ []) × (check_path o ≡ ok tt)
    → HasIdentity i d
    → apply_operation d o ≡ ok d'
    → HasIdentity i d'
unfolding apply_operation check_path setter remover
apply_operation-HasIdentity i d d' o (ne, c) h e = elim (Bool-cases (o.op == "test")) [
  | inl test ↦
      let same = test-eq-ok d (segments o.path) o.value (rw test at e) in
      record {
        fields = h.fields;
        layers = h.layers;
        is_obj = rw (← same) h.is_obj;
        at = h.at;
        kept = h.kept;
      }
  | inr other ↦ elim (Bool-cases (o.op == "remove")) [
    | inl removes ↦
        write-HasIdentity i o remover h (segments o.path) ne c (rw (other, removes) at e)
    | inr sets ↦
        write-HasIdentity i o (setter o.value (o.op == "add")) h (segments o.path) ne c
          (rw (other, sets) at e)
  ]
]

All-zip {ℓ} :
    {A : Type ℓ} (P Q : A → Type 0) (xs : List A) → All P xs → All Q xs → All (λ x. P x × Q x) xs
All-zip P Q [] p q = tt
All-zip P Q (x ∷ xs) p q = ((p.0, q.0), All-zip P Q xs p.1 q.1)

-- From a state with a dict of layers, an accepted proposal of which no operation has the path of
-- all layers leaves the layers a dict with the same entry for the identity, or with none if there
-- was none.
pub apply_proposal-identity :
    (rt : Runtime) (s : SurfaceState) (p : PatchProposal) {t : SurfaceState} (layers : Fields)
    → s.layer_state ≡ obj layers
    → All (λ o. segments o.path ≢ "layer_state" ∷ []) p.operations
    → apply_proposal rt s p ≡ ok t
    → (layers' : Fields) × (t.layer_state ≡ obj layers')
      × (lookup "identity" layers' ≡ lookup "identity" layers)
unfolding as_dict lookup is_stamped seal
apply_proposal-identity rt s p layers e apart h =
    let a = apply_proposal-Applied rt s p h in
    let i = lookup "identity" layers in
    let start : HasIdentity i (obj (as_dict s)) = record {
      fields = as_dict s;
      layers = layers;
      is_obj = refl;
      at = ap some e;
      kept = refl;
    } in
    let k : HasIdentity i a.document =
      fold_inv (HasIdentity i) _ apply_operation
        (λ d d' o c h run. apply_operation-HasIdentity i d d' o c h run) p.operations
        (obj (as_dict s)) a.document
        (All-zip (λ o. segments o.path ≢ "layer_state" ∷ []) (λ o. check_path o ≡ ok tt)
          p.operations apart (validate-each p s a.valid))
        start a.run in
    let same : a.kept.fields ≡ k.fields = cc (a.kept.is_obj, k.is_obj) in
    let read = from_dict-layer_state s a.kept a.unsealed a.read in
    let found : lookup "layer_state" (stamp s a.kept.fields) ≡ some (obj k.layers) =
      lookup-stamp s a.kept.fields "layer_state" refl ∙ (rw same k.at) in
    (k.layers, rw a.sealed (read ∙ value_field-some "layer_state" (obj k.layers) _ _ found), k.kept)
