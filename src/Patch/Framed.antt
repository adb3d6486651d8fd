-- ===== src/Patch/Framed.antt =====
-- What an operation leaves alone.

use simulation_ai.Prelude.{String, List, ◌≡◌, sym, ap, inl, inr, Bool-cases, ◌==◌}
use simulation_ai.Json.{Value}
use simulation_ai.Json.Equal.{py_eq}
use simulation_ai.Result.{ok, guard, ◌>>=◌, ◌>>◌, >>=-eq-ok, guard-then, ok-injective, test_failed}
use simulation_ai.Model.Patch.{PatchOperation}
use simulation_ai.Patch.{get, segments, apply_operation}
use simulation_ai.Patch.Lens.{Apart, get-set-Apart, get-remove-Apart}

test-same :
    (document : Value) (o : PatchOperation) {document' : Value}
    → (get document (segments o.path) >>= λ actual.
        guard (py_eq actual o.value) test_failed >> ok document)
      ≡ ok document'
    → document ≡ document'
test-same document o h =
    let (actual, _, h1) = >>=-eq-ok (get document (segments o.path)) _ h in
    let (_, h2) = guard-then (py_eq actual o.value) test_failed _ h1 in ok-injective _ _ h2

-- Whatever an operation does at its path, a value at a path that parts from it by another key of a dict is
-- read after the operation as before.
pub get-apply_operation :
    (document : Value) (o : PatchOperation) (other : List String) {document' : Value}
    → Apart document (segments o.path) other
    → apply_operation document o ≡ ok document'
    → get document' other ≡ get document other
unfolding apply_operation
get-apply_operation document o other a = elim (Bool-cases (o.op == "test")) [
  | inl test ↦ rw test (λ h. ap (λ d. get d other) (sym (test-same document o h)))
  | inr no_test ↦ rw no_test (elim (Bool-cases (o.op == "remove")) [
    | inl removes ↦ rw removes (get-remove-Apart document a)
    | inr writes ↦ rw writes (get-set-Apart document o.value (o.op == "add") a)
  ])
]
