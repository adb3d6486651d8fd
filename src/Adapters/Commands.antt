-- ===== src/Adapters/Commands.antt =====
-- `RulePatchProposer._command_operations`: the operations of a surface command, the class of its
-- rendering and the objects that it affects.
use simulation_ai.Prelude.{String, true, not, ◌||◌, List, [], ◌∷◌, ◌==◌, if◌then◌else◌}
use simulation_ai.Prelude.Int.{pos}
use simulation_ai.Prelude.Texts.{
  str_append, startswith, strip, is_space, is_empty, take_str, replace_char,
}
use simulation_ai.Json.{Value, bool, float, str, arr, obj, nil, cons, end, truthy}
use simulation_ai.Json.Dict.{contains}
use simulation_ai.Result.{
  Result, ok, err, guard, ◌>>=◌, ◌>>◌, goal_text, spawn_form, spawn_exists, status_form,
  bad_retention, bad_policy,
}
use simulation_ai.Runtime.{Runtime, short_digest, digest}
use simulation_ai.Model.{dict, one_of}
use simulation_ai.Model.Patch.{PatchOperation, make_operation}
use simulation_ai.Model.State.{SurfaceState}
use simulation_ai.Patch.{get_attr}
use simulation_ai.Adapters.Texts.{after_first, split_at_most, after_last, escape}

pub record Outcome : Type 0 where
  pub operations : List PatchOperation
  pub render_class : String
  pub affected : List Value

-- `PatchOperation(op, path, value, evidence_ids)`
unfoldable pub operation : String → String → Value → List String → Result PatchOperation
unfolding make_operation
operation op path value evidence_ids =
    make_operation op path value evidence_ids "observed" (pos 1000000)

unfoldable pub replace_op : String → Value → List String → Result PatchOperation
unfolding operation
replace_op path value evidence_ids = operation "replace" path value evidence_ids

-- one operation on the surface, drawn natively
unfoldable pub switch : String → Value → List String → Result Outcome
unfolding replace_op
switch path value evidence_ids = do
  o ← replace_op path value evidence_ids
  ok (record {
    operations = o ∷ [];
    render_class = "native_ui";
    affected = str "node.surface" ∷ [];
  })

unfoldable pub render_command : String → List Value → List String → Result Outcome
unfolding replace_op
render_command mode affected evidence_ids = do
  o₁ ← replace_op "/render/status" (str "queued") evidence_ids
  o₂ ← replace_op "/render/requested_mode" (str mode) evidence_ids
  o₃ ← replace_op "/objects/node.renderer/status" (str "queued") evidence_ids
  ok (record { operations = o₁ ∷ o₂ ∷ o₃ ∷ []; render_class = mode; affected = affected })

unfoldable pub goal_command : Runtime → String → List String → Result Outcome
unfolding operation after_first strip is_space take_str digest
goal_command rt command evidence_ids =
    let text = strip is_space (after_first b':' command) in
    let goal = obj (
      dict (
        ("goal_id", str (str_append "goal_" (short_digest rt 12 (str text))))
        ∷ ("text", str (take_str 500 text))
        ∷ ("status", str "active")
        ∷ [])) in
    do
      guard (not (is_empty text)) goal_text
      o ← operation "add" "/goals/-" goal evidence_ids
      ok (record {
        operations = o ∷ [];
        render_class = "native_ui";
        affected = str "node.planner" ∷ [];
      })

-- the ID of a new object; without a namespace it goes to the world's
unfoldable pub spawn_id : String → String
unfolding startswith
spawn_id name =
    if startswith name "node." || startswith name "world." then name else str_append "world." name

spawn_parts : Runtime → List String → SurfaceState → List String → Result Outcome
unfolding make_operation spawn_id contains escape after_last replace_char
spawn_parts rt (_ ∷ name ∷ kind ∷ []) state evidence_ids =
    let object_id = spawn_id name in
    let value = obj (
      dict (
        ("type", str (if is_empty kind then "entity" else kind))
        ∷ ("label", str (rt.title (replace_char b'_' " " (after_last b'.' object_id))))
        ∷ ("status", str "active")
        ∷ ("epistemic_class", str "counterfactual")
        ∷ ("layout", arr (cons (float (pos 500000)) (cons (float (pos 500000)) nil)))
        ∷ ("properties", obj end)
        ∷ [])) in
    do
      guard (not (contains object_id state.objects)) spawn_exists
      o₁ ←
          make_operation "add" (str_append "/objects/" (escape object_id)) value evidence_ids
            "counterfactual" (pos 720000)
      o₂ ←
          make_operation "replace" "/selected_object_id" (str object_id) evidence_ids
            "counterfactual" (pos 720000)
      ok (record {
        operations = o₁ ∷ o₂ ∷ [];
        render_class = "composite";
        affected = str object_id ∷ [];
      })
spawn_parts rt _ state evidence_ids = err spawn_form

unfoldable pub spawn_command : Runtime → String → SurfaceState → List String → Result Outcome
unfolding spawn_parts split_at_most
spawn_command rt command state evidence_ids =
    spawn_parts rt (split_at_most 2 b':' command) state evidence_ids

status_parts : List String → SurfaceState → List String → Result Outcome
unfolding replace_op contains escape take_str
status_parts (_ ∷ object_id ∷ status ∷ []) state evidence_ids = do
  guard (contains object_id state.objects) status_form
  o ←
      replace_op (str_append "/objects/" (str_append (escape object_id) "/status"))
        (str (take_str 80 status)) evidence_ids
  ok (record { operations = o ∷ []; render_class = "native_ui"; affected = str object_id ∷ [] })
status_parts _ state evidence_ids = err status_form

unfoldable pub status_command : String → SurfaceState → List String → Result Outcome
unfolding status_parts split_at_most
status_command command state evidence_ids =
    status_parts (split_at_most 2 b':' command) state evidence_ids

third : List String → String
third (_ ∷ _ ∷ s ∷ _) = s
third _ = ""

unfoldable pub command_operations : Runtime → String → SurfaceState → List String → Result Outcome
unfolding switch render_command goal_command spawn_command status_command third get_attr after_last
    after_first split_at_most one_of startswith take_str make_operation
command_operations rt command state evidence_ids =
    if one_of command ("toggle_run" ∷ "pause" ∷ "resume" ∷ [])
    then (do
      running ← get_attr state.ui "simulation_running" (bool true)
      switch "/ui/simulation_running"
          (bool (if command == "toggle_run" then not (truthy running) else command == "resume"))
          evidence_ids)
    else if startswith command "render:keyframe"
    then render_command "new_keyframe" (str "node.renderer" ∷ str "node.surface" ∷ []) evidence_ids
    else if startswith command "render:regional"
    then render_command "regional_image_edit" (str "node.renderer" ∷ state.selected_object_id ∷ [])
        evidence_ids
    else if startswith command "goal:"
    then goal_command rt command evidence_ids
    else if startswith command "spawn:"
    then spawn_command rt command state evidence_ids
    else if startswith command "set-status:"
    then status_command command state evidence_ids
    else if startswith command "privacy:cloud:"
    then switch "/ui/privacy/cloud_allowed" (bool (after_last b':' command == "on")) evidence_ids
    else if startswith command "privacy:redaction:"
    then switch "/ui/privacy/redact_sensitive_inputs" (bool (after_last b':' command == "on"))
        evidence_ids
    else if startswith command "privacy:retention:"
    then (do
      let retention = third (split_at_most 2 b':' command)
      guard (one_of retention ("ephemeral" ∷ "bounded" ∷ "persistent-keyframes" ∷ [])) bad_retention
      switch "/ui/privacy/frame_retention" (str retention) evidence_ids)
    else if startswith command "render-policy:"
    then (do
      let policy = after_first b':' command
      guard (one_of policy ("native-first" ∷ "composite-first" ∷ "generative-keyframes" ∷ []))
          bad_policy
      switch "/ui/render_policy" (str policy) evidence_ids)
    else if startswith command "motion:reduced:"
    then switch "/ui/reduced_motion" (bool (after_last b':' command == "on")) evidence_ids
    else (do
      o ←
          make_operation "replace" "/ui/last_command" (str (take_str 500 command)) evidence_ids
            "inferred" (pos 700000)
      ok (record {
        operations = o ∷ [];
        render_class = "native_ui";
        affected = str "node.surface" ∷ [];
      }))
