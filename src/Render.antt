-- ===== src/Render.antt =====
-- render.py: the job that a committed proposal asks for, the frame of a native job, and the
-- verdict on a rendered candidate. The readings of the clock are arguments, in their order.
pub mod Plan
pub mod Retries
use simulation_ai.Prelude.{
  ℕ, suc, ◌+◌, String, Bool, ◌&&◌, ◌||◌, Option, none, some, List, [], ◌∷◌, ◌++◌, map, ◌==◌, ltb,
  if◌then◌else◌,
}
use Prim.Native.Char.{Char}
use simulation_ai.Prelude.Texts.{str_append}
use simulation_ai.Json.{
  Value, str, arr, obj, Items, nil, cons, Fields, end, items, field, empty_list,
}
use simulation_ai.Json.Dict.{keys, get_or}
use simulation_ai.Result.{
  Result, ok, err, guard, ◌>>=◌, ◌>>◌, type_error, not_verified, bad_decision,
}
use simulation_ai.Runtime.{Runtime, digest, short_digest, str_of}
use simulation_ai.Model.{dict, one_of}
use simulation_ai.Model.Patch.{PatchOperation, PatchProposal}
use simulation_ai.Model.State.{SurfaceState}
use simulation_ai.Model.Records.{RenderJob, FrameManifest, seal_frame}

-- `IMAGE_MODES`
abbrev pub image_modes : List String
image_modes = "regional_image_edit" ∷ "new_keyframe" ∷ []

-- `"\n".join(lines)`, `", ".join(names)`
unfoldable pub join : String → List String → String
join sep [] = ""
join sep (s ∷ []) = s
join sep (s ∷ t ∷ l) = str_append s (str_append sep (join sep (t ∷ l)))

item_list : Items → List Value
item_list nil = []
item_list (cons v xs) = v ∷ item_list xs

characters : String → List Value
characters String.[] = []
characters (String.◌∷◌ c s) = str (String.◌∷◌ c String.[]) ∷ characters s

-- `for item in v`
unfoldable pub iterate : Value → Result (List Value)
unfolding item_list characters keys
iterate (arr xs) = ok (item_list xs)
iterate (str s) = ok (characters s)
iterate (obj d) = ok (map str (keys d))
iterate _ = err type_error

-- `f"{operation.op} {operation.path}"` of the operations that are no tests
unfoldable pub changes_of : List PatchOperation → List String
changes_of [] = []
changes_of (o ∷ os) =
    let rest = changes_of os in
    if o.op == "test" then rest else str_append o.op (str_append " " o.path) ∷ rest

unfoldable pub without : List String → List String → List String
unfolding one_of
without names [] = []
without names (s ∷ l) = let rest = without names l in if one_of s names then rest else s ∷ rest

-- `_render_prompt`
unfoldable pub render_prompt : SurfaceState → String → List String → List String → String
unfolding join
render_prompt state mode changes affected = join "\n" (
    ("Render the next verified projection of the Simulation AI world surface."
      ∷ str_append "State hash: " state.state_hash
      ∷ str_append "Branch: " state.branch
      ∷ str_append "Mode: " mode
      ∷ "Authoritative changes:"
      ∷ [])
    ++ (map (λ change. str_append "- " change) changes
        ++ (str_append "Affected objects: " (named affected)
            ∷ "Preserve camera, unaffected object identity, functional UI geometry, and all unmodified regions."
            ∷ "Do not introduce objects absent from committed semantic state."
            ∷ [])))
  where
    named : List String → String
    named [] = "none"
    named (s ∷ l) = join ", " (s ∷ l)

-- an unknown mode is a native one
unfoldable pub known_mode : String → String
unfolding one_of
known_mode mode =
    if one_of mode ("none" ∷ "native_ui" ∷ "composite" ∷ image_modes) then mode else "native_ui"

unfoldable pub job_mode : Runtime → PatchProposal → String
unfolding known_mode get_or str_of
job_mode rt proposal =
    known_mode (str_of rt (get_or "class" (str "native_ui") proposal.render_impact))

unfoldable pub render_id : Runtime → PatchProposal → String
unfolding digest
render_id rt proposal = str_append "render_" (
    short_digest rt 24
      (obj (dict (("proposal", str proposal.proposal_id) ∷ ("event", str proposal.event_id) ∷ []))))

-- `"queued" if mode in IMAGE_MODES else "verified"`
unfoldable pub status_of : String → String
unfolding one_of
status_of mode = if one_of mode image_modes then "queued" else "verified"

unfoldable pub build_render_job :
    Runtime → String → String → PatchProposal → SurfaceState → String → Result RenderJob
unfolding iterate changes_of without render_prompt job_mode render_id status_of
build_render_job rt created_at updated_at proposal state base_frame_id = do
  objects ← iterate (get_or "affected_object_ids" empty_list proposal.render_impact)
  let mode = job_mode rt proposal
  let affected = map (str_of rt) objects
  let changes = changes_of proposal.operations
  ok (record {
    job_id = render_id rt proposal;
    event_id = proposal.event_id;
    state_hash = state.state_hash;
    branch = state.branch;
    mode = mode;
    status = status_of mode;
    base_frame_id = base_frame_id;
    affected_object_ids = affected;
    semantic_changes = changes;
    prompt = render_prompt state mode changes affected;
    mask_bounds = nil;
    preserve_anchors = without affected (keys state.objects);
    forbidden_changes =
        "camera drift" ∷ "new uncommitted objects" ∷ "functional UI text mutation"
        ∷ "identity changes outside affected objects" ∷ [];
    retries = 0;
    max_retries = 2;
    verification =
        if status_of mode == "verified"
        then dict (("decision", str "pass") ∷ ("source", str "deterministic-native") ∷ [])
        else end;
    created_at = created_at;
    updated_at = updated_at;
  })

unfoldable pub native_frame_for :
    Runtime → String → RenderJob → SurfaceState → String → Result FrameManifest
unfolding seal_frame digest
native_frame_for rt created_at job state parent_frame_id = do
  guard (job.status == "verified") not_verified
  ok (
      seal_frame rt (record {
        frame_id = str_append "frame_" (
            short_digest rt 24
              (obj (dict (("job", str job.job_id) ∷ ("state", str state.state_hash) ∷ []))));
        state_hash = state.state_hash;
        parent_frame_id = parent_frame_id;
        branch = state.branch;
        render_mode = job.mode;
        status = "verified";
        render_job_id = job.job_id;
        verification = job.verification;
        created_by = "godot-native-renderer" ∷ "surface-compositor" ∷ [];
        frame_hash = "";
        created_at = created_at;
      }))

abbrev pub outcomes : List String
outcomes = "pass" ∷ "retry" ∷ "fallback" ∷ "human_review" ∷ "reject" ∷ []

-- the frame of a candidate that passed
unfoldable pub candidate_frame : Runtime → String → RenderJob → Fields → FrameManifest
unfolding seal_frame digest
candidate_frame rt created_at job decision = seal_frame rt (record {
  frame_id = str_append "frame_" (
      short_digest rt 24
        (obj (dict (("job", str job.job_id) ∷ ("verification", obj decision) ∷ []))));
  state_hash = job.state_hash;
  parent_frame_id = job.base_frame_id;
  branch = job.branch;
  render_mode = job.mode;
  status = "verified";
  render_job_id = job.job_id;
  verification = decision;
  created_by = "image-edit-worker" ∷ "visual-verifier" ∷ [];
  frame_hash = "";
  created_at = created_at;
})

-- `str(decision.get("decision", "retry"))`
unfoldable pub outcome_of : Runtime → Fields → String
unfolding get_or str_of
outcome_of rt decision = str_of rt (get_or "decision" (str "retry") decision)

unfoldable pub verify_candidate :
    Runtime → String → String → RenderJob → Fields → Result (RenderJob × Option FrameManifest)
unfolding candidate_frame outcome_of one_of
verify_candidate rt updated_at created_at job decision =
    let outcome = outcome_of rt decision in
    let updated = record job { verification = decision; updated_at = updated_at } in
    guard (one_of outcome outcomes) bad_decision
    >> (if outcome == "pass"
        then ok (
          record updated { status = "verified" },
          some (candidate_frame rt created_at job decision),
        )
        else if (outcome == "retry") && ltb job.retries job.max_retries
        then ok (record updated { retries = job.retries + 1; status = "queued" }, none)
        else if (outcome == "fallback") || (outcome == "retry")
        then ok (record updated { status = "fallback" }, none)
        else ok (record updated { status = "rejected" }, none))
