-- ===== src/Model/Records.antt =====
-- The other records of model.py: observations, evidence, memories, render jobs and frames.
-- The payload of an evidence record is the dict of the observation that it keeps.
use simulation_ai.Prelude.{ℕ, String, List, [], ◌∷◌}
use simulation_ai.Prelude.Int.{ℤ, pos}
use simulation_ai.Json.{int, float, str, arr, obj, Items, Fields, texts}
use simulation_ai.Result.{Result, guard, ◌>>◌, unsupported_class, bad_confidence}
use simulation_ai.Runtime.{Runtime, digest}
use simulation_ai.Model.{dict, one_of, epistemic_classes, in_unit}

pub record ObservationReport : Type 0 where
  pub observation_id : String
  pub event_id : String
  pub logical_time : ℕ
  pub branch : String
  pub action : Fields
  pub before : Fields
  pub after : Fields
  pub candidate_effects : Items
  pub contradictions : List String
  pub unknowns : List String
  pub confidence : ℤ
  pub source : String
  pub schema : String

unfoldable pub observation_dict : ObservationReport → Fields
observation_dict o = dict (
    ("observation_id", str o.observation_id)
    ∷ ("event_id", str o.event_id)
    ∷ ("logical_time", int (pos o.logical_time))
    ∷ ("branch", str o.branch)
    ∷ ("action", obj o.action)
    ∷ ("before", obj o.before)
    ∷ ("after", obj o.after)
    ∷ ("candidate_effects", arr o.candidate_effects)
    ∷ ("contradictions", arr (texts o.contradictions))
    ∷ ("unknowns", arr (texts o.unknowns))
    ∷ ("confidence", float o.confidence)
    ∷ ("source", str o.source)
    ∷ ("schema", str o.schema)
    ∷ [])

pub record EvidenceRecord : Type 0 where
  pub evidence_id : String
  pub kind : String
  pub source : String
  pub payload : ObservationReport
  pub logical_time : ℕ
  pub branch : String
  pub epistemic_class : String
  pub confidence : ℤ
  pub created_at : String

-- `__post_init__` of `EvidenceRecord` and of `MemoryRecord`
unfoldable pub check_record : String → ℤ → Result (Unit {0})
unfolding one_of in_unit
check_record epistemic_class confidence = do
  guard (one_of epistemic_class epistemic_classes) unsupported_class
  guard (in_unit confidence) bad_confidence

unfoldable pub evidence_dict : EvidenceRecord → Fields
unfolding observation_dict
evidence_dict r = dict (
    ("evidence_id", str r.evidence_id)
    ∷ ("kind", str r.kind)
    ∷ ("source", str r.source)
    ∷ ("payload", obj (observation_dict r.payload))
    ∷ ("logical_time", int (pos r.logical_time))
    ∷ ("branch", str r.branch)
    ∷ ("epistemic_class", str r.epistemic_class)
    ∷ ("confidence", float r.confidence)
    ∷ ("created_at", str r.created_at)
    ∷ [])

pub record MemoryRecord : Type 0 where
  pub memory_id : String
  pub memory_type : String
  pub branch_scope : String
  pub summary : String
  pub evidence_ids : List String
  pub state_hashes : List String
  pub object_ids : List String
  pub confidence : ℤ
  pub epistemic_class : String
  pub retention : String
  pub tags : List String
  pub supersedes : List String
  pub contradicts : List String
  pub logical_time : ℕ
  pub created_at : String

unfoldable pub memory_dict : MemoryRecord → Fields
memory_dict m = dict (
    ("memory_id", str m.memory_id)
    ∷ ("memory_type", str m.memory_type)
    ∷ ("branch_scope", str m.branch_scope)
    ∷ ("summary", str m.summary)
    ∷ ("evidence_ids", arr (texts m.evidence_ids))
    ∷ ("state_hashes", arr (texts m.state_hashes))
    ∷ ("object_ids", arr (texts m.object_ids))
    ∷ ("confidence", float m.confidence)
    ∷ ("epistemic_class", str m.epistemic_class)
    ∷ ("retention", str m.retention)
    ∷ ("tags", arr (texts m.tags))
    ∷ ("supersedes", arr (texts m.supersedes))
    ∷ ("contradicts", arr (texts m.contradicts))
    ∷ ("logical_time", int (pos m.logical_time))
    ∷ ("created_at", str m.created_at)
    ∷ [])

pub record RenderJob : Type 0 where
  pub job_id : String
  pub event_id : String
  pub state_hash : String
  pub branch : String
  pub mode : String
  pub status : String
  pub base_frame_id : String
  pub affected_object_ids : List String
  pub semantic_changes : List String
  pub prompt : String
  pub mask_bounds : Items
  pub preserve_anchors : List String
  pub forbidden_changes : List String
  pub retries : ℕ
  pub max_retries : ℕ
  pub verification : Fields
  pub created_at : String
  pub updated_at : String

unfoldable pub job_dict : RenderJob → Fields
job_dict j = dict (
    ("job_id", str j.job_id)
    ∷ ("event_id", str j.event_id)
    ∷ ("state_hash", str j.state_hash)
    ∷ ("branch", str j.branch)
    ∷ ("mode", str j.mode)
    ∷ ("status", str j.status)
    ∷ ("base_frame_id", str j.base_frame_id)
    ∷ ("affected_object_ids", arr (texts j.affected_object_ids))
    ∷ ("semantic_changes", arr (texts j.semantic_changes))
    ∷ ("prompt", str j.prompt)
    ∷ ("mask_bounds", arr j.mask_bounds)
    ∷ ("preserve_anchors", arr (texts j.preserve_anchors))
    ∷ ("forbidden_changes", arr (texts j.forbidden_changes))
    ∷ ("retries", int (pos j.retries))
    ∷ ("max_retries", int (pos j.max_retries))
    ∷ ("verification", obj j.verification)
    ∷ ("created_at", str j.created_at)
    ∷ ("updated_at", str j.updated_at)
    ∷ [])

pub record FrameManifest : Type 0 where
  pub frame_id : String
  pub state_hash : String
  pub parent_frame_id : String
  pub branch : String
  pub render_mode : String
  pub status : String
  pub render_job_id : String
  pub verification : Fields
  pub created_by : List String
  pub frame_hash : String
  pub created_at : String

unfoldable pub frame_dict : FrameManifest → Fields
frame_dict f = dict (
    ("frame_id", str f.frame_id)
    ∷ ("state_hash", str f.state_hash)
    ∷ ("parent_frame_id", str f.parent_frame_id)
    ∷ ("branch", str f.branch)
    ∷ ("render_mode", str f.render_mode)
    ∷ ("status", str f.status)
    ∷ ("render_job_id", str f.render_job_id)
    ∷ ("verification", obj f.verification)
    ∷ ("created_by", arr (texts f.created_by))
    ∷ ("frame_hash", str f.frame_hash)
    ∷ ("created_at", str f.created_at)
    ∷ [])

unfoldable pub seal_frame : Runtime → FrameManifest → FrameManifest
unfolding frame_dict digest
seal_frame rt f = record f {
  frame_hash = digest rt (obj (frame_dict (record f { frame_hash = "" })));
}
