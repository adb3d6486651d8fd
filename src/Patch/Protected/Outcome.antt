-- ===== src/Patch/Protected/Outcome.antt =====
-- The state that `apply_proposal` returns has the protected fields of the current one.
use mathlib.Core.Path.{subst}
use simulation_ai.Prelude.Lists.{All}
use simulation_ai.Prelude.{suc, ◌≡◌, refl, ◌==◌}
use simulation_ai.Json.{Value, obj, Fields}
use simulation_ai.Result.{ok, >>=-eq-ok, guard-then, stale_parent, wrong_branch, no_operations}
use simulation_ai.Result.Loops.{fold, fold_inv, each-All}
use simulation_ai.Runtime.{Runtime, digest}
use simulation_ai.Model.Patch.{PatchProposal}
use simulation_ai.Model.State.{SurfaceState, as_dict, from_dict, payload, seal}
use simulation_ai.Patch.Rules.{
  check_path, has_operations, validate_proposal, validate_state_invariants,
}
use simulation_ai.Patch.{apply_operation, as_object, stamp, apply_proposal}
use simulation_ai.Patch.Protected.{Keeps, apply_operation-Keeps}
use simulation_ai.Patch.Protected.Stamped.{stamped, from_dict-rebuilt}

-- Every field of the result that no operation may write, from the current state.
pub record Continues (current next : SurfaceState) : Type 0 where
  pub schema_version : next.schema_version ≡ current.schema_version
  pub map_id : next.map_id ≡ current.map_id
  pub target : next.target ≡ current.target
  pub profile : next.profile ≡ current.profile
  pub mode : next.mode ≡ current.mode
  pub seed : next.seed ≡ current.seed
  pub branch : next.branch ≡ current.branch
  pub entropy_bits : next.entropy_bits ≡ current.entropy_bits
  pub coherence : next.coherence ≡ current.coherence
  pub provenance : next.provenance ≡ current.provenance
  pub logical_time : next.logical_time ≡ suc current.logical_time
  pub parent_state_hash : next.parent_state_hash ≡ current.state_hash

module _ (s : SurfaceState) {document : Value} (kept : Keeps (as_dict s) document) where
  from_dict-Continues : (t : SurfaceState) → from_dict (stamped s kept) ≡ ok t → Continues s t
  from_dict-Continues t h =
      let (objects, same) = from_dict-rebuilt s kept t h in
      subst (Continues s) same (record {
        schema_version = refl;
        map_id = refl;
        target = refl;
        profile = refl;
        mode = refl;
        seed = refl;
        branch = refl;
        entropy_bits = refl;
        coherence = refl;
        provenance = refl;
        logical_time = refl;
        parent_state_hash = refl;
      })

Keeps-start : (s : SurfaceState) → Keeps (as_dict s) (obj (as_dict s))
Keeps-start s = record { fields = as_dict s; is_obj = refl; same = λ k out. refl }

object_fields : (v : Value) {d e : Fields} → v ≡ obj d → as_object v ≡ ok e → e ≡ d
unfolding as_object
object_fields v {d = d} {e = e} is_obj h = let same : ok d ≡ ok e = rw is_obj at h in cc

pub validate-each :
    (p : PatchProposal) (s : SurfaceState)
    → validate_proposal p s ≡ ok tt
    → All (λ o. check_path o ≡ ok tt) p.operations
unfolding validate_proposal
validate-each p s h =
    let (_, h₁) = guard-then (p.parent_state_hash == s.state_hash) stale_parent _ h in
    let (_, h₂) = guard-then (p.branch == s.branch) wrong_branch _ h₁ in
    let (_, h₃) = guard-then (has_operations p.operations) no_operations _ h₂ in
    each-All check_path p.operations h₃

-- What an application that does not raise went through.
pub record Applied (rt : Runtime) (s : SurfaceState) (p : PatchProposal) (t : SurfaceState)
    : Type 0 where
  pub valid : validate_proposal p s ≡ ok tt
  pub document : Value
  pub run : fold apply_operation (obj (as_dict s)) p.operations ≡ ok document
  pub kept : Keeps (as_dict s) document
  pub unsealed : SurfaceState
  pub read : from_dict (stamp s kept.fields) ≡ ok unsealed
  pub invariants : validate_state_invariants rt unsealed ≡ ok tt
  pub sealed : t ≡ seal rt unsealed

pub apply_proposal-Applied :
    (rt : Runtime) (s : SurfaceState) (p : PatchProposal) {t : SurfaceState}
    → apply_proposal rt s p ≡ ok t
    → Applied rt s p t
unfolding apply_proposal
apply_proposal-Applied rt s p h =
    let (_, valid, h₁) = >>=-eq-ok (validate_proposal p s) _ h in
    let (document, run, h₂) =
      >>=-eq-ok (fold apply_operation (obj (as_dict s)) p.operations) _ h₁ in
    let (fields, object, h₃) = >>=-eq-ok (as_object document) _ h₂ in
    let (u, read, h₄) = >>=-eq-ok (from_dict (stamp s fields)) _ h₃ in
    let (_, checked, e) = >>=-eq-ok (validate_state_invariants rt u) (λ _. ok (seal rt u)) h₄ in
    let kept : Keeps (as_dict s) document =
      fold_inv (Keeps (as_dict s)) (λ o. check_path o ≡ ok tt) apply_operation
        (λ d d' o c k step. apply_operation-Keeps (as_dict s) d d' o c k step) p.operations
        (obj (as_dict s)) document (validate-each p s valid) (Keeps-start s) run in
    record {
      valid = valid;
      document = document;
      run = run;
      kept = kept;
      unsealed = u;
      read = rw (object_fields document kept.is_obj object) at read;
      invariants = checked;
      sealed = cc;
    }

Continues-seal : (rt : Runtime) (s t : SurfaceState) → Continues s t → Continues s (seal rt t)
unfolding seal
Continues-seal rt s t c = record {
  schema_version = c.schema_version;
  map_id = c.map_id;
  target = c.target;
  profile = c.profile;
  mode = c.mode;
  seed = c.seed;
  branch = c.branch;
  entropy_bits = c.entropy_bits;
  coherence = c.coherence;
  provenance = c.provenance;
  logical_time = c.logical_time;
  parent_state_hash = c.parent_state_hash;
}

seal_idem :
    (rt : Runtime) (s : SurfaceState) → (seal rt (seal rt s)).state_hash ≡ (seal rt s).state_hash
unfolding seal payload
seal_idem rt s = refl

-- A proposal that is accepted carries every protected field of the current state over, counts the
-- logical time up by one and names the current state as the parent; the new state's hash is the
-- digest of its payload.
pub apply_proposal-Continues :
    (rt : Runtime) (s : SurfaceState) (p : PatchProposal) {t : SurfaceState}
    → apply_proposal rt s p ≡ ok t
    → Continues s t × (t.state_hash ≡ digest rt (payload t))
unfolding seal payload stamped
apply_proposal-Continues rt s p h =
    let a = apply_proposal-Applied rt s p h in
    rw a.sealed
      (Continues-seal rt s a.unsealed (from_dict-Continues s a.kept a.unsealed a.read), refl)
