-- ===== src/Render/Plan.antt =====
-- The plan of a render job agrees with what the commit expects of it.

use simulation_ai.Prelude.{
  ◌≡◌, refl, ap, sym, ◌∙◌, arith, String, Bool, true, false, ◌||◌, List, [], ◌∷◌, ◌==◌, eq_iff, inl,
  inr, Bool-cases,
}
use simulation_ai.Json.{str, empty_list, Fields, end, field}
use simulation_ai.Json.Dict.{keys, get_or, contains}
use simulation_ai.Result.{ok, >>=-eq-ok, ok-injective}
use simulation_ai.Runtime.{Runtime, str_of}
use simulation_ai.Model.{one_of}
use simulation_ai.Model.Patch.{PatchProposal}
use simulation_ai.Model.State.{SurfaceState}
use simulation_ai.Model.Records.{RenderJob}
use simulation_ai.Render.{
  image_modes, iterate, known_mode, job_mode, status_of, render_id, without, build_render_job,
}

-- the class of the impact, as the commit reads it
abbrev pub requested_mode : Runtime → PatchProposal → String
requested_mode rt p = str_of rt (get_or "class" (str "native_ui") p.render_impact)

drop_three : (a b c d : Bool) → (a || (b || (c || d))) ≡ false → d ≡ false
drop_three a b c d h = ground arith

status_of-known_mode : (mode : String) → status_of (known_mode mode) ≡ status_of mode
unfolding known_mode status_of one_of
status_of-known_mode mode =
    elim (Bool-cases (one_of mode ("none" ∷ "native_ui" ∷ "composite" ∷ image_modes))) [
      | inl known ↦ rw known refl
      | inr unknown ↦
          rw
            (
              unknown,
              drop_three (mode == "none") (mode == "native_ui") (mode == "composite")
                  (one_of mode image_modes) unknown,
            )
            refl
    ]

-- Every object of the list is affected or kept as an anchor.
one_of-without :
    (names l : List String) (s : String)
    → one_of s l ≡ true
    → (one_of s names || one_of s (without names l)) ≡ true
unfolding one_of without
one_of-without names [] s h = cc
one_of-without names (t ∷ l) s h = ground (arith, one_of-without names l s, eq_iff s t)

one_of-keys : (k : String) (d : Fields) → contains k d ≡ true → one_of k (keys d) ≡ true
unfolding one_of keys contains
one_of-keys k end h = h
one_of-keys k (field j v d) h = ground (arith, one_of-keys k d, eq_iff k j, eq_iff j k)

-- A job that is planned has the identity and the status that the commit computes by itself, and
-- leaves the branch and the state hash of the state that it was planned for.
pub build_render_job-consistent :
    (rt : Runtime) (created_at updated_at : String) (p : PatchProposal) (s : SurfaceState)
    (base_frame_id : String) {job : RenderJob}
    → build_render_job rt created_at updated_at p s base_frame_id ≡ ok job
    → (job.job_id ≡ render_id rt p)
      × (job.status ≡ status_of (requested_mode rt p))
      × (job.branch ≡ s.branch)
      × (job.state_hash ≡ s.state_hash)
unfolding build_render_job job_mode
build_render_job-consistent rt created_at updated_at p s base h =
    let (objects, _, e) =
      >>=-eq-ok (iterate (get_or "affected_object_ids" empty_list p.render_impact)) _ h in
    let same = ok-injective _ _ e in
    (
      sym (ap (λ (j : RenderJob). j.job_id) same),
      sym (ap (λ (j : RenderJob). j.status) same) ∙ status_of-known_mode (requested_mode rt p),
      sym (ap (λ (j : RenderJob). j.branch) same),
      sym (ap (λ (j : RenderJob). j.state_hash) same),
    )
