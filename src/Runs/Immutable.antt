-- ===== src/Runs/Immutable.antt =====
-- Stored runs have no authority to commit, carry their digest, and never change.
use mathlib.Core.Path.{subst}
use simulation_ai.Prelude.{
  String, Bool, true, false, ◌≡◌, refl, arith, none, some, ◌==◌, if◌then◌else◌, inl, inr,
  Option-cases, Bool-cases, eq_iff,
}
use simulation_ai.Json.{null, bool, str, Fields}
use simulation_ai.Json.Dict.{lookup, get_or, put, lookup-put, erase-put}
use simulation_ai.Result.{
  ok, err, >>=-eq-ok, guard-then, ok-injective, run_collision, record_required,
}
use simulation_ai.Runtime.{Runtime, str_of}
use simulation_ai.Json.Equal.{py_eq}
use simulation_ai.Store.{Dir, find, overwrite, find-overwrite}
use simulation_ai.Runs.{record_digest, stamped_run, write_run, save_run, safe_id}

pub record IsRun (rt : Runtime) (v : Fields) : Type 0 where
  pub authority : lookup "commit_authority" v ≡ some (bool false)
  pub gate : lookup "deterministic_gate_required" v ≡ some (bool true)
  pub sha : lookup "record_sha256" v ≡ some (str (record_digest rt v))

stamped_run-IsRun : (rt : Runtime) (v : Fields) → IsRun rt (stamped_run rt v)
unfolding stamped_run record_digest
stamped_run-IsRun rt v =
    let a = put "commit_authority" (bool false) v in
    let g = put "deterministic_gate_required" (bool true) a in
    let s = str (record_digest rt g) in
    record {
      authority =
          rw
            (
              lookup-put "record_sha256" "commit_authority" s g,
              lookup-put "deterministic_gate_required" "commit_authority" (bool true) a,
              lookup-put "commit_authority" "commit_authority" (bool false) v,
            )
            refl;
      gate =
          rw
            (
              lookup-put "record_sha256" "deterministic_gate_required" s g,
              lookup-put "deterministic_gate_required" "deterministic_gate_required" (bool true) a,
            )
            refl;
      sha = rw (lookup-put "record_sha256" "record_sha256" s g, erase-put "record_sha256" s g) refl;
    }

-- Every file that is found is a run.
abbrev pub AreRuns : Runtime → Dir Fields → Type 0
AreRuns rt root = (k : String) (v : Fields) → find k root ≡ some v → IsRun rt v

-- What a write leaves: the runs of before, and the run that it returns.
pub record Kept (rt : Runtime) (root : Dir Fields) (saved : Fields × Dir Fields) : Type 0 where
  pub runs : AreRuns rt saved.1
  pub run : IsRun rt saved.0
  pub same : (k : String) (v : Fields) → find k root ≡ some v → find k saved.1 ≡ some v

new-cases :
    (rt : Runtime) (id k : String) (value v : Fields) (root : Dir Fields)
    → AreRuns rt root
    → IsRun rt value
    → find k (overwrite id value root) ≡ some v
    → IsRun rt v
new-cases rt id k value v root old new e = elim (Bool-cases (id == k)) [
  | inl here ↦
      let is : some value ≡ some v = rw (find-overwrite k root id value, here) at e in
      subst (IsRun rt) (some-injective value v is) new
  | inr other ↦ old k v (rw (find-overwrite k root id value, other) at e)
]
  where
    some-injective : (a b : Fields) → some a ≡ some b → a ≡ b
    some-injective a b h = cc

kept_before :
    (id k : String) (value v : Fields) (root : Dir Fields)
    → find id root ≡ none
    → find k root ≡ some v
    → find k (overwrite id value root) ≡ some v
kept_before id k value v root absent e = ground (arith, find-overwrite k root id value, eq_iff id k)

write_run-Kept :
    (rt : Runtime) (id : String) (value : Fields) (root : Dir Fields) (saved : Fields × Dir Fields)
    → AreRuns rt root
    → IsRun rt value
    → write_run rt id value root ≡ ok saved
    → Kept rt root saved
unfolding write_run
write_run-Kept rt id value root saved old new h = elim (Option-cases (find id root)) [
  | inl absent ↦
      subst (Kept rt root)
        (ok-injective (value, overwrite id value root) saved (rw (absent, write_run) at h))
        (record {
          runs = λ k v e. new-cases rt id k value v root old new e;
          run = new;
          same = λ k v e. kept_before id k value v root absent e;
        })
  | inr (existing, found) ↦
      let same =
        if-ok (py_eq (get_or "record_sha256" null existing) (get_or "record_sha256" null value))
          (existing, root) saved (rw (found, write_run) at h) in
      subst (Kept rt root) same
        (record { runs = old; run = old id existing found; same = λ k v e. e })
]
  where
    if-ok :
        (b : Bool) (x y : Fields × Dir Fields)
        → (if b then ok x else err run_collision) ≡ ok y
        → x ≡ y
    if-ok true x y h = ok-injective x y h
    if-ok false x y h = cc

-- In a directory of such runs: a save that does not raise returns a run without the authority to commit, with the deterministic
-- gate required and with the digest of its content; it keeps every run of the directory, and each
-- one is still such a run.
pub save_run-Kept :
    (rt : Runtime) (schema id_field : String) (value : Fields) (root : Dir Fields)
    (saved : Fields × Dir Fields)
    → AreRuns rt root
    → save_run rt schema id_field value root ≡ ok saved
    → Kept rt root saved
unfolding save_run
save_run-Kept rt schema id_field value root saved old h =
    let (_, h₁) =
      guard-then (py_eq (get_or "schema" null value) (str schema)) record_required _ h in
    let (id, _, h₂) = >>=-eq-ok (safe_id (str_of rt (get_or id_field (str "") value))) _ h₁ in
    write_run-Kept rt id (stamped_run rt value) root saved old (stamped_run-IsRun rt value) h₂
