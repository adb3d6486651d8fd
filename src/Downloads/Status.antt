-- ===== src/Downloads/Status.antt =====
-- `status` of model_setup.py: what is reported of the model and of its download.
use simulation_ai.Prelude.{
  ℕ, String, Bool, true, false, Option, none, some, [], ◌∷◌, ◌==◌, nat_eq, max, if◌then◌else◌,
}
use simulation_ai.Prelude.Lists.{length}
use simulation_ai.Model.{one_of}
use simulation_ai.Downloads.Chunks.{Bytes, chunk_progress}
use simulation_ai.Downloads.{Manifest, Progress, Models}

-- The report, its texts and its ratio left out.
pub record Status : Type 0 where
  pub state : String
  pub verified : Bool
  pub downloaded : ℕ
  pub total : ℕ
  pub chunks : ℕ
  pub completed : ℕ
  pub chunk_size : ℕ

unfoldable pub or_else {ℓ} : {A : Type ℓ} → Option A → A → A
or_else none a = a
or_else (some b) a = b

-- `_status_payload`, with the greater of the progress and what was counted
unfoldable pub payload : Progress → Status → Status
unfolding or_else
payload p s = record s {
  downloaded = max s.downloaded (or_else p.downloaded_bytes 0);
  total = max s.total (or_else p.total_bytes 0);
}

unfoldable pub status_state : Bool → String → ℕ → String
unfolding one_of
status_state active state downloaded =
    if active
    then "downloading"
    else if one_of state ("error" ∷ "paused" ∷ "corrupt" ∷ [])
    then state
    else if nat_eq downloaded 0
    then "missing"
    else "paused"

module _ (gemma_sha256 : String) (sha256 : Bytes → String) (size : ℕ) where
  manifest_number : (Manifest → ℕ) → ℕ → Option Manifest → ℕ
  manifest_number field_of default none = default
  manifest_number field_of default (some m) = field_of m

  -- the report on a model that is not there, or that has another hash
  unfoldable pub status_missing : Bool → String → Models → Status
  unfolding chunk_progress payload status_state or_else manifest_number
  status_missing active state m =
      let total =
        or_else m.progress.total_bytes
          (manifest_number (λ (f : Manifest). f.total_bytes) 0 m.manifest) in
      let chunk_size = manifest_number (λ (f : Manifest). f.chunk_size) size m.manifest in
      let chunks = manifest_number (λ (f : Manifest). f.chunks) 0 m.manifest in
      let (completed, downloaded) = chunk_progress total chunk_size chunks m.parts in
      payload m.progress (record {
        state = status_state active state downloaded;
        verified = false;
        downloaded = downloaded;
        total = total;
        chunks = chunks;
        completed = completed;
        chunk_size = chunk_size;
      })

  -- `status`; `active` is whether the thread of a download runs
  unfoldable pub status : Bool → Models → Status
  unfolding status_missing payload or_else
  status active m = elim m.model [
    | none ↦ status_missing active (or_else m.progress.state "") m
    | some b ↦
        if m.linked
        then status_missing active (or_else m.progress.state "") m
        else if sha256 b == gemma_sha256
        then payload m.progress (record {
          state = "ready";
          verified = true;
          downloaded = length b;
          total = length b;
          chunks = 1;
          completed = 1;
          chunk_size = size;
        })
        else status_missing active (or_else m.progress.state "corrupt") m
  ]
