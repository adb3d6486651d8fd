-- ===== src/Tests/Downloads.antt =====
-- A server with a file of five bytes, and a download of it in chunks of two bytes that is resumed.
use simulation_ai.Downloads.Status.{status}
use simulation_ai.Downloads.Session.{Setup, start_download}
use simulation_ai.Downloads.Session.Ready.{GetsReady, start_download-GetsReady, status-ready}
use simulation_ai.Prelude.{
  ◌↔◌, false, ℕ, zero, suc, ◌+◌, ◌-◌, ◌*◌, ◌≤◌, String, true, none, some, [], ◌∷◌, ◌≡◌, refl, ap,
  arith, nat_eq, if◌then◌else◌,
}
use simulation_ai.Prelude.Lists.{length}
use simulation_ai.Result.{ok}
use simulation_ai.Exec.{◌>>=◌}
use simulation_ai.Downloads.Slices.{slice}
use simulation_ai.Downloads.Assembled.{IsUsable}
use simulation_ai.Downloads.Served.{IsServing, IsServing-IsHonest}
use simulation_ai.Downloads.Pool.{AreUsable}
use simulation_ai.Downloads.Content.{download_chunks-content}
use simulation_ai.Downloads.Worker.{Ends, download_worker-Ends, download_worker-verified}
use simulation_ai.Downloads.Retried.{is_failure, download_chunk-failed}
use simulation_ai.Downloads.Counted.{chunk_progress-bounded}
use simulation_ai.Downloads.Chunks.{
  Bytes, Parts, Fetch, serves, breaks, chunk_count, chunk_length, chunk_progress, download_chunk,
  size_of, drop_long, last_byte,
}
use simulation_ai.Downloads.{
  Models, Server, is_gemma, download_worker, download_chunks, probe_remote,
}

abbrev file : Bytes
file = 1 ∷ 2 ∷ 3 ∷ 4 ∷ 5 ∷ []

abbrev hash_of : Bytes → String
hash_of b = if nat_eq (length b) 5 then "ab78" else "0000"

abbrev range_server : Server
range_server = record {
  probe = some (record { status = 206; range_total = some 5; content_length = 1 });
  chunk = λ i start end n. serves (slice start (end + 1 - start) file);
  stream = λ offset. none;
}

-- the second chunk is there by half, and the third is too long
abbrev half_parts : Parts
half_parts zero = none
half_parts (suc zero) = some (3 ∷ [])
half_parts (suc (suc zero)) = some (9 ∷ 9 ∷ 9 ∷ [])
half_parts (suc (suc (suc i))) = none

abbrev stopped : Models
stopped = record {
  model = none;
  linked = false;
  parts = half_parts;
  partial = none;
  manifest = none;
  progress = record { state = none; total_bytes = none; downloaded_bytes = none };
}

half_usable : (i : ℕ) → IsUsable 2 file i (half_parts i)
unfolding chunk_length
half_usable zero b e h = cc
half_usable (suc zero) b e h = let same : b ≡ 3 ∷ [] = cc in rw same (4 ∷ [], refl)
half_usable (suc (suc zero)) b e h =
    let same : b ≡ 9 ∷ 9 ∷ 9 ∷ [] = cc in
    let long : length b ≡ 3 = ap length same in absurd (omega (arith, h, long))
half_usable (suc (suc (suc i))) b e h = cc

stopped_usable : AreUsable 2 file (chunk_count 2 5) half_parts
stopped_usable = record { usable = λ i h. half_usable i }

served : (i : ℕ) → IsServing 2 file (range_server.chunk i)
served i start end = refl

resumed_ready : Ends "ab78" hash_of 2 file (download_worker "ab78" hash_of 2 range_server stopped)
unfolding probe_remote
resumed_ready =
    download_worker-Ends "ab78" hash_of 2 file range_server stopped (omega arith) refl refl served
      stopped_usable

abbrev idle : Setup
idle = record { models = stopped; active = false }

start_download-GetsReady_example :
    GetsReady "ab78" hash_of 2 file range_server (start_download "ab78" hash_of 2 idle)
unfolding probe_remote
start_download-GetsReady_example =
    start_download-GetsReady "ab78" hash_of 2 file range_server (omega arith) refl refl served idle
      refl stopped_usable

status-ready_example :
    ((status "ab78" hash_of 2 true stopped).state ≡ "ready")
    ↔ ((is_gemma "ab78" hash_of 2 stopped.model ≡ true) × (stopped.linked ≡ false))
status-ready_example = status-ready "ab78" hash_of 2 true stopped

download_worker-verified_example :
    is_gemma "ab78" hash_of 2 (download_worker "ab78" hash_of 2 range_server stopped).model ≡ true
download_worker-verified_example =
    download_worker-verified "ab78" hash_of 2 range_server stopped resumed_ready.ready

download_chunks-content_example :
    (download_chunks "ab78" hash_of 2 range_server 5 stopped).1.model ≡ some file
unfolding download_chunks ◌>>=◌
download_chunks-content_example =
    download_chunks-content "ab78" hash_of 2 file range_server stopped (omega arith)
      (λ i. IsServing-IsHonest 2 file (range_server.chunk i) (served i)) stopped_usable refl

-- a connection that breaks off after a byte, and then gives the rest
breaks_once : ℕ → ℕ → ℕ → Fetch
breaks_once start end zero = breaks (slice start 1 file)
breaks_once start end (suc n) = serves (slice start (end + 1 - start) file)

download_chunk-failed_example : ¬ ((download_chunk 2 5 breaks_once 0 none).outcome ≡ ok tt)
unfolding breaks_once is_failure size_of drop_long last_byte
download_chunk-failed_example = download_chunk-failed 2 5 breaks_once 0 none refl refl

chunk_progress-bounded_example :
    ((chunk_progress 5 2 3 half_parts).0 ≤ 3)
    × ((chunk_progress 5 2 3 half_parts).1 ≤ 5)
    × ((chunk_progress 5 2 3 half_parts).0 ≡ 3
        → 5 ≤ 3 * 2
        → (chunk_progress 5 2 3 half_parts).1 ≡ 5)
chunk_progress-bounded_example = chunk_progress-bounded 5 2 3 half_parts
