-- ===== src/Downloads/Retried.antt =====
-- A chunk whose first request fails.
use simulation_ai.Prelude.{
  ℕ, suc, ◌+◌, ◌-◌, ◌*◌, Bool, true, false, Option, none, ◌≡◌, refl, nat_eq,
}
use simulation_ai.Result.{ok}
use simulation_ai.Downloads.Attempts.{try_chunk-failed}
use simulation_ai.Downloads.Chunks.{
  Bytes, Fetch, not_partial, http_error, unreachable, breaks, serves, try_chunk, check_part,
  drop_long, size_of, download_chunk, last_byte,
}

-- an HTTP error, or an error of the network before or after some bytes: another attempt follows
unfoldable pub is_failure : Fetch → Bool
is_failure (http_error code) = true
is_failure unreachable = true
is_failure (breaks bytes) = true
is_failure _ = false

first_failed :
    (fetch : ℕ → Fetch) (left expected : ℕ) (part : Option Bytes) (f : Fetch)
    → fetch 0 ≡ f
    → is_failure f ≡ true
    → (let tried = try_chunk fetch 0 (suc left) none part 0 in
        ¬ (check_part expected tried.outcome tried.part ≡ ok tt))
unfolding try_chunk is_failure
first_failed fetch left expected part not_partial q h = cc
first_failed fetch left expected part (serves bytes) q h = cc
first_failed fetch left expected part (http_error code) q h =
    rw (q, try_chunk) (try_chunk-failed fetch 1 left expected _ part 0)
first_failed fetch left expected part unreachable q h =
    rw (q, try_chunk) (try_chunk-failed fetch 1 left expected _ part 0)
first_failed fetch left expected part (breaks bytes) q h =
    rw (q, try_chunk) (try_chunk-failed fetch 1 left expected _ _ _)

-- the bytes of a chunk, and the file that is kept of it
abbrev pub width_of : ℕ → ℕ → ℕ → ℕ
width_of size total index = last_byte size total index + 1 - index * size

abbrev pub kept_of : ℕ → ℕ → ℕ → Option Bytes → Option Bytes
kept_of size total index part = drop_long (width_of size total index) part

-- If the first request for a chunk that is not complete fails in a way that another attempt follows, the
-- download of the chunk raises, even if a later attempt gives everything.
pub download_chunk-failed :
    (size total : ℕ) (fetch : ℕ → ℕ → ℕ → Fetch) (index : ℕ) (part : Option Bytes)
    → nat_eq (size_of (kept_of size total index part)) (width_of size total index) ≡ false
    → is_failure (
        fetch
          (index * size + size_of (kept_of size total index part))
          (last_byte size total index)
          0)
      ≡ true
    → ¬ ((download_chunk size total fetch index part).outcome ≡ ok tt)
unfolding download_chunk
download_chunk-failed size total fetch index part missing fails = rw missing (
    first_failed
      (fetch (index * size + size_of (kept_of size total index part)) (last_byte size total index))
      2 (width_of size total index) (kept_of size total index part) _ refl fails)
