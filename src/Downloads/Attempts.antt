-- ===== src/Downloads/Attempts.antt =====
-- What an attempt to download a chunk that succeeds has read.
use simulation_ai.Prelude.{ℕ, zero, suc, Option, none, some, ◌≡◌, refl, arith}
use simulation_ai.Result.{Error, ok}
use simulation_ai.Downloads.Chunks.{
  Bytes, Fetch, http_error, unreachable, not_partial, breaks, serves, try_chunk, append_part,
  check_part, size_of,
}

-- the outcome of the attempts from `n` on, after an error
abbrev pub Succeeds : (ℕ → Fetch) → ℕ → ℕ → ℕ → Error → Option Bytes → ℕ → Type 0
Succeeds fetch n left expected e part read =
    let tried = try_chunk fetch n left (some e) part read in
    check_part expected tried.outcome tried.part ≡ ok tt

failed_step :
    (fetch : ℕ → Fetch) (n left expected : ℕ) (e : Error) (part : Option Bytes) (read : ℕ)
    (f : Fetch)
    → fetch n ≡ f
    → ((e' : Error) (part' : Option Bytes) (read' : ℕ)
        → ¬ Succeeds fetch (suc n) left expected e' part' read')
    → ¬ Succeeds fetch n (suc left) expected e part read
unfolding try_chunk check_part
failed_step fetch n left expected e part read not_partial q later = rw (q, try_chunk) (λ h. cc)
failed_step fetch n left expected e part read (http_error code) q later =
    rw (q, try_chunk) (later _ _ _)
failed_step fetch n left expected e part read unreachable q later = rw (q, try_chunk) (later _ _ _)
failed_step fetch n left expected e part read (breaks bytes) q later =
    rw (q, try_chunk) (later _ _ _)
failed_step fetch n left expected e part read (serves bytes) q later = rw (q, try_chunk) (λ h. cc)

-- after a failed attempt no later reply makes the outcome a success
pub try_chunk-failed :
    (fetch : ℕ → Fetch) (n left expected : ℕ) (e : Error) (part : Option Bytes) (read : ℕ)
    → ¬ Succeeds fetch n left expected e part read
unfolding try_chunk check_part
try_chunk-failed fetch n zero expected e part read = λ h. cc
try_chunk-failed fetch n (suc left) expected e part read =
    failed_step fetch n left expected e part read (fetch n) refl
      (try_chunk-failed fetch (suc n) left expected)

-- bytes that were read as the first reply
pub record FirstServes (fetch : ℕ → Fetch) (expected : ℕ) (part after : Option Bytes) : Type 0 where
  pub bytes : Bytes
  pub served : fetch 0 ≡ serves bytes
  pub appended : after ≡ append_part part bytes
  pub full : size_of after ≡ expected

checked-full :
    (expected : ℕ) (part : Option Bytes)
    → check_part expected (ok none) part ≡ ok tt
    → size_of part ≡ expected
unfolding check_part size_of
checked-full expected none h = cc
checked-full expected (some b) h = ground arith

pub first-serves :
    (fetch : ℕ → Fetch) (left expected : ℕ) (part : Option Bytes) (f : Fetch)
    → fetch 0 ≡ f
    → check_part expected
        (try_chunk fetch 0 (suc left) none part 0).outcome
        (try_chunk fetch 0 (suc left) none part 0).part
      ≡ ok tt
    → FirstServes fetch expected part (try_chunk fetch 0 (suc left) none part 0).part
unfolding try_chunk check_part
first-serves fetch left expected part not_partial q = rw (q, try_chunk) (λ h. cc)
first-serves fetch left expected part (http_error code) q =
    rw (q, try_chunk) (λ h. absurd (try_chunk-failed fetch 1 left expected _ part 0 h))
first-serves fetch left expected part unreachable q =
    rw (q, try_chunk) (λ h. absurd (try_chunk-failed fetch 1 left expected _ part 0 h))
first-serves fetch left expected part (breaks bytes) q =
    rw (q, try_chunk) (λ h. absurd (try_chunk-failed fetch 1 left expected _ _ _ h))
first-serves fetch left expected part (serves bytes) q =
    rw (q, try_chunk)
      (λ h. record { bytes = bytes; served = q; appended = refl; full = checked-full expected _ h })
