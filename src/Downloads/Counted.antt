-- ===== src/Downloads/Counted.antt =====
-- What `_chunk_progress` counts.
use simulation_ai.Prelude.{
  ℕ, zero, suc, ◌+◌, ◌-◌, ◌*◌, ◌≤◌, min, Bool, true, false, Option, none, some, ◌≡◌, refl, arith,
  leb, nat_eq, nat_eq_iff, ◌&&◌, if◌then◌else◌,
}
use simulation_ai.Prelude.Lists.{length}
use simulation_ai.Downloads.Chunks.{Bytes, Parts, chunk_length, chunk_progress_from, chunk_progress}

-- the counts of the `count` chunks from `index` on
record Counts (total size index count : ℕ) (c : ℕ × ℕ) : Type 0 where
  few : c.0 ≤ count
  inside : c.1 ≤ total - index * size
  all : c.0 ≡ count → total ≤ (index + count) * size → c.1 ≡ total - index * size

counts_step :
    (total size index count there : ℕ) (complete : Bool) (c : ℕ × ℕ)
    → Counts total size (suc index) count c
    → there ≤ chunk_length size index total
    → (complete ≡ true → there ≡ chunk_length size index total)
    → Counts total size index (suc count) ((if complete then suc c.0 else c.0), there + c.1)
unfolding chunk_length
counts_step total size index count there true c rest fits whole =
    let e : suc index * size ≡ index * size + size = omega arith in
    record {
      few = omega (arith, rest.few);
      inside = omega (arith, rest.inside);
      all = λ h enough.
          let more : total ≤ (suc index + count) * size = omega (arith, enough) in
          omega (arith, whole refl, rest.all (omega arith) more);
    }
counts_step total size index count there false c rest fits whole =
    let e : suc index * size ≡ index * size + size = omega arith in
    record {
      few = omega (arith, rest.few);
      inside = omega (arith, rest.inside);
      all = λ h enough. absurd (omega (arith, rest.few));
    }

both-first : (a b : Bool) → (a && b) ≡ true → a ≡ true
both-first true b h = refl
both-first false b h = cc

part-Counts :
    (total size : ℕ) (parts : Parts) (index count : ℕ) (part : Option Bytes)
    → parts index ≡ part
    → Counts total size (suc index) count (chunk_progress_from total size parts (suc index) count)
    → Counts total size index (suc count) (chunk_progress_from total size parts index (suc count))
unfolding chunk_progress_from
part-Counts total size parts index count none q rest =
    let e : suc index * size ≡ index * size + size = omega arith in
    rw (q, chunk_progress_from)
      (record {
        few = omega (arith, rest.few);
        inside = omega (arith, rest.inside);
        all = λ h enough. absurd (omega (arith, rest.few, h));
      })
part-Counts total size parts index count (some b) q rest =
    let whole = chunk_length size index total in
    let there = min (length b) whole in
    rw (q, chunk_progress_from)
      (counts_step total size index count there (nat_eq there whole && leb (index * size) total) _
        rest (omega arith) (λ h. (nat_eq_iff there whole).0 (both-first (nat_eq there whole) _ h)))

from-Counts :
    (total size : ℕ) (parts : Parts) (index count : ℕ)
    → Counts total size index count (chunk_progress_from total size parts index count)
unfolding chunk_progress_from
from-Counts total size parts index zero = record {
  few = omega arith;
  inside = omega arith;
  all = λ h enough. omega (arith, enough);
}
from-Counts total size parts index (suc count) =
    part-Counts total size parts index count (parts index) refl
      (from-Counts total size parts (suc index) count)

-- However the chunk files are, `_chunk_progress` counts no more chunks than there are and no more bytes than
-- the file has; if every chunk is complete and the chunks cover the file, it counts all of its bytes.
pub chunk_progress-bounded :
    (total size count : ℕ) (parts : Parts)
    → ((chunk_progress total size count parts).0 ≤ count)
      × ((chunk_progress total size count parts).1 ≤ total)
      × ((chunk_progress total size count parts).0 ≡ count
          → total ≤ count * size
          → (chunk_progress total size count parts).1 ≡ total)
unfolding chunk_progress
chunk_progress-bounded total size count parts =
    let c = from-Counts total size parts 0 count in
    let e : (0 + count) * size ≡ count * size = omega arith in
    (c.few, omega (arith, c.inside), λ h enough. omega (arith, c.all h (rw e enough)))
