-- ===== src/Downloads/Chunks.antt =====
-- The chunks of the local model (model_setup.py): `_chunk_length`, `_download_chunk`, the pending chunks,
-- `_chunk_progress` and the assembly. `size` is `GEMMA_CHUNK_BYTES`.
use simulation_ai.Prelude.{
  ℕ, zero, suc, ◌+◌, ◌-◌, ◌*◌, ◌/◌, min, Bool, false, ◌&&◌, Option, none, some, List, [], ◌∷◌, ◌++◌,
  nat_eq, ltb, leb, if◌then◌else◌,
}
use simulation_ai.Prelude.Lists.{length}
use simulation_ai.Result.{
  Error, Result, ok, err, ◌>>=◌, ranges_refused, chunk_http_error, network_error, chunk_incomplete,
  chunk_missing,
}

abbrev pub Bytes : Type 0
Bytes = List ℕ

-- the chunk files by their index
abbrev pub Parts : Type 0
Parts = ℕ → Option Bytes

unfoldable pub no_parts : Parts
no_parts index = none

unfoldable pub put_part : ℕ → Option Bytes → Parts → Parts
put_part index part parts i = if nat_eq i index then part else parts i

-- What a request of a range ends in: another status than 206, an HTTPError, an error of the network before
-- or after some bytes, or the end of the response.
pub data Fetch : Type 0 where
  not_partial : Fetch
  http_error : ℕ → Fetch
  unreachable : Fetch
  breaks : Bytes → Fetch
  serves : Bytes → Fetch

-- `last_error` or an error that is raised at once, the part's file, and how many bytes were read
pub record Tried : Type 0 where
  pub outcome : Result (Option Error)
  pub part : Option Bytes
  pub read : ℕ

pub record Chunked : Type 0 where
  pub outcome : Result (Unit {0})
  pub part : Option Bytes
  pub read : ℕ

pub record Downloaded : Type 0 where
  pub outcome : Result (Unit {0})
  pub parts : Parts
  pub read : ℕ

unfoldable pub size_of : Option Bytes → ℕ
size_of none = 0
size_of (some b) = length b

unfoldable pub append_part : Option Bytes → Bytes → Option Bytes
append_part none bytes = some bytes
append_part (some b) bytes = some (b ++ bytes)

unfoldable pub chunk_count : ℕ → ℕ → ℕ
chunk_count size total = (total + size - 1) / size

unfoldable pub chunk_length : ℕ → ℕ → ℕ → ℕ
chunk_length size index total = min size (total - index * size)

-- the loop over the attempts: `n` is the attempt, `left` those that follow
unfoldable pub try_chunk : (ℕ → Fetch) → ℕ → ℕ → Option Error → Option Bytes → ℕ → Tried
unfolding append_part
try_chunk fetch n zero last_error part read = record {
  outcome = ok last_error;
  part = part;
  read = read;
}
try_chunk fetch n (suc left) last_error part read = elim (fetch n) [
  | not_partial ↦ record { outcome = err ranges_refused; part = part; read = read }
  | http_error code ↦ try_chunk fetch (suc n) left (some chunk_http_error) part read
  | unreachable ↦ try_chunk fetch (suc n) left (some network_error) part read
  | breaks bytes ↦
      try_chunk fetch (suc n) left (some network_error) (append_part part bytes)
        (read + length bytes)
  | serves bytes ↦ record {
    outcome = ok last_error;
    part = append_part part bytes;
    read = read + length bytes;
  }
]

-- the tests after the loop
unfoldable pub check_part : ℕ → Result (Option Error) → Option Bytes → Result (Unit {0})
check_part expected (err e) part = err e
check_part expected (ok (some e)) part = err e
check_part expected (ok none) none = err chunk_incomplete
check_part expected (ok none) (some b) =
    if nat_eq (length b) expected then ok tt else err chunk_incomplete

-- a part that is too long is deleted
unfoldable pub drop_long : ℕ → Option Bytes → Option Bytes
unfolding size_of
drop_long expected part = if ltb expected (size_of part) then none else part

unfoldable pub first_error : Result (Unit {0}) → Result (Unit {0}) → Result (Unit {0})
first_error (ok u) r = r
first_error (err e) r = err e

module _ (size total : ℕ) where
  unfoldable pub last_byte : ℕ → ℕ
  last_byte index = min (total - 1) (index * size + size - 1)

  -- `_download_chunk`
  unfoldable pub download_chunk : (ℕ → ℕ → ℕ → Fetch) → ℕ → Option Bytes → Chunked
  unfolding try_chunk check_part size_of drop_long last_byte
  download_chunk fetch index part =
      let start = index * size in
      let end = last_byte index in
      let expected = end + 1 - start in
      let kept = drop_long expected part in
      if nat_eq (size_of kept) expected
      then record { outcome = ok tt; part = kept; read = 0 }
      else let tried = try_chunk (fetch (start + size_of kept) end) 0 3 none kept 0 in
        record {
          outcome = check_part expected tried.outcome tried.part;
          part = tried.part;
          read = tried.read;
        }

  -- `part.exists() and part.stat().st_size == expected`
  unfoldable pub is_complete : ℕ → Option Bytes → Bool
  unfolding chunk_length
  is_complete index none = false
  is_complete index (some b) = nat_eq (length b) (chunk_length size index total)

  -- the chunks that are not there, of the `count` from `index` on
  unfoldable pub pending : Parts → ℕ → ℕ → List ℕ
  unfolding is_complete
  pending parts index zero = []
  pending parts index (suc count) =
      let rest = pending parts (suc index) count in
      if is_complete index (parts index) then rest else index ∷ rest

  -- the pool runs every download, whichever fail
  unfoldable pub download_all : (ℕ → ℕ → ℕ → ℕ → Fetch) → List ℕ → Parts → Downloaded
  unfolding download_chunk put_part first_error
  download_all fetch [] parts = record { outcome = ok tt; parts = parts; read = 0 }
  download_all fetch (index ∷ l) parts =
      let chunk = download_chunk (fetch index) index (parts index) in
      let rest = download_all fetch l (put_part index chunk.part parts) in
      record {
        outcome = first_error chunk.outcome rest.outcome;
        parts = rest.parts;
        read = chunk.read + rest.read;
      }

  -- a chunk for the assembly
  unfoldable pub whole_part : ℕ → Option Bytes → Result Bytes
  unfolding is_complete
  whole_part index none = err chunk_missing
  whole_part index (some b) = if is_complete index (some b) then ok b else err chunk_missing

  unfoldable pub assemble : Parts → ℕ → ℕ → Result Bytes
  unfolding whole_part
  assemble parts index zero = ok []
  assemble parts index (suc count) = do
    b ← whole_part index (parts index)
    rest ← assemble parts (suc index) count
    ok (b ++ rest)

-- `_chunk_progress`: the chunks that are complete and the bytes that are there. A chunk that would begin
-- after the end has a negative length and counts for nothing.
unfoldable pub chunk_progress_from : ℕ → ℕ → Parts → ℕ → ℕ → ℕ × ℕ
unfolding chunk_length
chunk_progress_from total chunk_size parts index zero = (0, 0)
chunk_progress_from total chunk_size parts index (suc count) =
    let rest = chunk_progress_from total chunk_size parts (suc index) count in
    elim (parts index) [
      | none ↦ rest
      | some b ↦
          let whole = chunk_length chunk_size index total in
          let there = min (length b) whole in
          (
            (if nat_eq there whole && leb (index * chunk_size) total then suc rest.0 else rest.0),
            there + rest.1,
          )
    ]

unfoldable pub chunk_progress : ℕ → ℕ → ℕ → Parts → ℕ × ℕ
unfolding chunk_progress_from
chunk_progress total chunk_size chunks parts = chunk_progress_from total chunk_size parts 0 chunks
