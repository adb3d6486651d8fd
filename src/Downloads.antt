-- ===== src/Downloads.antt =====
-- The download of the local model (model_setup.py): its state, `_download_worker` and `status`. The network's
-- replies and SHA-256 are parameters. Chunks are downloaded one after the other, in the order of their indices.
pub mod Chunks
pub mod Slices
pub mod Attempts
pub mod Assembled
pub mod Served
pub mod Pool
pub mod Content
pub mod Worker
pub mod Retried
pub mod Counted
pub mod Status
pub mod Session
use simulation_ai.Prelude.{
  ℕ, zero, suc, ◌+◌, ◌-◌, ◌*◌, String, Bool, true, false, not, ◌&&◌, ◌||◌, Option, none, some, List,
  [], ◌∷◌, ◌++◌, max, ◌==◌, nat_eq, ltb, if◌then◌else◌,
}
use simulation_ai.Prelude.Lists.{length}
use simulation_ai.Result.{
  Error, Result, ok, err, guard, value_error, no_content_length, network_error, checksum_mismatch,
}
use simulation_ai.Exec.{Exec, pure, lift, gets, reads, modify, ◌>>=◌, ◌>>◌}
use simulation_ai.Model.{one_of}
use simulation_ai.Downloads.Chunks.{
  Bytes, Parts, Fetch, chunk_count, download_chunk, download_all, pending, assemble, chunk_progress,
  no_parts,
}

-- `manifest.json`; its model and URL are constants
pub record Manifest : Type 0 where
  pub sha256 : String
  pub total_bytes : ℕ
  pub chunk_size : ℕ
  pub chunks : ℕ
  pub state : String
  pub error : Option Error

-- `_progress`, its texts of errors left out
pub record Progress : Type 0 where
  pub state : Option String
  pub total_bytes : Option ℕ
  pub downloaded_bytes : Option ℕ

-- the directory of the models: the model's file and whether its path is a symbolic link, the chunks, the `.part` file, the manifest; and the progress
pub record Models : Type 0 where
  pub model : Option Bytes
  pub linked : Bool
  pub parts : Parts
  pub partial : Option Bytes
  pub manifest : Option Manifest
  pub progress : Progress

-- The answer to the probe: its status, the total in `Content-Range`, and `Content-Length`.
pub record Probe : Type 0 where
  pub status : ℕ
  pub range_total : Option ℕ
  pub content_length : ℕ

-- What the stream of the whole file gives: a status, bytes, and whether the network broke off after them.
pub record Stream : Type 0 where
  pub status : ℕ
  pub bytes : Bytes
  pub breaks : Bool

-- The server. A chunk's reply depends on its index, on the range and on the attempt; `none` is a request
-- that fails.
pub record Server : Type 0 where
  pub probe : Option Probe
  pub chunk : ℕ → ℕ → ℕ → ℕ → Fetch
  pub stream : ℕ → Option Stream

-- `_probe_remote`
unfoldable pub probe_remote : Option Probe → Result (ℕ × Bool)
probe_remote none = err network_error
probe_remote (some p) = elim (if nat_eq p.status 206 then p.range_total else none) [
  | some total ↦ ok (total, true)
  | none ↦ if nat_eq p.content_length 0 then err no_content_length else ok (p.content_length, false)
]

unfoldable pub downloading : ℕ → Progress → Progress
downloading total p = record p { state = some "downloading"; total_bytes = some total }

-- the assembled file takes the place of the model
unfoldable pub put_model : Result Bytes → Models → Result (Unit {0}) × Models
put_model (ok bytes) m = (ok tt, record m { model = some bytes; linked = false })
put_model (err e) m = (err e, m)

is_absent : Option Bytes → Bool
is_absent none = true
is_absent (some b) = false

bytes_of : Option Bytes → Bytes
bytes_of none = []
bytes_of (some b) = b

-- the `.part` file with what the stream gave, and the progress at its last block
unfoldable pub append_stream : ℕ → Bytes → Stream → Models → Result (Unit {0}) × Models
append_stream total before st m =
    let written = before ++ st.bytes in
    let p = if nat_eq (length st.bytes) 0 then m.progress else record {
      state = some "downloading";
      total_bytes = some total;
      downloaded_bytes = some (length written);
    } in
    if st.breaks
    then (err network_error, record m { partial = some written; progress = p })
    else (ok tt, record m { partial = none; model = some written; linked = false; progress = p })

-- `_cleanup_chunks`, after the progress is set
unfoldable pub finish : ℕ → Models → Models
unfolding no_parts
finish total m = record m {
  parts = no_parts;
  manifest = none;
  progress = record { state = some "ready"; total_bytes = some total; downloaded_bytes = none };
}

with_error : Error → Option Manifest → Option Manifest
with_error e none = none
with_error e (some m) = some (record m { state = "error"; error = some e })

-- the handler of every exception
unfoldable pub on_error : Result (Unit {0}) × Models → Models
unfolding with_error
on_error (ok u, m) = m
on_error (err e, m) = record m {
  progress = record { state = some "error"; total_bytes = none; downloaded_bytes = none };
  manifest = with_error e m.manifest;
}

-- `GEMMA_SHA256`, SHA-256 of a file, and `GEMMA_CHUNK_BYTES`
module _ (gemma_sha256 : String) (sha256 : Bytes → String) (size : ℕ) where
  new_manifest : ℕ → Manifest
  unfolding chunk_count
  new_manifest total = record {
    sha256 = gemma_sha256;
    total_bytes = total;
    chunk_size = size;
    chunks = chunk_count size total;
    state = "downloading";
    error = none;
  }

  unfoldable pub manifest_for : ℕ → Option Manifest → Manifest
  unfolding new_manifest
  manifest_for total none = new_manifest total
  manifest_for total (some m) =
      if m.sha256 == gemma_sha256 && nat_eq m.total_bytes total then m else new_manifest total

  -- the progress, set anew if any byte was read; it is taken once, after the last chunk
  unfoldable pub with_read : ℕ → ℕ → Models → Models
  unfolding chunk_progress downloading
  with_read total zero m = m
  with_read total (suc count) m = record m {
    progress = record (downloading total m.progress) {
      downloaded_bytes = some (chunk_progress total size (chunk_count size total) m.parts).1;
    };
  }

  -- `_download_chunks` up to the assembly
  unfoldable pub fetch_chunks : Server → ℕ → Exec Models (Unit {0})
  unfolding manifest_for with_read pending download_all chunk_count downloading
  fetch_chunks s total m =
      let all =
        download_all size total s.chunk (pending size total m.parts 0 (chunk_count size total))
          m.parts in
      (
        all.outcome,
        with_read total all.read (record m {
          parts = all.parts;
          manifest = some (manifest_for total m.manifest);
          progress = downloading total m.progress;
        }),
      )

  unfoldable pub assemble_all : ℕ → Exec Models (Unit {0})
  unfolding assemble put_model chunk_count
  assemble_all total m = put_model (assemble size total m.parts 0 (chunk_count size total)) m

  -- `_download_chunks`
  unfoldable pub download_chunks : Server → ℕ → Exec Models (Unit {0})
  unfolding fetch_chunks assemble_all
  download_chunks s total = do fetch_chunks s total; assemble_all total

  -- `_download_stream`
  unfoldable pub download_stream : Server → ℕ → Exec Models (Unit {0})
  unfolding append_stream bytes_of
  download_stream s total m = elim (s.stream (length (bytes_of m.partial))) [
    | none ↦ (err network_error, record m { partial = some (bytes_of m.partial) })
    | some st ↦ append_stream total (if nat_eq st.status 206 then bytes_of m.partial else []) st m
  ]

  unfoldable pub is_gemma : Option Bytes → Bool
  is_gemma none = false
  is_gemma (some b) = sha256 b == gemma_sha256

  -- a model with another hash is deleted
  unfoldable pub drop_other : Models → Models
  unfolding is_gemma is_absent
  drop_other m = record m {
    model = if is_gemma m.model then m.model else none;
    linked = m.linked && (is_gemma m.model || is_absent m.model);
  }

  -- the test of the new file, and what follows it
  unfoldable pub checked_model : ℕ → Exec Models (Unit {0})
  unfolding is_gemma finish
  checked_model total = do
    reads (λ (m : Models). guard (is_gemma m.model) checksum_mismatch)
    modify (finish total)

  unfoldable pub fetch_file : Server → ℕ × Bool → Exec Models (Unit {0})
  unfolding download_chunks download_stream
  fetch_file s (total, true) = download_chunks s total
  fetch_file s (total, false) = download_stream s total

  unfoldable pub fetch_model : Server → ℕ × Bool → Exec Models (Unit {0})
  unfolding fetch_file drop_other checked_model
  fetch_model s found = do modify drop_other; fetch_file s found; checked_model found.0

  -- `_download_worker`
  unfoldable pub download_worker : Server → Models → Models
  unfolding probe_remote fetch_model on_error
  download_worker s m = on_error ((lift (probe_remote s.probe) >>= fetch_model s) m)
