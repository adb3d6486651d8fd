-- ===== src/Downloads/Session.antt =====
-- `start_download` of model_setup.py: the thread that it starts unless one runs. The thread is taken to run from
-- its start to its end between two calls.
pub mod Ready
use simulation_ai.Prelude.{ℕ, String, Bool, true, false, Option, none, some, ◌==◌, if◌then◌else◌}
use simulation_ai.Downloads.Chunks.{Bytes}
use simulation_ai.Downloads.{Models, Server, download_worker}
use simulation_ai.Downloads.Status.{Status, status}

-- `active`: there is a thread, and it is alive
pub record Setup : Type 0 where
  pub models : Models
  pub active : Bool

module _ (gemma_sha256 : String) (sha256 : Bytes → String) (size : ℕ) where
  unfoldable pub report : Setup → Status
  unfolding status
  report s = status gemma_sha256 sha256 size s.active s.models

  -- the part of `start_download` that holds the lock
  unfoldable pub launch : Setup → Setup
  launch s = if s.active then s else record {
    models = record s.models {
      progress = record { state = some "starting"; total_bytes = none; downloaded_bytes = none };
    };
    active = true;
  }

  unfoldable pub start_download : Setup → Status × Setup
  unfolding report launch
  start_download s =
      let current = report s in
      let started = launch s in
      if current.state == "ready" then (current, s) else (report started, started)

  -- the thread runs, and ends
  unfoldable pub run_thread : Server → Setup → Setup
  unfolding download_worker
  run_thread v s = record {
    models = download_worker gemma_sha256 sha256 size v s.models;
    active = false;
  }
