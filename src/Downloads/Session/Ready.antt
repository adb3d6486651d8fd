-- ===== src/Downloads/Session/Ready.antt =====
-- When the status says that the model is ready, and that a download gets there.
use simulation_ai.Prelude.{
  ℕ, ◌≤◌, String, Bool, true, false, Option, none, some, [], ◌∷◌, ◌≡◌, ◌≢◌, ◌↔◌, refl, inl, inr,
  ◌==◌, eq_iff, Bool-cases, if◌then◌else◌, nat_eq,
}
use simulation_ai.Prelude.Lists.{length}
use simulation_ai.Result.{ok}
use simulation_ai.Model.{one_of}
use simulation_ai.Downloads.Served.{IsServing}
use simulation_ai.Downloads.Pool.{AreUsable}
use simulation_ai.Downloads.Worker.{Ends, download_worker-Ends}
use simulation_ai.Downloads.Chunks.{Bytes, chunk_count}
use simulation_ai.Downloads.{Models, Server, is_gemma, probe_remote}
use simulation_ai.Downloads.Status.{Status, or_else, status, status_missing, status_state, payload}
use simulation_ai.Downloads.Session.{Setup, report, launch, start_download, run_thread}

ready_kept :
    (state : String)
    → state ≡ "ready"
    → one_of state ("error" ∷ "paused" ∷ "corrupt" ∷ []) ≡ true
    → ⊥
unfolding one_of
ready_kept state h kept = let bad = rw h at kept in cc

found_ready :
    (downloaded : ℕ)
    → ¬ ◌≡◌ {A = String} (if nat_eq downloaded 0 then "missing" else "paused") "ready"
found_ready downloaded h = elim (Bool-cases (nat_eq downloaded 0)) [
  | inl e ↦ let bad = rw e at h in cc
  | inr e ↦ let bad = rw e at h in cc
]

status_state-ready :
    (active : Bool) (state : String) (downloaded : ℕ)
    → status_state active state downloaded ≢ "ready"
unfolding status_state one_of
status_state-ready true state downloaded h = cc
status_state-ready false state downloaded h =
    elim (Bool-cases (one_of state ("error" ∷ "paused" ∷ "corrupt" ∷ []))) [
      | inl kept ↦ ready_kept state (rw kept at h) kept
      | inr other ↦ found_ready downloaded (rw other at h)
    ]

module _ (gemma_sha256 : String) (sha256 : Bytes → String) (size : ℕ) where
  missing-ready :
      (active : Bool) (state : String) (m : Models)
      → (status_missing gemma_sha256 sha256 size active state m).state ≢ "ready"
  unfolding status_missing payload
  missing-ready active state m = status_state-ready active state _

  model_case :
      (active : Bool) (m : Models) (file : Option Bytes)
      → m.model ≡ file
      → ((status gemma_sha256 sha256 size active m).state ≡ "ready")
        ↔ ((is_gemma gemma_sha256 sha256 size m.model ≡ true) × (m.linked ≡ false))
  unfolding status is_gemma payload or_else
  model_case active m none e =
      rw e (λ h. absurd (missing-ready active (or_else m.progress.state "") m h), λ h. cc)
  model_case active m (some b) e = elim (Bool-cases m.linked) [
    | inl link ↦
        rw (e, link) (λ h. absurd (missing-ready active (or_else m.progress.state "") m h), λ h. cc)
    | inr plain ↦ elim (Bool-cases (sha256 b == gemma_sha256)) [
      | inl good ↦ rw (e, plain, good) (λ h. (refl, refl), λ h. refl)
      | inr bad ↦
          rw (e, plain, bad)
            (λ h. absurd (missing-ready active (or_else m.progress.state "corrupt") m h), λ h. cc)
    ]
  ]

  -- `status` says that the model is ready exactly when there is a model with the expected hash and its path is
  -- no symbolic link, whatever the progress is and whether a download runs.
  pub status-ready :
      (active : Bool) (m : Models)
      → ((status gemma_sha256 sha256 size active m).state ≡ "ready")
        ↔ ((is_gemma gemma_sha256 sha256 size m.model ≡ true) × (m.linked ≡ false))
  status-ready active m = model_case active m m.model refl

  -- What a call of `start_download` leads to: the model is there, or the thread that runs ends with it.
  pub data GetsReady (content : Bytes) (v : Server) : Status × Setup → Type 0 where
    has_model :
        (r : Status) (s : Setup)
        → r.state ≡ "ready"
        → s.active ≡ false
        → is_gemma gemma_sha256 sha256 size s.models.model ≡ true
        → s.models.linked ≡ false
        → GetsReady content v (r, s)
    gets_there :
        (r : Status) (s : Setup)
        → r.state ≡ "downloading"
        → s.active ≡ true
        → Ends gemma_sha256 sha256 size content (run_thread gemma_sha256 sha256 size v s).models
        → (report gemma_sha256 sha256 size (run_thread gemma_sha256 sha256 size v s)).state
          ≡ "ready"
        → GetsReady content v (r, s)

  not_ready :
      (s : Setup)
      → ((report gemma_sha256 sha256 size s).state == "ready") ≡ false
      → ¬ ((is_gemma gemma_sha256 sha256 size s.models.model ≡ true) × (s.models.linked ≡ false))
  unfolding report
  not_ready s other good =
      let said =
        (eq_iff (report gemma_sha256 sha256 size s).state "ready").1
          ((status-ready s.active s.models).1 good) in
      cc

  active_case :
      (m : Models) (file : Option Bytes)
      → m.model ≡ file
      → ¬ ((is_gemma gemma_sha256 sha256 size m.model ≡ true) × (m.linked ≡ false))
      → (status gemma_sha256 sha256 size true m).state ≡ "downloading"
  unfolding status is_gemma payload status_missing status_state
  active_case m none e other = rw e refl
  active_case m (some b) e other = elim (Bool-cases m.linked) [
    | inl link ↦ rw (e, link) refl
    | inr plain ↦ elim (Bool-cases (sha256 b == gemma_sha256)) [
      | inl good ↦ absurd (other (rw e good, plain))
      | inr bad ↦ rw (e, plain, bad) refl
    ]
  ]

  module _ (content : Bytes) (v : Server) (some_size : 1 ≤ size)
      (hash : sha256 content ≡ gemma_sha256)
      (probed : probe_remote v.probe ≡ ok (length content, true))
      (serving : (i : ℕ) → IsServing size content (v.chunk i)) where
    launched-GetsReady :
        (m : Models)
        → ¬ ((is_gemma gemma_sha256 sha256 size m.model ≡ true) × (m.linked ≡ false))
        → AreUsable size content (chunk_count size (length content)) m.parts
        → GetsReady content v (
          report gemma_sha256 sha256 size
              (launch gemma_sha256 sha256 size (record { models = m; active = false })),
          launch gemma_sha256 sha256 size (record { models = m; active = false }),
        )
    unfolding report launch run_thread is_gemma
    launched-GetsReady m other usable =
        let s = launch gemma_sha256 sha256 size (record { models = m; active = false }) in
        let ends =
          download_worker-Ends gemma_sha256 sha256 size content v s.models some_size hash probed
            serving usable in
        gets_there _ s (active_case s.models s.models.model refl other) refl ends (
          (status-ready false (run_thread gemma_sha256 sha256 size v s).models).1
            (rw (ends.complete) ((eq_iff (sha256 content) gemma_sha256).1 hash), ends.plain))

    -- From a server with ranges that gives all of a range at its first request, and whose file has the expected
    -- hash: while no thread runs, a call of `start_download` says that the model is ready, or starts a thread
    -- that ends with the server's file as the model, which the status then says is ready. What is there of each
    -- chunk has to be a beginning of the chunk or longer than it.
    pub start_download-GetsReady :
        (s : Setup)
        → s.active ≡ false
        → AreUsable size content (chunk_count size (length content)) s.models.parts
        → GetsReady content v (start_download gemma_sha256 sha256 size s)
    unfolding start_download report
    start_download-GetsReady s idle usable =
        elim (Bool-cases ((report gemma_sha256 sha256 size s).state == "ready")) [
          | inl ready ↦
              let said = (eq_iff (report gemma_sha256 sha256 size s).state "ready").0 ready in
              let (good, plain) = (status-ready s.active s.models).0 said in
              rw ready (has_model _ s said idle good plain)
          | inr other ↦ rw (other, idle) (launched-GetsReady s.models (not_ready s other) usable)
        ]
