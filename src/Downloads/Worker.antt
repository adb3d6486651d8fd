-- ===== src/Downloads/Worker.antt =====
-- What the worker of a download ends in.
use simulation_ai.Prelude.{
  ℕ, ◌≤◌, String, Bool, true, false, Option, none, some, ◌≡◌, refl, ap, ◌∙◌, inl, inr, ◌==◌, eq_iff,
  Bool-cases,
}
use simulation_ai.Prelude.Lists.{length}
use simulation_ai.Result.{Result, ok, err}
use simulation_ai.Exec.{◌>>=◌, continue}
use simulation_ai.Downloads.Served.{IsServing, IsServing-IsHonest}
use simulation_ai.Downloads.Pool.{AreUsable}
use simulation_ai.Downloads.Content.{download_chunks-linked, chunks_made, fetch_chunks-ok}
use simulation_ai.Downloads.Chunks.{Bytes, chunk_count}
use simulation_ai.Downloads.{
  Models, Server, download_chunks, fetch_file, is_gemma, drop_other, finish, checked_model,
  fetch_model, on_error, download_worker, probe_remote,
}

is_ready : Option String → Bool
is_ready none = false
is_ready (some state) = state == "ready"

error-ready : ¬ ◌≡◌ {A = Option String} (some "error") (some "ready")
unfolding is_ready
error-ready h = let e : false ≡ true = ap is_ready h in cc

module _ (gemma_sha256 : String) (sha256 : Bytes → String) (size : ℕ) where
  -- what is made of the file that a download leaves
  abbrev Checked : ℕ → Result (Unit {0}) × Models → Models
  Checked total p = on_error (continue (λ u. checked_model gemma_sha256 sha256 size total) p)

  checked_verified :
      (total : ℕ) (p : Result (Unit {0}) × Models)
      → (Checked total p).progress.state ≡ some "ready"
      → is_gemma gemma_sha256 sha256 size (Checked total p).model ≡ true
  unfolding checked_model on_error ◌>>=◌ finish
  checked_verified total (err e, m) = λ h. absurd (error-ready h)
  checked_verified total (ok u, m) = elim (Bool-cases (is_gemma gemma_sha256 sha256 size m.model)) [
    | inl good ↦ rw good (λ h. good)
    | inr bad ↦ rw bad (λ h. absurd (error-ready h))
  ]

  worker_case :
      (s : Server) (m : Models) (r : Result (ℕ × Bool))
      → probe_remote s.probe ≡ r
      → (download_worker gemma_sha256 sha256 size s m).progress.state ≡ some "ready"
      → is_gemma gemma_sha256 sha256 size (download_worker gemma_sha256 sha256 size s m).model
        ≡ true
  unfolding download_worker fetch_model ◌>>=◌ on_error
  worker_case s m (err e) q = rw q (λ h. absurd (error-ready h))
  worker_case s m (ok (total, ranges)) q = rw q (
      checked_verified total (
        fetch_file gemma_sha256 sha256 size s (total, ranges)
          (drop_other gemma_sha256 sha256 size m)))

  -- Whatever the network replies, the worker ends as ready only with a model that has the expected hash.
  pub download_worker-verified :
      (s : Server) (m : Models)
      → (download_worker gemma_sha256 sha256 size s m).progress.state ≡ some "ready"
      → is_gemma gemma_sha256 sha256 size (download_worker gemma_sha256 sha256 size s m).model
        ≡ true
  download_worker-verified s m = worker_case s m (probe_remote s.probe) refl

  -- what a download should end in: the model's path is a file of its own
  pub record Ends (content : Bytes) (m : Models) : Type 0 where
    pub ready : m.progress.state ≡ some "ready"
    pub complete : m.model ≡ some content
    pub plain : m.linked ≡ false

  checked-Ends :
      (content : Bytes) (p : Result (Unit {0}) × Models)
      → sha256 content ≡ gemma_sha256
      → p.0 ≡ ok tt
      → p.1.model ≡ some content
      → p.1.linked ≡ false
      → Ends content (Checked (length content) p)
  unfolding checked_model on_error ◌>>=◌ finish is_gemma
  checked-Ends content (err e, m) hash h made plain = cc
  checked-Ends content (ok u, m) hash h made plain =
      rw (made, (eq_iff (sha256 content) gemma_sha256).1 hash)
        (record { ready = refl; complete = refl; plain = plain })

  -- From a server with ranges that gives all of a range at its first request, and whose file has the expected
  -- hash, the worker resumes and ends as ready, with the server's file as the model; what is there of each
  -- chunk has to be a beginning of the chunk or longer than it.
  pub download_worker-Ends :
      (content : Bytes) (s : Server) (m : Models)
      → 1 ≤ size
      → sha256 content ≡ gemma_sha256
      → probe_remote s.probe ≡ ok (length content, true)
      → ((i : ℕ) → IsServing size content (s.chunk i))
      → AreUsable size content (chunk_count size (length content)) m.parts
      → Ends content (download_worker gemma_sha256 sha256 size s m)
  unfolding download_worker fetch_model ◌>>=◌ fetch_file drop_other
  download_worker-Ends content s m some_size hash probed serving usable =
      let m' = drop_other gemma_sha256 sha256 size m in
      let (same, made) =
        chunks_made gemma_sha256 sha256 size content s m' some_size
          (λ i. IsServing-IsHonest size content (s.chunk i) (serving i)) usable in
      let fetched = fetch_chunks-ok gemma_sha256 sha256 size content s m' some_size serving in
      rw probed (
        checked-Ends content (download_chunks gemma_sha256 sha256 size s (length content) m') hash
          (same ∙ fetched) (made fetched)
          (download_chunks-linked gemma_sha256 sha256 size content s (length content) m'
            (same ∙ fetched)))
