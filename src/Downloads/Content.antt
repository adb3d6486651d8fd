-- ===== src/Downloads/Content.antt =====
-- The download in chunks ends with the server's file, and the worker with a model of the right hash.
use simulation_ai.Prelude.{
  false, ℕ, zero, suc, ◌+◌, ◌*◌, ◌≤◌, ◌<◌, String, some, ◌≡◌, refl, sym, ap, ◌∙◌, arith, inl, inr,
}
use native.Mathlib.Nat.{mul-le-mul_right}
use simulation_ai.Prelude.Lists.{length, drop}
use simulation_ai.Result.{Result, ok, err}
use simulation_ai.Exec.{◌>>=◌, continue}
use simulation_ai.Downloads.Assembled.{IsHonest}
use simulation_ai.Downloads.Served.{IsServing}
use simulation_ai.Downloads.Pool.{
  AreUsable, Found, download_all-IsWhole, download_all-ok, pending-Found, pending-lt,
  complete-IsWhole, assemble-IsWhole,
}
use simulation_ai.Downloads.Chunks.{
  Bytes, Parts, Fetch, chunk_count, pending, download_all, assemble,
}
use simulation_ai.Downloads.{
  Models, Server, fetch_chunks, with_read, assemble_all, put_model, download_chunks,
}

chunk_count-covers : (size total : ℕ) → 1 ≤ size → total ≤ chunk_count size total * size
unfolding chunk_count
chunk_count-covers size total h = omega arith

chunk_count-inside : (size total i : ℕ) → 1 ≤ size → i < chunk_count size total → i * size < total
unfolding chunk_count
chunk_count-inside size total i h below =
    let more : suc i * size ≤ chunk_count size total * size = mul-le-mul_right size below in
    omega (arith, more)

module _ (size : ℕ) (content : Bytes) where
  all-Found :
      (parts : Parts)
      → 1 ≤ size
      → AreUsable size content (chunk_count size (length content)) parts
      → (i : ℕ) → i < chunk_count size (length content)
      → Found size content
          (pending size (length content) parts 0 (chunk_count size (length content)))
          parts
          i
  all-Found parts some_size usable i below =
      let count = chunk_count size (length content) in
      elim (pending-Found size content parts 0 count i (omega arith) (omega arith)) [
        | inl listed ↦ inl listed
        | inr complete ↦ inr (
            complete-IsWhole size content i (parts i)
              (chunk_count-inside size (length content) i some_size below) (usable.usable i below)
              complete)
      ]

  -- what the pool leaves, if no download failed, is assembled to the server's file
  assembled :
      (fetch : ℕ → ℕ → ℕ → ℕ → Fetch) (parts : Parts)
      → 1 ≤ size
      → ((i : ℕ) → IsHonest size content (fetch i))
      → AreUsable size content (chunk_count size (length content)) parts
      → (let count = chunk_count size (length content) in
          let all =
            download_all size
              (length content)
              fetch
              (pending size (length content) parts 0 count)
              parts in
          all.outcome ≡ ok tt → assemble size (length content) all.parts 0 count ≡ ok content)
  assembled fetch parts some_size honest usable h =
      let count = chunk_count size (length content) in
      let listed = pending size (length content) parts 0 count in
      let inside =
        λ (i : ℕ) (below : i < count). chunk_count-inside size (length content) i some_size below in
      let all = download_all size (length content) fetch listed parts in
      let whole =
        download_all-IsWhole size content count fetch listed parts some_size inside honest
          (λ i g. omega (arith, pending-lt size content parts 0 count i g)) usable h in
      let e : 0 + count ≡ count = omega arith in
      let zero_start : 0 * size ≡ 0 = omega arith in
      assemble-IsWhole size content all.parts 0 count (λ i below. inside i (rw (← e) below))
        (λ i below. whole i (rw (← e) below) (all-Found parts some_size usable i (rw (← e) below)))
        (rw e (chunk_count-covers size (length content) some_size))
      ∙ ap (λ n. ok (drop n content)) zero_start

module _ (gemma_sha256 : String) (sha256 : Bytes → String) (size : ℕ) (content : Bytes) where
  with_read-parts :
      (total n : ℕ) (m : Models) → (with_read gemma_sha256 sha256 size total n m).parts ≡ m.parts
  unfolding with_read
  with_read-parts total zero m = refl
  with_read-parts total (suc n) m = refl

  then_assemble :
      (p : Result (Unit {0}) × Models)
      → (p.0 ≡ ok tt
          → assemble size (length content) p.1.parts 0 (chunk_count size (length content))
            ≡ ok content)
      → (continue (λ u. assemble_all gemma_sha256 sha256 size (length content)) p).0 ≡ p.0
        × (p.0 ≡ ok tt
            → (continue (λ u. assemble_all gemma_sha256 sha256 size (length content)) p).1.model
              ≡ some content)
  unfolding assemble_all put_model
  then_assemble (err e, m) made = (refl, λ h. cc)
  then_assemble (ok u, m) made = rw (made refl) (refl, λ h. refl)

  put_model-linked :
      (r : Result Bytes) (m : Models) → (put_model r m).0 ≡ ok tt → (put_model r m).1.linked ≡ false
  unfolding put_model
  put_model-linked (ok b) m h = refl
  put_model-linked (err e) m h = cc

  assembled-linked :
      (total : ℕ) (p : Result (Unit {0}) × Models)
      → (continue (λ u. assemble_all gemma_sha256 sha256 size total) p).0 ≡ ok tt
      → (continue (λ u. assemble_all gemma_sha256 sha256 size total) p).1.linked ≡ false
  unfolding assemble_all
  assembled-linked total (err e, m) h = cc
  assembled-linked total (ok u, m) h = put_model-linked _ m h

  pub download_chunks-linked :
      (s : Server) (total : ℕ) (m : Models)
      → (download_chunks gemma_sha256 sha256 size s total m).0 ≡ ok tt
      → (download_chunks gemma_sha256 sha256 size s total m).1.linked ≡ false
  unfolding download_chunks ◌>>=◌
  download_chunks-linked s total m =
      assembled-linked total (fetch_chunks gemma_sha256 sha256 size s total m)

  -- the outcome is that of the pool, and a success leaves the server's file
  pub chunks_made :
      (s : Server) (m : Models)
      → 1 ≤ size
      → ((i : ℕ) → IsHonest size content (s.chunk i))
      → AreUsable size content (chunk_count size (length content)) m.parts
      → ((download_chunks gemma_sha256 sha256 size s (length content) m).0
          ≡ (fetch_chunks gemma_sha256 sha256 size s (length content) m).0)
        × ((fetch_chunks gemma_sha256 sha256 size s (length content) m).0 ≡ ok tt
            → (download_chunks gemma_sha256 sha256 size s (length content) m).1.model
              ≡ some content)
  unfolding download_chunks ◌>>=◌ fetch_chunks
  chunks_made s m some_size honest usable =
      then_assemble (fetch_chunks gemma_sha256 sha256 size s (length content) m) (λ h.
        rw (with_read-parts (length content) _ _)
          (assembled size content s.chunk m.parts some_size honest usable h))

  -- A download in chunks that succeeds leaves exactly the server's file as the model, if what the server sends
  -- at first for a range is a beginning of that range, and what is there of each chunk is a beginning of the
  -- chunk or longer than it.
  pub download_chunks-content :
      (s : Server) (m : Models)
      → 1 ≤ size
      → ((i : ℕ) → IsHonest size content (s.chunk i))
      → AreUsable size content (chunk_count size (length content)) m.parts
      → (download_chunks gemma_sha256 sha256 size s (length content) m).0 ≡ ok tt
      → (download_chunks gemma_sha256 sha256 size s (length content) m).1.model ≡ some content
  download_chunks-content s m some_size honest usable h =
      let (same, made) = chunks_made s m some_size honest usable in made (sym same ∙ h)

  pub fetch_chunks-ok :
      (s : Server) (m : Models)
      → 1 ≤ size
      → ((i : ℕ) → IsServing size content (s.chunk i))
      → (fetch_chunks gemma_sha256 sha256 size s (length content) m).0 ≡ ok tt
  unfolding fetch_chunks
  fetch_chunks-ok s m some_size serving =
      let count = chunk_count size (length content) in
      download_all-ok size content count s.chunk (pending size (length content) m.parts 0 count)
        m.parts some_size (λ i below. chunk_count-inside size (length content) i some_size below)
        serving (λ i g. omega (arith, pending-lt size content m.parts 0 count i g))
