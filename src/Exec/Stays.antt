-- ===== src/Exec/Stays.antt =====
-- Actions that stay inside a predicate, whether they raise or not. One rule for each way to build an
-- action; what was read or computed on the way is forgotten.
use simulation_ai.Prelude.{Bool, if◌then◌else◌, ◌≡◌}
use simulation_ai.Result.{Result, ok}
use simulation_ai.Exec.{Exec, pure, lift, gets, reads, modify, writes, ◌>>=◌}
use simulation_ai.Exec.Triple.{
  Triple, Triple-pure, Triple-if, Triple-modify, Triple-writes, Triple-bind, Triple-read,
  Post-always,
}

module _ {S : Type 0} (I : S → Type 0) where
  abbrev pub Stays : {A : Type 0} → Exec S A → Type 0
  Stays m = Triple I m (λ _. I) I

  pub Stays-always : {A : Type 0} (m : Exec S A) → Stays m → (s : S) → I s → I (m s).1
  Stays-always m h s i = Post-always I (m s) (h.at s i)

  pub Stays-pure : {A : Type 0} (a : A) → Stays (pure a)
  Stays-pure a = Triple-pure a λ s i. i

  pub Stays-bind :
      {A B : Type 0} {m : Exec S A} {f : A → Exec S B}
      → Stays m
      → ((a : A) → Stays (f a))
      → Stays (m >>= f)
  Stays-bind {m = m} {f = f} h k = Triple-bind (λ _. I) m f h k

  pub Stays-reads : {A : Type 0} (g : S → Result A) → Stays (reads g)
  Stays-reads g = Triple-read g λ s i. i

  pub Stays-lift : {A : Type 0} (r : Result A) → Stays (lift r)
  Stays-lift r = Triple-read (λ _. r) λ s i. i

  pub Stays-gets : {A : Type 0} (g : S → A) → Stays (gets g)
  Stays-gets g = Triple-read (λ s. ok (g s)) λ s i. i

  pub Stays-modify : (f : S → S) → ((s : S) → I s → I (f s)) → Stays (modify f)
  Stays-modify f h = Triple-modify f h

  pub Stays-writes : (f : S → Result S) → ((s t : S) → I s → f s ≡ ok t → I t) → Stays (writes f)
  Stays-writes f h = Triple-writes f h λ s i. i

  pub Stays-if :
      {A : Type 0} (b : Bool) {m n : Exec S A} → Stays m → Stays n → Stays (if b then m else n)
  Stays-if b {m = m} {n = n} h k = Triple-if b m n (λ _. h) (λ _. k)
