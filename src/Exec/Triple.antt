-- ===== src/Exec/Triple.antt =====
-- Pre- and postconditions of actions. An action that starts in `P` ends in `Q a` with its result
-- `a`, or in `E` when it raises. One rule for each way to build an action.
use simulation_ai.Prelude.{◌≡◌, refl, Bool, true, false, if◌then◌else◌}
use simulation_ai.Result.{Result, ok, err}
use simulation_ai.Exec.{Exec, pure, lift, gets, reads, modify, writes, continue, ◌>>=◌}

module _ {S : Type 0} {A : Type 0} where
  abbrev pub Post : (A → S → Type 0) → (S → Type 0) → Result A × S → Type 0
  Post Q E (ok a, s) = Q a s
  Post Q E (err e, s) = E s

  pub record Triple (P : S → Type 0) (m : Exec S A) (Q : A → S → Type 0) (E : S → Type 0)
      : Type 0 where
    pub at : (s : S) → P s → Post Q E (m s)

module _ {S : Type 0} {A : Type 0} {P : S → Type 0} {Q : A → S → Type 0} {E : S → Type 0} where
  pub Triple-pure : (a : A) → ((s : S) → P s → Q a s) → Triple P (pure a) Q E
  Triple-pure a h = record { at = h }

  pub Triple-if :
      (b : Bool) (m n : Exec S A)
      → (b ≡ true → Triple P m Q E)
      → (b ≡ false → Triple P n Q E)
      → Triple P (if b then m else n) Q E
  Triple-if true m n t f = t refl
  Triple-if false m n t f = f refl

module _ {S : Type 0} where
  writes-Post :
      (Q E : S → Type 0) (f : S → Result S) (r : Result S) (s : S)
      → ((t : S) → r ≡ ok t → Q t)
      → E s
      → f s ≡ r
      → Post {A = Unit {0}} (λ _. Q) E (writes f s)
  unfolding writes
  writes-Post Q E f (ok t) s h e q = rw q (h t refl)
  writes-Post Q E f (err x) s h e q = rw q e

module _ {S : Type 0} {P : S → Type 0} {Q E : S → Type 0} where
  pub Triple-modify : (f : S → S) → ((s : S) → P s → Q (f s)) → Triple P (modify f) (λ _. Q) E
  Triple-modify f h = record { at = h }

  pub Triple-writes :
      (f : S → Result S)
      → ((s t : S) → P s → f s ≡ ok t → Q t)
      → ((s : S) → P s → E s)
      → Triple P (writes f) (λ _. Q) E
  Triple-writes f h e = record {
    at = λ s p. writes-Post Q E f (f s) s (λ t q. h s t p q) (e s p) refl;
  }

module _ {S : Type 0} {A B : Type 0} where
  continue-Post :
      (Q : A → S → Type 0) (R : B → S → Type 0) (E : S → Type 0) (f : A → Exec S B)
      (x : Result A × S)
      → Post Q E x
      → ((a : A) → Triple (Q a) (f a) R E)
      → Post R E (continue f x)
  continue-Post Q R E f (ok a, s) h k = (k a).at s h
  continue-Post Q R E f (err e, s) h k = h

module _ {S : Type 0} {A B : Type 0} {P : S → Type 0} {R : B → S → Type 0} {E : S → Type 0} where
  -- The rest of a block starts where its first action ends.
  pub Triple-bind :
      (Q : A → S → Type 0) (m : Exec S A) (f : A → Exec S B)
      → Triple P m Q E
      → ((a : A) → Triple (Q a) (f a) R E)
      → Triple P (m >>= f) R E
  unfolding ◌>>=◌
  Triple-bind Q m f t k = record { at = λ s p. continue-Post Q R E f (m s) (t.at s p) k }

  lift-Post :
      (r : Result A) (f : A → Exec S B) (s : S)
      → ((a : A) → r ≡ ok a → Triple P (f a) R E)
      → (P s → E s)
      → P s
      → Post R E (continue f (r, s))
  lift-Post (ok a) f s k e p = (k a refl).at s p
  lift-Post (err x) f s k e p = e p

  -- The rest of a block may use that a pure step did not raise.
  pub Triple-lift :
      (r : Result A) (f : A → Exec S B)
      → ((s : S) → P s → E s)
      → ((a : A) → r ≡ ok a → Triple P (f a) R E)
      → Triple P (lift r >>= f) R E
  unfolding ◌>>=◌
  Triple-lift r f e k = record { at = λ s p. lift-Post r f s k (e s) p }

  -- The rest of a block may use what was read.
  pub Triple-gets :
      (g : S → A) (f : A → Exec S B)
      → ((a : A) → Triple (λ s. P s × (g s ≡ a)) (f a) R E)
      → Triple P (gets g >>= f) R E
  unfolding ◌>>=◌
  Triple-gets g f k = record { at = λ s p. (k (g s)).at s (p, refl) }

  reads-Post :
      (g : S → Result A) (r : Result A) (f : A → Exec S B) (s : S)
      → ((a : A) → Triple (λ s. P s × (g s ≡ ok a)) (f a) R E)
      → (P s → E s)
      → P s
      → g s ≡ r
      → Post R E (continue f (r, s))
  reads-Post g (ok a) f s k e p q = (k a).at s (p, q)
  reads-Post g (err x) f s k e p q = e p

  pub Triple-reads :
      (g : S → Result A) (f : A → Exec S B)
      → ((s : S) → P s → E s)
      → ((a : A) → Triple (λ s. P s × (g s ≡ ok a)) (f a) R E)
      → Triple P (reads g >>= f) R E
  unfolding ◌>>=◌
  Triple-reads g f e k = record { at = λ s p. reads-Post g (g s) f s k (e s) p refl }

-- What holds whether an action raises or not.
pub Post-always : {S A : Type 0} (I : S → Type 0) (x : Result A × S) → Post (λ _. I) I x → I x.1
Post-always I (ok a, s) h = h
Post-always I (err e, s) h = h

same-Post : {S A : Type 0} (E : S → Type 0) (r : Result A) (s : S) → E s → Post (λ _. E) E (r, s)
same-Post E (ok a) s h = h
same-Post E (err e) s h = h

-- A last read.
pub Triple-read :
    {S A : Type 0} {P E : S → Type 0} (g : S → Result A)
    → ((s : S) → P s → E s)
    → Triple P (reads g) (λ _. E) E
Triple-read {E = E} g h = record { at = λ s p. same-Post E (g s) s (h s p) }
