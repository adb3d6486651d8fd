-- ===== src/Result/Loops.antt =====
-- Loops whose body may raise.
use mathlib.Core.Path.{subst}
use simulation_ai.Prelude.{List, [], ◌∷◌, ◌≡◌, refl}
use simulation_ai.Prelude.Lists.{All}
use simulation_ai.Result.{Result, ok, ◌>>=◌, ◌>>◌, >>=-eq-ok}

module _ {ℓ} {A : Type ℓ} where
  -- `for x in xs: check(x)`
  unfoldable pub each : (A → Result (Unit {0})) → List A → Result (Unit {0})
  each check [] = ok tt
  each check (x ∷ xs) = check x >> each check xs

  -- The loop ends without a raise exactly when every check does.
  pub each-All :
      (check : A → Result (Unit {0})) (xs : List A)
      → each check xs ≡ ok tt
      → All (λ x. check x ≡ ok tt) xs
  unfolding each
  each-All check [] h = tt
  each-All check (x ∷ xs) h =
      let (u, e, rest) = >>=-eq-ok (check x) (λ _. each check xs) h in (e, each-All check xs rest)

  pub All-each :
      (check : A → Result (Unit {0})) (xs : List A)
      → All (λ x. check x ≡ ok tt) xs
      → each check xs ≡ ok tt
  unfolding each
  All-each check [] h = refl
  All-each check (x ∷ xs) (e, rest) = rw (e, ◌>>=◌) (All-each check xs rest)

module _ {ℓ κ} {A : Type ℓ} {S : Type κ} where
  -- `for x in xs: s = step(s, x)`
  unfoldable pub fold : (S → A → Result S) → S → List A → Result S
  fold step s [] = ok s
  fold step s (x ∷ xs) = step s x >>= λ s'. fold step s' xs

  -- An invariant of every step that does not raise is one of the loop.
  pub fold_inv {μ} :
      (P : S → Type μ) (Q : A → Type μ) (step : S → A → Result S)
      → ((s t : S) (x : A) → Q x → P s → step s x ≡ ok t → P t)
      → (xs : List A) (s t : S) → All Q xs
      → P s
      → fold step s xs ≡ ok t
      → P t
  unfolding fold
  fold_inv P Q step keep [] s t q h e = let same : s ≡ t = cc in subst P same h
  fold_inv P Q step keep (x ∷ xs) s t q h e =
      let (s', e', rest) = >>=-eq-ok (step s x) (λ s'. fold step s' xs) e in
      fold_inv P Q step keep xs s' t q.1 (keep s s' x q.0 h e') rest
