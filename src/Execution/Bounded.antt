-- ===== src/Execution/Bounded.antt =====
-- How often the provider is called, and which reply decides.
use simulation_ai.Prelude.{
  ℕ, zero, suc, ◌+◌, ◌≤◌, ◌<◌, true, ◌≡◌, refl, arith, inl, inr, Bool-cases, nat_eq,
}
use simulation_ai.Prelude.Lists.{length}
use simulation_ai.Execution.Attempts.{CallReply, Attempted, is_retried, judge, attempt, request}

-- The last request is the first whose reply is final, or the last that is allowed; its reply decides.
-- Requests are counted from `start`, and there are fewer than `limit`.
pub record IsLast (call : ℕ → CallReply) (start limit : ℕ) (a : Attempted) : Type 0 where
  pub last : ℕ
  pub counted : a.attempts ≡ suc last
  pub from_start : start ≤ last
  pub within : last < limit
  pub earlier : (k : ℕ) → start ≤ k → k < last → is_retried (call k) ≡ true
  pub final : is_retried (call last) ≡ true → suc last ≡ limit
  pub decides : a.answer ≡ judge (call last)
  pub waited : length a.waits + start ≡ last

module _ (call : ℕ → CallReply) where
  earlier_step :
      (k last n : ℕ)
      → is_retried (call n) ≡ true
      → ((i : ℕ) → suc n ≤ i → i < last → is_retried (call i) ≡ true)
      → n ≤ k
      → k < last
      → is_retried (call k) ≡ true
  earlier_step k last n here rest h l = elim (Bool-cases (nat_eq k n)) [
    | inl e ↦ let same : k ≡ n = ground arith in rw same here
    | inr e ↦ rest k (ground arith) l
  ]

  attempt-IsLast :
      (more n limit : ℕ) → limit ≡ suc (n + more) → IsLast call n limit (attempt call n more)
  unfolding attempt
  attempt-IsLast zero n limit e = record {
    last = n;
    counted = refl;
    from_start = omega arith;
    within = omega arith;
    earlier = λ k h l. absurd (omega arith);
    final = λ h. omega arith;
    decides = refl;
    waited = omega arith;
  }
  attempt-IsLast (suc more) n limit e = elim (Bool-cases (is_retried (call n))) [
    | inl retried ↦
        let rest = attempt-IsLast more (suc n) limit (omega arith) in
        rw retried (record {
          last = rest.last;
          counted = rest.counted;
          from_start = omega (arith, rest.from_start);
          within = rest.within;
          earlier = λ k h l. earlier_step k rest.last n retried rest.earlier h l;
          final = rest.final;
          decides = rest.decides;
          waited = omega (arith, rest.waited);
        })
    | inr last ↦ rw last (record {
      last = n;
      counted = refl;
      from_start = omega arith;
      within = omega arith;
      earlier = λ k h l. absurd (omega arith);
      final = λ h. cc;
      decides = refl;
      waited = omega arith;
    })
  ]

  -- With at least one attempt allowed, the requests are within the limit and each one before the last met
  -- a transient error. The last one is final or exhausts the limit, and its reply alone decides; there is
  -- one wait between two requests.
  pub request-IsLast : (more : ℕ) → IsLast call 0 (suc more) (request call (suc more))
  unfolding request
  request-IsLast more = attempt-IsLast more 0 (suc more) (omega arith)
