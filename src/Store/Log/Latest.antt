-- ===== src/Store/Log/Latest.antt =====
-- What `list_events` returns under a limit and for a branch.
use simulation_ai.Prelude.{
  ℕ, zero, suc, ◌-◌, ◌≡◌, refl, arith, String, Option, none, some, List, [], ◌∷◌, ◌++◌, ◌==◌,
  eq_iff, min, Bool-cases, inl, inr,
}
use simulation_ai.Prelude.Int.{ℤ, pos, negsuc}
use simulation_ai.Prelude.Lists.{length, last_slice, All, take, take-append-drop, length-drop}
use simulation_ai.Model.Event.{EventEnvelope}
use simulation_ai.Result.{ok, err, value_error}
use simulation_ai.Store.Lines.{reads_back}
use simulation_ai.Prelude.Lists.{all}
use simulation_ai.Prelude.{◌⊎◌, true, false}
use simulation_ai.Store.Records.{Store}
use simulation_ai.Store.Log.{list_events, of_branch, on_branch, latest}

-- how many of `n` events a limit lets through: `events[-0:]` is the whole list
abbrev pub allowed : ℤ → ℕ → ℕ
allowed (pos (suc limit)) n = min (suc limit) n
allowed _ n = n

-- The newest events of a branch, or of all: what is left out stands before them.
pub record IsLatest (branch : Option String) (limit : ℤ) (w : Store) (events : List EventEnvelope)
    : Type 0 where
  pub earlier : List EventEnvelope
  pub whole : list_events branch none w ≡ ok (earlier ++ events)
  pub count : length events ≡ allowed limit (length (earlier ++ events))
  pub on_it : (b : String) → branch ≡ some b → All (λ e. e.branch ≡ b) events

length-last_slice :
    {A : Type 0} (n : ℕ) (xs : List A) → length (last_slice (suc n) xs) ≡ min (suc n) (length xs)
length-last_slice n xs = omega (arith, length-drop {0} (length xs - suc n) xs)

on_branch-All : (b : String) (es : List EventEnvelope) → All (λ e. e.branch ≡ b) (on_branch b es)
unfolding on_branch
on_branch-All b [] = tt
on_branch-All b (e ∷ es) = elim (Bool-cases (e.branch == b)) [
  | inl same ↦ rw same ((eq_iff e.branch b).0 same, on_branch-All b es)
  | inr other ↦ rw other (on_branch-All b es)
]

of_branch-All :
    (branch : Option String) (es : List EventEnvelope) (b : String)
    → branch ≡ some b
    → All (λ e. e.branch ≡ b) (of_branch branch es)
unfolding of_branch
of_branch-All none es b h = cc
of_branch-All (some a) es b h = let same : a ≡ b = cc in rw (← same) (on_branch-All a es)

All-suffix : {A : Type 0} (P : A → Type 0) (xs ys : List A) → All P (xs ++ ys) → All P ys
All-suffix P [] ys h = h
All-suffix P (x ∷ xs) ys h = All-suffix P xs ys h.1

latest-IsLatest :
    (branch : Option String) (limit : ℤ) (w : Store)
    → all reads_back w.events ≡ true
    → IsLatest branch limit w (latest (some limit) (of_branch branch w.events))
unfolding list_events latest
latest-IsLatest branch (pos zero) w h = record {
  earlier = [];
  whole = rw h refl;
  count = refl;
  on_it = of_branch-All branch w.events;
}
latest-IsLatest branch (negsuc n) w h = record {
  earlier = [];
  whole = rw h refl;
  count = refl;
  on_it = of_branch-All branch w.events;
}
latest-IsLatest branch (pos (suc n)) w h =
    let es = of_branch branch w.events in
    let k = length es - suc n in
    record {
      earlier = take k es;
      whole = rw (h, take-append-drop k es) refl;
      count = rw (take-append-drop k es) (length-last_slice n es);
      on_it = λ b is.
          All-suffix _ (take k es) _
            (rw (take-append-drop k es) (of_branch-All branch w.events b is));
    }

-- `list_events` with a limit raises exactly if some event of the log cannot be read back. Else it returns the
-- newest events: those it leaves out stand before them in the list without a limit. It returns as many as a
-- positive limit allows, and all of them for a limit of zero or less. With a branch, each event is of that
-- branch.
pub list_events-IsLatest :
    (branch : Option String) (limit : ℤ) (w : Store)
    → ((all reads_back w.events ≡ false) × (list_events branch (some limit) w ≡ err value_error))
      ⊎ ((all reads_back w.events ≡ true)
          × (events : List EventEnvelope) × (list_events branch (some limit) w ≡ ok events)
          × IsLatest branch limit w events)
unfolding list_events
list_events-IsLatest branch limit w = elim (Bool-cases (all reads_back w.events)) [
  | inl good ↦ inr (good, _, rw good refl, latest-IsLatest branch limit w good)
  | inr bad ↦ inl (bad, rw bad refl)
]
