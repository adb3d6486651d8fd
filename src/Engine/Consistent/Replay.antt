-- ===== src/Engine/Consistent/Replay.antt =====
-- `verify_replay` against the invariant.
use simulation_ai.Prelude.{none}
use simulation_ai.Store.Log.{list_events, list_events-all}
use simulation_ai.Prelude.{
  ℕ, suc, arith, String, Bool, true, false, not, ◌&&◌, ◌≡◌, ◌∙◌, sym, refl, List, [], ◌∷◌, ◌++◌,
  ◌==◌, nat_eq, eq_iff, inl, inr, Bool-cases, ◌↔◌,
}
use simulation_ai.Prelude.Texts.{strip, is_space, startswith}
use simulation_ai.Prelude.Lists.{length}
use simulation_ai.Json.{Fields}
use simulation_ai.Json.Sort.{str_lt}
use simulation_ai.Result.{ok, ◌>>=◌}
use simulation_ai.Runtime.{Runtime}
use simulation_ai.Model.{one_of}
use simulation_ai.Model.State.{SurfaceState, seal}
use simulation_ai.Model.State.RoundTrip.{
  reload, reload-state_hash, from_dict-sort_fields, hash-reload,
}
use simulation_ai.Model.Event.{EventEnvelope, hash_of}
use simulation_ai.Store.{Store, Dir, exists}
use simulation_ai.Store.States.{state_exists, read_ref, list_refs, insert_ref}
use simulation_ai.Engine.Replay.{
  Problem, report_if, event_problems, log_problems, state_problems, ref_problems, verify_replay,
}
use simulation_ai.Engine.Consistent.{IsSealed, IsLog, AreFiles, AreRefs, IsConsistent}

report_if-nil : (b : Bool) (p : Problem) → report_if b p ≡ [] → b ≡ false
unfolding report_if
report_if-nil true p h = cc
report_if-nil false p h = refl

report_if-false : (b : Bool) (p : Problem) → b ≡ true → report_if (not b) p ≡ []
unfolding report_if
report_if-false b p h = rw h refl

append-nil : {A : Type 0} (xs ys : List A) → xs ++ ys ≡ [] → (xs ≡ []) × (ys ≡ [])
append-nil [] ys h = (refl, h)
append-nil (x ∷ xs) ys h = cc

not-false : (b : Bool) → not b ≡ false → b ≡ true
not-false b h = ground arith

nat_eq-true : (a b : ℕ) → nat_eq a b ≡ true → a ≡ b
nat_eq-true a b h = ground arith

nat_eq_refl : (a b : ℕ) → a ≡ b → nat_eq a b ≡ true
nat_eq_refl a b h = ground arith

text-eq : (a b : String) → (a == b) ≡ true → a ≡ b
text-eq a b h = ground (arith, eq_iff a b)

text_refl : (a b : String) → a ≡ b → (a == b) ≡ true
text_refl a b h = ground (arith, eq_iff a b)

module _ (rt : Runtime) (w : Store) where
  event_problems-nil :
      (n : ℕ) (seen : List String) (e : EventEnvelope)
      → e.index ≡ n
      → one_of e.event_id seen ≡ false
      → hash_of rt e ≡ e.event_hash
      → exists e.parent_state_hash w.states ≡ true
      → exists e.resulting_state_hash w.states ≡ true
      → event_problems rt w n seen e ≡ []
  unfolding event_problems state_exists report_if
  event_problems-nil n seen e i fresh sealed parent result =
      rw
        (
          nat_eq_refl e.index n i,
          fresh,
          text_refl (hash_of rt e) e.event_hash sealed,
          parent,
          result,
        )
        refl

  log_problems-nil :
      (n : ℕ) (seen : List String) (es : List EventEnvelope)
      → IsLog rt w.states n seen es
      → log_problems rt w n seen es ≡ []
  unfolding log_problems
  log_problems-nil n seen [] h = refl
  log_problems-nil n seen (e ∷ es) (i, fresh, sealed, parent, result, rest) =
      rw (event_problems-nil n seen e i fresh sealed parent result)
        (log_problems-nil (suc n) (e.event_id ∷ seen) es rest)

  log_problems-IsLog :
      (n : ℕ) (seen : List String) (es : List EventEnvelope)
      → log_problems rt w n seen es ≡ []
      → IsLog rt w.states n seen es
  unfolding log_problems event_problems state_exists
  log_problems-IsLog n seen [] h = tt
  log_problems-IsLog n seen (e ∷ es) h =
      let (now, later) = append-nil (event_problems rt w n seen e) _ h in
      let (p₁, now₁) = append-nil (report_if (not (nat_eq e.index n)) _) _ now in
      let (p₂, now₂) = append-nil (report_if (one_of e.event_id seen) _) _ now₁ in
      let (p₃, now₃) = append-nil (report_if (not (hash_of rt e == e.event_hash)) _) _ now₂ in
      let (p₄, p₅) = append-nil (report_if (not (exists e.parent_state_hash w.states)) _) _ now₃ in
      (
        nat_eq-true e.index n (not-false _ (report_if-nil _ _ p₁)),
        report_if-nil _ _ p₂,
        text-eq (hash_of rt e) e.event_hash (not-false _ (report_if-nil _ _ p₃)),
        not-false _ (report_if-nil _ _ p₄),
        not-false _ (report_if-nil _ _ p₅),
        log_problems-IsLog (suc n) (e.event_id ∷ seen) es later,
      )

  -- The check of the log reports nothing exactly when the events are numbered from 1 on, no ID
  -- comes twice, every event has the digest of its content, and the states that it names are stored.
  pub log_problems_complete :
      (log_problems rt w 1 [] w.events ≡ []) ↔ IsLog rt w.states 1 [] w.events
  log_problems_complete = (log_problems-IsLog 1 [] w.events, log_problems-nil 1 [] w.events)

reload-IsSealed : (rt : Runtime) (s : SurfaceState) → IsSealed rt s → IsSealed rt (reload s)
reload-IsSealed rt s is = hash-reload rt s ∙ is ∙ sym (reload-state_hash s)

state_problems-nil :
    (rt : Runtime) (states : Dir Fields) → AreFiles rt states → state_problems rt states ≡ ok []
unfolding state_problems report_if
state_problems-nil rt [] h = refl
state_problems-nil rt ((stem, d) ∷ states) (f, fs) =
    rw
      (
        f.written,
        from_dict-sort_fields f.state,
        state_problems-nil rt states fs,
        text_refl (reload f.state).state_hash (seal rt (reload f.state)).state_hash
            (sym (reload-IsSealed rt f.state f.sealed)),
        ◌>>=◌,
      )
      refl

-- A list of refs all of whose hashes are stored.
abbrev AreStored : Dir Fields → List (String × String) → Type 0
AreStored states [] = Unit
AreStored states ((n, h) ∷ l) = (exists h states ≡ true) × AreStored states l

insert_ref-AreStored :
    (states : Dir Fields) (name h : String) (l : List (String × String))
    → exists h states ≡ true
    → AreStored states l
    → AreStored states (insert_ref name h l)
unfolding insert_ref
insert_ref-AreStored states name h [] there hs = (there, tt)
insert_ref-AreStored states name h ((n, g) ∷ l) there (g_there, hs) =
    elim (Bool-cases (str_lt n name)) [
      | inl before ↦ rw before (g_there, insert_ref-AreStored states name h l there hs)
      | inr after ↦ rw after (there, (g_there, hs))
    ]

list_refs-AreStored :
    (states : Dir Fields) (prefix : String) (refs : Dir String)
    → AreRefs states refs
    → AreStored states (list_refs prefix refs)
unfolding list_refs
list_refs-AreStored states prefix [] h = tt
list_refs-AreStored states prefix ((name, text) ∷ refs) (there, hs) =
    let rest = list_refs-AreStored states prefix refs hs in
    elim (Bool-cases (not (startswith name ".") && startswith name prefix)) [
      | inl listed ↦ rw listed (
          insert_ref-AreStored states name (strip is_space text) (list_refs prefix refs) there rest)
      | inr hidden ↦ rw hidden rest
    ]

ref_problems-nil :
    (w : Store) (l : List (String × String)) → AreStored w.states l → ref_problems w l ≡ []
unfolding ref_problems state_exists report_if
ref_problems-nil w [] h = refl
ref_problems-nil w ((ref, state_hash) ∷ l) (there, hs) = rw (there, ref_problems-nil w l hs) refl

-- The check of a consistent store whose HEAD and log can be read finds no problem.
pub verify_replay-IsConsistent :
    (rt : Runtime) (w : Store) (head : String) (events : List EventEnvelope)
    → IsConsistent rt w
    → read_ref "HEAD" w ≡ ok head
    → list_events none none w ≡ ok events
    → verify_replay rt w
      ≡ ok (record {
        event_count = length w.events;
        state_count = length w.states;
        head = head;
        problems = [];
      })
unfolding verify_replay
verify_replay-IsConsistent rt w head events c h l =
    rw
      (
        l,
        sym (list_events-all w events l),
        state_problems-nil rt w.states c.files,
        h,
        log_problems-nil rt w 1 [] w.events c.log,
        ref_problems-nil w (list_refs "" w.refs) (list_refs-AreStored w.states "" w.refs c.heads),
        ◌>>=◌,
      )
      refl
