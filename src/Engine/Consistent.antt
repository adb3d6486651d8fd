-- ===== src/Engine/Consistent.antt =====
-- The invariant of the store: state files are content-addressed, refs name states that are there,
-- and the log is numbered, without repeated IDs, sealed, and about states that are there. It says
-- nothing of whether `list_events` can read the log's events back.
pub mod Files
pub mod States
pub mod Log
pub mod Refs
pub mod Planning
pub mod Commit
pub mod Holds
pub mod Branches
pub mod Verdicts
pub mod Verify
pub mod Replay
use simulation_ai.Prelude.{ℕ, suc, String, Bool, true, false, ◌≡◌, Option, some, List, [], ◌∷◌}
use simulation_ai.Prelude.Texts.{strip, str_len, is_space, is_empty}
use Prim.Native.Char.{Char, code}
use Prim.Native.String
use simulation_ai.Prelude.{leb, ◌&&◌, ◌||◌}
use simulation_ai.Json.{Value, Fields}
use simulation_ai.Json.Sort.{sort_fields}
use simulation_ai.Runtime.{Runtime}
use simulation_ai.Model.{one_of}
use simulation_ai.Model.State.{SurfaceState, as_dict, seal}
use simulation_ai.Model.Event.{EventEnvelope, hash_of}
use simulation_ai.Store.{Store, Dir, find, exists}

-- The state's hash is the digest of its payload.
abbrev pub IsSealed : Runtime → SurfaceState → Type 0
IsSealed rt s = (seal rt s).state_hash ≡ s.state_hash

-- A file under the name `h` that holds a sealed state of that hash.
pub record IsStateFile (rt : Runtime) (h : String) (d : Fields) : Type 0 where
  pub state : SurfaceState
  pub written : d ≡ sort_fields (as_dict state)
  pub named : state.state_hash ≡ h
  pub sealed : IsSealed rt state

-- The events number on from `n`, and have no ID of `seen`.
abbrev pub IsLog : Runtime → Dir Fields → ℕ → List String → List EventEnvelope → Type 0
IsLog rt states n seen [] = Unit
IsLog rt states n seen (e ∷ es) =
    (e.index ≡ n)
    × (one_of e.event_id seen ≡ false)
    × (hash_of rt e ≡ e.event_hash)
    × (exists e.parent_state_hash states ≡ true)
    × (exists e.resulting_state_hash states ≡ true)
    × IsLog rt states (suc n) (e.event_id ∷ seen) es

-- Every file is the file of a sealed state, under its hash.
abbrev pub AreFiles : Runtime → Dir Fields → Type 0
AreFiles rt [] = Unit
AreFiles rt ((h, d) ∷ states) = IsStateFile rt h d × AreFiles rt states

-- Every ref holds the hash of a state that is there.
abbrev pub AreRefs : Dir Fields → Dir String → Type 0
AreRefs states [] = Unit
AreRefs states ((n, h) ∷ refs) = (exists (strip is_space h) states ≡ true) × AreRefs states refs

pub record Consistent (rt : Runtime) (states : Dir Fields) (refs : Dir String)
    (events : List EventEnvelope) : Type 0 where
  pub files : AreFiles rt states
  pub heads : AreRefs states refs
  pub log : IsLog rt states 1 [] events

abbrev pub IsConsistent : Runtime → Store → Type 0
IsConsistent rt w = Consistent rt w.states w.refs w.events

-- What the engine relies on of `hexdigest`: the text has no white space at its ends.
pub record IsHex (rt : Runtime) : Type 0 where
  pub stripped : (v : Value) → strip is_space (rt.sha256 v) ≡ rt.sha256 v
