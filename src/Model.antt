-- ===== src/Model.antt =====
-- The records of model.py, each with its `as_dict`; a field that the program only passes on as
-- JSON is a `Value` or the `Fields` of a dict.
pub mod Patch
pub mod State
pub mod Proposals
pub mod Event
pub mod Records
use simulation_ai.Prelude.{String, Bool, List, [], ◌∷◌, ◌||◌, false, ◌==◌, ◌&&◌, not, true}
use simulation_ai.Prelude.Int.{ℤ, pos, ltb_ℤ}
use simulation_ai.Json.{Value, Fields, end, field}

-- A dict literal.
abbrev pub dict : List (String × Value) → Fields
dict [] = end
dict ((k, v) ∷ l) = field k v (dict l)

-- `s in {...}`
unfoldable pub one_of : String → List String → Bool
one_of s [] = false
one_of s (t ∷ l) = s == t || one_of s l

-- `EPISTEMIC_CLASSES`
abbrev pub epistemic_classes : List String
epistemic_classes = "observed" ∷ "inferred" ∷ "counterfactual" ∷ "speculative" ∷ "unknown" ∷ []

-- `LAYER_NAMES`
abbrev pub layer_names : List String
layer_names =
    "sensorium" ∷ "signals" ∷ "objects" ∷ "states" ∷ "events" ∷ "goals" ∷ "plans" ∷ "causal_model"
    ∷ "meta_model" ∷ "identity" ∷ []

-- `0.0 <= x <= 1.0`, for `x` in millionths
unfoldable pub in_unit : ℤ → Bool
in_unit x = not (ltb_ℤ x (pos 0)) && not (ltb_ℤ (pos 1000000) x)
