-- ===== src/PromptCalls/Policy.antt =====
-- The privacy policy that the current state carries.
use simulation_ai.Prelude.{Bool, false, List, [], ◌∷◌}
use simulation_ai.Json.{Value, bool, str, arr, obj, Fields, end, truthy, empty_dict}
use simulation_ai.Json.Dict.{get_or, put}
use simulation_ai.Result.{Result, ok, err, guard, ◌>>=◌, type_error, value_error, permission_denied}
use simulation_ai.Patch.{get_attr}
use simulation_ai.Prompts.Spec.{elements}
use simulation_ai.Model.State.{SurfaceState}
use simulation_ai.Store.{Store}
use simulation_ai.Store.States.{load_state}

-- one pair of the sequence that `dict` is given; a key that is no text is left out, for no text equals it
unfoldable pub add_pair : Fields → List Value → Result Fields
unfolding put
add_pair d (arr xs ∷ v ∷ []) = err type_error
add_pair d (obj e ∷ v ∷ []) = err type_error
add_pair d (str key ∷ v ∷ []) = ok (put key v d)
add_pair d (key ∷ v ∷ []) = ok d
add_pair d _ = err value_error

unfoldable pub add_pairs : Fields → List Value → Result Fields
unfolding add_pair elements
add_pairs d [] = ok d
add_pairs d (v ∷ l) = do pair ← elements v; d' ← add_pair d pair; add_pairs d' l

-- `dict(v)`
unfoldable pub dict_of : Value → Result Fields
unfolding add_pairs elements
dict_of (obj d) = ok d
dict_of v = do l ← elements v; add_pairs end l

-- `bool(dict(privacy).get("cloud_allowed", False))`
unfoldable pub privacy_flag : Value → Result Bool
unfolding get_or dict_of
privacy_flag v = do d ← dict_of v; ok (truthy (get_or "cloud_allowed" (bool false) d))

unfoldable pub cloud_allowed : SurfaceState → Result Bool
unfolding get_attr privacy_flag
cloud_allowed s = do privacy ← get_attr s.ui "privacy" empty_dict; privacy_flag privacy

-- the policy of the current state, before anything is rendered
unfoldable pub check_policy : Store → Result (Unit {0})
unfolding load_state cloud_allowed
check_policy w = do
  s ← load_state "HEAD" w
  allowed ← cloud_allowed s
  guard allowed permission_denied
