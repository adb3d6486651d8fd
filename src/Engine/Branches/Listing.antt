-- ===== src/Engine/Branches/Listing.antt =====
-- `list_branches`: the branches, the active ones first, each by its name.
use simulation_ai.Prelude.{ℕ, String, Bool, not, ◌||◌, ◌&&◌, List, [], ◌∷◌, ◌==◌, if◌then◌else◌}
use simulation_ai.Prelude.Texts.{after_prefix}
use simulation_ai.Json.Sort.{str_lt}
use simulation_ai.Result.{Result, ok, ◌>>=◌}
use simulation_ai.Store.{Store}
use simulation_ai.Store.States.{load_state, read_ref, list_refs}

-- One line of `list_branches`.
pub record Branch : Type 0 where
  pub name : String
  pub state_hash : String
  pub logical_time : ℕ
  pub active : Bool
  pub parent_state_hash : String

branch_lines : String → List (String × String) → Store → Result (List Branch)
unfolding load_state after_prefix
branch_lines head [] w = ok []
branch_lines head ((ref, state_hash) ∷ l) w = do
  state ← load_state state_hash w
  rest ← branch_lines head l w
  ok (
      record {
        name = after_prefix ref "branch-";
        state_hash = state_hash;
        logical_time = state.logical_time;
        active = state_hash == head;
        parent_state_hash = state.parent_state_hash;
      }
      ∷ rest)

-- `(not item["active"], item["name"])` of the first before that of the second
comes_first : Branch → Branch → Bool
unfolding str_lt
comes_first a b =
    (a.active && not b.active) || (not (b.active && not a.active) && str_lt a.name b.name)

insert_branch : Branch → List Branch → List Branch
unfolding comes_first
insert_branch b [] = b ∷ []
insert_branch b (c ∷ l) = if comes_first c b then c ∷ insert_branch b l else b ∷ c ∷ l

sort_branches : List Branch → List Branch
unfolding insert_branch
sort_branches [] = []
sort_branches (b ∷ l) = insert_branch b (sort_branches l)

unfoldable pub list_branches : Store → Result (List Branch)
unfolding branch_lines sort_branches list_refs read_ref
list_branches w = do
  head ← read_ref "HEAD" w
  lines ← branch_lines head (list_refs "branch-" w.refs) w
  ok (sort_branches lines)
