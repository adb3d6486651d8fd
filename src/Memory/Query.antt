-- ===== src/Memory/Query.antt =====
-- `query_memories` of memory.py and `query_memory` of engine.py: the memories ranked by a score. The score is a
-- float that is no number of decimal places, so the operations on floats are arguments here.
pub mod Sorted
pub mod Ranking
use Prim.Native.Char.{Char, code}
use Prim.Native.String
use simulation_ai.Prelude.{
  ℕ, suc, ◌+◌, ◌-◌, max, String, Bool, true, false, not, ◌&&◌, ◌||◌, Option, none, some, List, [],
  ◌∷◌, ◌++◌, ◌==◌, ltb, leb, nat_eq, if◌then◌else◌, ◌≡◌, refl,
}
use simulation_ai.Prelude.Int.{ℤ, pos, negsuc, pos_part, ltb_ℤ}
use simulation_ai.Prelude.Lists.{length, take}
use simulation_ai.Prelude.Texts.{is_empty, str_append}
use simulation_ai.Result.{Result, ok, ◌>>=◌}
use simulation_ai.Runtime.{Runtime}
use simulation_ai.Model.{one_of}
use simulation_ai.Model.Records.{MemoryRecord}
use simulation_ai.Render.{join}
use simulation_ai.Store.{Store}
use simulation_ai.Store.Files.{list_memories}
use simulation_ai.Store.States.{load_state}

-- Python's floats: the literal of a number of hundredths, `a / b` of two integers, and the operators.
pub record Floats (Float : Type 0) : Type 0 where
  pub hundredths : ℤ → Float
  pub ratio : ℕ → ℕ → Float
  pub plus : Float → Float → Float
  pub minus : Float → Float → Float
  pub times : ℕ → Float → Float
  pub less : Float → Float → Bool
  pub equal : Float → Float → Bool
  -- `round(x, 4)`
  pub round : Float → Float

-- the characters of `TOKEN_RE`
is_token_char : Char → Bool
is_token_char c =
    (leb b'a' (code c) && leb (code c) b'z')
    || (leb b'0' (code c) && leb (code c) b'9')
    || nat_eq (code c) b'_'
    || nat_eq (code c) b'.'
    || nat_eq (code c) b':'
    || nat_eq (code c) b'-'

-- a token that ends, if it has begun
with_token : String → List String → List String
with_token cur l = if is_empty cur then l else cur ∷ l

-- `TOKEN_RE.findall(s)`; `cur` is the token that has begun
find_tokens : String → String → List String
unfolding is_token_char with_token
find_tokens cur String.[] = with_token cur []
find_tokens cur (String.◌∷◌ c s) =
    let longer = find_tokens (str_append cur (String.◌∷◌ c String.[])) s in
    let rest = find_tokens String.[] s in if is_token_char c then longer else with_token cur rest

-- `set(l)`
unfoldable pub distinct : List String → List String
unfolding one_of
distinct [] = []
distinct (s ∷ l) = let rest = distinct l in if one_of s l then rest else s ∷ rest

-- `len(a & b)` of two sets
unfoldable pub common : List String → List String → ℕ
unfolding one_of
common [] b = 0
common (s ∷ a) b = let rest = common a b in if one_of s b then suc rest else rest

-- `_tokens`
unfoldable pub tokens : Runtime → String → List String
unfolding find_tokens distinct
tokens rt value = distinct (find_tokens String.[] (rt.lower value))

no_names : List String → Bool
no_names [] = true
no_names (s ∷ l) = false

-- A memory with its score.
pub record Ranked (Float : Type 0) : Type 0 where
  pub score : Float
  pub memory : MemoryRecord

module _ (rt : Runtime) {Float : Type 0} (fl : Floats Float) where
  -- `min(a, b)`
  smaller : Float → Float → Float
  smaller a b = if fl.less b a then b else a

  -- the score of one memory, by the tokens of the query, the objects and the branch
  unfoldable pub score_of : List String → List String → String → MemoryRecord → Float
  unfolding tokens common distinct one_of join smaller no_names
  score_of query_tokens objects branch m =
      let record_tokens = tokens rt (join " " (m.summary ∷ (m.tags ++ m.object_ids))) in
      let shared = common query_tokens record_tokens in
      let lexical = fl.ratio shared (max 1 (length query_tokens + length record_tokens - shared)) in
      let object_overlap =
        fl.times (common objects (distinct m.object_ids)) (fl.hundredths (pos 35)) in
      let branch_score =
        fl.hundredths
          (if one_of m.branch_scope (branch ∷ "global" ∷ []) then pos 35 else negsuc 44) in
      let verified = fl.hundredths (if ltb_ℤ m.confidence (pos 800000) then pos 0 else pos 15) in
      let failure_boost =
        fl.hundredths
          (if one_of m.memory_type ("failure" ∷ "contradiction" ∷ []) then pos 16 else pos 0) in
      let recency = smaller (fl.hundredths (pos 25)) (fl.ratio m.logical_time 10000) in
      let score =
        fl.plus
          (fl.plus (fl.plus (fl.plus (fl.plus lexical object_overlap) branch_score) verified)
            failure_boost)
          recency in
      let zero_float = fl.hundredths (pos 0) in
      if not (no_names query_tokens)
        && fl.equal lexical zero_float
        && fl.equal object_overlap zero_float
      then fl.minus score (fl.hundredths (pos 25))
      else score

  unfoldable pub score_all :
      List String → List String → String → List MemoryRecord → List (Ranked Float)
  unfolding score_of
  score_all query_tokens objects branch [] = []
  score_all query_tokens objects branch (m ∷ l) =
      record { score = score_of query_tokens objects branch m; memory = m }
      ∷ score_all query_tokens objects branch l

  -- whether the key `(score, logical_time)` of the first is less
  unfoldable pub key_less : Ranked Float → Ranked Float → Bool
  key_less a b =
      if fl.equal a.score b.score
      then ltb a.memory.logical_time b.memory.logical_time
      else fl.less a.score b.score

  -- `sort(key=..., reverse=True)`, which leaves equal keys in their order
  unfoldable pub insert_ranked : Ranked Float → List (Ranked Float) → List (Ranked Float)
  unfolding key_less
  insert_ranked a [] = a ∷ []
  insert_ranked a (b ∷ l) =
      let rest = insert_ranked a l in if key_less a b then b ∷ rest else a ∷ b ∷ l

  unfoldable pub sort_ranked : List (Ranked Float) → List (Ranked Float)
  unfolding insert_ranked
  sort_ranked [] = []
  sort_ranked (a ∷ l) = insert_ranked a (sort_ranked l)

  -- `score > -0.2`
  unfoldable pub is_relevant : Ranked Float → Bool
  is_relevant a = fl.less (fl.hundredths (negsuc 19)) a.score

  unfoldable pub relevant : List (Ranked Float) → List (Ranked Float)
  unfolding is_relevant
  relevant [] = []
  relevant (a ∷ l) = let rest = relevant l in if is_relevant a then a ∷ rest else rest

  -- `max(1, min(limit, 50))`
  unfoldable pub places : ℤ → ℕ
  places limit = max 1 (if ltb (pos_part limit) 50 then pos_part limit else 50)

  unfoldable pub ranked_memories :
      List MemoryRecord → String → String → List String → ℤ → List (Ranked Float)
  unfolding tokens distinct score_all sort_ranked relevant places
  ranked_memories records query branch object_ids limit = relevant (
      take (places limit)
        (sort_ranked (score_all (tokens rt query) (distinct object_ids) branch records)))

  rounded : List (Ranked Float) → List (Ranked Float)
  rounded [] = []
  rounded (a ∷ l) = record a { score = fl.round a.score } ∷ rounded l

  unfoldable pub query_memories :
      List MemoryRecord → String → String → List String → ℤ → List (Ranked Float)
  unfolding ranked_memories rounded
  query_memories records query branch object_ids limit =
      rounded (ranked_memories records query branch object_ids limit)

  -- `branch or current.branch`
  branch_or : Option String → String → String
  branch_or none current = current
  branch_or (some b) current = if is_empty b then current else b

  unfoldable pub query_memory :
      String → Option String → List String → ℤ → Store → Result (List (Ranked Float))
  unfolding query_memories branch_or
  query_memory query branch object_ids limit w = do
    current ← load_state "HEAD" w
    ok (query_memories (list_memories w) query (branch_or branch current.branch) object_ids limit)

is_token_run : find_tokens "" "type on node.surface!" ≡ "type" ∷ "on" ∷ "node.surface" ∷ []
unfolding find_tokens
is_token_run = refl
