-- ===== src/Tests/Memories.antt =====
-- A run of a query of memories, with scores in whole hundredths.
use simulation_ai.Prelude.{◌*◌, ◌/◌, List, [], ◌∷◌, String, ◌≡◌, refl, arith, map}
use simulation_ai.Prelude.Int.{ℤ, pos, negsuc, ◌+ℤ◌, ◌*ℤ◌, ltb_ℤ, eqb_ℤ}
use simulation_ai.Model.Records.{MemoryRecord}
use simulation_ai.Model.{one_of}
use simulation_ai.Render.{join}
use simulation_ai.Memory.Query.{
  Floats, Ranked, ranked_memories, score_all, score_of, sort_ranked, insert_ranked, key_less,
  relevant, is_relevant, places, tokens, distinct, common,
}
use simulation_ai.Memory.Query.Sorted.{IsOrder}
use simulation_ai.Memory.Query.Ranking.{IsRanking, ranked_memories-IsRanking}
use simulation_ai.Tests.Fixtures.{test_runtime}

abbrev hundredths : Floats ℤ
hundredths = record {
  hundredths = λ n. n;
  ratio = λ a b. pos (a * 100 / b);
  plus = λ a b. a +ℤ b;
  minus = λ a b. a +ℤ negsuc 0 *ℤ b;
  times = λ n a. pos n *ℤ a;
  less = λ a b. ltb_ℤ a b;
  equal = λ a b. eqb_ℤ a b;
  round = λ a. a;
}

hundredths-IsOrder : IsOrder hundredths
hundredths-IsOrder = record {
  equal_if = λ a b. ground arith;
  asym = λ a b h. ground arith;
  weak = λ a b c h k. ground arith;
}

abbrev memory_of : String → String → String → MemoryRecord
memory_of memory_id branch_scope summary = record {
  memory_id = memory_id;
  memory_type = "episodic";
  branch_scope = branch_scope;
  summary = summary;
  evidence_ids = [];
  state_hashes = [];
  object_ids = "node.surface" ∷ [];
  confidence = pos 900000;
  epistemic_class = "observed";
  retention = "persistent";
  tags = [];
  supersedes = [];
  contradicts = [];
  logical_time = 1;
  created_at = "2026-01-01T00:00:00Z";
}

abbrev memories : List MemoryRecord
memories =
    memory_of "mem_1" "draft" "saved the file"
    ∷ memory_of "mem_2" "main" "opened a menu"
    ∷ memory_of "mem_3" "main" "typed a name"
    ∷ []

-- the memory of the other branch has too low a score, and the one with a token of the query comes first
typed_first :
    map
      (λ (a : Ranked ℤ). a.memory.memory_id)
      (ranked_memories test_runtime hundredths memories "typed" "main" [] (pos 12))
    ≡ "mem_3" ∷ "mem_2" ∷ []
unfolding ranked_memories score_all score_of sort_ranked insert_ranked key_less relevant is_relevant
    places tokens distinct common one_of join ◌+ℤ◌ ◌*ℤ◌
typed_first = refl

ranked_memories-IsRanking_example :
    IsRanking test_runtime hundredths hundredths-IsOrder
      (pos 12)
      (score_all test_runtime hundredths
        (tokens test_runtime "typed")
        (distinct [])
        "main"
        memories)
      (ranked_memories test_runtime hundredths memories "typed" "main" [] (pos 12))
ranked_memories-IsRanking_example =
    ranked_memories-IsRanking test_runtime hundredths hundredths-IsOrder memories "typed" "main" []
      (pos 12)
