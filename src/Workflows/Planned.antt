-- ===== src/Workflows/Planned.antt =====
-- A completed workflow has run what was planned, `max_steps` included.
use simulation_ai.Prelude.{ℕ, min, max, Option, none, some}
use simulation_ai.Prelude.Int.{ℤ, pos, negsuc}
use simulation_ai.Runtime.{Runtime}

-- how many of `n` prompts are planned: all without a limit, else no more than the limit, which counts as 1 if
-- it is less
abbrev pub planned_count : Option ℤ → ℕ → ℕ
planned_count none n = n
planned_count (some (pos limit)) n = min (max 1 limit) n
planned_count (some (negsuc _)) n = min 1 n
