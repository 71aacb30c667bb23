-- ===== src/Llm/Assemble/Ending.antt =====
-- The breadth-first search of the depths ends: each node enters its queue once.
use flow_speckit.Prelude.{ℕ, ◌+◌, Bool, true, false, Option, none, some, List, length, count_where}
use flow_speckit.Llm.Depths.{depth_of, Search}
use flow_speckit.Base.{Uuid}

abbrev is_none : Option ℕ → Bool
is_none none = true
is_none (some _) = false

-- How many of the ends are not reached yet.
missing : List Uuid → List (Uuid × ℕ) → ℕ
missing ids depths = count_where (λ id. is_none (depth_of id depths)) ids

-- What is left to do: the queue, and the ends that may enter it.
abbrev left : List Uuid → Search → ℕ
left ids s = length s.queue + missing ids s.depths
