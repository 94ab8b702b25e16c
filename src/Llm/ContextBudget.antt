-- ===== src/Llm/ContextBudget.antt =====
-- tta/llm/context_budget.py.
use Prim.Native.String.{count}
use mathlib.Core.List.{reverse}
pub mod Passes
pub mod Fit
mod Tests
use fictional_barnacle.Prelude.{
  ℕ, ◌-◌, ◌/◌, max, String, Bool, true, false, List, [], ◌∷◌, ◌++◌, map, ltb, if◌then◌else◌, ◌==◌,
  filter, sum_by,
}

-- `Priority`
pub data Priority : Type 0 where
  p0 p1 p2 p3 : Priority

abbrev pub same_priority : Priority → Priority → Bool
same_priority p0 p0 = true
same_priority p1 p1 = true
same_priority p2 p2 = true
same_priority p3 p3 = true
same_priority _ _ = false

-- A count below one is a missing count, and stands here as 0.
pub record ContextChunk : Type 0 where
  pub name : String
  pub content : String
  pub priority : Priority
  pub token_count : ℕ

pub record BudgetResult : Type 0 where
  pub chunks : List ContextChunk
  pub total_tokens : ℕ
  pub dropped : List String

-- `count_tokens`; `len` counts characters.
unfoldable pub count_tokens : String → ℕ
count_tokens text = max 1 (count text / 2)

-- The first loop, on one chunk.
pub fill_count : ContextChunk → ContextChunk
unfolding count_tokens
fill_count c = if c.token_count == 0 then record c { token_count = count_tokens c.content } else c

-- The chunks of one priority.
abbrev pub tier : Priority → List ContextChunk → List ContextChunk
tier q = filter (λ c. same_priority c.priority q)

-- `sorted(chunks, key=lambda c: c.priority)`, which keeps the order within a priority.
abbrev pub sorted_chunks : List ContextChunk → List ContextChunk
sorted_chunks cs = tier p0 cs ++ (tier p1 cs ++ (tier p2 cs ++ tier p3 cs))

abbrev pub tokens : List ContextChunk → ℕ
tokens = sum_by (λ c. c.token_count)

-- What a round of the `for` loop leaves.
pub record Pass : Type 0 where
  pub kept : List ContextChunk
  pub used : ℕ
  pub dropped : List String

-- The `while` loop for one priority. The list is `kept` from its last index down.
pub drop_pass : Priority → ℕ → ℕ → List String → List ContextChunk → Pass
drop_pass q budget used dropped [] = record { kept = []; used = used; dropped = dropped }
drop_pass q budget used dropped (c ∷ cs) =
    let removed = drop_pass q budget (used - c.token_count) (dropped ++ c.name ∷ []) cs in
    let rest = drop_pass q budget used dropped cs in
    if ltb budget used
    then if same_priority c.priority q then removed else record rest { kept = c ∷ rest.kept }
    else record { kept = c ∷ cs; used = used; dropped = dropped }

-- `fit_chunks_to_budget`, less its metric and log line.
pub fit_chunks_to_budget : List ContextChunk → ℕ → BudgetResult
unfolding drop_pass fill_count
fit_chunks_to_budget chunks budget_tokens =
    let ordered = sorted_chunks (map fill_count chunks) in
    let third = drop_pass p3 budget_tokens (tokens ordered) [] (reverse ordered) in
    let second = drop_pass p2 budget_tokens third.used third.dropped third.kept in
    record { chunks = reverse second.kept; total_tokens = second.used; dropped = second.dropped }
