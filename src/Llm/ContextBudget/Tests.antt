-- ===== src/Llm/ContextBudget/Tests.antt =====
-- A prompt that does not fit.
use fictional_barnacle.Prelude.{ℕ, String, ◌≡◌, refl, List, [], ◌∷◌, map}
use fictional_barnacle.Llm.ContextBudget.{
  ContextChunk, Priority, fill_count, fit_chunks_to_budget, p0, p1, p2, p3,
}
use fictional_barnacle.Llm.ContextBudget.Fit.{IsFit, fit_chunks_to_budget-IsFit}

abbrev chunk : String → Priority → ℕ → ContextChunk
chunk name priority token_count = record {
  name = name;
  content = "abcdef";
  priority = priority;
  token_count = token_count;
}

abbrev prompt : List ContextChunk
prompt =
    chunk "lore" p3 5
    ∷ chunk "system" p0 10
    ∷ chunk "npc" p2 7
    ∷ chunk "extra" p3 0
    ∷ chunk "turn" p1 4
    ∷ []

fit-prompt : (fit_chunks_to_budget prompt 24).dropped ≡ "extra" ∷ "lore" ∷ []
unfolding fit_chunks_to_budget
fit-prompt = refl

fit_chunks_to_budget-IsFit_example :
    IsFit 24 (map fill_count prompt) (fit_chunks_to_budget prompt 24)
fit_chunks_to_budget-IsFit_example = fit_chunks_to_budget-IsFit prompt 24
