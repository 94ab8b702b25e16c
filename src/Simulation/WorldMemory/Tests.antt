-- ===== src/Simulation/WorldMemory/Tests.antt =====
-- A session of seven turns, and the theorems at it.
use fictional_barnacle.Prelude.{
  ℕ, ◌/◌, String, ◌≡◌, refl, ◌⊎◌, none, List, [], ◌∷◌, map, arith, length,
}
use fictional_barnacle.Prelude.Keyed.{HaveDistinctKeys}
use fictional_barnacle.Llm.ContextBudget.{count_tokens}
use fictional_barnacle.Simulation.Consequence.{decimal}
use fictional_barnacle.Simulation.WorldMemory.{
  MemoryRecord, MemoryWriter, current_importance, estimate_tokens, new_writer, record_memory,
  score_importance,
}
use fictional_barnacle.Simulation.WorldMemory.Compress.{
  CompressionConfig, active_of, compress_if_needed, skip, to_compress,
}
use fictional_barnacle.Simulation.WorldMemory.Compress.Frees.{
  HasCompressed, compress_if_needed-HasCompressed, id_of,
}
use fictional_barnacle.Simulation.WorldMemory.Context.{
  IsContext, context_of, get_context, get_context-IsContext, readable,
}

abbrev told : MemoryWriter → ℕ → String → MemoryWriter
told w turn content = (record_memory w "u" "s" turn turn "narrator" content none [] [] none none).1

-- A score that fades by half, at once.
abbrev half : ℕ → ℕ → ℕ → ℕ
half score elapsed half_life = score / 2

abbrev session : MemoryWriter
session =
    told
      (told
        (told (told (told (told (told new_writer 1 "a wolf howls") 2 "a door") 3 "a key") 4 "rain")
          5 "a letter")
        6 "an oath")
      7 "dawn"

-- With room for everything, for the five latest turns and one more, and for less than those.
everything :
    let c = get_context half session "u" "s" 7 100 5 50 in
    (length c.working ≡ 5) × (length c.active ≡ 2) × (c.dropped_count ≡ 0)
unfolding get_context context_of record_memory estimate_tokens count_tokens score_importance
    current_importance
everything = (refl, refl, refl)

abbrev small : CompressionConfig
small = record {
  compression_threshold_tokens = 5;
  compression_importance_threshold = 500_000_000;
  working_memory_size = 5;
  memory_half_life_ticks = 50;
  fade = half;
}

abbrev compressed_session : MemoryWriter
compressed_session = (compress_if_needed small session "u" "s").1

compressed_two : (compress_if_needed small session "u" "s").0.compressed_count ≡ 2
unfolding compress_if_needed record_memory estimate_tokens count_tokens score_importance active_of
    to_compress current_importance
compressed_two = refl

-- A summary whose turn is among the latest is in two groups, and its tokens are counted twice.
abbrev early : MemoryWriter
early = told (told (told new_writer 1 "a wolf howls in the hills") 2 "a door") 3 "a key"

abbrev early_small : CompressionConfig
early_small = record small { working_memory_size = 1 }

counted_twice :
    let c = get_context half (compress_if_needed early_small early "u" "s").1 "u" "s" 3 100 5 50 in
    map (λ r. r.content) c.working ≡ "a key" ∷ "[Compressed 2 memories]" ∷ []
    × (map (λ r. r.content) c.compressed ≡ "[Compressed 2 memories]" ∷ [])
unfolding get_context context_of compress_if_needed record_memory estimate_tokens count_tokens
    score_importance active_of to_compress current_importance decimal
counted_twice = (refl, refl)

session_ids : HaveDistinctKeys id_of session.records
unfolding record_memory
session_ids k = ground arith

get_context-IsContext_example :
    IsContext 20 5 (readable session "u" "s") (get_context half session "u" "s" 7 20 5 50)
get_context-IsContext_example = get_context-IsContext half session "u" "s" 7 20 5 50

compress_if_needed-HasCompressed_example :
    let (result, w') = compress_if_needed small session "u" "s" in
    ((result ≡ skip) × (w' ≡ session))
    ⊎ ((chosen : List MemoryRecord) × HasCompressed session w' "u" "s" result chosen)
compress_if_needed-HasCompressed_example =
    compress_if_needed-HasCompressed small session "u" "s" session_ids
