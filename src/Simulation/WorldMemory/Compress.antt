-- ===== src/Simulation/WorldMemory/Compress.antt =====
-- `compress_if_needed`.
pub mod Frees
use fictional_barnacle.Prelude.{
  ℕ, suc, ◌+◌, max, String, Bool, true, false, not, ◌&&◌, Option, none, some, List, [], ◌∷◌, ◌++◌,
  map, text_append, if◌then◌else◌, leb, ltb, ◌==◌, filter, length, any,
}
use fictional_barnacle.Simulation.Consequence.{decimal}
use fictional_barnacle.Simulation.WorldMemory.{
  MemoryRecord, MemoryWriter, archived_tier, compressed_tier, current_importance, is_active, is_of,
  tokens_of,
}

-- `CompressionResult`
pub record CompressionResult : Type 0 where
  pub compressed_count : ℕ
  pub new_record : Option MemoryRecord
  pub skipped : Bool

-- The keys of `memory_config`, with what floating point makes of a fading score.
pub record CompressionConfig : Type 0 where
  pub compression_threshold_tokens : ℕ
  pub compression_importance_threshold : ℕ
  pub working_memory_size : ℕ
  pub memory_half_life_ticks : ℕ
  pub fade : ℕ → ℕ → ℕ → ℕ

-- The session's records that are not compressed.
abbrev pub uncompressed : MemoryWriter → String → String → List MemoryRecord
uncompressed w universe_id session_id =
    filter (λ r. is_of universe_id session_id r && not r.is_compressed) w.records

pub greatest : (MemoryRecord → ℕ) → List MemoryRecord → ℕ
greatest f [] = 0
greatest f (r ∷ rs) = max (f r) (greatest f rs)

-- `active`: those of the active tier, and without any those whose turn is before the latest ones.
unfoldable pub active_of : ℕ → List MemoryRecord → List MemoryRecord
unfolding greatest
active_of size rs =
    let latest = greatest (λ r. r.turn_number) rs in
    elim (filter (λ r. is_active r.tier) rs) [
      | [] ↦ filter (λ r. ltb (r.turn_number + size) (latest + 1)) rs
      | r ∷ active ↦ r ∷ active
    ]

-- `sorted(…, key=lambda r: r.turn_number)`
pub insert_by_turn : MemoryRecord → List MemoryRecord → List MemoryRecord
insert_by_turn r [] = r ∷ []
insert_by_turn r (s ∷ ss) =
    if leb r.turn_number s.turn_number then r ∷ s ∷ ss else s ∷ insert_by_turn r ss

pub sort_by_turn : List MemoryRecord → List MemoryRecord
unfolding insert_by_turn
sort_by_turn [] = []
sort_by_turn (r ∷ rs) = insert_by_turn r (sort_by_turn rs)

-- `to_compress`
unfoldable pub to_compress : CompressionConfig → List MemoryRecord → List MemoryRecord
unfolding greatest sort_by_turn
to_compress cfg rs =
    let current_tick = greatest (λ r. r.world_time_tick) rs in
    sort_by_turn (
      filter
        (λ r.
          ltb (current_importance cfg.fade current_tick cfg.memory_half_life_ticks r)
            cfg.compression_importance_threshold)
        rs)

-- `to_compress[-1]`, of a list by its first element and the rest.
abbrev pub last_of : MemoryRecord → List MemoryRecord → MemoryRecord
last_of r [] = r
last_of r (s ∷ ss) = last_of s ss

-- `f"[Compressed {len(to_compress)} memories]"`
pub summary_of : ℕ → String
unfolding decimal
summary_of n = text_append "[Compressed " (text_append (decimal (suc n) n) " memories]")

-- The record that stands for those that are compressed.
pub compressed_record : ℕ → String → String → MemoryRecord → List MemoryRecord → MemoryRecord
unfolding summary_of
compressed_record drawn universe_id session_id r rs =
    let newest = last_of r rs in
    let summary = summary_of (length (r ∷ rs)) in
    record {
      memory_id = drawn;
      universe_id = universe_id;
      session_id = session_id;
      turn_number = newest.turn_number;
      world_time_tick = newest.world_time_tick;
      source = "narrator";
      attributed_to = none;
      content = summary;
      summary = some summary;
      importance_score = 0;
      tier = compressed_tier;
      is_compressed = true;
      compressed_from = map (λ s. s.memory_id) (r ∷ rs);
      tags = [];
      consequence_ids = [];
    }

-- The original of a compressed record is archived. Equal records have the same identifier.
abbrev pub archive_if : List MemoryRecord → MemoryRecord → MemoryRecord
archive_if chosen r =
    if any (λ c. c.memory_id == r.memory_id) chosen
    then record r { tier = archived_tier; is_compressed = true }
    else r

abbrev pub skip : CompressionResult
skip = record { compressed_count = 0; new_record = none; skipped = true }

-- The end of the method, for the records that are to be compressed.
pub compress : MemoryWriter → String → String → List MemoryRecord → CompressionResult × MemoryWriter
unfolding compressed_record
compress w universe_id session_id [] = (skip, w)
compress w universe_id session_id (r ∷ rs) =
    let new_rec = compressed_record w.drawn universe_id session_id r rs in
    (
      record { compressed_count = length (r ∷ rs); new_record = some new_rec; skipped = false },
      record { records = map (archive_if (r ∷ rs)) w.records ++ new_rec ∷ []; drawn = suc w.drawn },
    )

-- `compress_if_needed`
unfoldable pub compress_if_needed :
    CompressionConfig → MemoryWriter → String → String → CompressionResult × MemoryWriter
unfolding compress
compress_if_needed cfg w universe_id session_id =
    let active = active_of cfg.working_memory_size (uncompressed w universe_id session_id) in
    if leb (tokens_of active) cfg.compression_threshold_tokens
    then (skip, w)
    else compress w universe_id session_id (to_compress cfg active)
