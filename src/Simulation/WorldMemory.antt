-- ===== src/Simulation/WorldMemory.antt =====
-- `InMemoryMemoryWriter` of tta/simulation/world_memory.py, with the types of
-- tta/simulation/types.py. Scores are in billionths, identifiers are the numbers of the ULIDs that
-- were drawn for them, and times of creation are left out.
pub mod Context
pub mod Compress
mod Tests
use fictional_barnacle.Prelude.{
  ℕ, suc, ◌+◌, ◌-◌, min, max, String, Bool, true, false, ◌&&◌, ◌||◌, Option, none, some, List, [],
  ◌∷◌, ◌++◌, str_eq, if◌then◌else◌, ◌==◌, leb, ltb, filter, take, sum_by,
}
use fictional_barnacle.Prelude.Dict.{Dict, lookup}
use fictional_barnacle.Llm.ContextBudget.{count_tokens}

-- `MemoryRecord.tier`
pub data MemoryTier : Type 0 where
  working_tier active_tier compressed_tier archived_tier : MemoryTier

abbrev pub is_archived : MemoryTier → Bool
is_archived archived_tier = true
is_archived _ = false

abbrev pub is_active : MemoryTier → Bool
is_active active_tier = true
is_active _ = false

-- `MemoryRecord`
pub record MemoryRecord : Type 0 where
  pub memory_id : ℕ
  pub universe_id : String
  pub session_id : String
  pub turn_number : ℕ
  pub world_time_tick : ℕ
  pub source : String
  pub attributed_to : Option String
  pub content : String
  pub summary : Option String
  pub importance_score : ℕ
  pub tier : MemoryTier
  pub is_compressed : Bool
  pub compressed_from : List ℕ
  pub tags : List String
  pub consequence_ids : List String

-- The records of the writer, and how many identifiers have been drawn.
pub record MemoryWriter : Type 0 where
  pub records : List MemoryRecord
  pub drawn : ℕ

abbrev pub new_writer : MemoryWriter
new_writer = record { records = []; drawn = 0 }

-- `_SOURCE_WEIGHTS`
abbrev pub source_weights : Dict ℕ
source_weights =
    ("player", 300_000_000) ∷ ("world", 200_000_000) ∷ ("narrator", 0) ∷ ("npc", 0) ∷ []

-- `_NPC_TIER_WEIGHTS`
abbrev pub npc_tier_weights : Dict ℕ
npc_tier_weights = ("KEY", 300_000_000) ∷ ("SUPPORTING", 100_000_000) ∷ ("BACKGROUND", 0) ∷ []

-- `_SEVERITY_WEIGHTS`
abbrev pub severity_weights : Dict ℕ
severity_weights =
    ("critical", 300_000_000)
    ∷ ("major", 200_000_000)
    ∷ ("notable", 100_000_000)
    ∷ ("minor", 0)
    ∷ []

-- `_TAG_WEIGHTS`
abbrev pub tag_weights : Dict ℕ
tag_weights = ("quest", 200_000_000) ∷ ("death", 100_000_000) ∷ ("combat", 100_000_000) ∷ []

-- `weights.get(key, 0.0)`
pub weight_of : Dict ℕ → String → ℕ
unfolding lookup
weight_of weights key = elim (lookup key weights) [ none ↦ 0 | some w ↦ w ]

-- The same where the key may be missing; the empty text weighs nothing either.
pub weight_if : Dict ℕ → Option String → ℕ
unfolding weight_of
weight_if weights none = 0
weight_if weights (some key) = weight_of weights key

-- `_score_importance`
unfoldable pub score_importance : String → Option String → Option String → List String → ℕ
unfolding weight_of weight_if
score_importance source npc_tier max_consequence_severity tags = min 1_000_000_000 (
    weight_of source_weights source
    + weight_if npc_tier_weights npc_tier
    + weight_if severity_weights max_consequence_severity
    + sum_by (weight_of tag_weights) tags)

-- `_estimate_tokens`
unfoldable pub estimate_tokens : String → ℕ
estimate_tokens text = max 1 (count_tokens text)

abbrev pub tokens_of : List MemoryRecord → ℕ
tokens_of = sum_by (λ r. estimate_tokens r.content)

-- Whether a record is of a session of a universe.
abbrev pub is_of : String → String → MemoryRecord → Bool
is_of universe_id session_id r = str_eq r.universe_id universe_id && str_eq r.session_id session_id

-- `sorted({r.turn_number for r in records}, reverse=True)`
pub insert_turn : ℕ → List ℕ → List ℕ
insert_turn t [] = t ∷ []
insert_turn t (u ∷ us) =
    if t == u then u ∷ us else if ltb u t then t ∷ u ∷ us else u ∷ insert_turn t us

pub turns_of : List MemoryRecord → List ℕ
unfolding insert_turn
turns_of [] = []
turns_of (r ∷ rs) = insert_turn r.turn_number (turns_of rs)

-- `min` of the turns, which are in descending order.
abbrev pub last_turn : ℕ → List ℕ → ℕ
last_turn t [] = t
last_turn t (u ∷ us) = last_turn u us

-- The tier of a new record among those of its session.
pub tier_for : ℕ → List MemoryRecord → MemoryTier
unfolding turns_of
tier_for turn_number records = elim (take 5 (turns_of records)) [
  | [] ↦ working_tier
  | t ∷ ts ↦ if leb (last_turn t ts) turn_number then working_tier else active_tier
]

-- `record`, up to the compression that it starts as a task of its own.
unfoldable pub record_memory :
    MemoryWriter
    → String
    → String
    → ℕ
    → ℕ
    → String
    → String
    → Option String
    → List String
    → List String
    → Option String
    → Option String
    → MemoryRecord × MemoryWriter
unfolding tier_for
record_memory w universe_id session_id turn_number tick source content attributed_to tags
      consequence_ids npc_tier severity =
    let rec : MemoryRecord = record {
      memory_id = w.drawn;
      universe_id = universe_id;
      session_id = session_id;
      turn_number = turn_number;
      world_time_tick = tick;
      source = source;
      attributed_to = attributed_to;
      content = content;
      summary = none;
      importance_score = score_importance source npc_tier severity tags;
      tier = tier_for turn_number (filter (is_of universe_id session_id) w.records);
      is_compressed = false;
      compressed_from = [];
      tags = tags;
      consequence_ids = consequence_ids;
    } in
    (rec, record w { records = w.records ++ rec ∷ []; drawn = suc w.drawn })

-- `current_importance`, by the product that floating point makes of a score, the elapsed ticks and
-- the half life.
unfoldable pub current_importance : (ℕ → ℕ → ℕ → ℕ) → ℕ → ℕ → MemoryRecord → ℕ
current_importance fade current_tick half_life r =
    let elapsed = current_tick - r.world_time_tick in
    if elapsed == 0 || half_life == 0
    then r.importance_score
    else fade r.importance_score elapsed half_life
