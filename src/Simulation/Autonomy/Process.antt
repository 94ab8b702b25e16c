-- ===== src/Simulation/Autonomy/Process.antt =====
-- `DefaultAutonomyProcessor.process` of tta/simulation/npc_autonomy.py. The milliseconds that have
-- passed when each NPC's turn comes are an argument.
pub mod Outcome
pub mod Sound
pub mod Once
use fictional_barnacle.Prelude.{
  ℕ, ◌+◌, String, Bool, not, ◌&&◌, ◌||◌, Option, none, some, List, [], ◌∷◌, ◌++◌, str_eq,
  if◌then◌else◌, ltb, take,
}
use fictional_barnacle.Simulation.Autonomy.Routine.{
  Npc, NpcStateChange, Progress, StepSignature, TextOperations, WorldEvent, field_or, has_schedule,
  process_rule_based,
}
use fictional_barnacle.Simulation.WorldTime.{WorldTime}

-- `DeferredNPC`
pub record DeferredNpc : Type 0 where
  pub npc_id : String
  pub reason : String

-- `DefaultAutonomyProcessor`; of the model client only whether there is one is used.
pub record DefaultAutonomyProcessor : Type 0 where
  pub budget_ms : ℕ
  pub max_llm_npcs : ℕ
  pub has_llm : Bool
  pub fired_non_repeating_steps : List StepSignature

-- The fields of the `WorldDelta` that `process` computes, with the batch of NPCs for the model.
pub record Tick : Type 0 where
  pub changes : List NpcStateChange
  pub events : List WorldEvent
  pub deferred_npcs : List DeferredNpc
  pub key_llm_batch : List Npc
  pub fired : List StepSignature

module _ (ops : TextOperations) where
  -- The tier as a lower-case text.
  abbrev pub tier_of : Npc → String
  tier_of npc =
      let tier = field_or npc.tier "background" in
      ops.lower (if ops.is_part "." tier then ops.lower (ops.after_dot tier) else tier)

  -- `_in_salience_window`, without a `world_context`
  unfoldable pub in_salience_window : Npc → WorldTime → Bool
  in_salience_window npc world_time =
      let schedule = field_or npc.schedule "" in
      let schedule_lower = ops.lower schedule in
      not (str_eq schedule "")
      && (str_eq schedule_lower "always"
          || str_eq schedule_lower "*"
          || ops.is_part world_time.time_of_day_label schedule_lower)

  abbrev pub nothing : List StepSignature → Tick
  nothing fired = record {
    changes = [];
    events = [];
    deferred_npcs = [];
    key_llm_batch = [];
    fired = fired;
  }

  abbrev pub tick_of : Progress → Tick
  tick_of p = record {
    changes = p.changes;
    events = p.events;
    deferred_npcs = [];
    key_llm_batch = [];
    fired = p.fired;
  }

  module _ (processor : DefaultAutonomyProcessor) (universe_id : String)
      (world_time : WorldTime) where
    -- The body of the loop over the NPCs: what one NPC adds.
    unfoldable pub process_npc : ℕ → Npc → List StepSignature → Tick
    process_npc elapsed_ms npc fired = elim npc.id [
      | none ↦ nothing fired
      | some npc_id ↦
          let tier = tier_of npc in
          let processed =
            tick_of (process_rule_based ops universe_id npc_id world_time npc fired) in
          if str_eq tier "background"
          then nothing fired
          else if str_eq tier "key"
          then if not (has_schedule npc)
            then nothing fired
            else if str_eq (field_or npc.autonomy_mode "rule_based") "llm_assisted"
                && processor.has_llm
            then record (nothing fired) { key_llm_batch = npc ∷ [] }
            else processed
          else if not (has_schedule npc)
          then nothing fired
          else if not (in_salience_window npc world_time)
          then nothing fired
          else if ltb processor.budget_ms elapsed_ms
          then record (nothing fired) {
            deferred_npcs = record { npc_id = npc_id; reason = "budget_exceeded" } ∷ [];
          }
          else processed
    ]

    abbrev pub join : Tick → Tick → Tick
    join first rest = record {
      changes = first.changes ++ rest.changes;
      events = first.events ++ rest.events;
      deferred_npcs = first.deferred_npcs ++ rest.deferred_npcs;
      key_llm_batch = first.key_llm_batch ++ rest.key_llm_batch;
      fired = rest.fired;
    }

    -- The loop, from the NPC of the index on.
    unfoldable pub process_npcs : (ℕ → ℕ) → ℕ → List Npc → List StepSignature → Tick
    process_npcs elapsed_ms index [] fired = nothing fired
    process_npcs elapsed_ms index (npc ∷ npcs) fired =
        let first = process_npc (elapsed_ms index) npc fired in
        join first (process_npcs elapsed_ms (index + 1) npcs first.fired)

    -- The body of the loop of `_process_llm_batch`.
    abbrev pub llm_tick : Option String → Npc → List StepSignature → Tick
    llm_tick none npc fired = nothing fired
    llm_tick (some npc_id) npc fired =
        tick_of (process_rule_based ops universe_id npc_id world_time npc fired)

    -- `_process_llm_batch`
    unfoldable pub process_llm_batch : List Npc → List StepSignature → Tick
    process_llm_batch [] fired = nothing fired
    process_llm_batch (npc ∷ npcs) fired =
        let first = llm_tick npc.id npc fired in join first (process_llm_batch npcs first.fired)

    -- `process`
    unfoldable pub process : (ℕ → ℕ) → List Npc → Tick × DefaultAutonomyProcessor
    process elapsed_ms npcs =
        let loop = process_npcs elapsed_ms 0 npcs processor.fired_non_repeating_steps in
        let batch = process_llm_batch (take processor.max_llm_npcs loop.key_llm_batch) loop.fired in
        (join loop batch, record processor { fired_non_repeating_steps = batch.fired })
