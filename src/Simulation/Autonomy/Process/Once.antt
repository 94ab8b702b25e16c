-- ===== src/Simulation/Autonomy/Process/Once.antt =====
-- What has fired stays so from tick to tick.
use fictional_barnacle.Prelude.{
  ℕ, ◌+◌, String, ◌≡◌, sym, ap, subst, ◌≢◌, Option, none, some, List, [], ◌∷◌, take,
}
use fictional_barnacle.Simulation.Autonomy.Process.{
  DefaultAutonomyProcessor, Tick, llm_tick, process, process_llm_batch, process_npc, process_npcs,
}
use fictional_barnacle.Simulation.Autonomy.Process.Outcome.{
  Outcome, acted, deferred, enlisted, process_npc-Outcome, skipped,
}
use fictional_barnacle.Simulation.Autonomy.Routine.{
  Npc, StepSignature, TextOperations, process_rule_based,
}
use fictional_barnacle.Simulation.Autonomy.Routine.Once.{
  Covers, NeverRepeats, process_rule_based-Covers, process_rule_based_again,
}
use fictional_barnacle.Simulation.WorldTime.{WorldTime}

-- A call of `process`.
pub record Call : Type 0 where
  pub universe_id : String
  pub world_time : WorldTime
  pub elapsed_ms : ℕ → ℕ
  pub npcs : List Npc

module _ (ops : TextOperations) where
  -- The processor after a list of calls.
  unfoldable pub run_calls : DefaultAutonomyProcessor → List Call → DefaultAutonomyProcessor
  run_calls processor [] = processor
  run_calls processor (c ∷ calls) =
      run_calls ((process ops processor c.universe_id c.world_time c.elapsed_ms c.npcs).1) calls

  module _ (processor : DefaultAutonomyProcessor) (universe_id : String)
      (world_time : WorldTime) where
    outcome-Covers :
        (npc : Npc) (fired : List StepSignature) (added : Tick)
        → Outcome ops processor universe_id world_time npc fired added
        → Covers fired added.fired
    outcome-Covers npc fired added (skipped e) =
        subst (λ t. Covers fired t.fired) (sym e) (λ s h. h)
    outcome-Covers npc fired added (acted npc_id may e) =
        subst (λ t. Covers fired t.fired) (sym e)
          (process_rule_based-Covers ops universe_id npc_id world_time npc fired)
    outcome-Covers npc fired added (enlisted npc_id may e) =
        subst (λ t. Covers fired t.fired) (sym e) (λ s h. h)
    outcome-Covers npc fired added (deferred npc_id may e) =
        subst (λ t. Covers fired t.fired) (sym e) (λ s h. h)

    process_npcs-Covers :
        (elapsed_ms : ℕ → ℕ) (index : ℕ) (npcs : List Npc) (fired : List StepSignature)
        → Covers fired
            (process_npcs ops processor universe_id world_time elapsed_ms index npcs fired).fired
    unfolding process_npcs
    process_npcs-Covers elapsed_ms index [] fired s h = h
    process_npcs-Covers elapsed_ms index (npc ∷ npcs) fired s h =
        let first = process_npc ops processor universe_id world_time (elapsed_ms index) npc fired in
        process_npcs-Covers elapsed_ms (index + 1) npcs first.fired s (
          outcome-Covers npc fired first
            (process_npc-Outcome ops processor universe_id world_time (elapsed_ms index) npc fired)
            s h)

    llm_tick-Covers :
        (name : Option String) (npc : Npc) (fired : List StepSignature)
        → Covers fired (llm_tick ops processor universe_id world_time name npc fired).fired
    llm_tick-Covers none npc fired s h = h
    llm_tick-Covers (some npc_id) npc fired s h =
        process_rule_based-Covers ops universe_id npc_id world_time npc fired s h

    process_llm_batch-Covers :
        (batch : List Npc) (fired : List StepSignature)
        → Covers fired (process_llm_batch ops processor universe_id world_time batch fired).fired
    unfolding process_llm_batch
    process_llm_batch-Covers [] fired s h = h
    process_llm_batch-Covers (npc ∷ batch) fired s h =
        process_llm_batch-Covers batch
          (llm_tick ops processor universe_id world_time npc.id npc fired).fired s
          (llm_tick-Covers npc.id npc fired s h)

    process-Covers :
        (elapsed_ms : ℕ → ℕ) (npcs : List Npc)
        → Covers processor.fired_non_repeating_steps
            ((process ops processor universe_id world_time elapsed_ms npcs).1
              ).fired_non_repeating_steps
    unfolding process
    process-Covers elapsed_ms npcs s h =
        let fired = processor.fired_non_repeating_steps in
        let loop = process_npcs ops processor universe_id world_time elapsed_ms 0 npcs fired in
        process_llm_batch-Covers (take processor.max_llm_npcs loop.key_llm_batch) loop.fired s
          (process_npcs-Covers elapsed_ms 0 npcs fired s h)

  run_calls-Covers :
      (processor : DefaultAutonomyProcessor) (calls : List Call)
      → Covers processor.fired_non_repeating_steps
          (run_calls processor calls).fired_non_repeating_steps
  unfolding run_calls
  run_calls-Covers processor [] s h = h
  run_calls-Covers processor (c ∷ calls) s h =
      run_calls-Covers ((process ops processor c.universe_id c.world_time c.elapsed_ms c.npcs).1)
        calls s (process-Covers processor c.universe_id c.world_time c.elapsed_ms c.npcs s h)

  -- Once the routine of an NPC, with at least one step and none that repeats, has been followed at
  -- a time, then whatever calls the processor serves after that, following it again at that time
  -- changes nothing, makes no event and marks no step as fired.
  pub process_rule_based_once :
      (processor : DefaultAutonomyProcessor) (universe_id npc_id : String) (world_time : WorldTime)
      (npc : Npc) (calls : List Call)
      → npc.routine ≢ []
      → NeverRepeats npc.routine
      → let fired =
          (process_rule_based ops universe_id npc_id world_time npc
            processor.fired_non_repeating_steps).fired in
        let later =
          (run_calls
            (record processor { fired_non_repeating_steps = fired })
            calls).fired_non_repeating_steps in
        let again = process_rule_based ops universe_id npc_id world_time npc later in
        (again.changes ≡ []) × (again.events ≡ []) × (again.fired ≡ later)
  process_rule_based_once processor universe_id npc_id world_time npc calls some_step never =
      let fired =
        (process_rule_based ops universe_id npc_id world_time npc
          processor.fired_non_repeating_steps).fired in
      let marked = record processor { fired_non_repeating_steps = fired } in
      let idle =
        process_rule_based_again ops universe_id npc_id world_time npc
          processor.fired_non_repeating_steps (run_calls marked calls).fired_non_repeating_steps
          some_step never (run_calls-Covers marked calls) in
      (ap (λ p. p.changes) idle, ap (λ p. p.events) idle, ap (λ p. p.fired) idle)
