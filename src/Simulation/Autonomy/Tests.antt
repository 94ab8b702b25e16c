-- ===== src/Simulation/Autonomy/Tests.antt =====
-- A village at noon, and the theorems at it.
use fictional_barnacle.Prelude.{
  ℕ, ◌*◌, String, ◌≡◌, refl, ap, true, false, Option, none, some, List, [], ◌∷◌, map, arith, str_eq,
  if◌then◌else◌, length,
}
use fictional_barnacle.Prelude.Int.{pos}
use fictional_barnacle.Simulation.Autonomy.Process.{
  DefaultAutonomyProcessor, Tick, in_salience_window, process, process_llm_batch, process_npc,
  process_npcs,
}
use fictional_barnacle.Simulation.Autonomy.Process.Once.{Call, process_rule_based_once, run_calls}
use fictional_barnacle.Simulation.Autonomy.Process.Sound.{IsAccounted, process-IsAccounted}
use fictional_barnacle.Simulation.Autonomy.Routine.{
  Npc, RoutineStep, TextOperations, act, is_matched, process_rule_based, run_step, run_steps,
  state_change_action, tick_elapsed,
}
use fictional_barnacle.Simulation.WorldTime.{WorldTime}

abbrev plain : TextOperations
plain = record {
  lower = λ text. text;
  is_part = λ part text. str_eq part text;
  after_dot = λ text. text;
  int_of = λ text. if str_eq text "4" then some (pos 4) else none;
}

abbrev noon : WorldTime
noon = record {
  total_ticks = 28;
  day_count = 1;
  hour = 12;
  minute = 0;
  time_of_day_label = "midday";
}

abbrev villager : String → String → String → Option String → List (Option RoutineStep) → Npc
villager id tier schedule mode routine = record {
  id = some id;
  tier = some tier;
  schedule = some schedule;
  autonomy_mode = mode;
  state = none;
  routine = routine;
}

abbrev opens_shop : RoutineStep
opens_shop = record {
  trigger = tick_elapsed;
  condition = some "4";
  action = state_change_action "busy";
  repeating = false;
}

abbrev smith : Npc
smith = villager "smith" "key" "always" none (some opens_shop ∷ [])

abbrev baker : String → Npc
baker id = villager id "key" "always" (some "llm_assisted") (some opens_shop ∷ [])

abbrev village : List Npc
village =
    smith
    ∷ baker "anna"
    ∷ baker "bert"
    ∷ villager "guard" "supporting" "midday" none []
    ∷ villager "rat" "background" "always" none []
    ∷ []

abbrev processor : DefaultAutonomyProcessor
processor = record {
  budget_ms = 50;
  max_llm_npcs = 1;
  has_llm = true;
  fired_non_repeating_steps = [];
}

-- The clock is over the budget from the fourth NPC on.
abbrev clock : ℕ → ℕ
clock index = 20 * index

abbrev first_tick : Tick
first_tick = (process plain processor "u" noon clock village).0

-- The guard is put off, and of the two NPCs for the model the second is neither processed nor put
-- off.
second_lost :
    (map {B = String} (λ c. c.npc_id) first_tick.changes ≡ "smith" ∷ "anna" ∷ [])
    × (map {B = String} (λ d. d.npc_id) first_tick.deferred_npcs ≡ "guard" ∷ [])
unfolding process process_npcs process_npc process_llm_batch process_rule_based run_steps run_step
    is_matched act in_salience_window
second_lost = (refl, refl)

process-IsAccounted_example : IsAccounted plain processor "u" noon village first_tick
process-IsAccounted_example = process-IsAccounted plain processor "u" noon clock village

abbrev after_smith : DefaultAutonomyProcessor
after_smith = record processor {
  fired_non_repeating_steps = (process_rule_based plain "u" "smith" noon smith []).fired;
}

abbrev next_tick : Call
next_tick = record { universe_id = "u"; world_time = noon; elapsed_ms = clock; npcs = village }

process_rule_based_once_example :
    let later = (run_calls plain after_smith (next_tick ∷ [])).fired_non_repeating_steps in
    let again = process_rule_based plain "u" "smith" noon smith later in
    (again.changes ≡ []) × (again.events ≡ []) × (again.fired ≡ later)
process_rule_based_once_example =
    process_rule_based_once plain processor "u" "smith" noon smith (next_tick ∷ [])
      (λ e. let l = ap length e in omega arith) (refl, tt)
