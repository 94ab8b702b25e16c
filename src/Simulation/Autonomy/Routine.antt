-- ===== src/Simulation/Autonomy/Routine.antt =====
-- The routine of an NPC: `_process_rule_based` of tta/simulation/npc_autonomy.py, with the types of
-- tta/simulation/types.py. Changes of disposition are kept without their amount.
pub mod Own
pub mod Once
use fictional_barnacle.Prelude.{
  ℕ, ◌+◌, ◌%◌, String, Bool, true, false, not, ◌&&◌, Option, none, some, List, [], ◌∷◌, ◌++◌,
  str_eq, text_append, ◌==◌, ltb, if◌then◌else◌, any,
}
use fictional_barnacle.Prelude.Dict.{Dict, lookup}
use fictional_barnacle.Prelude.Int.{pos, ℤ}
use fictional_barnacle.Simulation.Consequence.{EventSeverity, decimal}
use fictional_barnacle.Simulation.WorldTime.{WorldTime}

-- What the code asks of texts: `text.lower()`, `part in text`, `text.split(".")[-1]` and
-- `int(text)`, which raises `ValueError` where there is no number.
pub record TextOperations : Type 0 where
  pub lower : String → String
  pub is_part : String → String → Bool
  pub after_dot : String → String
  pub int_of : String → Option ℤ

-- `RoutineTrigger`
pub data RoutineTrigger : Type 0 where
  time_of_day tick_elapsed world_event player_visited : RoutineTrigger

abbrev pub trigger_value : RoutineTrigger → String
trigger_value time_of_day = "time_of_day"
trigger_value tick_elapsed = "tick_elapsed"
trigger_value world_event = "world_event"
trigger_value player_visited = "player_visited"

-- `AutonomyAction`
pub data AutonomyAction : Type 0 where
  move_action : String → AutonomyAction
  state_change_action : String → AutonomyAction
  disposition_shift_action : String → AutonomyAction
  narrative_event_action : String → EventSeverity → AutonomyAction

-- `RoutineStep`; the condition is its label.
pub record RoutineStep : Type 0 where
  pub trigger : RoutineTrigger
  pub condition : Option String
  pub action : AutonomyAction
  pub repeating : Bool

-- An NPC, as a dictionary or an object: the fields that the code resolves. A member of the routine
-- that is not a `RoutineStep` is `none`.
pub record Npc : Type 0 where
  pub id : Option String
  pub tier : Option String
  pub schedule : Option String
  pub autonomy_mode : Option String
  pub state : Option String
  pub routine : List (Option RoutineStep)

-- `NPCStateChange`
pub record NpcStateChange : Type 0 where
  pub npc_id : String
  pub action_type : String
  pub before : List (String × String)
  pub after : List (String × String)

-- `WorldEvent`, less its time of creation, and its location, which is never set.
pub record WorldEvent : Type 0 where
  pub event_id : String
  pub universe_id : String
  pub event_type : String
  pub description : String
  pub severity : EventSeverity
  pub triggered_at_tick : ℕ
  pub source_npc_id : Option String

-- A member of `_fired_non_repeating_steps`.
pub record StepSignature : Type 0 where
  pub universe_id : String
  pub npc_id : String
  pub step_idx : ℕ
  pub trigger : RoutineTrigger
  pub condition : Option String

abbrev pub same_condition : Option String → Option String → Bool
same_condition none none = true
same_condition (some a) (some b) = str_eq a b
same_condition _ _ = false

abbrev pub same_signature : StepSignature → StepSignature → Bool
same_signature a b =
    str_eq a.universe_id b.universe_id
    && str_eq a.npc_id b.npc_id
    && a.step_idx == b.step_idx
    && str_eq (trigger_value a.trigger) (trigger_value b.trigger)
    && same_condition a.condition b.condition

-- `step_signature in self._fired_non_repeating_steps`
abbrev pub has_fired : StepSignature → List StepSignature → Bool
has_fired signature fired = any (same_signature signature) fired

-- `_resolve_npc_field(...) or default`
abbrev pub field_or : Option String → String → String
field_or none default = default
field_or (some text) default = if str_eq text "" then default else text

-- `bool(schedule)`
abbrev pub has_schedule : Npc → Bool
has_schedule npc = not (str_eq (field_or npc.schedule "") "")

-- What the loop over the routine has so far.
pub record Progress : Type 0 where
  pub changes : List NpcStateChange
  pub events : List WorldEvent
  pub current_state : String
  pub fired : List StepSignature

module _ (ops : TextOperations) (universe_id npc_id : String) (world_time : WorldTime) where
  -- Whether a step's trigger matches.
  unfoldable pub is_matched : RoutineStep → Bool
  is_matched step = elim step.condition [
    | none ↦ false
    | some label ↦ elim step.trigger [
      | time_of_day ↦ str_eq (ops.lower label) (ops.lower world_time.time_of_day_label)
      | tick_elapsed ↦ elim (ops.int_of label) [
        | some (pos interval) ↦ ltb 0 interval && world_time.total_ticks % interval == 0
        | _ ↦ false
      ]
      | _ ↦ false
    ]
  ]

  abbrev pub signature_of : ℕ → RoutineStep → StepSignature
  signature_of step_idx step = record {
    universe_id = universe_id;
    npc_id = npc_id;
    step_idx = step_idx;
    trigger = step.trigger;
    condition = step.condition;
  }

  abbrev pub change_of : String → List (String × String) → List (String × String) → NpcStateChange
  change_of action_type before after = record {
    npc_id = npc_id;
    action_type = action_type;
    before = before;
    after = after;
  }

  -- The state of the NPC changes, if it is another.
  abbrev pub enter_state : String → Progress → Progress
  enter_state new_state p = if str_eq new_state p.current_state then p else record p {
    changes =
        p.changes
        ++ change_of "state_change" (("state", p.current_state) ∷ []) (("state", new_state) ∷ [])
          ∷ [];
    current_state = new_state;
  }

  -- The action of a step.
  unfoldable pub act : AutonomyAction → Progress → Progress
  act (state_change_action new_state) p = enter_state new_state p
  act (move_action target_location_id) p = record p {
    changes = p.changes ++ change_of "move" [] (("location_id", target_location_id) ∷ []) ∷ [];
  }
  act (disposition_shift_action target) p = record p {
    changes = p.changes ++ change_of "disposition_shift" [] (("target_npc", target) ∷ []) ∷ [];
  }
  act (narrative_event_action description severity) p = record p {
    events =
        p.events
        ++ record {
          event_id = text_append npc_id (
              text_append ":" (
                text_append (decimal (world_time.total_ticks + 1) world_time.total_ticks)
                  ":narrative"));
          universe_id = universe_id;
          event_type = "narrative";
          description = description;
          severity = severity;
          triggered_at_tick = world_time.total_ticks;
          source_npc_id = some npc_id;
        }
          ∷ [];
  }

  -- The body of the loop, for a `RoutineStep`.
  unfoldable pub run_step : ℕ → RoutineStep → Progress → Progress
  run_step step_idx step p =
      if not (is_matched step)
      then p
      else if step.repeating
      then act step.action p
      else if has_fired (signature_of step_idx step) p.fired
      then p
      else act step.action (record p { fired = signature_of step_idx step ∷ p.fired })

  -- The loop over the routine, from the index on.
  unfoldable pub run_steps : ℕ → List (Option RoutineStep) → Progress → Progress
  run_steps step_idx [] p = p
  run_steps step_idx (none ∷ steps) p = run_steps (step_idx + 1) steps p
  run_steps step_idx (some step ∷ steps) p =
      run_steps (step_idx + 1) steps (run_step step_idx step p)

  -- `tod_to_state.get(tod.lower(), current_state)`
  abbrev pub tod_to_state : Dict String
  tod_to_state =
      ("morning", "active")
      ∷ ("afternoon", "active")
      ∷ ("evening", "busy")
      ∷ ("night", "sleeping")
      ∷ ("midnight", "sleeping")
      ∷ []

  abbrev pub state_at : String → String
  state_at current_state = elim (lookup (ops.lower world_time.time_of_day_label) tod_to_state) [
    | some new_state ↦ new_state
    | none ↦ current_state
  ]

  -- The routine, or what the time of day asks of an NPC without one.
  abbrev pub follow : List (Option RoutineStep) → Npc → Progress → Progress
  follow [] npc p = if has_schedule npc then enter_state (state_at p.current_state) p else p
  follow (step ∷ steps) npc p = run_steps 0 (step ∷ steps) p

  abbrev pub start_of : Npc → List StepSignature → Progress
  start_of npc fired = record {
    changes = [];
    events = [];
    current_state = field_or npc.state "idle";
    fired = fired;
  }

  -- `_process_rule_based`
  unfoldable pub process_rule_based : Npc → List StepSignature → Progress
  process_rule_based npc fired = follow npc.routine npc (start_of npc fired)
