-- ===== src/Simulation/Autonomy/Routine/Own.antt =====
-- What a routine changes is its own NPC.
use fictional_barnacle.Prelude.{
  ℕ, ◌+◌, String, ◌≡◌, refl, inl, inr, Option, none, some, List, [], ◌∷◌, str_eq, Bool-cases, All,
  All-snoc,
}
use fictional_barnacle.Simulation.Autonomy.Routine.{
  AutonomyAction, Npc, Progress, RoutineStep, StepSignature, TextOperations, act,
  disposition_shift_action, enter_state, follow, has_fired, has_schedule, is_matched, move_action,
  narrative_event_action, process_rule_based, run_step, run_steps, signature_of, start_of, state_at,
  state_change_action,
}
use fictional_barnacle.Simulation.WorldTime.{WorldTime}

-- The changes of a progress are all of the NPC.
abbrev pub AreOf : String → Progress → Type 0
AreOf npc_id p = All (λ c. c.npc_id ≡ npc_id) p.changes

module _ (ops : TextOperations) (universe_id npc_id : String) (world_time : WorldTime) where
  enter_state-AreOf :
      (new_state : String) (p : Progress)
      → AreOf npc_id p
      → AreOf npc_id (enter_state ops universe_id npc_id world_time new_state p)
  enter_state-AreOf new_state p h = elim (Bool-cases (str_eq new_state p.current_state)) [
    | inl same ↦ rw same h
    | inr other ↦ rw other (All-snoc (λ c. c.npc_id ≡ npc_id) p.changes _ h refl)
  ]

  act-AreOf :
      (action : AutonomyAction) (p : Progress)
      → AreOf npc_id p
      → AreOf npc_id (act ops universe_id npc_id world_time action p)
  unfolding act
  act-AreOf (state_change_action new_state) p h = enter_state-AreOf new_state p h
  act-AreOf (move_action target) p h = All-snoc (λ c. c.npc_id ≡ npc_id) p.changes _ h refl
  act-AreOf (disposition_shift_action target) p h =
      All-snoc (λ c. c.npc_id ≡ npc_id) p.changes _ h refl
  act-AreOf (narrative_event_action description severity) p h = h

  run_step-AreOf :
      (step_idx : ℕ) (step : RoutineStep) (p : Progress)
      → AreOf npc_id p
      → AreOf npc_id (run_step ops universe_id npc_id world_time step_idx step p)
  unfolding run_step
  run_step-AreOf step_idx step p h =
      let signature = signature_of ops universe_id npc_id world_time step_idx step in
      elim (Bool-cases (is_matched ops universe_id npc_id world_time step)) [
        | inr unmatched ↦ rw unmatched h
        | inl matched ↦ elim (Bool-cases step.repeating) [
          | inl repeats ↦ rw (matched, repeats) (act-AreOf step.action p h)
          | inr once ↦ elim (Bool-cases (has_fired signature p.fired)) [
            | inl again ↦ rw (matched, once, again) h
            | inr first ↦
                rw (matched, once, first)
                  (act-AreOf step.action (record p { fired = signature ∷ p.fired }) h)
          ]
        ]
      ]

  run_steps-AreOf :
      (step_idx : ℕ) (steps : List (Option RoutineStep)) (p : Progress)
      → AreOf npc_id p
      → AreOf npc_id (run_steps ops universe_id npc_id world_time step_idx steps p)
  unfolding run_steps
  run_steps-AreOf step_idx [] p h = h
  run_steps-AreOf step_idx (none ∷ steps) p h = run_steps-AreOf (step_idx + 1) steps p h
  run_steps-AreOf step_idx (some step ∷ steps) p h =
      run_steps-AreOf (step_idx + 1) steps
        (run_step ops universe_id npc_id world_time step_idx step p)
        (run_step-AreOf step_idx step p h)

  follow-AreOf :
      (routine : List (Option RoutineStep)) (npc : Npc) (p : Progress)
      → AreOf npc_id p
      → AreOf npc_id (follow ops universe_id npc_id world_time routine npc p)
  follow-AreOf [] npc p h = elim (Bool-cases (has_schedule npc)) [
    | inl scheduled ↦
        rw scheduled
          (enter_state-AreOf (state_at ops universe_id npc_id world_time p.current_state) p h)
    | inr idle ↦ rw idle h
  ]
  follow-AreOf (step ∷ steps) npc p h = run_steps-AreOf 0 (step ∷ steps) p h

  pub process_rule_based-AreOf :
      (npc : Npc) (fired : List StepSignature)
      → AreOf npc_id (process_rule_based ops universe_id npc_id world_time npc fired)
  unfolding process_rule_based
  process_rule_based-AreOf npc fired =
      follow-AreOf npc.routine npc (start_of ops universe_id npc_id world_time npc fired) tt
