-- ===== src/Simulation/Autonomy/Routine/Once.antt =====
-- A step that does not repeat fires once.
use fictional_barnacle.Prelude.{
  ℕ, ◌+◌, String, ◌≡◌, refl, sym, ap, subst, ◌∙◌, ◌≢◌, inl, inr, true, false, Option, none, some,
  List, [], ◌∷◌, arith, str_eq, eq_iff, ==_iff, Bool-cases,
}
use fictional_barnacle.Simulation.Autonomy.Routine.{
  AutonomyAction, Npc, Progress, RoutineStep, StepSignature, TextOperations, act,
  disposition_shift_action, enter_state, follow, has_fired, has_schedule, is_matched, move_action,
  narrative_event_action, process_rule_based, run_step, run_steps, same_condition, same_signature,
  signature_of, start_of, state_at, state_change_action, trigger_value,
}
use fictional_barnacle.Simulation.WorldTime.{WorldTime}

-- Every signature of the one is in the other.
abbrev pub Covers : List StepSignature → List StepSignature → Type 0
Covers fired later =
    (signature : StepSignature)
    → has_fired signature fired ≡ true
    → has_fired signature later ≡ true

-- No step of the routine repeats.
abbrev pub NeverRepeats : List (Option RoutineStep) → Type 0
NeverRepeats [] = Unit
NeverRepeats (none ∷ steps) = NeverRepeats steps
NeverRepeats (some step ∷ steps) = (step.repeating ≡ false) × NeverRepeats steps

same_condition_refl : (condition : Option String) → same_condition condition condition ≡ true
same_condition_refl none = refl
same_condition_refl (some label) = (eq_iff label label).1 refl

same_signature_refl : (s : StepSignature) → same_signature s s ≡ true
same_signature_refl s =
    rw
      (
        (eq_iff s.universe_id s.universe_id).1 refl,
        (eq_iff s.npc_id s.npc_id).1 refl,
        (==_iff s.step_idx s.step_idx).1 refl,
        (eq_iff (trigger_value s.trigger) (trigger_value s.trigger)).1 refl,
      )
      (same_condition_refl s.condition)

Covers-cons :
    (signature : StepSignature) (fired : List StepSignature) → Covers fired (signature ∷ fired)
Covers-cons signature fired other h = elim (Bool-cases (same_signature other signature)) [
  | inl same ↦ rw same refl
  | inr differs ↦ rw differs h
]

module _ (ops : TextOperations) (universe_id npc_id : String) (world_time : WorldTime) where
  enter_state-fired :
      (new_state : String) (p : Progress)
      → (enter_state ops universe_id npc_id world_time new_state p).fired ≡ p.fired
  enter_state-fired new_state p = elim (Bool-cases (str_eq new_state p.current_state)) [
    | inl same ↦ rw same refl
    | inr other ↦ rw other refl
  ]

  act-fired :
      (action : AutonomyAction) (p : Progress)
      → (act ops universe_id npc_id world_time action p).fired ≡ p.fired
  unfolding act
  act-fired (state_change_action new_state) p = enter_state-fired new_state p
  act-fired (move_action target) p = refl
  act-fired (disposition_shift_action target) p = refl
  act-fired (narrative_event_action description severity) p = refl

  abbrev step_after : ℕ → RoutineStep → Progress → Progress
  step_after step_idx step p = run_step ops universe_id npc_id world_time step_idx step p

  abbrev steps_after : ℕ → List (Option RoutineStep) → Progress → Progress
  steps_after step_idx steps p = run_steps ops universe_id npc_id world_time step_idx steps p

  -- A step keeps what has fired, and if it matches and does not repeat, it has then fired.
  run_step-Covers :
      (step_idx : ℕ) (step : RoutineStep) (p : Progress)
      → Covers p.fired (step_after step_idx step p).fired
        × (step.repeating ≡ false
            → is_matched ops universe_id npc_id world_time step ≡ true
            → has_fired
                (signature_of ops universe_id npc_id world_time step_idx step)
                (step_after step_idx step p).fired
              ≡ true)
  unfolding run_step
  run_step-Covers step_idx step p =
      let signature = signature_of ops universe_id npc_id world_time step_idx step in
      elim (Bool-cases (is_matched ops universe_id npc_id world_time step)) [
        | inr unmatched ↦ rw unmatched ((λ s h. h), (λ once matched. ground arith))
        | inl matched ↦ elim (Bool-cases step.repeating) [
          | inl repeats ↦
              rw (matched, repeats)
                ((λ s h. rw (act-fired step.action p) h), (λ once matched'. ground arith))
          | inr once ↦ elim (Bool-cases (has_fired signature p.fired)) [
            | inl again ↦ rw (matched, once, again) ((λ s h. h), (λ once' matched'. again))
            | inr first ↦
                let p' = record p { fired = signature ∷ p.fired } in
                rw (matched, once, first)
                  (
                    (λ s h. rw (act-fired step.action p') (Covers-cons signature p.fired s h)),
                    (λ once' matched'.
                        rw (act-fired step.action p', same_signature_refl signature) refl),
                  )
          ]
        ]
      ]

  -- A step that does not repeat does nothing where all that fired with it has fired.
  run_step_again :
      (step_idx : ℕ) (step : RoutineStep) (p q : Progress)
      → step.repeating ≡ false
      → Covers (step_after step_idx step p).fired q.fired
      → step_after step_idx step q ≡ q
  unfolding run_step
  run_step_again step_idx step p q once covers =
      elim (Bool-cases (is_matched ops universe_id npc_id world_time step)) [
        | inr unmatched ↦ rw unmatched refl
        | inl matched ↦
            let fired =
              covers (signature_of ops universe_id npc_id world_time step_idx step)
                ((run_step-Covers step_idx step p).1 once matched) in
            rw (matched, once, fired) refl
      ]

  run_steps-Covers :
      (step_idx : ℕ) (steps : List (Option RoutineStep)) (p : Progress)
      → Covers p.fired (steps_after step_idx steps p).fired
  unfolding run_steps
  run_steps-Covers step_idx [] p s h = h
  run_steps-Covers step_idx (none ∷ steps) p s h = run_steps-Covers (step_idx + 1) steps p s h
  run_steps-Covers step_idx (some step ∷ steps) p s h =
      run_steps-Covers (step_idx + 1) steps (step_after step_idx step p) s
        ((run_step-Covers step_idx step p).0 s h)

  run_steps_again :
      (step_idx : ℕ) (steps : List (Option RoutineStep)) (p q : Progress)
      → NeverRepeats steps
      → Covers (steps_after step_idx steps p).fired q.fired
      → steps_after step_idx steps q ≡ q
  unfolding run_steps
  run_steps_again step_idx [] p q never covers = refl
  run_steps_again step_idx (none ∷ steps) p q never covers =
      run_steps_again (step_idx + 1) steps p q never covers
  run_steps_again step_idx (some step ∷ steps) p q (once, never) covers =
      let p' = step_after step_idx step p in
      let idle =
        run_step_again step_idx step p q once
          (λ s h. covers s (run_steps-Covers (step_idx + 1) steps p' s h)) in
      ap (steps_after (step_idx + 1) steps) idle
      ∙ run_steps_again (step_idx + 1) steps p' q never covers

  abbrev after : Npc → List StepSignature → Progress
  after npc fired = process_rule_based ops universe_id npc_id world_time npc fired

  follow-Covers :
      (routine : List (Option RoutineStep)) (npc : Npc) (p : Progress)
      → Covers p.fired (follow ops universe_id npc_id world_time routine npc p).fired
  follow-Covers [] npc p s h = elim (Bool-cases (has_schedule npc)) [
    | inl scheduled ↦ rw scheduled (
        subst (λ fired. has_fired s fired ≡ true)
          (sym (enter_state-fired (state_at ops universe_id npc_id world_time p.current_state) p))
          h)
    | inr idle ↦ rw idle h
  ]
  follow-Covers (step ∷ steps) npc p s h = run_steps-Covers 0 (step ∷ steps) p s h

  follow_again :
      (routine : List (Option RoutineStep)) (npc : Npc) (p q : Progress)
      → routine ≢ []
      → NeverRepeats routine
      → Covers (follow ops universe_id npc_id world_time routine npc p).fired q.fired
      → follow ops universe_id npc_id world_time routine npc q ≡ q
  follow_again [] npc p q some_step never covers = absurd (some_step refl)
  follow_again (step ∷ steps) npc p q some_step never covers =
      run_steps_again 0 (step ∷ steps) p q never covers

  pub process_rule_based-Covers :
      (npc : Npc) (fired : List StepSignature) → Covers fired (after npc fired).fired
  unfolding process_rule_based
  process_rule_based-Covers npc fired =
      follow-Covers npc.routine npc (start_of ops universe_id npc_id world_time npc fired)

  -- Once an NPC with a routine of steps that do not repeat has been processed, processing it again
  -- at a time that reads the same, with all that has fired since, does nothing.
  pub process_rule_based_again :
      (npc : Npc) (fired later : List StepSignature)
      → npc.routine ≢ []
      → NeverRepeats npc.routine
      → Covers (after npc fired).fired later
      → after npc later ≡ start_of ops universe_id npc_id world_time npc later
  unfolding process_rule_based
  process_rule_based_again npc fired later some_step never covers =
      follow_again npc.routine npc (start_of ops universe_id npc_id world_time npc fired)
        (start_of ops universe_id npc_id world_time npc later) some_step never covers
