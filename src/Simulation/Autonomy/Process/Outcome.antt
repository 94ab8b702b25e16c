-- ===== src/Simulation/Autonomy/Process/Outcome.antt =====
-- What one NPC may add to a tick.
use fictional_barnacle.Prelude.{
  ℕ, String, ◌≡◌, inl, inr, true, false, ◌&&◌, some, List, [], ◌∷◌, str_eq, ltb, Bool-cases,
  Option-cases,
}
use fictional_barnacle.Simulation.Autonomy.Process.{
  DefaultAutonomyProcessor, Tick, in_salience_window, nothing, process_npc, tick_of, tier_of,
}
use fictional_barnacle.Simulation.Autonomy.Routine.{
  Npc, StepSignature, TextOperations, field_or, has_schedule, process_rule_based,
}
use fictional_barnacle.Simulation.WorldTime.{WorldTime}

module _ (ops : TextOperations) (processor : DefaultAutonomyProcessor) (universe_id : String)
    (world_time : WorldTime) where
  -- An NPC that may act.
  pub record MayAct (npc_id : String) (npc : Npc) : Type 0 where
    pub known : npc.id ≡ some npc_id
    pub not_background : str_eq (tier_of ops npc) "background" ≡ false
    pub scheduled : has_schedule npc ≡ true

  -- An NPC that may be deferred: of the supporting tier, and in its window.
  pub record MayDefer (npc_id : String) (npc : Npc) : Type 0 where
    pub may_act : MayAct npc_id npc
    pub not_key : str_eq (tier_of ops npc) "key" ≡ false
    pub salient : in_salience_window ops npc world_time ≡ true

  abbrev pub processed : String → Npc → List StepSignature → Tick
  processed npc_id npc fired =
      tick_of ops (process_rule_based ops universe_id npc_id world_time npc fired)

  abbrev pub batched : Npc → List StepSignature → Tick
  batched npc fired = record (nothing ops fired) { key_llm_batch = npc ∷ [] }

  abbrev pub put_off : String → List StepSignature → Tick
  put_off npc_id fired = record (nothing ops fired) {
    deferred_npcs = record { npc_id = npc_id; reason = "budget_exceeded" } ∷ [];
  }

  -- Nothing, or the changes of the NPC, or its place in the batch, or its deferral.
  pub data Outcome (npc : Npc) (fired : List StepSignature) (added : Tick) : Type 0 where
    skipped : added ≡ nothing ops fired → Outcome npc fired added
    acted :
        (npc_id : String)
        → MayAct npc_id npc
        → added ≡ processed npc_id npc fired
        → Outcome npc fired added
    enlisted :
        (npc_id : String) → MayAct npc_id npc → added ≡ batched npc fired → Outcome npc fired added
    deferred :
        (npc_id : String)
        → MayDefer npc_id npc
        → added ≡ put_off npc_id fired
        → Outcome npc fired added

  abbrev tick_for : ℕ → Npc → List StepSignature → Tick
  tick_for elapsed_ms npc fired =
      process_npc ops processor universe_id world_time elapsed_ms npc fired

  key_outcome :
      (elapsed_ms : ℕ) (npc : Npc) (fired : List StepSignature) (npc_id : String)
      → MayAct npc_id npc
      → str_eq (tier_of ops npc) "key" ≡ true
      → Outcome npc fired (tick_for elapsed_ms npc fired)
  unfolding process_npc
  key_outcome elapsed_ms npc fired npc_id may key =
      elim (Bool-cases
        (str_eq (field_or npc.autonomy_mode "rule_based") "llm_assisted" && processor.has_llm)) [
          | inl llm ↦
              enlisted npc_id may
                (simp (process_npc, may.known, may.not_background, key, may.scheduled, llm))
          | inr rules ↦
              acted npc_id may
                (simp (process_npc, may.known, may.not_background, key, may.scheduled, rules))
        ]

  supporting_outcome :
      (elapsed_ms : ℕ) (npc : Npc) (fired : List StepSignature) (npc_id : String)
      → MayAct npc_id npc
      → str_eq (tier_of ops npc) "key" ≡ false
      → Outcome npc fired (tick_for elapsed_ms npc fired)
  unfolding process_npc
  supporting_outcome elapsed_ms npc fired npc_id may key =
      elim (Bool-cases (in_salience_window ops npc world_time)) [
        | inr outside ↦
            skipped (simp (process_npc, may.known, may.not_background, key, may.scheduled, outside))
        | inl salient ↦ elim (Bool-cases (ltb processor.budget_ms elapsed_ms)) [
          | inl late ↦
              deferred npc_id (record { may_act = may; not_key = key; salient = salient })
                (simp
                  (process_npc, may.known, may.not_background, key, may.scheduled, salient, late))
          | inr early ↦ acted npc_id may (
              simp (process_npc, may.known, may.not_background, key, may.scheduled, salient, early))
        ]
      ]

  pub process_npc-Outcome :
      (elapsed_ms : ℕ) (npc : Npc) (fired : List StepSignature)
      → Outcome npc fired (tick_for elapsed_ms npc fired)
  unfolding process_npc
  process_npc-Outcome elapsed_ms npc fired = elim (Option-cases npc.id) [
    | inl anonymous ↦ skipped (simp (process_npc, anonymous))
    | inr (npc_id, known) ↦ elim (Bool-cases (str_eq (tier_of ops npc) "background")) [
      | inl background ↦ skipped (simp (process_npc, known, background))
      | inr not_background ↦ elim (Bool-cases (has_schedule npc)) [
        | inl scheduled ↦
            let may : MayAct npc_id npc = record {
              known = known;
              not_background = not_background;
              scheduled = scheduled;
            } in
            elim (Bool-cases (str_eq (tier_of ops npc) "key")) [
              | inl key ↦ key_outcome elapsed_ms npc fired npc_id may key
              | inr key ↦ supporting_outcome elapsed_ms npc fired npc_id may key
            ]
        | inr idle ↦ elim (Bool-cases (str_eq (tier_of ops npc) "key")) [
          | inl key ↦ skipped (simp (process_npc, known, not_background, key, idle))
          | inr key ↦ skipped (simp (process_npc, known, not_background, key, idle))
        ]
      ]
    ]
  ]
