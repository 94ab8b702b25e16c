-- ===== src/Simulation/Autonomy/Process/Sound.antt =====
-- Which NPCs a tick defers and which it changes.
use fictional_barnacle.Prelude.{
  ℕ, ◌+◌, String, ◌≡◌, refl, sym, ap, subst, ◌∙◌, inl, inr, Option, none, some, List, [], ◌∷◌, ◌++◌,
  All-take, take, Any, All-append, All, Any-map_All, All-map, Any-const,
}
use fictional_barnacle.Simulation.Autonomy.Process.{
  DefaultAutonomyProcessor, Tick, join, llm_tick, nothing, process, process_llm_batch, process_npc,
  process_npcs,
}
use fictional_barnacle.Simulation.Autonomy.Process.Outcome.{
  MayAct, MayDefer, Outcome, acted, deferred, enlisted, process_npc-Outcome, skipped,
}
use fictional_barnacle.Simulation.Autonomy.Routine.{
  Npc, StepSignature, TextOperations, process_rule_based,
}
use fictional_barnacle.Simulation.Autonomy.Routine.Own.{process_rule_based-AreOf}
use fictional_barnacle.Simulation.WorldTime.{WorldTime}

Any-head : (P : Npc → Type 0) {npc : Npc} (npcs : List Npc) → Any P (npc ∷ []) → Any P (npc ∷ npcs)
Any-head P npcs (inl p) = inl p
Any-head P npcs (inr s) = absurd s

module _ (ops : TextOperations) (processor : DefaultAutonomyProcessor) (universe_id : String)
    (world_time : WorldTime) where
  -- Each deferral and each change of a tick is of an NPC that may be deferred, or may act.
  pub record IsAccounted (npcs : List Npc) (added : Tick) : Type 0 where
    pub deferrals :
        All
          (λ d. Any (MayDefer ops processor universe_id world_time d.npc_id) npcs)
          added.deferred_npcs
    pub changes_made :
        All (λ c. Any (MayAct ops processor universe_id world_time c.npc_id) npcs) added.changes

  -- The batch holds NPCs that may act under whatever name they have.
  abbrev IsEnlisted : List Npc → Npc → Type 0
  IsEnlisted npcs npc =
      (npc_id : String)
      → npc.id ≡ some npc_id
      → Any (MayAct ops processor universe_id world_time npc_id) npcs

  abbrev IsLoop : List Npc → Tick → Type 0
  IsLoop npcs added = IsAccounted npcs added × All (IsEnlisted npcs) added.key_llm_batch

  nothing-IsLoop : (npcs : List Npc) (fired : List StepSignature) → IsLoop npcs (nothing ops fired)
  nothing-IsLoop npcs fired = (record { deferrals = tt; changes_made = tt }, tt)

  first-IsLoop :
      (npc : Npc) (fired : List StepSignature) (added : Tick)
      → Outcome ops processor universe_id world_time npc fired added
      → IsLoop (npc ∷ []) added
  first-IsLoop npc fired added (skipped e) =
      subst (IsLoop (npc ∷ [])) (sym e) (nothing-IsLoop (npc ∷ []) fired)
  first-IsLoop npc fired added (acted npc_id may e) = subst (IsLoop (npc ∷ [])) (sym e) (
    record {
      deferrals = tt;
      changes_made =
          All-map (process_rule_based ops universe_id npc_id world_time npc fired).changes
            (λ c own.
              inl (subst (λ i. MayAct ops processor universe_id world_time i npc) (sym own) may))
            (process_rule_based-AreOf ops universe_id npc_id world_time npc fired);
    },
    tt,
  )
  first-IsLoop npc fired added (enlisted npc_id may e) = subst (IsLoop (npc ∷ [])) (sym e) (
    record { deferrals = tt; changes_made = tt },
    (
      (λ other known. inl (record {
        known = known;
        not_background = may.not_background;
        scheduled = may.scheduled;
      })),
      tt,
    ),
  )
  first-IsLoop npc fired added (deferred npc_id may e) =
      subst (IsLoop (npc ∷ [])) (sym e)
        (record { deferrals = (inl may, tt); changes_made = tt }, tt)

  join-IsLoop :
      (npc : Npc) (npcs : List Npc) (first rest : Tick)
      → IsLoop (npc ∷ []) first
      → IsLoop npcs rest
      → IsLoop (npc ∷ npcs) (join ops processor universe_id world_time first rest)
  join-IsLoop npc npcs first rest (a, batch) (b, batch') = (
    record {
      deferrals =
          All-append
            (λ d. Any (MayDefer ops processor universe_id world_time d.npc_id) (npc ∷ npcs))
            first.deferred_npcs rest.deferred_npcs
            (All-map first.deferred_npcs
              (λ d h. Any-head (MayDefer ops processor universe_id world_time d.npc_id) npcs h)
              a.deferrals)
            (All-map rest.deferred_npcs (λ d h. inr h) b.deferrals);
      changes_made =
          All-append (λ c. Any (MayAct ops processor universe_id world_time c.npc_id) (npc ∷ npcs))
            first.changes rest.changes
            (All-map first.changes
              (λ c h. Any-head (MayAct ops processor universe_id world_time c.npc_id) npcs h)
              a.changes_made)
            (All-map rest.changes (λ c h. inr h) b.changes_made);
    },
    All-append (IsEnlisted (npc ∷ npcs)) first.key_llm_batch rest.key_llm_batch
        (All-map first.key_llm_batch
          (λ n h i known. Any-head (MayAct ops processor universe_id world_time i) npcs (h i known))
          batch)
        (All-map rest.key_llm_batch (λ n h i known. inr (h i known)) batch'),
  )

  process_npcs-IsLoop :
      (elapsed_ms : ℕ → ℕ) (index : ℕ) (npcs : List Npc) (fired : List StepSignature)
      → IsLoop npcs (process_npcs ops processor universe_id world_time elapsed_ms index npcs fired)
  unfolding process_npcs
  process_npcs-IsLoop elapsed_ms index [] fired = nothing-IsLoop [] fired
  process_npcs-IsLoop elapsed_ms index (npc ∷ npcs) fired =
      let first = process_npc ops processor universe_id world_time (elapsed_ms index) npc fired in
      join-IsLoop npc npcs first
        (process_npcs ops processor universe_id world_time elapsed_ms (index + 1) npcs first.fired)
        (first-IsLoop npc fired first
          (process_npc-Outcome ops processor universe_id world_time (elapsed_ms index) npc fired))
        (process_npcs-IsLoop elapsed_ms (index + 1) npcs first.fired)

  llm_tick-own :
      (name : Option String) (npc : Npc) (fired : List StepSignature)
      → npc.id ≡ name
      → let added = llm_tick ops processor universe_id world_time name npc fired in
        (added.deferred_npcs ≡ []) × All (λ c. npc.id ≡ some c.npc_id) added.changes
  llm_tick-own none npc fired known = (refl, tt)
  llm_tick-own (some npc_id) npc fired known = (
    refl,
    All-map (process_rule_based ops universe_id npc_id world_time npc fired).changes
        (λ c own. known ∙ ap some (sym own))
        (process_rule_based-AreOf ops universe_id npc_id world_time npc fired),
  )

  -- The batch defers nobody, and what it changes is its own.
  process_llm_batch-own :
      (batch : List Npc) (fired : List StepSignature)
      → let added = process_llm_batch ops processor universe_id world_time batch fired in
        (added.deferred_npcs ≡ [])
        × All (λ c. Any (λ npc. npc.id ≡ some c.npc_id) batch) added.changes
  unfolding process_llm_batch
  process_llm_batch-own [] fired = (refl, tt)
  process_llm_batch-own (npc ∷ batch) fired =
      let first = llm_tick ops processor universe_id world_time npc.id npc fired in
      let rest = process_llm_batch ops processor universe_id world_time batch first.fired in
      let (none_deferred, own) = llm_tick-own npc.id npc fired refl in
      let (none_after, own') = process_llm_batch-own batch first.fired in
      (
        ap (λ ds. ds ++ rest.deferred_npcs) none_deferred ∙ none_after,
        All-append (λ c. Any (λ n. n.id ≡ some c.npc_id) (npc ∷ batch)) first.changes rest.changes
            (All-map first.changes (λ c h. inl h) own) (All-map rest.changes (λ c h. inr h) own'),
      )

  -- Whatever the budget, the clock, the tiers and the batch: a tick defers only NPCs that are
  -- neither background nor key, have a schedule and are in their window, and it changes only NPCs
  -- that are not background and have a schedule.
  pub process-IsAccounted :
      (elapsed_ms : ℕ → ℕ) (npcs : List Npc)
      → IsAccounted npcs ((process ops processor universe_id world_time elapsed_ms npcs).0)
  unfolding process
  process-IsAccounted elapsed_ms npcs =
      let fired = processor.fired_non_repeating_steps in
      let loop = process_npcs ops processor universe_id world_time elapsed_ms 0 npcs fired in
      let chosen = take processor.max_llm_npcs loop.key_llm_batch in
      let batch = process_llm_batch ops processor universe_id world_time chosen loop.fired in
      let (a, in_batch) = process_npcs-IsLoop elapsed_ms 0 npcs fired in
      let (none_deferred, own) = process_llm_batch-own chosen loop.fired in
      record {
        deferrals =
            subst
              (λ ds.
                All (λ d. Any (MayDefer ops processor universe_id world_time d.npc_id) npcs)
                  (loop.deferred_npcs ++ ds))
              (sym none_deferred)
              (All-append (λ d. Any (MayDefer ops processor universe_id world_time d.npc_id) npcs)
                loop.deferred_npcs [] a.deferrals tt);
        changes_made =
            All-append (λ c. Any (MayAct ops processor universe_id world_time c.npc_id) npcs)
              loop.changes batch.changes a.changes_made
              (All-map batch.changes
                (λ c named. Any-const chosen (
                  Any-map_All chosen
                    (All-take (IsEnlisted npcs) processor.max_llm_npcs loop.key_llm_batch in_batch)
                    named (λ npc is_enlisted known. is_enlisted c.npc_id known)))
                own);
      }
