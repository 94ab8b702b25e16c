-- ===== src/Choices/Service/Tests.antt =====
-- A story with three chains, and the theorems at it.
use fictional_barnacle.Prelude.{
  ℕ, min, ◌≡◌, refl, true, false, none, some, [], ◌∷◌, map, arith, All, length,
}
use fictional_barnacle.Prelude.Dict.{insert, lookup}
use fictional_barnacle.Choices.Chain.{
  ConsequenceEntry, ConsequenceTimescale, ConsequenceVisibility, atmospheric, chain_prune_score,
  cosmetic, defining, hidden, immediate, is_resolved, is_running, long_term, moderate, pending,
  permanent, short_term, trivial, visible,
}
use fictional_barnacle.Choices.Service.{
  InMemoryConsequenceService, chains_of, create_chain, get_active_chains, new_service,
  resolve_chain, reveal_hidden_entry,
}
use fictional_barnacle.Choices.Service.Evaluate.{evaluate, should_activate}
use fictional_barnacle.Choices.Service.Evaluate.Due.{
  activate_chain, activation_of, due_entries, evaluate_activates,
}
use fictional_barnacle.Choices.Service.Prune.{prune_chains}
use fictional_barnacle.Choices.Service.Prune.Cap.{HaveDistinctIds, prune_chains_caps, still_running}
use fictional_barnacle.Choices.Service.Prune.Least.{has_id, is_split, prune_chains_least}

abbrev entry : ℕ → ConsequenceVisibility → ConsequenceTimescale → ConsequenceEntry
entry id visibility timescale = record {
  id = id;
  chain_id = 0;
  trigger = "the bridge fell";
  effect = "the village is cut off";
  visibility = visibility;
  status = pending;
  timescale = timescale;
  narrative_hook = "smoke in the hills";
  turn_created = 0;
  turn_resolved = none;
  parent_ids = [];
}

-- At turn 1 a bridge falls, at turn 2 a friend lies and a king dies.
abbrev story : InMemoryConsequenceService
story =
    let s1 =
      (create_chain new_service "s" "bridge"
        (entry 1 visible short_term ∷ entry 2 hidden short_term ∷ []) atmospheric moderate 1
        none).1 in
    let s2 =
      (create_chain s1 "s" "lie" (entry 3 visible immediate ∷ []) cosmetic trivial 2 none).1 in
    (create_chain s2 "s" "king" (entry 4 visible long_term ∷ []) defining permanent 2 none).1

at_turn_two : map (λ a. a.entry_id) (evaluate story "s" 2).0.world_changes ≡ 1 ∷ 3 ∷ []
unfolding evaluate create_chain new_service chains_of lookup insert should_activate is_resolved
at_turn_two = refl

evaluate_activates_example :
    let (result, s') = evaluate story "s" 2 in
    (result.world_changes ≡ map activation_of (due_entries 2 (chains_of story "s")))
    × (chains_of s' "s" ≡ map (activate_chain 2) (chains_of story "s"))
    × (chains_of s' "t" ≡ chains_of story "t")
evaluate_activates_example = evaluate_activates story "s" "t" 2 refl

story_ids : HaveDistinctIds (chains_of story "s")
unfolding create_chain new_service chains_of lookup insert
story_ids id = ground arith

pruned_first : (prune_chains story "s" 3 2).0 ≡ 0 ∷ []
unfolding prune_chains create_chain new_service chains_of lookup insert is_resolved
    chain_prune_score
pruned_first = refl

prune_chains_caps_example :
    let (pruned_ids, closures, s') = prune_chains story "s" 3 2 in
    length (get_active_chains s' "s") ≡ min 2 (length (still_running 3 (chains_of story "s")))
unfolding create_chain new_service chains_of
prune_chains_caps_example = prune_chains_caps story "s" 3 2 story_ids (refl, (refl, (refl, tt)))

prune_chains_least_example :
    let pruned_ids = (prune_chains story "s" 3 2).0 in
    (score : ℕ) × All
      (λ c. is_split score (has_id pruned_ids) c ≡ true)
      (still_running 3 (chains_of story "s"))
prune_chains_least_example = prune_chains_least story "s" 3 2 story_ids

-- A chain with a hidden entry is resolved at turn 3, and the entry then revealed at turn 4: the
-- chain runs again.
abbrev resolved_story : InMemoryConsequenceService
resolved_story = (resolve_chain story 0 3).1

ended : map is_running (chains_of resolved_story "s") ≡ false ∷ true ∷ true ∷ []
unfolding create_chain new_service chains_of lookup insert is_resolved resolve_chain
ended = refl

revived :
    map is_running (chains_of (reveal_hidden_entry resolved_story 2 (some 4)).1 "s")
    ≡ true ∷ true ∷ true ∷ []
unfolding create_chain new_service chains_of lookup insert is_resolved resolve_chain
    reveal_hidden_entry
revived = refl
