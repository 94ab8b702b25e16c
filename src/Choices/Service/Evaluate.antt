-- ===== src/Choices/Service/Evaluate.antt =====
-- `evaluate` of tta/choices/consequence_service.py.
pub mod Due
use fictional_barnacle.Prelude.{
  ℕ, ◌+◌, String, Bool, true, false, not, ◌&&◌, ◌||◌, List, [], ◌∷◌, ◌++◌, str_eq, ltb, ◌==◌, leb,
  if◌then◌else◌,
}
use fictional_barnacle.Choices.Chain.{
  ConsequenceChain, ConsequenceEntry, ConsequenceTimescale, active, immediate, is_foreshadowed,
  is_hidden, is_pending, is_resolved, long_term, short_term,
}
use fictional_barnacle.Choices.Service.{InMemoryConsequenceService, chains_of, put_chains}

-- The payload of the `WorldChange` of an activation.
pub record Activation : Type 0 where
  pub entry_id : ℕ
  pub chain_id : ℕ
  pub effect : String
  pub timescale : ConsequenceTimescale

-- `should_activate`; the elapsed turns can be negative.
unfoldable pub should_activate : ℕ → ConsequenceEntry → Bool
should_activate turn e = elim e.timescale [
  | immediate ↦ turn == e.turn_created
  | short_term ↦ leb (e.turn_created + 1) turn && leb turn (e.turn_created + 10)
  | long_term ↦ ltb (e.turn_created + 10) turn
]

-- What a round of the inner loop leaves: the entry, its world changes and its hints.
pub record Evaluated : Type 0 where
  pub entry : ConsequenceEntry
  pub changes : List Activation
  pub hints : List String

abbrev pub hook_of : ConsequenceEntry → List String
hook_of e = if str_eq e.narrative_hook "" then [] else e.narrative_hook ∷ []

-- The body of the inner loop.
pub evaluate_entry : ℕ → ConsequenceEntry → Evaluated
unfolding should_activate
evaluate_entry turn e =
    let change : Activation = record {
      entry_id = e.id;
      chain_id = e.chain_id;
      effect = e.effect;
      timescale = e.timescale;
    } in
    if not (is_pending e.status)
    then record { entry = e; changes = []; hints = [] }
    else if should_activate turn e
    then if is_hidden e.visibility
      then record { entry = e; changes = []; hints = hook_of e }
      else record { entry = record e { status = active }; changes = change ∷ []; hints = [] }
    else record {
      entry = e;
      changes = [];
      hints = if is_foreshadowed e.visibility then hook_of e else [];
    }

-- The inner loop.
pub record EvaluatedEntries : Type 0 where
  pub entries : List ConsequenceEntry
  pub changes : List Activation
  pub hints : List String

pub evaluate_entries : ℕ → List ConsequenceEntry → EvaluatedEntries
unfolding evaluate_entry
evaluate_entries turn [] = record { entries = []; changes = []; hints = [] }
evaluate_entries turn (e ∷ es) =
    let first = evaluate_entry turn e in
    let rest = evaluate_entries turn es in
    record {
      entries = first.entry ∷ rest.entries;
      changes = first.changes ++ rest.changes;
      hints = first.hints ++ rest.hints;
    }

-- `EvaluateResult`, and the chains with what was changed in them.
pub record EvaluateResult : Type 0 where
  pub chains : List ConsequenceChain
  pub chain_updates : List ConsequenceChain
  pub world_changes : List Activation
  pub hints : List String

abbrev pub is_empty {ℓ} : {A : Type ℓ} → List A → Bool
is_empty [] = true
is_empty (x ∷ xs) = false

-- The chain after the inner loop.
abbrev pub touched : ℕ → ConsequenceChain → EvaluatedEntries → ConsequenceChain
touched turn c es = record c {
  entries = es.entries;
  last_active_turn = if is_empty es.changes then c.last_active_turn else turn;
}

-- The outer loop.
pub evaluate_chains : ℕ → List ConsequenceChain → EvaluateResult
unfolding evaluate_entries
evaluate_chains turn [] = record { chains = []; chain_updates = []; world_changes = []; hints = [] }
evaluate_chains turn (c ∷ cs) =
    let rest = evaluate_chains turn cs in
    let es = evaluate_entries turn c.entries in
    let c' = touched turn c es in
    if is_resolved c || c.is_dormant then record rest { chains = c ∷ rest.chains } else record {
      chains = c' ∷ rest.chains;
      chain_updates = if is_empty es.changes then rest.chain_updates else c' ∷ rest.chain_updates;
      world_changes = es.changes ++ rest.world_changes;
      hints = es.hints ++ rest.hints;
    }

-- `evaluate`
unfoldable pub evaluate :
    InMemoryConsequenceService → String → ℕ → EvaluateResult × InMemoryConsequenceService
unfolding evaluate_chains
evaluate s session_id turn =
    let result = evaluate_chains turn (chains_of s session_id) in
    (result, put_chains s session_id result.chains)
