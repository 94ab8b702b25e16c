-- ===== src/Choices/Service.antt =====
-- `InMemoryConsequenceService` of tta/choices/consequence_service.py. A chain is told from others
-- by its identifier, and what a method changes in place is in the service that it returns.
pub mod Sessions
pub mod Evaluate
pub mod Prune
mod Tests
use fictional_barnacle.Prelude.{
  ℕ, suc, String, Bool, true, false, not, ◌&&◌, ◌||◌, Option, none, some, List, [], ◌∷◌, ◌++◌, map,
  str_eq, ◌==◌, if◌then◌else◌, filter,
}
use fictional_barnacle.Prelude.Dict.{Dict, insert, lookup}
use fictional_barnacle.Choices.Chain.{
  ConsequenceChain, ConsequenceEntry, ImpactLevel, Reversibility, active, is_foreshadowed,
  is_hidden, is_live, is_pending, is_resolved, is_running, resolved, visible,
}

-- `NarrativeAnchor`
pub record NarrativeAnchor : Type 0 where
  pub id : ℕ
  pub session_id : String
  pub description : String
  pub target_turn : Option ℕ
  pub is_active : Bool
  pub is_reached : Bool

-- `InMemoryConsequenceService`, and how many identifiers have been drawn.
pub record InMemoryConsequenceService : Type 0 where
  pub chains : Dict (List ConsequenceChain)
  pub anchors : Dict (List NarrativeAnchor)
  pub drawn : ℕ

-- `__init__`
unfoldable pub new_service : InMemoryConsequenceService
new_service = record { chains = []; anchors = []; drawn = 0 }

-- `self._chains.get(session_id, [])`
unfoldable pub chains_of : InMemoryConsequenceService → String → List ConsequenceChain
unfolding lookup
chains_of s session_id = elim (lookup session_id s.chains) [ none ↦ [] | some cs ↦ cs ]

-- The chains of a session are replaced by what a method makes of them; a session without chains
-- stays so.
unfoldable pub put_chains :
    InMemoryConsequenceService → String → List ConsequenceChain → InMemoryConsequenceService
unfolding lookup insert
put_chains s session_id cs = elim (lookup session_id s.chains) [
  | none ↦ s
  | some old ↦ record s { chains = insert session_id cs s.chains }
]

-- Fixing an entry to its chain.
abbrev pub attach : ℕ → ℕ → ConsequenceEntry → ConsequenceEntry
attach chain_id turn e = record e { chain_id = chain_id; turn_created = turn }

-- `create_chain`
unfoldable pub create_chain :
    InMemoryConsequenceService
    → String
    → String
    → List ConsequenceEntry
    → ImpactLevel
    → Reversibility
    → ℕ
    → Option ℕ
    → ConsequenceChain × InMemoryConsequenceService
unfolding chains_of insert
create_chain s session_id root_trigger entries impact_level reversibility turn parent_chain_id =
    let chain : ConsequenceChain = record {
      id = s.drawn;
      session_id = session_id;
      root_trigger = root_trigger;
      entries = map (attach s.drawn turn) entries;
      parent_chain_id = parent_chain_id;
      reversibility = reversibility;
      impact_level = impact_level;
      turn_created = turn;
      last_active_turn = turn;
      is_dormant = false;
    } in
    (
      chain,
      record s {
        chains = insert session_id (chains_of s session_id ++ chain ∷ []) s.chains;
        drawn = suc s.drawn;
      },
    )

-- `get_active_chains`
unfoldable pub get_active_chains : InMemoryConsequenceService → String → List ConsequenceChain
get_active_chains s session_id = filter is_running (chains_of s session_id)

-- The body of the loops of `resolve_chain`.
abbrev pub resolve_entry : ℕ → ConsequenceEntry → ConsequenceEntry
resolve_entry turn e =
    if is_live e.status then record e { status = resolved; turn_resolved = some turn } else e

-- The first chain with the identifier, and what is left of the list with it changed.
pub change_chain :
    ℕ
    → (ConsequenceChain → ConsequenceChain)
    → List ConsequenceChain
    → Option (ConsequenceChain × List ConsequenceChain)
change_chain id f [] = none
change_chain id f (c ∷ cs) =
    let rest = change_chain id f cs in
    if c.id == id
    then some (f c, f c ∷ cs)
    else elim rest [ none ↦ none | some (d, ds) ↦ some (d, c ∷ ds) ]

-- The same, in the sessions in their order.
pub change_in_sessions :
    ℕ
    → (ConsequenceChain → ConsequenceChain)
    → Dict (List ConsequenceChain)
    → Option (ConsequenceChain × Dict (List ConsequenceChain))
unfolding change_chain
change_in_sessions id f [] = none
change_in_sessions id f ((session, cs) ∷ d) =
    let rest = change_in_sessions id f d in
    elim (change_chain id f cs) [
      | some (c, cs') ↦ some (c, (session, cs') ∷ d)
      | none ↦ elim rest [ none ↦ none | some (c, d') ↦ some (c, (session, cs) ∷ d') ]
    ]

-- `resolve_chain`
pub resolve_chain :
    InMemoryConsequenceService → ℕ → ℕ → Option ConsequenceChain × InMemoryConsequenceService
unfolding change_in_sessions
resolve_chain s chain_id turn =
    elim (change_in_sessions chain_id
      (λ c. record c { entries = map (resolve_entry turn) c.entries }) s.chains) [
        | none ↦ (none, s)
        | some (c, chains) ↦ (some c, record s { chains = chains })
      ]

-- `reveal_hidden_entry` on the entries of a chain: the entry that is revealed, and the entries with
-- it.
pub reveal_in : ℕ → List ConsequenceEntry → Option (ConsequenceEntry × List ConsequenceEntry)
reveal_in entry_id [] = none
reveal_in entry_id (e ∷ es) =
    let rest = reveal_in entry_id es in
    let shown = record e { visibility = visible; status = active } in
    if e.id == entry_id && is_hidden e.visibility
    then some (shown, shown ∷ es)
    else elim rest [ none ↦ none | some (f, fs) ↦ some (f, e ∷ fs) ]

-- `if turn is not None: chain.last_active_turn = turn`
abbrev pub turn_or : Option ℕ → ℕ → ℕ
turn_or none last = last
turn_or (some turn) last = turn

pub reveal_in_chains :
    ℕ → Option ℕ → List ConsequenceChain → Option (ConsequenceEntry × List ConsequenceChain)
unfolding reveal_in
reveal_in_chains entry_id turn [] = none
reveal_in_chains entry_id turn (c ∷ cs) =
    let rest = reveal_in_chains entry_id turn cs in
    elim (reveal_in entry_id c.entries) [
      | some (e, es) ↦
          some
            (e, record c { entries = es; last_active_turn = turn_or turn c.last_active_turn } ∷ cs)
      | none ↦ elim rest [ none ↦ none | some (e, ds) ↦ some (e, c ∷ ds) ]
    ]

pub reveal_in_sessions :
    ℕ
    → Option ℕ
    → Dict (List ConsequenceChain)
    → Option (ConsequenceEntry × Dict (List ConsequenceChain))
unfolding reveal_in_chains
reveal_in_sessions entry_id turn [] = none
reveal_in_sessions entry_id turn ((session, cs) ∷ d) =
    let rest = reveal_in_sessions entry_id turn d in
    elim (reveal_in_chains entry_id turn cs) [
      | some (e, cs') ↦ some (e, (session, cs') ∷ d)
      | none ↦ elim rest [ none ↦ none | some (e, d') ↦ some (e, (session, cs) ∷ d') ]
    ]

-- `reveal_hidden_entry`
pub reveal_hidden_entry :
    InMemoryConsequenceService → ℕ → Option ℕ → Option ConsequenceEntry × InMemoryConsequenceService
unfolding reveal_in_sessions
reveal_hidden_entry s entry_id turn = elim (reveal_in_sessions entry_id turn s.chains) [
  | none ↦ (none, s)
  | some (e, chains) ↦ (some e, record s { chains = chains })
]

-- The hints of a chain: those of its pending entries that are not visible and have a hook.
abbrev pub hint_of : ConsequenceEntry → List String
hint_of e =
    if (is_hidden e.visibility || is_foreshadowed e.visibility)
      && (is_pending e.status && not (str_eq e.narrative_hook ""))
    then e.narrative_hook ∷ []
    else []

pub hints_of_entries : List ConsequenceEntry → List String
hints_of_entries [] = []
hints_of_entries (e ∷ es) = hint_of e ++ hints_of_entries es

pub hints_of_chains : List ConsequenceChain → List String
unfolding hints_of_entries
hints_of_chains [] = []
hints_of_chains (c ∷ cs) =
    (if is_resolved c || c.is_dormant then [] else hints_of_entries c.entries) ++ hints_of_chains cs

-- `get_foreshadowing_hints`
pub get_foreshadowing_hints : InMemoryConsequenceService → String → List String
unfolding hints_of_chains
get_foreshadowing_hints s session_id = hints_of_chains (chains_of s session_id)

-- `self._anchors.get(session_id, [])`
pub anchors_of : InMemoryConsequenceService → String → List NarrativeAnchor
unfolding lookup
anchors_of s session_id = elim (lookup session_id s.anchors) [ none ↦ [] | some xs ↦ xs ]

-- `add_anchor`
pub add_anchor :
    InMemoryConsequenceService
    → String
    → String
    → Option ℕ
    → NarrativeAnchor × InMemoryConsequenceService
unfolding anchors_of insert
add_anchor s session_id description target_turn =
    let anchor : NarrativeAnchor = record {
      id = s.drawn;
      session_id = session_id;
      description = description;
      target_turn = target_turn;
      is_active = true;
      is_reached = false;
    } in
    (
      anchor,
      record s {
        anchors = insert session_id (anchors_of s session_id ++ anchor ∷ []) s.anchors;
        drawn = suc s.drawn;
      },
    )

-- `get_active_anchors`
pub get_active_anchors : InMemoryConsequenceService → String → List NarrativeAnchor
unfolding anchors_of
get_active_anchors s session_id =
    filter (λ a. a.is_active && not a.is_reached) (anchors_of s session_id)
