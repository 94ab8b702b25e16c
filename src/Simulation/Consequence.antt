-- ===== src/Simulation/Consequence.antt =====
-- tta/simulation/consequence.py, with the types of tta/simulation/types.py. Descriptions are lists
-- of code points. The identifier of a record is the number of the `uuid4` that was drawn for it.
pub mod Severity
pub mod Records
mod Tests
use fictional_barnacle.Prelude.{
  ℕ, zero, suc, ◌/◌, ◌%◌, max, String, Bool, not, ◌&&◌, ◌||◌, Option, none, some, List, [], ◌∷◌,
  ◌++◌, str_eq, text_append, ltb, ◌==◌, leb, if◌then◌else◌, get_or, any, take, length, get_elem?,
}
use fictional_barnacle.Prelude.Texts.{codes, member}

-- `EventSeverity`
pub data EventSeverity : Type 0 where
  minor notable major critical : EventSeverity

-- `PropagationSource`
pub record PropagationSource : Type 0 where
  pub source_event_id : String
  pub source_type : String
  pub source_location_id : String
  pub original_severity : EventSeverity
  pub description : List ℕ
  pub faction_id : Option String
  pub affected_entity_id : Option String
  pub affected_entity_type : Option String

-- `ConsequenceRecord`, less the time of its creation.
pub record ConsequenceRecord : Type 0 where
  pub consequence_id : ℕ
  pub universe_id : String
  pub source_event_id : String
  pub source_type : String
  pub source_location_id : String
  pub affected_entity_id : String
  pub affected_entity_type : String
  pub hop_distance : ℕ
  pub original_severity : EventSeverity
  pub propagated_severity : EventSeverity
  pub description : List ℕ
  pub triggered_at_tick : ℕ
  pub faction_id : Option String

-- `PropagationResult`
pub record PropagationResult : Type 0 where
  pub source_event_id : String
  pub records : List ConsequenceRecord
  pub faction_records : List ConsequenceRecord
  pub total_records : ℕ
  pub propagation_depth_reached : ℕ
  pub skipped_minor : ℕ
  pub budget_exceeded : Bool

-- `_DECAY`
abbrev pub decay_path : EventSeverity → List EventSeverity
decay_path critical = major ∷ notable ∷ minor ∷ []
decay_path major = notable ∷ minor ∷ []
decay_path notable = minor ∷ []
decay_path minor = []

-- `_decay_severity`
pub decay_severity : EventSeverity → ℕ → Option EventSeverity
decay_severity original zero = some original
decay_severity original (suc idx) = get_elem? (decay_path original) idx

-- The characters that `rstrip` removes.
pub is_space : ℕ → Bool
is_space c =
    (leb 9 c && leb c 13)
    || (leb 28 c && leb c 32)
    || any (λ s. c == s) (133 ∷ 160 ∷ 5760 ∷ 8232 ∷ 8233 ∷ 8239 ∷ 8287 ∷ 12288 ∷ [])
    || (leb 8192 c && leb c 8202)

-- `rstrip`
pub rstrip : List ℕ → List ℕ
rstrip [] = []
rstrip (c ∷ cs) =
    let rest = rstrip cs in
    elim rest [ [] ↦ if is_space c then [] else c ∷ [] | d ∷ ds ↦ c ∷ d ∷ ds ]

-- `_fidelity_description`
pub fidelity_description : List ℕ → ℕ → List ℕ
unfolding rstrip is_space
fidelity_description description hop =
    if leb hop 1
    then description
    else if hop == 2
    then if leb (length description) 60
      then description
      else codes "Word has reached here that " ++ (rstrip (take 60 description) ++ codes "…")
    else codes "There are vague rumors of " ++ (rstrip (take 40 description) ++ codes "…")

-- A number in an f-string.
unfoldable pub decimal : ℕ → ℕ → String
decimal zero n = "?"
decimal (suc fuel) n =
    let last =
      get_or ("0" ∷ "1" ∷ "2" ∷ "3" ∷ "4" ∷ "5" ∷ "6" ∷ "7" ∷ "8" ∷ "9" ∷ []) (n % 10) "?" in
    let front = decimal fuel (n / 10) in if ltb n 10 then last else text_append front last

-- `f"physical:{source.source_location_id}:hop{hop}"`
pub physical_entity_id : String → ℕ → String
unfolding decimal
physical_entity_id location hop =
    text_append "physical:" (text_append location (text_append ":hop" (decimal (suc hop) hop)))

-- `f"faction:{source.faction_id}"`
pub faction_entity_id : String → String
faction_entity_id faction = text_append "faction:" faction

-- `_make_record`, with the universe and the tick.
pub make_record :
    PropagationSource
    → String
    → ℕ
    → ℕ
    → String
    → String
    → ℕ
    → EventSeverity
    → List ℕ
    → ConsequenceRecord
make_record source universe_id tick drawn entity_id entity_type hop severity description = record {
  consequence_id = drawn;
  universe_id = universe_id;
  source_event_id = source.source_event_id;
  source_type = source.source_type;
  source_location_id = source.source_location_id;
  affected_entity_id = entity_id;
  affected_entity_type = entity_type;
  hop_distance = hop;
  original_severity = source.original_severity;
  propagated_severity = severity;
  description = description;
  triggered_at_tick = tick;
  faction_id = source.faction_id;
}

-- The local variables of `_propagate_one`, and how many identifiers have been drawn.
pub record Progress : Type 0 where
  pub records : List ConsequenceRecord
  pub faction_records : List ConsequenceRecord
  pub seen_entity_ids : List String
  pub max_hop_reached : ℕ
  pub drawn : ℕ

module _ (source : PropagationSource) (universe_id : String) (tick : ℕ) where
  -- Adding a record for an entity that has none yet, to the physical ones or to the faction's.
  pub add_physical : ℕ → EventSeverity → Progress → Progress
  unfolding make_record physical_entity_id fidelity_description
  add_physical hop decayed p =
      let entity = physical_entity_id source.source_location_id hop in
      let made =
        make_record source universe_id tick p.drawn entity "location" hop decayed
          (fidelity_description source.description hop) in
      if member entity p.seen_entity_ids then p else record p {
        records = p.records ++ made ∷ [];
        seen_entity_ids = entity ∷ p.seen_entity_ids;
        drawn = suc p.drawn;
      }

  pub add_faction : String → EventSeverity → Progress → Progress
  unfolding make_record faction_entity_id fidelity_description
  add_faction faction decayed p =
      let entity = faction_entity_id faction in
      let made =
        make_record source universe_id tick p.drawn entity "faction" 1 decayed
          (fidelity_description source.description 1) in
      if member entity p.seen_entity_ids then p else record p {
        faction_records = p.faction_records ++ made ∷ [];
        seen_entity_ids = entity ∷ p.seen_entity_ids;
        drawn = suc p.drawn;
      }

  -- `source.faction_id` is tested for truth: an empty text is no faction.
  pub faction_step : ℕ → EventSeverity → Progress → Progress
  unfolding add_faction
  faction_step hop decayed p = elim source.faction_id [
    | none ↦ p
    | some faction ↦
        if hop == 1 && not (str_eq faction "") then add_faction faction decayed p else p
  ]

  -- The `for` loop over the hops, by the rounds that are left; `break` where nothing is left of the
  -- severity.
  pub walk : ℕ → ℕ → Progress → Progress
  unfolding decay_severity add_physical faction_step
  walk zero hop p = p
  walk (suc rounds) hop p = elim (decay_severity source.original_severity hop) [
    | none ↦ p
    | some decayed ↦
        walk rounds (suc hop)
          (faction_step hop decayed (add_physical hop decayed (record p { max_hop_reached = hop })))
  ]

  abbrev pub nothing : Progress
  nothing = record {
    records = [];
    faction_records = [];
    seen_entity_ids = [];
    max_hop_reached = 0;
    drawn = 0;
  }

  -- `source.affected_entity_type or "unknown"`
  abbrev pub entity_type_of : Option String → String
  entity_type_of none = "unknown"
  entity_type_of (some t) = if str_eq t "" then "unknown" else t

  -- The record of hop 0.
  pub start_at : String → Progress
  unfolding make_record
  start_at entity = record nothing {
    records =
        make_record source universe_id tick 0 entity (entity_type_of source.affected_entity_type) 0
          source.original_severity source.description
        ∷ [];
    seen_entity_ids = entity ∷ [];
    drawn = 1;
  }

  -- The end of `_propagate_one`.
  abbrev pub result_of : Bool → Progress → PropagationResult
  result_of budget_exceeded p = record {
    source_event_id = source.source_event_id;
    records = p.records;
    faction_records = p.faction_records;
    total_records = length (p.records ++ p.faction_records);
    propagation_depth_reached = p.max_hop_reached;
    skipped_minor = 0;
    budget_exceeded = budget_exceeded;
  }

  -- The tests `if source.affected_entity_id`, and the loop if the budget allows it.
  pub progress_of : ℕ → Bool → Progress
  unfolding start_at walk
  progress_of max_depth budget_exceeded = elim source.affected_entity_id [
    | none ↦ nothing
    | some entity ↦
        if str_eq entity ""
        then nothing
        else if budget_exceeded
        then start_at entity
        else walk max_depth 1 (start_at entity)
  ]

  -- The early return for a minor event, and else the end of the method.
  pub finish : EventSeverity → Bool → Progress → PropagationResult
  finish minor budget_exceeded p = record {
    source_event_id = source.source_event_id;
    records = [];
    faction_records = [];
    total_records = 0;
    propagation_depth_reached = 0;
    skipped_minor = 1;
    budget_exceeded = budget_exceeded;
  }
  finish notable budget_exceeded p = result_of budget_exceeded p
  finish major budget_exceeded p = result_of budget_exceeded p
  finish critical budget_exceeded p = result_of budget_exceeded p

  -- `_propagate_one`
  pub propagate_one : ℕ → Bool → PropagationResult
  unfolding progress_of finish
  propagate_one max_depth budget_exceeded =
      finish source.original_severity budget_exceeded (progress_of max_depth budget_exceeded)

-- `DefaultConsequencePropagator.__init__`: a depth of 0 is treated as 1.
pub max_depth_of : ℕ → ℕ
max_depth_of max_depth = max 1 max_depth

-- `DefaultConsequencePropagator.propagate`; a source comes with the milliseconds that have passed
-- when it is reached.
pub propagate : ℕ → String → ℕ → ℕ → List (ℕ × PropagationSource) → List PropagationResult
unfolding propagate_one max_depth_of
propagate max_depth universe_id tick budget_ms [] = []
propagate max_depth universe_id tick budget_ms ((elapsed_ms, source) ∷ sources) =
    propagate_one source universe_id tick (max_depth_of max_depth) (ltb budget_ms elapsed_ms)
    ∷ propagate max_depth universe_id tick budget_ms sources
