-- ===== src/Choices/Chain.antt =====
-- tta/models/consequence.py and the enumerations of tta/models/choice.py that it uses, with the
-- score of tta/choices/consequence_service.py. Identifiers are the numbers of the `uuid4` that were
-- drawn for them; times of creation are left out.
use fictional_barnacle.Prelude.{
  ℕ, ◌+◌, max, String, Bool, true, false, not, ◌&&◌, Option, List, [], ◌∷◌, if◌then◌else◌, ltb, any,
  length, filter,
}

-- `ImpactLevel`
pub data ImpactLevel : Type 0 where
  cosmetic atmospheric consequential pivotal defining : ImpactLevel

-- `Reversibility`
pub data Reversibility : Type 0 where
  trivial moderate significant permanent : Reversibility

-- `ConsequenceTimescale`
pub data ConsequenceTimescale : Type 0 where
  immediate short_term long_term : ConsequenceTimescale

-- `ConsequenceVisibility`
pub data ConsequenceVisibility : Type 0 where
  visible foreshadowed hidden : ConsequenceVisibility

-- `ConsequenceStatus`
pub data ConsequenceStatus : Type 0 where
  pending active resolved dormant pruned : ConsequenceStatus

-- `ConsequenceEntry`
pub record ConsequenceEntry : Type 0 where
  pub id : ℕ
  pub chain_id : ℕ
  pub trigger : String
  pub effect : String
  pub visibility : ConsequenceVisibility
  pub status : ConsequenceStatus
  pub timescale : ConsequenceTimescale
  pub narrative_hook : String
  pub turn_created : ℕ
  pub turn_resolved : Option ℕ
  pub parent_ids : List ℕ

-- `ConsequenceChain`
pub record ConsequenceChain : Type 0 where
  pub id : ℕ
  pub session_id : String
  pub root_trigger : String
  pub entries : List ConsequenceEntry
  pub parent_chain_id : Option ℕ
  pub reversibility : Reversibility
  pub impact_level : ImpactLevel
  pub turn_created : ℕ
  pub last_active_turn : ℕ
  pub is_dormant : Bool

-- `MAX_ACTIVE_CHAINS`
abbrev pub max_active_chains : ℕ
max_active_chains = 30

abbrev pub is_pending : ConsequenceStatus → Bool
is_pending pending = true
is_pending _ = false

-- `status in (PENDING, ACTIVE)`
abbrev pub is_live : ConsequenceStatus → Bool
is_live pending = true
is_live active = true
is_live _ = false

-- `status in (RESOLVED, PRUNED)`
abbrev pub is_over : ConsequenceStatus → Bool
is_over resolved = true
is_over pruned = true
is_over _ = false

abbrev pub is_hidden : ConsequenceVisibility → Bool
is_hidden hidden = true
is_hidden _ = false

abbrev pub is_foreshadowed : ConsequenceVisibility → Bool
is_foreshadowed foreshadowed = true
is_foreshadowed _ = false

abbrev pub is_long_term : ConsequenceTimescale → Bool
is_long_term long_term = true
is_long_term _ = false

-- `active_entries`
pub active_entries : ConsequenceChain → List ConsequenceEntry
active_entries chain = filter (λ e. is_live e.status) chain.entries

-- `all(e.status in (RESOLVED, PRUNED) for e in self.entries)`
abbrev pub all_over : List ConsequenceEntry → Bool
all_over [] = true
all_over (e ∷ es) = is_over e.status && all_over es

-- `is_resolved`
unfoldable pub is_resolved : ConsequenceChain → Bool
is_resolved chain = all_over chain.entries && ltb 0 (length chain.entries)

-- `not c.is_resolved and not c.is_dormant`
abbrev pub is_running : ConsequenceChain → Bool
is_running chain = not (is_resolved chain) && not chain.is_dormant

-- `_PRUNE_PRIORITY`. The priority of a pruned entry is -1 in the source; it stands here as 0, since
-- it is the greatest only in a chain that is resolved.
abbrev pub prune_priority : ConsequenceStatus → ℕ
prune_priority resolved = 0
prune_priority dormant = 1
prune_priority pruned = 0
prune_priority active = 3
prune_priority pending = 4

-- `max(…, default=0)`
pub greatest_priority : List ConsequenceEntry → ℕ
greatest_priority [] = 0
greatest_priority (e ∷ es) = max (prune_priority e.status) (greatest_priority es)

abbrev pub is_momentous : ImpactLevel → Bool
is_momentous defining = true
is_momentous pivotal = true
is_momentous _ = false

abbrev pub is_permanent : Reversibility → Bool
is_permanent permanent = true
is_permanent _ = false

-- `_chain_prune_score`
unfoldable pub chain_prune_score : ConsequenceChain → ℕ
unfolding greatest_priority is_resolved
chain_prune_score chain =
    let base = greatest_priority chain.entries in
    let waiting = any (λ e. is_long_term e.timescale && is_pending e.status) chain.entries in
    if is_resolved chain
    then 0
    else base
      + (if waiting then 10 else 0)
      + (if is_momentous chain.impact_level then 10 else 0)
      + (if is_permanent chain.reversibility then 5 else 0)
