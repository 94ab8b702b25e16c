-- ===== src/Choices/Service/Prune.antt =====
-- `prune_chains`.
pub mod Order
pub mod Cap
pub mod Least
use fictional_barnacle.Prelude.{
  ℕ, ◌+◌, ◌-◌, String, Bool, true, ◌&&◌, List, [], ◌∷◌, ◌++◌, map, leb, if◌then◌else◌, take, length,
  filter,
}
use fictional_barnacle.Prelude.Keyed.{is_one_of}
use fictional_barnacle.Choices.Chain.{
  ConsequenceChain, ConsequenceEntry, chain_prune_score, dormant, is_live, is_running, pruned,
}
use fictional_barnacle.Choices.Service.{InMemoryConsequenceService, chains_of, put_chains}

-- `current_turn - chain.last_active_turn >= 50`, for a chain that runs.
abbrev pub falls_asleep : ℕ → ConsequenceChain → Bool
falls_asleep turn c = is_running c && leb (c.last_active_turn + 50) turn

abbrev pub put_to_sleep : ConsequenceEntry → ConsequenceEntry
put_to_sleep e = if is_live e.status then record e { status = dormant } else e

-- The loop that marks dormant chains: each chain, and the closures.
abbrev pub mark_dormant : ℕ → ConsequenceChain → ConsequenceChain
mark_dormant turn c =
    if falls_asleep turn c
    then record c { is_dormant = true; entries = map put_to_sleep c.entries }
    else c

pub dormant_closures : ℕ → List ConsequenceChain → List String
dormant_closures turn cs = map (λ c. c.root_trigger) (filter (falls_asleep turn) cs)

-- `sorted(active, key=_chain_prune_score)`, which keeps the order of equals.
pub insert_chain : ConsequenceChain → List ConsequenceChain → List ConsequenceChain
insert_chain c [] = c ∷ []
insert_chain c (d ∷ ds) =
    if leb (chain_prune_score c) (chain_prune_score d) then c ∷ d ∷ ds else d ∷ insert_chain c ds

pub sort_chains : List ConsequenceChain → List ConsequenceChain
unfolding insert_chain
sort_chains [] = []
sort_chains (c ∷ cs) = insert_chain c (sort_chains cs)

-- `scored[:to_prune]`
abbrev pub to_prune : ℕ → List ConsequenceChain → List ConsequenceChain
to_prune max_chains running = take (length running - max_chains) (sort_chains running)

abbrev pub id_of : ConsequenceChain → ℕ
id_of c = c.id

abbrev pub prune_entry : ConsequenceEntry → ConsequenceEntry
prune_entry e = record e { status = pruned }

-- A chain with the identifier of one of the victims.
abbrev pub prune_if : List ConsequenceChain → ConsequenceChain → ConsequenceChain
prune_if victims c =
    if is_one_of id_of victims c then record c { entries = map prune_entry c.entries } else c

-- The result of the method, and the chains of the session after it.
pub record Pruning : Type 0 where
  pub pruned_ids : List ℕ
  pub closures : List String
  pub chains : List ConsequenceChain

pub prune_list : ℕ → ℕ → List ConsequenceChain → Pruning
unfolding dormant_closures sort_chains
prune_list turn max_chains cs =
    let marked = map (mark_dormant turn) cs in
    let running = filter is_running marked in
    let victims = to_prune max_chains running in
    if leb (length running) max_chains
    then record { pruned_ids = []; closures = dormant_closures turn cs; chains = marked }
    else record {
      pruned_ids = map id_of victims;
      closures = dormant_closures turn cs ++ map (λ c. c.root_trigger) victims;
      chains = map (prune_if victims) marked;
    }

-- `prune_chains`
unfoldable pub prune_chains :
    InMemoryConsequenceService → String → ℕ → ℕ → List ℕ × List String × InMemoryConsequenceService
unfolding prune_list
prune_chains s session turn max_chains =
    let p = prune_list turn max_chains (chains_of s session) in
    (p.pruned_ids, p.closures, put_chains s session p.chains)
