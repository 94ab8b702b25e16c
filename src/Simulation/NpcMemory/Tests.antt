-- ===== src/Simulation/NpcMemory/Tests.antt =====
-- Gossip among four people, and the theorems at it.
use fictional_barnacle.Prelude.{
  ℕ, ◌+◌, String, ◌≡◌, refl, false, ◌&&◌, none, some, [], ◌∷◌, map, All,
}
use fictional_barnacle.Simulation.NpcMemory.{
  NpcEpisodicMemory, NpcSocialEdge, Writer, new_writer, propagate_gossip, record_episode, spread,
}
use fictional_barnacle.Simulation.NpcMemory.Context.{
  IsDescending, count_of, get_npc_context, get_npc_context-IsDescending, is_recalled,
}
use fictional_barnacle.Simulation.NpcMemory.Delivery.{
  IsGossip, events_to, has_seen, propagate_gossip-IsGossip,
}
use fictional_barnacle.Simulation.NpcMemory.Ends.{spread_ends}
use fictional_barnacle.Simulation.NpcMemory.Repeat.{propagate_gossip_repeats}

abbrev edge : String → String → ℕ → NpcSocialEdge
edge source target weight = record {
  source_npc_id = source;
  target_id = target;
  universe_id = "u";
  gossip_weight = weight;
}

-- The smith does not know the guard well enough.
abbrev village : Writer
village = record new_writer {
  edges =
      edge "baker" "miller" 50
      ∷ edge "miller" "smith" 40
      ∷ edge "smith" "baker" 90
      ∷ edge "miller" "guard" 10
      ∷ [];
  drawn = 5;
}

abbrev sighting : NpcEpisodicMemory
sighting = record {
  episode_id = 1;
  npc_id = "baker";
  universe_id = "u";
  session_id = "s";
  turn_number = 3;
  world_time_tick = 8;
  source_memory_id = none;
  consequence_id = none;
  player_id = "p";
  content = "a wolf";
  importance_score = (1, 2);
  is_gossip = false;
  gossip_source_npc_id = none;
}

hearers :
    map (λ e. e.receiver_npc_id) (propagate_gossip sighting village none none).0
    ≡ "miller" ∷ "smith" ∷ []
unfolding propagate_gossip
hearers = refl

told :
    map (λ e. e.content) (propagate_gossip sighting village none none).0
    ≡ "Word is going around that a wolf" ∷ "Someone mentioned that Word is going around that a wolf"
      ∷ []
unfolding propagate_gossip
told = refl

propagate_gossip-IsGossip_example :
    let (new_events, w') = propagate_gossip sighting village none (some 20) in
    All (IsGossip sighting 2) new_events
    × (events_to "smith" new_events + has_seen sighting "smith" village
        ≡ has_seen sighting "smith" w')
    × (w'.edges ≡ village.edges)
propagate_gossip-IsGossip_example =
    propagate_gossip-IsGossip sighting village none (some 20) "smith"

spread_ends_example : (spread sighting village (some 4) none).queue ≡ []
spread_ends_example = spread_ends sighting village (some 4) none

propagate_gossip_repeats_example :
    let w' = (propagate_gossip sighting village none none).1 in
    propagate_gossip sighting w' none none ≡ ([], w')
propagate_gossip_repeats_example = propagate_gossip_repeats sighting village none none

-- The miller after the gossip, and after something that matters less.
abbrev after_gossip : Writer
after_gossip =
    (record_episode (propagate_gossip sighting village none none).1
      (record sighting { npc_id = "miller"; importance_score = (1, 4) })).1

recalled_by_miller :
    map (λ e. e.importance_score) (get_npc_context after_gossip "miller" "u" "s" "p" "KEY").episodes
    ≡ (8, 20) ∷ (1, 4) ∷ []
unfolding get_npc_context propagate_gossip record_episode
recalled_by_miller = refl

get_npc_context-IsDescending_example :
    let context = get_npc_context after_gossip "miller" "u" "s" "p" "KEY" in
    IsDescending context.episodes
    × (count_of (λ e. e.is_gossip) context.episodes
        ≡ count_of (λ e. is_recalled "miller" "u" "s" "KEY" e && e.is_gossip) after_gossip.episodes)
get_npc_context-IsDescending_example =
    get_npc_context-IsDescending after_gossip "miller" "u" "s" "p" "KEY" (λ e. e.is_gossip)
