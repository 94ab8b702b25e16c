-- ===== src/Simulation/NpcMemory.antt =====
-- `InMemorySocialMemoryWriter` of tta/simulation/npc_memory.py, with the types of
-- tta/simulation/types.py. Identifiers are the numbers of the ULIDs that were drawn for them,
-- reliabilities are in tenths, a weight is the percentage that it is compared as, and an importance
-- is a fraction.
pub mod Delivery
pub mod Ends
pub mod Repeat
pub mod Context
mod Tests
use fictional_barnacle.Prelude.{
  ℕ, zero, suc, ◌+◌, ◌-◌, ◌*◌, ◌%◌, String, Bool, true, ◌&&◌, Option, none, some, List, [], ◌∷◌,
  ◌++◌, str_eq, text_append, if◌then◌else◌, ltb, ◌==◌, leb, any, get_or, length, filter,
}

-- `NPCEpisodicMemory`, less its valence, relationship change and time of creation.
pub record NpcEpisodicMemory : Type 0 where
  pub episode_id : ℕ
  pub npc_id : String
  pub universe_id : String
  pub session_id : String
  pub turn_number : ℕ
  pub world_time_tick : ℕ
  pub source_memory_id : Option String
  pub consequence_id : Option String
  pub player_id : String
  pub content : String
  pub importance_score : ℕ × ℕ
  pub is_gossip : Bool
  pub gossip_source_npc_id : Option String

-- `NPCSocialEdge`, less its dimensions and time.
pub record NpcSocialEdge : Type 0 where
  pub source_npc_id : String
  pub target_id : String
  pub universe_id : String
  pub gossip_weight : ℕ

-- `GossipEvent`, less its time of creation.
pub record GossipEvent : Type 0 where
  pub gossip_id : ℕ
  pub universe_id : String
  pub originating_episode_id : ℕ
  pub sender_npc_id : String
  pub receiver_npc_id : String
  pub content : String
  pub hop_count : ℕ
  pub reliability : ℕ
  pub session_id : String
  pub world_time_tick : ℕ

-- `InMemorySocialMemoryWriter.__init__`, and how many identifiers have been drawn. The key of an
-- edge is made of its own fields.
pub record Writer : Type 0 where
  pub episodes : List NpcEpisodicMemory
  pub edges : List NpcSocialEdge
  pub gossip : List GossipEvent
  pub seen_gossip : List (String × ℕ)
  pub drawn : ℕ

abbrev pub new_writer : Writer
new_writer = record { episodes = []; edges = []; gossip = []; seen_gossip = []; drawn = 0 }

-- `_distort_content`, with `_GOSSIP_TEMPLATES`.
pub distort_content : String → ℕ → String
distort_content content hop_count =
    let template =
      get_or
        ("Rumour has it: " ∷ "Word is going around that " ∷ "Someone mentioned that "
          ∷ "I heard through the grapevine: " ∷ [])
        (hop_count % 4) "" in
    text_append template content

-- `record_episode`, of the fields that the caller gives; the identifier is drawn.
pub record_episode : Writer → NpcEpisodicMemory → NpcEpisodicMemory × Writer
record_episode w given =
    let ep = record given { episode_id = w.drawn } in
    (ep, record w { episodes = w.episodes ++ ep ∷ []; drawn = suc w.drawn })

-- Whether two edges have the same key.
abbrev pub has_key : String → String → String → NpcSocialEdge → Bool
has_key source target universe edge =
    str_eq edge.source_npc_id source
    && (str_eq edge.target_id target && str_eq edge.universe_id universe)

-- `self._edges[key] = edge`
pub put_edge : NpcSocialEdge → List NpcSocialEdge → List NpcSocialEdge
put_edge edge [] = edge ∷ []
put_edge edge (e ∷ es) =
    if has_key edge.source_npc_id edge.target_id edge.universe_id e
    then edge ∷ es
    else e ∷ put_edge edge es

-- `update_relationship`
pub update_relationship : Writer → NpcSocialEdge → Writer
unfolding put_edge
update_relationship w edge = record w { edges = put_edge edge w.edges }

pub find_edge : String → String → String → List NpcSocialEdge → Option NpcSocialEdge
find_edge source target universe [] = none
find_edge source target universe (e ∷ es) =
    if has_key source target universe e then some e else find_edge source target universe es

-- `get_relationship`
pub get_relationship : Writer → String → String → String → Option NpcSocialEdge
unfolding find_edge
get_relationship w source target universe = find_edge source target universe w.edges

-- `idempotency_key in self._seen_gossip`
abbrev pub was_seen : String → ℕ → List (String × ℕ) → Bool
was_seen receiver origin seen = any (λ k. str_eq k.0 receiver && k.1 == origin) seen

-- An entry of the queue; its last component in the source is the identifier of the episode, always.
pub record QueueEntry : Type 0 where
  pub sender_id : String
  pub content : String
  pub hop_count : ℕ
  pub reliability : ℕ

-- The writer and the local variables of `propagate_gossip`.
pub record Spread : Type 0 where
  pub writer : Writer
  pub queue : List QueueEntry
  pub new_events : List GossipEvent

-- `cfg.get(key, default)`
abbrev pub option_or : Option ℕ → ℕ → ℕ
option_or none d = d
option_or (some n) d = n

-- `max(0.1, episode.importance_score * next_reliability)`
pub faded_importance : ℕ × ℕ → ℕ → ℕ × ℕ
faded_importance (n, d) reliability =
    if ltb (n * reliability) d then (1, 10) else (n * reliability, d * 10)

module _ (episode : NpcEpisodicMemory) where
  -- The body of the `for` loop over the neighbours.
  pub deliver : QueueEntry → ℕ → NpcSocialEdge → Spread → Spread
  unfolding distort_content faded_importance
  deliver entry next_reliability edge s =
      let receiver = edge.target_id in
      let w = s.writer in
      let next_content = distort_content entry.content (entry.hop_count + 1) in
      let event : GossipEvent = record {
        gossip_id = w.drawn;
        universe_id = episode.universe_id;
        originating_episode_id = episode.episode_id;
        sender_npc_id = entry.sender_id;
        receiver_npc_id = receiver;
        content = next_content;
        hop_count = entry.hop_count + 1;
        reliability = next_reliability;
        session_id = episode.session_id;
        world_time_tick = episode.world_time_tick;
      } in
      let receiver_ep : NpcEpisodicMemory = record {
        episode_id = suc w.drawn;
        npc_id = receiver;
        universe_id = episode.universe_id;
        session_id = episode.session_id;
        turn_number = episode.turn_number;
        world_time_tick = episode.world_time_tick;
        source_memory_id = none;
        consequence_id = none;
        player_id = "";
        content = next_content;
        importance_score = faded_importance episode.importance_score next_reliability;
        is_gossip = true;
        gossip_source_npc_id = some entry.sender_id;
      } in
      let next : QueueEntry = record {
        sender_id = receiver;
        content = next_content;
        hop_count = entry.hop_count + 1;
        reliability = next_reliability;
      } in
      if was_seen receiver episode.episode_id w.seen_gossip then s else record {
        writer = record w {
          seen_gossip = (receiver, episode.episode_id) ∷ w.seen_gossip;
          gossip = w.gossip ++ event ∷ [];
          episodes = w.episodes ++ receiver_ep ∷ [];
          drawn = w.drawn + 2;
        };
        queue = s.queue ++ next ∷ [];
        new_events = s.new_events ++ event ∷ [];
      }

  pub deliver_all : QueueEntry → ℕ → List NpcSocialEdge → Spread → Spread
  unfolding deliver
  deliver_all entry next_reliability [] s = s
  deliver_all entry next_reliability (edge ∷ edges) s =
      deliver_all entry next_reliability edges (deliver entry next_reliability edge s)

  -- The list comprehension `neighbors`.
  abbrev pub is_neighbor : ℕ → String → NpcSocialEdge → Bool
  is_neighbor threshold sender edge =
      str_eq edge.source_npc_id sender
      && (str_eq edge.universe_id episode.universe_id && leb threshold edge.gossip_weight)

  -- One round of the `while` loop, after `popleft`.
  pub round : ℕ → ℕ → QueueEntry → Spread → Spread
  unfolding deliver_all
  round max_hops threshold entry s =
      let next_reliability = entry.reliability - 2 in
      if leb max_hops entry.hop_count
      then s
      else if ltb next_reliability 2
      then s
      else deliver_all entry next_reliability
          (filter (is_neighbor threshold entry.sender_id) s.writer.edges) s

  -- The `while` loop, on fuel.
  pub drain : ℕ → ℕ → ℕ → Spread → Spread
  unfolding round
  drain max_hops threshold zero s = s
  drain max_hops threshold (suc fuel) s = elim s.queue [
    | [] ↦ s
    | entry ∷ rest ↦
        drain max_hops threshold fuel (round max_hops threshold entry (record s { queue = rest }))
  ]

  abbrev pub start : Writer → Spread
  start w = record {
    writer = w;
    queue =
        record {
          sender_id = episode.npc_id;
          content = episode.content;
          hop_count = 0;
          reliability = 10;
        }
        ∷ [];
    new_events = [];
  }

  -- The state at the end of the loop: at most one round for the episode and one for each edge.
  pub spread : Writer → Option ℕ → Option ℕ → Spread
  unfolding drain
  spread w max_gossip_hops familiarity =
      drain (option_or max_gossip_hops 2) (option_or familiarity 30) (suc (length w.edges))
        (start w)

  -- `propagate_gossip`; the two keys of `social_config`, where it has them.
  pub propagate_gossip : Writer → Option ℕ → Option ℕ → List GossipEvent × Writer
  unfolding spread
  propagate_gossip w max_gossip_hops familiarity =
      let s = spread w max_gossip_hops familiarity in (s.new_events, s.writer)
