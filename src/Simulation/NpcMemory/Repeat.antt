-- ===== src/Simulation/NpcMemory/Repeat.antt =====
-- Gossip about an episode that went round once does not go round again.
use fictional_barnacle.Prelude.{
  ℕ, zero, suc, ◌-◌, ◌<◌, String, ◌≡◌, refl, sym, ap, subst, ◌∙◌, inl, inr, true, false, Option,
  List, [], ◌∷◌, arith, eq_iff, leb, Bool-cases, ltb, All-map, filter, All, length,
}
use fictional_barnacle.Simulation.NpcMemory.{
  GossipEvent, NpcEpisodicMemory, NpcSocialEdge, QueueEntry, Spread, Writer, deliver, deliver_all,
  drain, is_neighbor, option_or, propagate_gossip, round, spread, start, was_seen,
}
use fictional_barnacle.Simulation.NpcMemory.Delivery.{propagate_gossip-IsGossip}

module _ (episode : NpcEpisodicMemory) where
  -- Somebody knows the episode.
  abbrev Knows : String → Writer → Type 0
  Knows receiver w = was_seen receiver episode.episode_id w.seen_gossip ≡ true

  deliver_keeps :
      (receiver : String) (entry : QueueEntry) (r : ℕ) (edge : NpcSocialEdge) (s : Spread)
      → Knows receiver s.writer
      → Knows receiver (deliver episode entry r edge s).writer
  unfolding deliver
  deliver_keeps receiver entry r edge s k =
      elim (Bool-cases (was_seen edge.target_id episode.episode_id s.writer.seen_gossip)) [
        | inl seen ↦ rw seen k
        | inr new ↦ rw new (ground (arith, k))
      ]

  deliver_informs :
      (entry : QueueEntry) (r : ℕ) (edge : NpcSocialEdge) (s : Spread)
      → Knows edge.target_id (deliver episode entry r edge s).writer
  unfolding deliver
  deliver_informs entry r edge s =
      elim (Bool-cases (was_seen edge.target_id episode.episode_id s.writer.seen_gossip)) [
        | inl seen ↦ rw seen seen
        | inr new ↦ rw new (ground (arith, eq_iff edge.target_id edge.target_id))
      ]

  deliver_all_keeps :
      (receiver : String) (entry : QueueEntry) (r : ℕ) (edges : List NpcSocialEdge) (s : Spread)
      → Knows receiver s.writer
      → Knows receiver (deliver_all episode entry r edges s).writer
  unfolding deliver_all
  deliver_all_keeps receiver entry r [] s k = k
  deliver_all_keeps receiver entry r (edge ∷ edges) s k =
      deliver_all_keeps receiver entry r edges _ (deliver_keeps receiver entry r edge s k)

  deliver_all_informs :
      (entry : QueueEntry) (r : ℕ) (edges : List NpcSocialEdge) (s : Spread)
      → All (λ e. Knows e.target_id (deliver_all episode entry r edges s).writer) edges
  unfolding deliver_all
  deliver_all_informs entry r [] s = tt
  deliver_all_informs entry r (edge ∷ edges) s = (
    deliver_all_keeps edge.target_id entry r edges _ (deliver_informs entry r edge s),
    deliver_all_informs entry r edges _,
  )

  round_keeps :
      (receiver : String) (max_hops threshold : ℕ) (entry : QueueEntry) (s : Spread)
      → Knows receiver s.writer
      → Knows receiver (round episode max_hops threshold entry s).writer
  unfolding round
  round_keeps receiver max_hops threshold entry s k =
      elim (Bool-cases (leb max_hops entry.hop_count)) [
        | inl far ↦ rw far k
        | inr near ↦ elim (Bool-cases (ltb (entry.reliability - 2) 2)) [
          | inl faint ↦ rw (near, faint) k
          | inr clear ↦
              rw (near, clear)
                (deliver_all_keeps receiver entry (entry.reliability - 2)
                  (filter (is_neighbor episode threshold entry.sender_id) s.writer.edges) s k)
        ]
      ]

  drain_keeps :
      (receiver : String) (max_hops threshold fuel : ℕ) (writer : Writer) (queue : List QueueEntry)
      (new_events : List GossipEvent)
      → Knows receiver writer
      → Knows receiver
          (drain episode max_hops threshold fuel
            (record { writer = writer; queue = queue; new_events = new_events })).writer
  unfolding drain
  drain_keeps receiver max_hops threshold zero writer queue new_events k = k
  drain_keeps receiver max_hops threshold (suc fuel) writer [] new_events k = k
  drain_keeps receiver max_hops threshold (suc fuel) writer (entry ∷ rest) new_events k =
      drain_keeps receiver max_hops threshold fuel _ _ _ (
        round_keeps receiver max_hops threshold entry
          (record { writer = writer; queue = rest; new_events = new_events }) k)

  deliver_all_idle :
      (entry : QueueEntry) (r : ℕ) (edges : List NpcSocialEdge) (s : Spread)
      → All (λ e. Knows e.target_id s.writer) edges
      → deliver_all episode entry r edges s ≡ s
  unfolding deliver_all deliver
  deliver_all_idle entry r [] s a = refl
  deliver_all_idle entry r (edge ∷ edges) s a = rw a.0 (deliver_all_idle entry r edges s a.1)

  drain_idle :
      (max_hops threshold fuel : ℕ) (writer : Writer) (new_events : List GossipEvent)
      → let s : Spread = record { writer = writer; queue = []; new_events = new_events } in
        drain episode max_hops threshold fuel s ≡ s
  unfolding drain
  drain_idle max_hops threshold zero writer new_events = refl
  drain_idle max_hops threshold (suc fuel) writer new_events = refl

  -- The neighbours to whom the episode's own NPC tells it.
  abbrev neighbors : ℕ → Writer → List NpcSocialEdge
  neighbors threshold w = filter (is_neighbor episode threshold episode.npc_id) w.edges

  first_entry : QueueEntry
  first_entry = record {
    sender_id = episode.npc_id;
    content = episode.content;
    hop_count = 0;
    reliability = 10;
  }

  first_round :
      (max_hops threshold : ℕ) (w : Writer)
      → 0 < max_hops
      → let s : Spread = record { writer = w; queue = []; new_events = [] } in
        round episode max_hops threshold first_entry s
        ≡ deliver_all episode first_entry 8 (neighbors threshold w) s
  unfolding round first_entry
  first_round max_hops threshold w h =
      let near : leb max_hops 0 ≡ false = ground arith in rw near refl

  informed :
      (max_hops threshold fuel : ℕ) (w : Writer)
      → 0 < max_hops
      → All
          (λ e.
            Knows e.target_id
              (drain episode max_hops threshold (suc fuel) (start episode w)).writer)
          (neighbors threshold w)
  unfolding drain first_entry
  informed max_hops threshold fuel w h =
      let s : Spread = record { writer = w; queue = []; new_events = [] } in
      All-map (neighbors threshold w)
        (λ e k.
          drain_keeps e.target_id max_hops threshold fuel _ _ _ (
            subst (λ s'. Knows e.target_id s'.writer) (sym (first_round max_hops threshold w h)) k))
        (deliver_all_informs first_entry 8 (neighbors threshold w) s)

  spread_idle :
      (max_hops threshold fuel : ℕ) (w : Writer)
      → (0 < max_hops → All (λ e. Knows e.target_id w) (neighbors threshold w))
      → drain episode max_hops threshold (suc fuel) (start episode w)
        ≡ record { writer = w; queue = []; new_events = [] }
  unfolding drain first_entry round
  spread_idle zero threshold fuel w a = drain_idle zero threshold fuel w []
  spread_idle (suc n) threshold fuel w a =
      let s : Spread = record { writer = w; queue = []; new_events = [] } in
      ap (drain episode (suc n) threshold fuel) (
        first_round (suc n) threshold w (omega arith)
        ∙ deliver_all_idle first_entry 8 (neighbors threshold w) s (a (omega arith)))
      ∙ drain_idle (suc n) threshold fuel w []

-- A second propagation of the same episode with the same configuration brings no event and leaves
-- the writer as it is.
pub propagate_gossip_repeats :
    (episode : NpcEpisodicMemory) (w : Writer) (max_gossip_hops familiarity : Option ℕ)
    → let w' = (propagate_gossip episode w max_gossip_hops familiarity).1 in
      propagate_gossip episode w' max_gossip_hops familiarity ≡ ([], w')
unfolding propagate_gossip spread
propagate_gossip_repeats episode w max_gossip_hops familiarity =
    let hops = option_or max_gossip_hops 2 in
    let threshold = option_or familiarity 30 in
    let w' = (propagate_gossip episode w max_gossip_hops familiarity).1 in
    let (_, _, same) = propagate_gossip-IsGossip episode w max_gossip_hops familiarity "" in
    ap (λ s. (s.new_events, s.writer))
      (spread_idle episode hops threshold (length w'.edges) w' (λ h.
        subst
          (λ es.
            All (λ e. Knows episode e.target_id w')
              (filter (is_neighbor episode threshold episode.npc_id) es))
          (sym same) (informed episode hops threshold (length w.edges) w h)))
