-- ===== src/Simulation/NpcMemory/Delivery.antt =====
-- What the gossip of one episode brings about.
use fictional_barnacle.Prelude.{
  ℕ, zero, suc, ◌+◌, ◌-◌, ◌*◌, ◌≤◌, ◌<◌, String, ◌≡◌, refl, inl, inr, false, Option, List, [], ◌∷◌,
  ◌++◌, arith, str_eq, eq_iff, if◌then◌else◌, leb, Bool-cases, ltb, All, All-snoc, filter, length,
  sum_by-append, sum_by,
}
use fictional_barnacle.Simulation.NpcMemory.{
  GossipEvent, NpcEpisodicMemory, NpcSocialEdge, QueueEntry, Spread, Writer, deliver, deliver_all,
  drain, is_neighbor, option_or, propagate_gossip, round, spread, start, was_seen,
}

-- How many events reach a receiver.
abbrev pub events_to : String → List GossipEvent → ℕ
events_to receiver = sum_by (λ e. if str_eq e.receiver_npc_id receiver then 1 else 0)

-- An event of this episode, within the hops that are allowed, which has lost two tenths of
-- reliability at each hop and is at no less than two.
pub record IsGossip (episode : NpcEpisodicMemory) (max_hops : ℕ) (e : GossipEvent) : Type 0 where
  pub same_episode : e.originating_episode_id ≡ episode.episode_id
  pub within_hops : (1 ≤ e.hop_count) × (e.hop_count ≤ max_hops)
  pub faded : e.reliability + 2 * e.hop_count ≡ 10
  pub above_floor : 2 ≤ e.reliability

abbrev pub has_seen : NpcEpisodicMemory → String → Writer → ℕ
has_seen episode receiver w = if was_seen receiver episode.episode_id w.seen_gossip then 1 else 0

-- What the loop keeps, for one receiver.
pub record IsSpread (episode : NpcEpisodicMemory) (max_hops : ℕ) (w : Writer) (s : Spread)
    : Type 0 where
  pub entries : All (λ q. q.reliability + 2 * q.hop_count ≡ 10) s.queue
  pub events : All (IsGossip episode max_hops) s.new_events
  pub same_edges : s.writer.edges ≡ w.edges
  pub once :
      (receiver : String)
      → events_to receiver s.new_events + has_seen episode receiver w
        ≡ has_seen episode receiver s.writer

none_added : (x h r : ℕ) → x + h ≡ r → x + (0 + 0) + h ≡ r
none_added x h r e = omega arith

once_more :
    (episode : NpcEpisodicMemory) (receiver target : String) (event : GossipEvent) (s : Spread)
    (w : Writer)
    → event.receiver_npc_id ≡ target
    → was_seen target episode.episode_id s.writer.seen_gossip ≡ false
    → events_to receiver s.new_events + has_seen episode receiver w
      ≡ has_seen episode receiver s.writer
    → events_to receiver (s.new_events ++ event ∷ []) + has_seen episode receiver w ≡ (
        if was_seen receiver episode.episode_id
          ((target, episode.episode_id) ∷ s.writer.seen_gossip)
        then 1
        else 0)
once_more episode receiver target event s w at new before =
    rw
      (
        sum_by-append (λ e. if str_eq e.receiver_npc_id receiver then 1 else 0) s.new_events
            (event ∷ []),
        at,
      )
      (elim (Bool-cases (str_eq target receiver)) [
        | inl same ↦ ground (arith, (eq_iff target receiver).0 same, new, before)
        | inr other ↦ rw other (none_added _ _ _ before)
      ])

module _ (episode : NpcEpisodicMemory) (max_hops threshold : ℕ) (w : Writer) where
  deliver-IsSpread :
      (entry : QueueEntry) (edge : NpcSocialEdge) (s : Spread)
      → entry.reliability + 2 * entry.hop_count ≡ 10
      → entry.hop_count < max_hops
      → 4 ≤ entry.reliability
      → IsSpread episode max_hops w s
      → IsSpread episode max_hops w (deliver episode entry (entry.reliability - 2) edge s)
  unfolding deliver
  deliver-IsSpread entry edge s e h r i =
      elim (Bool-cases (was_seen edge.target_id episode.episode_id s.writer.seen_gossip)) [
        | inl seen ↦ rw seen i
        | inr new ↦ rw new (record {
          entries =
              All-snoc (λ q. q.reliability + 2 * q.hop_count ≡ 10) s.queue _ i.entries
                (omega arith);
          events = All-snoc (IsGossip episode max_hops) s.new_events _ i.events (record {
            same_episode = refl;
            within_hops = (omega arith, omega arith);
            faded = omega arith;
            above_floor = omega arith;
          });
          same_edges = i.same_edges;
          once = λ receiver.
              once_more episode receiver edge.target_id _ s w refl new (i.once receiver);
        })
      ]

  deliver_all-IsSpread :
      (entry : QueueEntry) (edges : List NpcSocialEdge) (s : Spread)
      → entry.reliability + 2 * entry.hop_count ≡ 10
      → entry.hop_count < max_hops
      → 4 ≤ entry.reliability
      → IsSpread episode max_hops w s
      → IsSpread episode max_hops w (deliver_all episode entry (entry.reliability - 2) edges s)
  unfolding deliver_all
  deliver_all-IsSpread entry [] s e h r i = i
  deliver_all-IsSpread entry (edge ∷ edges) s e h r i =
      deliver_all-IsSpread entry edges _ e h r (deliver-IsSpread entry edge s e h r i)

  round-IsSpread :
      (entry : QueueEntry) (s : Spread)
      → entry.reliability + 2 * entry.hop_count ≡ 10
      → IsSpread episode max_hops w s
      → IsSpread episode max_hops w (round episode max_hops threshold entry s)
  unfolding round
  round-IsSpread entry s e i = elim (Bool-cases (leb max_hops entry.hop_count)) [
    | inl far ↦ rw far i
    | inr near ↦ elim (Bool-cases (ltb (entry.reliability - 2) 2)) [
      | inl faint ↦ rw (near, faint) i
      | inr clear ↦
          rw (near, clear)
            (deliver_all-IsSpread entry
              (filter (is_neighbor episode threshold entry.sender_id) s.writer.edges) s e
              (ground arith) (ground arith) i)
    ]
  ]

  drain-IsSpread :
      (fuel : ℕ) (writer : Writer) (queue : List QueueEntry) (new_events : List GossipEvent)
      → let s : Spread = record { writer = writer; queue = queue; new_events = new_events } in
        IsSpread episode max_hops w s
        → IsSpread episode max_hops w (drain episode max_hops threshold fuel s)
  unfolding drain
  drain-IsSpread zero writer queue new_events i = i
  drain-IsSpread (suc fuel) writer [] new_events i = i
  drain-IsSpread (suc fuel) writer (entry ∷ rest) new_events i = drain-IsSpread fuel _ _ _ (
      round-IsSpread entry _ i.entries.0 (record {
        entries = i.entries.1;
        events = i.events;
        same_edges = i.same_edges;
        once = i.once;
      }))

  start-IsSpread : IsSpread episode max_hops w (start episode w)
  start-IsSpread = record {
    entries = (omega arith, tt);
    events = tt;
    same_edges = refl;
    once = λ receiver. omega arith;
  }

-- Every event of a propagation is of the episode, goes no more hops than are allowed, and carries a
-- reliability of one less a fifth for each hop, and no less than a fifth. A receiver gets one event
-- if this propagation is what makes the receiver know the episode, and none otherwise. The edges
-- stay as they are.
pub propagate_gossip-IsGossip :
    (episode : NpcEpisodicMemory) (w : Writer) (max_gossip_hops familiarity : Option ℕ)
    (receiver : String)
    → let (new_events, w') = propagate_gossip episode w max_gossip_hops familiarity in
      All (IsGossip episode (option_or max_gossip_hops 2)) new_events
      × (events_to receiver new_events + has_seen episode receiver w ≡ has_seen episode receiver w')
      × (w'.edges ≡ w.edges)
unfolding propagate_gossip spread
propagate_gossip-IsGossip episode w max_gossip_hops familiarity receiver =
    let hops = option_or max_gossip_hops 2 in
    let i =
      drain-IsSpread episode hops (option_or familiarity 30) w (suc (length w.edges)) w _ []
        (start-IsSpread episode hops 0 w) in
    (i.events, i.once receiver, i.same_edges)
