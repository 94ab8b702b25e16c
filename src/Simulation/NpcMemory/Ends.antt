-- ===== src/Simulation/NpcMemory/Ends.antt =====
-- The loop ends: each round takes an entry off the queue, and each entry that is added makes a
-- receiver known.
use fictional_barnacle.Prelude.{
  ℕ, zero, suc, ◌+◌, ◌-◌, ◌≤◌, String, ◌≡◌, refl, sym, subst, inl, inr, Bool, false, Option, List,
  [], ◌∷◌, arith, eq_iff, ltb, leb, if◌then◌else◌, Bool-cases, length-append, filter, sum_by, All,
  All-map, Any, length,
}
use fictional_barnacle.Prelude.Texts.{member}
use fictional_barnacle.Simulation.NpcMemory.{
  GossipEvent, NpcEpisodicMemory, NpcSocialEdge, QueueEntry, Spread, Writer, deliver, deliver_all,
  drain, is_neighbor, option_or, round, spread, start, was_seen,
}

-- How many edges lead to somebody who does not know the episode.
abbrev pub unseen : ℕ → List (String × ℕ) → List NpcSocialEdge → ℕ
unseen origin seen = sum_by (λ e. if was_seen e.target_id origin seen then 0 else 1)

unseen_grows :
    (origin : ℕ) (receiver : String) (seen : List (String × ℕ)) (edges : List NpcSocialEdge)
    → unseen origin ((receiver, origin) ∷ seen) edges ≤ unseen origin seen edges
unseen_grows origin receiver seen [] = omega arith
unseen_grows origin receiver seen (e ∷ es) = ground (arith, unseen_grows origin receiver seen es)

-- An edge is in a list.
abbrev pub IsIn : NpcSocialEdge → List NpcSocialEdge → Type 0
IsIn edge = Any (λ e. edge ≡ e)

unseen_drops :
    (origin : ℕ) (edge : NpcSocialEdge) (seen : List (String × ℕ)) (edges : List NpcSocialEdge)
    → was_seen edge.target_id origin seen ≡ false
    → IsIn edge edges
    → unseen origin ((edge.target_id, origin) ∷ seen) edges + 1 ≤ unseen origin seen edges
unseen_drops origin edge seen [] new i = absurd i
unseen_drops origin edge seen (e ∷ es) new (inl here) =
    rw (sym here, new)
      (ground
        (arith, eq_iff edge.target_id edge.target_id, unseen_grows origin edge.target_id seen es))
unseen_drops origin edge seen (e ∷ es) new (inr there) =
    ground (arith, unseen_drops origin edge seen es new there)

unseen_bound :
    (origin : ℕ) (seen : List (String × ℕ)) (edges : List NpcSocialEdge)
    → unseen origin seen edges ≤ length edges
unseen_bound origin seen [] = omega arith
unseen_bound origin seen (e ∷ es) = ground (arith, unseen_bound origin seen es)

filter-IsIn :
    (test : NpcSocialEdge → Bool) (edges : List NpcSocialEdge)
    → All (λ e. IsIn e edges) (filter test edges)
filter-IsIn test [] = tt
filter-IsIn test (e ∷ es) =
    let rest = All-map (filter test es) (λ x i. inr i) (filter-IsIn test es) in
    elim (Bool-cases (test e)) [ inl kept ↦ rw kept (inl refl, rest) | inr gone ↦ rw gone rest ]

-- The entries of the queue and those that can still come.
abbrev pub pending : ℕ → Spread → ℕ
pending origin s = length s.queue + unseen origin s.writer.seen_gossip s.writer.edges

module _ (episode : NpcEpisodicMemory) where
  pending-deliver :
      (entry : QueueEntry) (r : ℕ) (edge : NpcSocialEdge) (s : Spread)
      → IsIn edge s.writer.edges
      → (pending episode.episode_id (deliver episode entry r edge s) ≤ pending episode.episode_id s)
        × ((deliver episode entry r edge s).writer.edges ≡ s.writer.edges)
  unfolding deliver
  pending-deliver entry r edge s member =
      elim (Bool-cases (was_seen edge.target_id episode.episode_id s.writer.seen_gossip)) [
        | inl seen ↦ rw seen (omega arith, refl)
        | inr new ↦ rw new (
          rw (length-append s.queue) (
              omega (
                arith,
                unseen_drops episode.episode_id edge s.writer.seen_gossip s.writer.edges new member,
              )),
          refl,
        )
      ]

  pending-deliver_all :
      (entry : QueueEntry) (r : ℕ) (edges : List NpcSocialEdge) (s : Spread)
      → All (λ e. IsIn e s.writer.edges) edges
      → pending episode.episode_id (deliver_all episode entry r edges s)
        ≤ pending episode.episode_id s
  unfolding deliver_all
  pending-deliver_all entry r [] s a = omega arith
  pending-deliver_all entry r (edge ∷ edges) s a =
      let (less, same) = pending-deliver entry r edge s a.0 in
      omega (
        arith,
        less,
        pending-deliver_all entry r edges (deliver episode entry r edge s)
            (subst (λ es. All (λ e. IsIn e es) edges) (sym same) a.1),
      )

  pending-round :
      (max_hops threshold : ℕ) (entry : QueueEntry) (s : Spread)
      → pending episode.episode_id (round episode max_hops threshold entry s)
        ≤ pending episode.episode_id s
  unfolding round
  pending-round max_hops threshold entry s = elim (Bool-cases (leb max_hops entry.hop_count)) [
    | inl far ↦ rw far (omega arith)
    | inr near ↦ elim (Bool-cases (ltb (entry.reliability - 2) 2)) [
      | inl faint ↦ rw (near, faint) (omega arith)
      | inr clear ↦
          rw (near, clear)
            (pending-deliver_all entry (entry.reliability - 2)
              (filter (is_neighbor episode threshold entry.sender_id) s.writer.edges) s
              (filter-IsIn (is_neighbor episode threshold entry.sender_id) s.writer.edges))
    ]
  ]

  drain_ends :
      (max_hops threshold fuel : ℕ) (writer : Writer) (queue : List QueueEntry)
      (new_events : List GossipEvent)
      → let s : Spread = record { writer = writer; queue = queue; new_events = new_events } in
        pending episode.episode_id s ≤ fuel → (drain episode max_hops threshold fuel s).queue ≡ []
  unfolding drain
  drain_ends max_hops threshold zero writer [] new_events h = refl
  drain_ends max_hops threshold zero writer (entry ∷ rest) new_events h = absurd (omega arith)
  drain_ends max_hops threshold (suc fuel) writer [] new_events h = refl
  drain_ends max_hops threshold (suc fuel) writer (entry ∷ rest) new_events h =
      drain_ends max_hops threshold fuel _ _ _ (
        omega (
          arith,
          pending-round max_hops threshold entry
              (record { writer = writer; queue = rest; new_events = new_events }),
        ))

-- The loop of a propagation ends with an empty queue: one round for the episode and one for each
-- edge are enough.
pub spread_ends :
    (episode : NpcEpisodicMemory) (w : Writer) (max_gossip_hops familiarity : Option ℕ)
    → (spread episode w max_gossip_hops familiarity).queue ≡ []
unfolding spread
spread_ends episode w max_gossip_hops familiarity =
    drain_ends episode (option_or max_gossip_hops 2) (option_or familiarity 30)
      (suc (length w.edges)) w (start episode w).queue []
      (omega (arith, unseen_bound episode.episode_id w.seen_gossip w.edges))
