-- ===== src/Simulation/NpcMemory/Context.antt =====
-- `get_npc_context`, and what it gives.
use fictional_barnacle.Prelude.{
  ℕ, ◌+◌, ◌*◌, String, ◌≡◌, refl, ap, ◌∙◌, inl, inr, Bool, true, false, ◌&&◌, ◌||◌, Option, none,
  some, List, [], ◌∷◌, arith, str_eq, leb, if◌then◌else◌, Bool-cases, filter, sum_by,
}
use fictional_barnacle.Simulation.NpcMemory.{GossipEvent, NpcEpisodicMemory, NpcSocialEdge, Writer}

-- `NPCSocialContext`, as far as this writer fills it.
pub record NpcSocialContext : Type 0 where
  pub npc_id : String
  pub player_id : String
  pub relationship : Option NpcSocialEdge
  pub episodes : List NpcEpisodicMemory
  pub gossip_received : List GossipEvent

-- The filter of the episodes.
abbrev pub is_recalled : String → String → String → String → NpcEpisodicMemory → Bool
is_recalled npc_id universe_id session_id npc_tier ep =
    str_eq ep.npc_id npc_id
    && (str_eq ep.universe_id universe_id
        && (str_eq npc_tier "KEY" || str_eq ep.session_id session_id))

-- The importance of the first is no more than that of the second.
abbrev pub matters_less : NpcEpisodicMemory → NpcEpisodicMemory → Bool
matters_less e f =
    leb (e.importance_score.0 * f.importance_score.1) (f.importance_score.0 * e.importance_score.1)

-- `episodes.sort(key=…, reverse=True)`, which keeps the order of equals.
pub insert_episode : NpcEpisodicMemory → List NpcEpisodicMemory → List NpcEpisodicMemory
insert_episode e [] = e ∷ []
insert_episode e (f ∷ fs) = if matters_less f e then e ∷ f ∷ fs else f ∷ insert_episode e fs

pub sort_episodes : List NpcEpisodicMemory → List NpcEpisodicMemory
unfolding insert_episode
sort_episodes [] = []
sort_episodes (e ∷ es) = insert_episode e (sort_episodes es)

-- The first edge that leaves the NPC in the universe.
pub first_edge : String → String → List NpcSocialEdge → Option NpcSocialEdge
first_edge npc_id universe_id [] = none
first_edge npc_id universe_id (e ∷ es) =
    let rest = first_edge npc_id universe_id es in
    if str_eq e.source_npc_id npc_id && str_eq e.universe_id universe_id then some e else rest

-- `get_npc_context`; it does not use its token budget.
unfoldable pub get_npc_context :
    Writer → String → String → String → String → String → NpcSocialContext
unfolding sort_episodes first_edge
get_npc_context w npc_id universe_id session_id player_id npc_tier = record {
  npc_id = npc_id;
  player_id = player_id;
  relationship = first_edge npc_id universe_id w.edges;
  episodes = sort_episodes (filter (is_recalled npc_id universe_id session_id npc_tier) w.episodes);
  gossip_received =
      filter
        (λ g.
          str_eq g.receiver_npc_id npc_id
          && (str_eq g.universe_id universe_id && str_eq g.session_id session_id))
        w.gossip;
}

-- Each episode matters at least as much as the next one.
abbrev pub IsDescending : List NpcEpisodicMemory → Type 0
IsDescending [] = Unit
IsDescending (e ∷ []) = Unit
IsDescending (e ∷ f ∷ fs) = (matters_less f e ≡ true) × IsDescending (f ∷ fs)

matters_total : (e f : NpcEpisodicMemory) → matters_less f e ≡ false → matters_less e f ≡ true
matters_total e f h = ground (arith, h)

insert_episode-IsDescending :
    (e : NpcEpisodicMemory) (fs : List NpcEpisodicMemory)
    → IsDescending fs
    → IsDescending (insert_episode e fs)
unfolding insert_episode
insert_episode-IsDescending e [] d = tt
insert_episode-IsDescending e (f ∷ []) d = elim (Bool-cases (matters_less f e)) [
  | inl less ↦ rw less (less, tt)
  | inr more ↦ rw more (matters_total e f more, tt)
]
insert_episode-IsDescending e (f ∷ g ∷ gs) d = elim (Bool-cases (matters_less f e)) [
  | inl less ↦ rw less (less, d)
  | inr more ↦
      let rest = insert_episode-IsDescending e (g ∷ gs) d.1 in
      elim (Bool-cases (matters_less g e)) [
        | inl after ↦ rw (more, after) (matters_total e f more, (after, d.1))
        | inr before ↦ rw (more, before) (d.0, rw before at rest)
      ]
]

sort_episodes-IsDescending : (es : List NpcEpisodicMemory) → IsDescending (sort_episodes es)
unfolding sort_episodes
sort_episodes-IsDescending [] = tt
sort_episodes-IsDescending (e ∷ es) =
    insert_episode-IsDescending e (sort_episodes es) (sort_episodes-IsDescending es)

-- How many of a list pass a test.
abbrev pub count_of : (NpcEpisodicMemory → Bool) → List NpcEpisodicMemory → ℕ
count_of test = sum_by (λ e. if test e then 1 else 0)

count_of-insert_episode :
    (test : NpcEpisodicMemory → Bool) (e : NpcEpisodicMemory) (fs : List NpcEpisodicMemory)
    → count_of test (insert_episode e fs) ≡ count_of test (e ∷ fs)
unfolding insert_episode
count_of-insert_episode test e [] = refl
count_of-insert_episode test e (f ∷ fs) = elim (Bool-cases (matters_less f e)) [
  | inl less ↦ rw less refl
  | inr more ↦ rw more (omega (arith, count_of-insert_episode test e fs))
]

count_of-sort_episodes :
    (test : NpcEpisodicMemory → Bool) (es : List NpcEpisodicMemory)
    → count_of test (sort_episodes es) ≡ count_of test es
unfolding sort_episodes
count_of-sort_episodes test [] = refl
count_of-sort_episodes test (e ∷ es) =
    count_of-insert_episode test e (sort_episodes es)
    ∙ ap (λ n. (if test e then 1 else 0) + n) (count_of-sort_episodes test es)

count_of-filter :
    (test recalled : NpcEpisodicMemory → Bool) (es : List NpcEpisodicMemory)
    → count_of test (filter recalled es) ≡ count_of (λ e. recalled e && test e) es
count_of-filter test recalled [] = refl
count_of-filter test recalled (e ∷ es) = ground (arith, count_of-filter test recalled es)

-- The episodes of a context are those of the NPC in the universe, for a KEY NPC of all sessions and
-- else of the session. They stand in the order of their importance, the greatest first, and
-- whatever test one picks, as many of them pass it as among those that were recorded.
pub get_npc_context-IsDescending :
    (w : Writer) (npc_id universe_id session_id player_id npc_tier : String)
    (test : NpcEpisodicMemory → Bool)
    → let context = get_npc_context w npc_id universe_id session_id player_id npc_tier in
      IsDescending context.episodes
      × (count_of test context.episodes
          ≡ count_of
              (λ e. is_recalled npc_id universe_id session_id npc_tier e && test e)
              w.episodes)
unfolding get_npc_context
get_npc_context-IsDescending w npc_id universe_id session_id player_id npc_tier test =
    let recalled = is_recalled npc_id universe_id session_id npc_tier in
    (
      sort_episodes-IsDescending (filter recalled w.episodes),
      count_of-sort_episodes test (filter recalled w.episodes)
          ∙ count_of-filter test recalled w.episodes,
    )
