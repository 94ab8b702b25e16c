-- ===== src/Llm/Admission/Cap.antt =====
-- The caps on the calls in flight.
use fictional_barnacle.Prelude.{
  ℕ, ◌+◌, ◌≤◌, ◌≡◌, subst, ◌≢◌, ◌⊎◌, inl, inr, true, ◌||◌, Option, none, some, List, [], ◌∷◌, arith,
  ◌==◌, Bool-cases, Option-cases,
}
use fictional_barnacle.Prelude.Int.{pos}
use fictional_barnacle.Llm.Admission.{
  TaskPriority, admit, admit_or_queue, best_effort, concurrency, critical, high, low, new_budget,
  release, resume, same_tier_self, tier_cases, time_out,
}
use fictional_barnacle.Llm.Admission.Client.{
  CallEvent, LimitedClient, begin, enter, exit, expire, finish, new_client, run, set_running, step,
  waits, wake,
}
use fictional_barnacle.Llm.Admission.Slots.{
  HasSlots, admit_lane-HasSlots, admit_lane_full, enqueue-HasSlots, release_lane-HasSlots,
  resume-HasSlots, time_out-HasSlots,
}

-- The tiers that queue without a backpressure test.
pub data IsCapped : TaskPriority → Type 0 where
  high_capped : IsCapped high
  low_capped : IsCapped low

-- The slots of the tier `t` in a client.
abbrev pub TierHasSlots : ℕ → TaskPriority → LimitedClient → Type 0
TierHasSlots cap t c = HasSlots cap (c.running t) (c.budget.lanes t)

module _ (cap : ℕ) (c : LimitedClient) where
  enter-TierHasSlots :
      (t tier : TaskPriority)
      → IsCapped t
      → TierHasSlots cap t c
      → TierHasSlots cap t (enter c tier)
  unfolding enter admit_or_queue admit
  enter-TierHasSlots t critical high_capped v = v
  enter-TierHasSlots t critical low_capped v = v
  enter-TierHasSlots t high high_capped v =
      let lane = c.budget.lanes high in
      ground (
        arith,
        admit_lane-HasSlots cap (c.running high) lane v,
        admit_lane_full cap (c.running high) lane v,
        enqueue-HasSlots cap (c.running high) lane v c.budget.next_entry,
      )
  enter-TierHasSlots t high low_capped v = ground arith
  enter-TierHasSlots t low high_capped v = ground arith
  enter-TierHasSlots t low low_capped v =
      let lane = c.budget.lanes low in
      ground (
        arith,
        admit_lane-HasSlots cap (c.running low) lane v,
        admit_lane_full cap (c.running low) lane v,
        enqueue-HasSlots cap (c.running low) lane v c.budget.next_entry,
      )
  enter-TierHasSlots t best_effort high_capped v = ground arith
  enter-TierHasSlots t best_effort low_capped v = ground arith

  wake-TierHasSlots :
      (t tier : TaskPriority) (entry : ℕ)
      → waits entry (c.budget.lanes tier).signalled ≡ true
      → TierHasSlots cap t c
      → TierHasSlots cap t
          (set_running (record c { budget = resume c.budget tier entry }) tier (c.running tier + 1))
  unfolding resume
  wake-TierHasSlots t tier entry w v = elim (tier_cases t tier) [
    | inl e ↦
        subst (λ s. waits entry (c.budget.lanes s).signalled ≡ true → TierHasSlots cap t (woken s))
          e
          (λ w'.
            rw (same_tier_self t) (resume-HasSlots cap (c.running t) (c.budget.lanes t) v entry w'))
          w
    | inr e ↦ rw e v
  ]
    where
      woken : TaskPriority → LimitedClient
      woken s = set_running (record c { budget = resume c.budget s entry }) s (c.running s + 1)

  expire-TierHasSlots :
      (t tier : TaskPriority) (entry : ℕ)
      → TierHasSlots cap t c
      → TierHasSlots cap t (record c { budget = time_out c.budget tier entry })
  unfolding time_out
  expire-TierHasSlots t tier entry v = elim (tier_cases t tier) [
    | inl e ↦
        subst (λ s. TierHasSlots cap t (record c { budget = time_out c.budget s entry })) e
          (rw (same_tier_self t) (time_out-HasSlots cap (c.running t) (c.budget.lanes t) v entry))
    | inr e ↦ rw e v
  ]

  exit-TierHasSlots :
      (t tier : TaskPriority)
      → IsCapped t
      → c.running tier ≢ 0
      → TierHasSlots cap t c
      → TierHasSlots cap t (exit c tier)
  unfolding exit release
  exit-TierHasSlots t critical high_capped r v = v
  exit-TierHasSlots t critical low_capped r v = v
  exit-TierHasSlots t high high_capped r v =
      release_lane-HasSlots cap (c.running high) (c.budget.lanes high) v r
  exit-TierHasSlots t high low_capped r v = v
  exit-TierHasSlots t low high_capped r v = v
  exit-TierHasSlots t low low_capped r v =
      release_lane-HasSlots cap (c.running low) (c.budget.lanes low) v r
  exit-TierHasSlots t best_effort high_capped r v = v
  exit-TierHasSlots t best_effort low_capped r v = v

abbrev Keeps : ℕ → TaskPriority → Option LimitedClient → Type 0
Keeps cap t none = Unit
Keeps cap t (some c) = TierHasSlots cap t c

step-Keeps :
    (cap : ℕ) (t : TaskPriority) (c : LimitedClient) (e : CallEvent)
    → IsCapped t
    → TierHasSlots cap t c
    → Keeps cap t (step c e)
unfolding step
step-Keeps cap t c (begin tier) k v = enter-TierHasSlots cap c t tier k v
step-Keeps cap t c (wake tier entry) k v =
    elim (Bool-cases (waits entry (c.budget.lanes tier).signalled)) [
      | inl w ↦ rw w (wake-TierHasSlots cap c t tier entry w v)
      | inr w ↦ rw w tt
    ]
step-Keeps cap t c (expire tier entry) k v =
    elim (Bool-cases
      (waits entry (c.budget.lanes tier).queue || waits entry (c.budget.lanes tier).signalled)) [
        | inl w ↦ rw w (expire-TierHasSlots cap c t tier entry v)
        | inr w ↦ rw w tt
      ]
step-Keeps cap t c (finish tier) k v = elim (Bool-cases (c.running tier == 0)) [
  | inl w ↦ rw w tt
  | inr w ↦ rw w (exit-TierHasSlots cap c t tier k (ground arith) v)
]

run-Keeps :
    (cap : ℕ) (t : TaskPriority) (c : LimitedClient) (es : List CallEvent)
    → IsCapped t
    → TierHasSlots cap t c
    → Keeps cap t (run c es)
unfolding run
run-Keeps cap t c [] k v = v
run-Keeps cap t c (e ∷ es) k v = elim (Option-cases (step c e)) [
  | inl w ↦ rw (w, run) tt
  | inr (c', w) ↦
      rw (w, run) (run-Keeps cap t c' es k (subst (Keeps cap t) w (step-Keeps cap t c e k v)))
]

start-TierHasSlots :
    (h l b th tl : ℕ) (t : TaskPriority)
    → IsCapped t
    → TierHasSlots (concurrency h l t) t (new_client (new_budget h l b th tl))
unfolding new_client new_budget
start-TierHasSlots h l b th tl t high_capped = ground arith
start-TierHasSlots h l b th tl t low_capped = ground arith

-- In whatever order calls of all tiers begin, are woken, time out and end, at most
-- `high_concurrency` calls of tier HIGH and at most `low_concurrency` of tier LOW run at a time,
-- the budget's count of active calls is the number of those that run, and a call of these tiers
-- waits in the queue only while no permit is free.
pub run-HasSlots :
    (high_concurrency low_concurrency backpressure timeout_high timeout_low : ℕ) (t : TaskPriority)
    (es : List CallEvent) (c : LimitedClient)
    → IsCapped t
    → run
        (new_client
          (new_budget high_concurrency low_concurrency backpressure timeout_high timeout_low))
        es
      ≡ some c
    → let lane = c.budget.lanes t in
      (c.running t ≤ concurrency high_concurrency low_concurrency t)
      × (lane.active ≡ pos (c.running t))
      × ((lane.queue ≡ []) ⊎ (lane.permits ≡ 0))
run-HasSlots h l b th tl t es c k e =
    let v : TierHasSlots (concurrency h l t) t c = subst (Keeps (concurrency h l t) t) e (
      run-Keeps (concurrency h l t) t (new_client (new_budget h l b th tl)) es k
        (start-TierHasSlots h l b th tl t k)) in
    (omega (arith, v.bounded), v.counted, v.busy)
