-- ===== src/Llm/Admission/Order.antt =====
-- The calls of a tier are served in the order in which they came.
use fictional_barnacle.Prelude.{
  ℕ, ◌+◌, ◌<◌, ◌≡◌, refl, subst, ◌≢◌, ◌⊎◌, inl, inr, true, ◌||◌, Option, none, some, List, [], ◌∷◌,
  ◌++◌, arith, ==_iff, Bool-cases, Option-cases, ◌==◌, length, All,
}
use fictional_barnacle.Llm.Admission.{
  Lane, Outcome, RateLimitBudget, TaskPriority, admit_or_queue, admitted, best_effort, critical,
  dropped, high, low, new_budget, queued, release, release_lane, resume, time_out,
}
use fictional_barnacle.Llm.Admission.Ascends.{
  AreAscending, Ascends, Ascends-remove_entry, admit_or_queue-AreAscending, all_below,
  release-AreAscending, set_lane-AreAscending,
}
use fictional_barnacle.Llm.Admission.Client.{
  CallEvent, LimitedClient, begin, enter, exit, expire, finish, new_client, place, run, step, waits,
  wake,
}

place-budget :
    (c : LimitedClient) (tier : TaskPriority) (outcome : Outcome) (b : RateLimitBudget)
    → (place c tier outcome b).budget ≡ b
place-budget c tier admitted b = refl
place-budget c tier dropped b = refl
place-budget c tier (queued entry) b = refl

enter-AreAscending :
    (c : LimitedClient) (tier : TaskPriority)
    → AreAscending c.budget
    → AreAscending (enter c tier).budget
unfolding enter
enter-AreAscending c critical h = h
enter-AreAscending c high h =
    rw (place-budget c high (admit_or_queue c.budget high).0 (admit_or_queue c.budget high).1)
      (admit_or_queue-AreAscending c.budget high h)
enter-AreAscending c low h =
    rw (place-budget c low (admit_or_queue c.budget low).0 (admit_or_queue c.budget low).1)
      (admit_or_queue-AreAscending c.budget low h)
enter-AreAscending c best_effort h =
    rw
      (place-budget c best_effort (admit_or_queue c.budget best_effort).0
        (admit_or_queue c.budget best_effort).1)
      (admit_or_queue-AreAscending c.budget best_effort h)

exit-AreAscending :
    (c : LimitedClient) (tier : TaskPriority)
    → AreAscending c.budget
    → AreAscending (exit c tier).budget
unfolding exit
exit-AreAscending c critical h = h
exit-AreAscending c high h = release-AreAscending c.budget high h
exit-AreAscending c low h = release-AreAscending c.budget low h
exit-AreAscending c best_effort h = release-AreAscending c.budget best_effort h

abbrev KeepsOrder : Option LimitedClient → Type 0
KeepsOrder none = Unit
KeepsOrder (some c) = AreAscending c.budget

step-KeepsOrder :
    (c : LimitedClient) (e : CallEvent) → AreAscending c.budget → KeepsOrder (step c e)
unfolding step resume time_out
step-KeepsOrder c (begin tier) h = enter-AreAscending c tier h
step-KeepsOrder c (wake tier entry) h =
    elim (Bool-cases (waits entry (c.budget.lanes tier).signalled)) [
      | inl w ↦
          rw w (set_lane-AreAscending c.budget tier _ c.budget.next_entry h (omega arith) (h tier))
      | inr w ↦ rw w tt
    ]
step-KeepsOrder c (expire tier entry) h =
    let lane = c.budget.lanes tier in
    elim (Bool-cases (waits entry lane.queue || waits entry lane.signalled)) [
      | inl w ↦ rw w (
          set_lane-AreAscending c.budget tier _ c.budget.next_entry h (omega arith)
            (Ascends-remove_entry c.budget.next_entry entry lane.queue (h tier)))
      | inr w ↦ rw w tt
    ]
step-KeepsOrder c (finish tier) h = elim (Bool-cases (c.running tier == 0)) [
  | inl w ↦ rw w tt
  | inr w ↦ rw w (exit-AreAscending c tier h)
]

run-KeepsOrder :
    (c : LimitedClient) (es : List CallEvent) → AreAscending c.budget → KeepsOrder (run c es)
unfolding run
run-KeepsOrder c [] h = h
run-KeepsOrder c (e ∷ es) h = elim (Option-cases (step c e)) [
  | inl w ↦ rw (w, run) tt
  | inr (c', w) ↦ rw (w, run) (run-KeepsOrder c' es (subst KeepsOrder w (step-KeepsOrder c e h)))
]

-- What a tier's lane is after a slot came back: with nobody waiting the permit is free again, and
-- else it is handed to the call that came before all the others in the queue.
abbrev pub ServesFirst : ℕ → Lane → Lane → Type 0
ServesFirst next lane lane' =
    ((lane.queue ≡ []) × (lane'.permits ≡ lane.permits + 1) × (lane'.signalled ≡ lane.signalled))
    ⊎ ((first : ℕ) × (waits first lane.queue ≡ true)
        × (lane'.signalled ≡ lane.signalled ++ first ∷ [])
        × (lane'.permits ≡ lane.permits)
        × (length lane.queue ≡ length lane'.queue + 1)
        × All (λ other. (first < other) × (other < next)) lane'.queue)

All-both : (P Q : ℕ → Type 0) (es : List ℕ) → All P es → All Q es → All (λ e. P e × Q e) es
All-both P Q [] a b = tt
All-both P Q (e ∷ es) (p, a) (q, b) = ((p, q), All-both P Q es a b)

lane-ServesFirst :
    (next : ℕ) (lane : Lane) → Ascends next lane.queue → ServesFirst next lane (release_lane lane)
unfolding release_lane
lane-ServesFirst next lane h = by_queue lane.queue h
  where
    by_queue :
        (q : List ℕ)
        → Ascends next q
        → ServesFirst next (record lane { queue = q }) (release_lane (record lane { queue = q }))
    by_queue [] h = inl (refl, refl, refl)
    by_queue (e ∷ es) (below, first, rest) = inr (
      e,
      ground (arith, ==_iff e e),
      refl,
      refl,
      omega arith,
      All-both (λ f. e < f) (λ f. f < next) es first (all_below next es rest),
    )

-- Entries are numbered as the calls come. In whatever order calls of all tiers have begun, been
-- woken, timed out and ended, a queueing tier gives a slot that comes back to the waiting call that
-- came first: all that are left in its queue came later, and before whoever comes next. That call
-- is then signalled, and the free permits stay as they are; with nobody waiting the permit is free
-- again.
pub release-ServesFirst :
    (high_concurrency low_concurrency backpressure timeout_high timeout_low : ℕ) (t : TaskPriority)
    (es : List CallEvent) (c : LimitedClient)
    → t ≢ critical
    → run
        (new_client
          (new_budget high_concurrency low_concurrency backpressure timeout_high timeout_low))
        es
      ≡ some c
    → ServesFirst c.budget.next_entry (c.budget.lanes t) ((release c.budget t).lanes t)
unfolding release new_client new_budget
release-ServesFirst h l b th tl t es c queues e = by_tier t queues
  where
    start : AreAscending (new_client (new_budget h l b th tl)).budget
    start t = tt

    ordered : AreAscending c.budget
    ordered = subst KeepsOrder e (run-KeepsOrder (new_client (new_budget h l b th tl)) es start)

    by_tier :
        (t : TaskPriority)
        → t ≢ critical
        → ServesFirst c.budget.next_entry (c.budget.lanes t) ((release c.budget t).lanes t)
    by_tier critical q = absurd (q refl)
    by_tier high q = lane-ServesFirst c.budget.next_entry (c.budget.lanes high) (ordered high)
    by_tier low q = lane-ServesFirst c.budget.next_entry (c.budget.lanes low) (ordered low)
    by_tier best_effort q =
        lane-ServesFirst c.budget.next_entry (c.budget.lanes best_effort) (ordered best_effort)
