-- ===== src/Llm/Admission/Handover.antt =====
-- What becomes of a slot that is given back, and of one whose call does not take it.
use fictional_barnacle.Prelude.{ℕ, ◌+◌, ◌≤◌, ◌≡◌, subst, true, ◌||◌, some, arith, length}
use fictional_barnacle.Llm.Admission.{
  TaskPriority, admit, admit_lane, admit_or_queue, best_effort, same_tier_self, time_out,
}
use fictional_barnacle.Llm.Admission.Client.{LimitedClient, begin, enter, expire, step, waits}
use fictional_barnacle.Llm.Admission.Slots.{length-remove_entry}

-- The slots that a tier's calls hold, will hold or can take.
abbrev pub slots : LimitedClient → TaskPriority → ℕ
slots c t = let lane = c.budget.lanes t in lane.permits + c.running t + length lane.signalled

-- If the timeout of a call fires after `release` has signalled its entry, and before the call has
-- run, its slot is lost: the tier is left with one slot fewer than before.
pub expire_signalled_loses :
    (c c' : LimitedClient) (t : TaskPriority) (entry : ℕ)
    → waits entry (c.budget.lanes t).signalled ≡ true
    → step c (expire t entry) ≡ some c'
    → slots c t ≡ slots c' t + 1
unfolding step time_out
expire_signalled_loses c c' t entry w e =
    let lane = c.budget.lanes t in
    let fires : (waits entry lane.queue || waits entry lane.signalled) ≡ true = ground (arith, w) in
    subst (λ d. slots c t ≡ slots d t + 1) (some_inj (rw fires at e))
      (rw (same_tier_self t) (ground (arith, length-remove_entry entry lane.signalled, w)))
  where
    some_inj : {x y : LimitedClient} → some x ≡ some y → x ≡ y
    some_inj p = cc

-- A BEST_EFFORT call that the full queue turns away runs all the same: with no permit free and the
-- queue at its limit, one more call of the tier is running, and the budget has not counted it.
pub dropped_runs :
    (c c' : LimitedClient)
    → (c.budget.lanes best_effort).permits ≡ 0
    → c.budget.best_effort_backpressure ≤ length (c.budget.lanes best_effort).queue
    → step c (begin best_effort) ≡ some c'
    → (c'.running best_effort ≡ c.running best_effort + 1) × (c'.budget ≡ c.budget)
unfolding step enter admit_or_queue admit admit_lane
dropped_runs c c' p q e = ground arith
