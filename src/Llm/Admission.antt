-- ===== src/Llm/Admission.antt =====
-- tta/llm/rate_limiter.py. Between two waits a task runs alone, so each part of a method up to its
-- wait is one step. An `asyncio.Semaphore` is its counter, and an entry of a queue is a number; an
-- entry that `release` has taken off the queue stays in `signalled` until its task runs again.
pub mod Slots
pub mod Client
pub mod Cap
pub mod Ascends
pub mod Order
pub mod Handover
mod Tests
use fictional_barnacle.Prelude.{
  ℕ, suc, ◌+◌, ◌-◌, ◌≡◌, refl, ◌⊎◌, inl, inr, Bool, true, false, List, [], ◌∷◌, ◌++◌, arith, ◌==◌,
  if◌then◌else◌, leb, length,
}
use fictional_barnacle.Prelude.Int.{pos, pred_ℤ, suc_ℤ, ℤ}

-- `TaskPriority`
pub data TaskPriority : Type 0 where
  critical high low best_effort : TaskPriority

abbrev pub same_tier : TaskPriority → TaskPriority → Bool
same_tier critical critical = true
same_tier high high = true
same_tier low low = true
same_tier best_effort best_effort = true
same_tier _ _ = false

-- The semaphore, the queue and the count of active calls of one tier.
pub record Lane : Type 0 where
  pub permits : ℕ
  pub queue : List ℕ
  pub signalled : List ℕ
  pub active : ℤ

-- `RateLimitBudget`, less the provider snapshot that it only logs.
pub record RateLimitBudget : Type 0 where
  pub best_effort_backpressure : ℕ
  pub queue_timeout_high : ℕ
  pub queue_timeout_low : ℕ
  pub lanes : TaskPriority → Lane
  pub next_entry : ℕ

abbrev pub new_lane : ℕ → Lane
new_lane permits = record { permits = permits; queue = []; signalled = []; active = pos 0 }

-- How many calls of a tier the constructor allows at a time.
abbrev pub concurrency : ℕ → ℕ → TaskPriority → ℕ
concurrency high_concurrency low_concurrency critical = 0
concurrency high_concurrency low_concurrency high = high_concurrency
concurrency high_concurrency low_concurrency low = low_concurrency
concurrency high_concurrency low_concurrency best_effort = 1

-- `RateLimitBudget.__init__`; timeouts are in seconds.
pub new_budget : ℕ → ℕ → ℕ → ℕ → ℕ → RateLimitBudget
new_budget high_concurrency low_concurrency backpressure timeout_high timeout_low = record {
  best_effort_backpressure = backpressure;
  queue_timeout_high = timeout_high;
  queue_timeout_low = timeout_low;
  lanes = λ tier. new_lane (concurrency high_concurrency low_concurrency tier);
  next_entry = 0;
}

abbrev pub set_lane : RateLimitBudget → TaskPriority → Lane → RateLimitBudget
set_lane b tier lane = record b {
  lanes = λ other. if same_tier tier other then lane else b.lanes other;
}

-- `_timeout_for`
pub timeout_for : RateLimitBudget → TaskPriority → ℕ
timeout_for b high = b.queue_timeout_high
timeout_for b low = b.queue_timeout_low
timeout_for b _ = 60

-- The body of `admit` below the test for CRITICAL; `sem.locked()` is "no permit is left".
pub admit_lane : Lane → Bool × Lane
admit_lane lane =
    if lane.permits == 0
    then (false, lane)
    else (true, record lane { permits = lane.permits - 1; active = suc_ℤ lane.active })

-- `admit`
pub admit : RateLimitBudget → TaskPriority → Bool × RateLimitBudget
unfolding admit_lane
admit b critical =
    let lane = b.lanes critical in
    (true, set_lane b critical (record lane { active = suc_ℤ lane.active }))
admit b tier = let (ok, lane) = admit_lane (b.lanes tier) in (ok, set_lane b tier lane)

-- How `admit_or_queue` goes on: it returns, or waits for its entry's event.
pub data Outcome : Type 0 where
  admitted dropped : Outcome
  queued : ℕ → Outcome

-- The backpressure test, for BEST_EFFORT alone.
abbrev pub is_dropped : RateLimitBudget → TaskPriority → Bool
is_dropped b best_effort = leb b.best_effort_backpressure (length (b.lanes best_effort).queue)
is_dropped b _ = false

-- The slow path: a new entry goes to the end of the queue.
pub enqueue : RateLimitBudget → TaskPriority → RateLimitBudget
enqueue b tier =
    let lane = b.lanes tier in
    record (set_lane b tier (record lane { queue = lane.queue ++ b.next_entry ∷ [] })) {
      next_entry = suc b.next_entry;
    }

-- `admit_or_queue`, up to its wait.
pub admit_or_queue : RateLimitBudget → TaskPriority → Outcome × RateLimitBudget
unfolding admit enqueue
admit_or_queue b tier =
    let (ok, b') = admit b tier in
    if ok
    then (admitted, b')
    else if is_dropped b tier
    then (dropped, b)
    else (queued b.next_entry, enqueue b tier)

-- `deque.remove`, of the first entry that is equal; without one it does nothing, as in
-- `_remove_from_queue`.
pub remove_entry : ℕ → List ℕ → List ℕ
remove_entry entry [] = []
remove_entry entry (e ∷ es) = if e == entry then es else e ∷ remove_entry entry es

-- The end of `admit_or_queue` after the event was set.
pub resume : RateLimitBudget → TaskPriority → ℕ → RateLimitBudget
unfolding remove_entry
resume b tier entry =
    let lane = b.lanes tier in
    set_lane b tier
      (record lane { signalled = remove_entry entry lane.signalled; active = suc_ℤ lane.active })

-- The handler of `TimeoutError`. The waiting task is gone: so is its entry among the signalled.
pub time_out : RateLimitBudget → TaskPriority → ℕ → RateLimitBudget
unfolding remove_entry
time_out b tier entry =
    let lane = b.lanes tier in
    set_lane b tier (record lane {
      queue = remove_entry entry lane.queue;
      signalled = remove_entry entry lane.signalled;
    })

-- The end of `release`: the next entry's event is set, or the permit goes back.
pub release_lane : Lane → Lane
release_lane lane =
    let active = pred_ℤ lane.active in
    elim lane.queue [
      | [] ↦ record lane { active = active; permits = lane.permits + 1 }
      | entry ∷ rest ↦ record lane {
        active = active;
        queue = rest;
        signalled = lane.signalled ++ entry ∷ [];
      }
    ]

-- `release`
pub release : RateLimitBudget → TaskPriority → RateLimitBudget
unfolding release_lane
release b critical =
    let lane = b.lanes critical in set_lane b critical (record lane { active = pred_ℤ lane.active })
release b tier = set_lane b tier (release_lane (b.lanes tier))

pub same_tier_self : (t : TaskPriority) → same_tier t t ≡ true
same_tier_self critical = refl
same_tier_self high = refl
same_tier_self low = refl
same_tier_self best_effort = refl

pub tier_cases : (t tier : TaskPriority) → (t ≡ tier) ⊎ (same_tier tier t ≡ false)
tier_cases critical critical = inl refl
tier_cases high high = inl refl
tier_cases low low = inl refl
tier_cases best_effort best_effort = inl refl
tier_cases t tier = inr (ground arith)
