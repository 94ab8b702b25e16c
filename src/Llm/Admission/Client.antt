-- ===== src/Llm/Admission/Client.antt =====
-- `RateLimitedLLMClient`: its calls in flight, and what can happen to them.
use fictional_barnacle.Prelude.{
  ℕ, ◌+◌, ◌-◌, Bool, ◌||◌, Option, none, some, List, [], ◌∷◌, ◌==◌, if◌then◌else◌, any,
}
use fictional_barnacle.Llm.Admission.{
  Outcome, RateLimitBudget, TaskPriority, admit_or_queue, critical, queued, release, resume,
  same_tier, time_out,
}

-- The budget, and how many calls of each tier are inside `_inner.generate` or `_inner.stream`.
pub record LimitedClient : Type 0 where
  pub budget : RateLimitBudget
  pub running : TaskPriority → ℕ

unfoldable pub new_client : RateLimitBudget → LimitedClient
new_client budget = record { budget = budget; running = λ tier. 0 }

abbrev pub set_running : LimitedClient → TaskPriority → ℕ → LimitedClient
set_running c tier n = record c {
  running = λ other. if same_tier tier other then n else c.running other;
}

-- `task_priority or tier`
unfoldable pub effective_tier : Option TaskPriority → TaskPriority → TaskPriority
effective_tier none tier = tier
effective_tier (some task_priority) tier = task_priority

-- A call begins; a waiting call finds its event set; its timeout fires; a call leaves the inner
-- client.
pub data CallEvent : Type 0 where
  begin : TaskPriority → CallEvent
  wake expire : TaskPriority → ℕ → CallEvent
  finish : TaskPriority → CallEvent

abbrev pub waits : ℕ → List ℕ → Bool
waits entry entries = any (λ e. e == entry) entries

-- Where a call is after `admit_or_queue`, up to its wait, whatever that returns.
abbrev pub place : LimitedClient → TaskPriority → Outcome → RateLimitBudget → LimitedClient
place c tier (queued entry) budget = record c { budget = budget }
place c tier _ budget = set_running (record c { budget = budget }) tier (c.running tier + 1)

-- `generate` and `stream` from the start: `_enforce` ignores what `admit_or_queue` returns.
unfoldable pub enter : LimitedClient → TaskPriority → LimitedClient
enter c critical = set_running c critical (c.running critical + 1)
enter c tier = let (outcome, budget) = admit_or_queue c.budget tier in place c tier outcome budget

-- The `finally` clause of both methods.
unfoldable pub exit : LimitedClient → TaskPriority → LimitedClient
exit c critical = set_running c critical (c.running critical - 1)
exit c tier = set_running (record c { budget = release c.budget tier }) tier (c.running tier - 1)

-- `none` where the event cannot happen.
unfoldable pub step : LimitedClient → CallEvent → Option LimitedClient
unfolding enter exit
step c (begin tier) = some (enter c tier)
step c (wake tier entry) =
    if waits entry (c.budget.lanes tier).signalled
    then some
        (set_running (record c { budget = resume c.budget tier entry }) tier (c.running tier + 1))
    else none
step c (expire tier entry) =
    if waits entry (c.budget.lanes tier).queue || waits entry (c.budget.lanes tier).signalled
    then some (record c { budget = time_out c.budget tier entry })
    else none
step c (finish tier) = if c.running tier == 0 then none else some (exit c tier)

unfoldable pub run : LimitedClient → List CallEvent → Option LimitedClient
unfolding step
run c [] = some c
run c (e ∷ es) = elim (step c e) [ none ↦ none | some c' ↦ run c' es ]
