-- ===== src/Llm/Semaphore.antt =====
-- tta/llm/semaphore.py. Each part of `execute` between two waits is one step. An
-- `asyncio.Semaphore` is its counter; the metrics and log lines are left out.
pub mod Bounds
mod Tests
use fictional_barnacle.Prelude.{
  ℕ, ◌+◌, ◌-◌, Bool, true, false, ◌||◌, Option, none, some, List, [], ◌∷◌, leb, if◌then◌else◌, ◌==◌,
}

-- `LLMSemaphore`, with the seconds of its timeout.
pub record LlmSemaphore : Type 0 where
  pub permits : ℕ
  pub max_concurrent : ℕ
  pub queue_size : ℕ
  pub timeout : ℕ
  pub waiting : ℕ
  pub active : ℕ

-- `__init__`
pub new_semaphore : ℕ → ℕ → ℕ → LlmSemaphore
new_semaphore max_concurrent queue_size timeout = record {
  permits = max_concurrent;
  max_concurrent = max_concurrent;
  queue_size = queue_size;
  timeout = timeout;
  waiting = 0;
  active = 0;
}

-- The start of `execute`, under the lock: the call is refused with LLM_QUEUE_FULL, or it waits.
pub enqueue : LlmSemaphore → Bool × LlmSemaphore
enqueue s =
    if leb s.queue_size s.waiting then (false, s) else (true, record s { waiting = s.waiting + 1 })

-- A waiting call acquires the semaphore, leaves the queue and calls `fn`.
pub acquire : LlmSemaphore → Option LlmSemaphore
acquire s =
    if s.waiting == 0 || s.permits == 0
    then none
    else some (record s { permits = s.permits - 1; waiting = s.waiting - 1; active = s.active + 1 })

-- A waiting call times out, which raises LLM_TIMEOUT, or is cancelled.
pub give_up : LlmSemaphore → Option LlmSemaphore
give_up s = if s.waiting == 0 then none else some (record s { waiting = s.waiting - 1 })

-- `fn` returns, raises, or times out, which raises LLM_CALL_TIMEOUT: in each case the `finally`
-- clause runs.
pub finish_call : LlmSemaphore → Option LlmSemaphore
finish_call s =
    if s.active == 0
    then none
    else some (record s { active = s.active - 1; permits = s.permits + 1 })

-- What can happen to a semaphore.
pub data CallStep : Type 0 where
  arrives acquires gives_up finishes : CallStep

-- A semaphore, and what has become of its calls.
pub record Ledger : Type 0 where
  pub semaphore : LlmSemaphore
  pub arrived : ℕ
  pub refused : ℕ
  pub given_up : ℕ
  pub finished : ℕ

abbrev pub new_ledger : LlmSemaphore → Ledger
new_ledger s = record { semaphore = s; arrived = 0; refused = 0; given_up = 0; finished = 0 }

abbrev pub after : Option LlmSemaphore → (LlmSemaphore → Ledger) → Option Ledger
after none f = none
after (some s) f = some (f s)

-- `none` where the step cannot happen.
unfoldable pub step : Ledger → CallStep → Option Ledger
unfolding enqueue acquire give_up finish_call
step l arrives =
    let (ok, s) = enqueue l.semaphore in
    some (record l {
      semaphore = s;
      arrived = l.arrived + 1;
      refused = if ok then l.refused else l.refused + 1;
    })
step l acquires = after (acquire l.semaphore) (λ s. record l { semaphore = s })
step l gives_up =
    after (give_up l.semaphore) (λ s. record l { semaphore = s; given_up = l.given_up + 1 })
step l finishes =
    after (finish_call l.semaphore) (λ s. record l { semaphore = s; finished = l.finished + 1 })

unfoldable pub run : Ledger → List CallStep → Option Ledger
unfolding step
run l [] = some l
run l (e ∷ es) = elim (step l e) [ none ↦ none | some l' ↦ run l' es ]
