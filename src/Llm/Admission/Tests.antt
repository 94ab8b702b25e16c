-- ===== src/Llm/Admission/Tests.antt =====
-- Runs of a client that allows two HIGH calls and one LOW call, and lets one BEST_EFFORT call wait.
use fictional_barnacle.Prelude.{◌+◌, ◌≤◌, ◌≡◌, refl, ◌⊎◌, none, some, List, [], ◌∷◌, arith}
use fictional_barnacle.Prelude.Int.{pos}
use fictional_barnacle.Llm.Admission.{
  admit, admit_lane, admit_or_queue, best_effort, critical, enqueue, high, low, new_budget, release,
  release_lane, remove_entry, resume, time_out,
}
use fictional_barnacle.Llm.Admission.Cap.{low_capped, run-HasSlots}
use fictional_barnacle.Llm.Admission.Client.{
  CallEvent, LimitedClient, begin, enter, exit, expire, finish, new_client, run, step, wake,
}
use fictional_barnacle.Llm.Admission.Handover.{dropped_runs, expire_signalled_loses, slots}
use fictional_barnacle.Llm.Admission.Order.{ServesFirst, release-ServesFirst}

abbrev small : LimitedClient
unfolding new_client new_budget
small = new_client (new_budget 2 1 1 300 600)

abbrev low_calls : List CallEvent
low_calls =
    begin low ∷ begin high ∷ begin low ∷ begin critical ∷ finish low ∷ wake low 0 ∷ begin low ∷ []

-- Where `events` lead from `small`.
abbrev after : List CallEvent → LimitedClient
unfolding run step enter admit_or_queue admit admit_lane enqueue resume remove_entry exit release
    release_lane new_client new_budget
after events = elim (run small events) [ none ↦ small | some c ↦ c ]

abbrev low_running : LimitedClient
unfolding after
low_running = after low_calls

run-HasSlots_example :
    let lane = low_running.budget.lanes low in
    (low_running.running low ≤ 1)
    × (lane.active ≡ pos (low_running.running low))
    × ((lane.queue ≡ []) ⊎ (lane.permits ≡ 0))
unfolding low_running
run-HasSlots_example = run-HasSlots 2 1 1 300 600 low low_calls low_running low_capped refl

-- One LOW call runs, and two wait.
abbrev low_waiting : LimitedClient
unfolding after
low_waiting = after (begin low ∷ begin low ∷ begin low ∷ [])

release-ServesFirst_example :
    ServesFirst 2 (low_waiting.budget.lanes low) ((release low_waiting.budget low).lanes low)
unfolding low_waiting
release-ServesFirst_example =
    release-ServesFirst 2 1 1 300 600 low (begin low ∷ begin low ∷ begin low ∷ []) low_waiting
      (λ e. cc e) refl

-- The second LOW call has been signalled and has not run.
abbrev handed_over : LimitedClient
unfolding after
handed_over = after (begin low ∷ begin low ∷ finish low ∷ [])

abbrev slot_lost : LimitedClient
unfolding after time_out
slot_lost = elim (step handed_over (expire low 0)) [ none ↦ handed_over | some c ↦ c ]

expire_signalled_loses_example : slots handed_over low ≡ slots slot_lost low + 1
unfolding slot_lost
expire_signalled_loses_example = expire_signalled_loses handed_over slot_lost low 0 refl refl

-- One BEST_EFFORT call runs and one waits; the third is turned away.
abbrev crowded : LimitedClient
unfolding after
crowded = after (begin best_effort ∷ begin best_effort ∷ [])

abbrev overrun : LimitedClient
unfolding after
overrun = after (begin best_effort ∷ begin best_effort ∷ begin best_effort ∷ [])

dropped_runs_example : (overrun.running best_effort ≡ 2) × (overrun.budget ≡ crowded.budget)
unfolding overrun
dropped_runs_example = dropped_runs crowded overrun refl (omega arith) refl
