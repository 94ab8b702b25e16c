-- ===== src/Llm/Semaphore/Tests.antt =====
-- Runs of the semaphore, and the theorems at one.
use fictional_barnacle.Prelude.{◌≤◌, ◌<◌, ◌≡◌, refl, ◌≢◌, ◌↔◌, false, none, some, List, [], ◌∷◌}
use fictional_barnacle.Llm.Semaphore.{
  CallStep, Ledger, acquire, acquires, arrives, enqueue, new_ledger, new_semaphore, run, step,
}
use fictional_barnacle.Llm.Semaphore.Bounds.{IsSound, run-IsSound, run_admits}

-- Two calls run at a time and one waits: the fourth call is refused.
abbrev busy : List CallStep
busy = arrives ∷ acquires ∷ arrives ∷ acquires ∷ arrives ∷ arrives ∷ []

abbrev end : Ledger
end = record {
  semaphore = record {
    permits = 0;
    max_concurrent = 2;
    queue_size = 1;
    timeout = 30;
    waiting = 1;
    active = 2;
  };
  arrived = 4;
  refused = 1;
  given_up = 0;
  finished = 0;
}

busy_end : run (new_ledger (new_semaphore 2 1 30)) busy ≡ some end
unfolding run step new_semaphore
busy_end = refl

run-IsSound_example : IsSound 2 1 end × (2 ≤ 2)
run-IsSound_example = run-IsSound 2 1 30 busy end busy_end

run_admits_example :
    (0 < 1 → 2 < 2 → acquire end.semaphore ≢ none)
    × (((enqueue end.semaphore).0 ≡ false) ↔ (end.semaphore.waiting ≡ 1))
run_admits_example = run_admits 2 1 30 busy end busy_end
