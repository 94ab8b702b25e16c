-- ===== src/Llm/Semaphore/Bounds.antt =====
-- How many calls run and wait, and that none is lost.
use fictional_barnacle.Prelude.{
  ℕ, ◌+◌, ◌≤◌, ◌<◌, ◌≡◌, refl, subst, ◌≢◌, ◌↔◌, inl, inr, false, ◌||◌, Option, none, some, List, [],
  ◌∷◌, arith, ◌==◌, leb, Bool-cases, Option-cases,
}
use fictional_barnacle.Llm.Semaphore.{
  CallStep, Ledger, acquire, acquires, arrives, enqueue, finish_call, finishes, give_up, gives_up,
  new_ledger, new_semaphore, run, step,
}

-- Every permit is free or with a running call, the queue is within its size, and each call that has
-- arrived is refused, waiting, running, given up or finished.
pub record IsSound (max_concurrent queue_size : ℕ) (l : Ledger) : Type 0 where
  pub same_limits :
      (l.semaphore.max_concurrent ≡ max_concurrent) × (l.semaphore.queue_size ≡ queue_size)
  pub permits_held : l.semaphore.permits + l.semaphore.active ≡ max_concurrent
  pub queue_bounded : l.semaphore.waiting ≤ queue_size
  pub accounted :
      l.arrived ≡ l.refused + l.semaphore.waiting + l.semaphore.active + l.given_up + l.finished

abbrev Keeps : ℕ → ℕ → Option Ledger → Type 0
Keeps max_concurrent queue_size none = Unit
Keeps max_concurrent queue_size (some l) = IsSound max_concurrent queue_size l

module _ (m q : ℕ) where
  arrive-IsSound : (l : Ledger) → IsSound m q l → Keeps m q (step l arrives)
  unfolding step enqueue
  arrive-IsSound l i = elim (Bool-cases (leb l.semaphore.queue_size l.semaphore.waiting)) [
    | inl full ↦ rw full (record {
      same_limits = i.same_limits;
      permits_held = i.permits_held;
      queue_bounded = i.queue_bounded;
      accounted = omega (arith, i.accounted);
    })
    | inr room ↦ rw room (record {
      same_limits = i.same_limits;
      permits_held = i.permits_held;
      queue_bounded = ground (arith, room, i.same_limits.1);
      accounted = omega (arith, i.accounted);
    })
  ]

  acquire-IsSound : (l : Ledger) → IsSound m q l → Keeps m q (step l acquires)
  unfolding step acquire
  acquire-IsSound l i = elim (Bool-cases (l.semaphore.waiting == 0 || l.semaphore.permits == 0)) [
    | inl stuck ↦ rw stuck tt
    | inr ready ↦ rw ready (record {
      same_limits = i.same_limits;
      permits_held = ground (arith, ready, i.permits_held);
      queue_bounded = omega (arith, i.queue_bounded);
      accounted = ground (arith, ready, i.accounted);
    })
  ]

  give_up-IsSound : (l : Ledger) → IsSound m q l → Keeps m q (step l gives_up)
  unfolding step give_up
  give_up-IsSound l i = elim (Bool-cases (l.semaphore.waiting == 0)) [
    | inl nobody ↦ rw nobody tt
    | inr somebody ↦ rw somebody (record {
      same_limits = i.same_limits;
      permits_held = i.permits_held;
      queue_bounded = omega (arith, i.queue_bounded);
      accounted = ground (arith, somebody, i.accounted);
    })
  ]

  finish_call-IsSound : (l : Ledger) → IsSound m q l → Keeps m q (step l finishes)
  unfolding step finish_call
  finish_call-IsSound l i = elim (Bool-cases (l.semaphore.active == 0)) [
    | inl nobody ↦ rw nobody tt
    | inr somebody ↦ rw somebody (record {
      same_limits = i.same_limits;
      permits_held = ground (arith, somebody, i.permits_held);
      queue_bounded = i.queue_bounded;
      accounted = ground (arith, somebody, i.accounted);
    })
  ]

  step-Keeps : (l : Ledger) (e : CallStep) → IsSound m q l → Keeps m q (step l e)
  step-Keeps l arrives i = arrive-IsSound l i
  step-Keeps l acquires i = acquire-IsSound l i
  step-Keeps l gives_up i = give_up-IsSound l i
  step-Keeps l finishes i = finish_call-IsSound l i

  run-Keeps : (l : Ledger) (es : List CallStep) → IsSound m q l → Keeps m q (run l es)
  unfolding run
  run-Keeps l [] i = i
  run-Keeps l (e ∷ es) i = elim (Option-cases (step l e)) [
    | inl stops ↦ rw (stops, run) tt
    | inr (l', goes) ↦ rw (goes, run) (run-Keeps l' es (subst (Keeps m q) goes (step-Keeps l e i)))
  ]

  new_semaphore-IsSound : (timeout : ℕ) → IsSound m q (new_ledger (new_semaphore m q timeout))
  unfolding new_semaphore
  new_semaphore-IsSound timeout = record {
    same_limits = (refl, refl);
    permits_held = omega arith;
    queue_bounded = omega arith;
    accounted = omega arith;
  }

-- In whatever order calls arrive, acquire the semaphore, give up and finish, every permit is free
-- or with a running call, so that no more than `max_concurrent` calls run; no more than
-- `queue_size` wait; and each call that has arrived is refused, waiting, running, given up or
-- finished.
pub run-IsSound :
    (max_concurrent queue_size timeout : ℕ) (es : List CallStep) (l : Ledger)
    → run (new_ledger (new_semaphore max_concurrent queue_size timeout)) es ≡ some l
    → IsSound max_concurrent queue_size l × (l.semaphore.active ≤ max_concurrent)
run-IsSound max_concurrent queue_size timeout es l e =
    let i : IsSound max_concurrent queue_size l = subst (Keeps max_concurrent queue_size) e (
      run-Keeps max_concurrent queue_size
        (new_ledger (new_semaphore max_concurrent queue_size timeout)) es
        (new_semaphore-IsSound max_concurrent queue_size timeout)) in
    (i, omega (arith, i.permits_held))

-- In every state that is reached, while fewer than `max_concurrent` calls run, a call that waits
-- can acquire the semaphore; and a call that arrives is refused exactly if `queue_size` calls wait,
-- whether or not a permit is free.
pub run_admits :
    (max_concurrent queue_size timeout : ℕ) (es : List CallStep) (l : Ledger)
    → run (new_ledger (new_semaphore max_concurrent queue_size timeout)) es ≡ some l
    → (0 < l.semaphore.waiting → l.semaphore.active < max_concurrent → acquire l.semaphore ≢ none)
      × (((enqueue l.semaphore).0 ≡ false) ↔ (l.semaphore.waiting ≡ queue_size))
unfolding acquire enqueue
run_admits max_concurrent queue_size timeout es l e =
    let (i, _) = run-IsSound max_concurrent queue_size timeout es l e in
    (λ w a. ground (arith, i.permits_held), ground (arith, i.queue_bounded, i.same_limits.1))
