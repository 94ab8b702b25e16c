-- ===== src/Llm/Admission/Ascends.antt =====
-- The queues of a budget are in the order of their entries' numbers.
use fictional_barnacle.Prelude.{
  ℕ, suc, ◌≤◌, ◌<◌, ◌≡◌, refl, inl, inr, List, [], ◌∷◌, ◌++◌, arith, ◌==◌, Bool-cases, All,
  All-snoc,
}
use fictional_barnacle.Llm.Admission.{
  Lane, RateLimitBudget, TaskPriority, admit, admit_lane, admit_or_queue, best_effort, critical,
  enqueue, high, is_dropped, low, release, release_lane, remove_entry, same_tier, set_lane,
}

-- The numbers rise, and are below `next`.
abbrev pub Ascends : ℕ → List ℕ → Type 0
Ascends next [] = Unit
Ascends next (e ∷ es) = (e < next) × All (λ f. e < f) es × Ascends next es

pub Ascends-le : (next later : ℕ) (es : List ℕ) → next ≤ later → Ascends next es → Ascends later es
Ascends-le next later [] le h = tt
Ascends-le next later (e ∷ es) le (below, first, rest) =
    (omega arith, first, Ascends-le next later es le rest)

pub all_below : (next : ℕ) (es : List ℕ) → Ascends next es → All (λ f. f < next) es
all_below next [] h = tt
all_below next (e ∷ es) (below, first, rest) = (below, all_below next es rest)

pub Ascends-snoc : (next : ℕ) (es : List ℕ) → Ascends next es → Ascends (suc next) (es ++ next ∷ [])
Ascends-snoc next [] h = (omega arith, tt, tt)
Ascends-snoc next (e ∷ es) (below, first, rest) =
    (omega arith, All-snoc (λ f. e < f) es next first below, Ascends-snoc next es rest)

pub All-remove_entry :
    (P : ℕ → Type 0) (entry : ℕ) (es : List ℕ) → All P es → All P (remove_entry entry es)
unfolding remove_entry
All-remove_entry P entry [] h = tt
All-remove_entry P entry (e ∷ es) (p, h) = elim (Bool-cases (e == entry)) [
  | inl own ↦ rw own h
  | inr other ↦ rw other (p, All-remove_entry P entry es h)
]

pub Ascends-remove_entry :
    (next entry : ℕ) (es : List ℕ) → Ascends next es → Ascends next (remove_entry entry es)
unfolding remove_entry
Ascends-remove_entry next entry [] h = tt
Ascends-remove_entry next entry (e ∷ es) (below, first, rest) = elim (Bool-cases (e == entry)) [
  | inl own ↦ rw own rest
  | inr other ↦
      rw other (
        below,
        All-remove_entry (λ f. e < f) entry es first,
        Ascends-remove_entry next entry es rest,
      )
]

-- The queue of every tier is in the order of its entries' numbers.
abbrev pub AreAscending : RateLimitBudget → Type 0
AreAscending b = (t : TaskPriority) → Ascends b.next_entry (b.lanes t).queue

-- A budget in which one lane is another, and whose entries may have gone on.
pub set_lane-AreAscending :
    (b : RateLimitBudget) (tier : TaskPriority) (lane : Lane) (next : ℕ)
    → AreAscending b
    → b.next_entry ≤ next
    → Ascends next lane.queue
    → AreAscending (record (set_lane b tier lane) { next_entry = next })
set_lane-AreAscending b tier lane next h le new t = elim (Bool-cases (same_tier tier t)) [
  | inl own ↦ rw own new
  | inr other ↦ rw other (Ascends-le b.next_entry next (b.lanes t).queue le (h t))
]

pub admit_lane-queue : (lane : Lane) → (admit_lane lane).1.queue ≡ lane.queue
unfolding admit_lane
admit_lane-queue lane = elim (Bool-cases (lane.permits == 0)) [
  | inl full ↦ rw full refl
  | inr free ↦ rw free refl
]

pub admit-AreAscending :
    (b : RateLimitBudget) (tier : TaskPriority) → AreAscending b → AreAscending (admit b tier).1
unfolding admit
admit-AreAscending b critical h =
    set_lane-AreAscending b critical _ b.next_entry h (omega arith) (h critical)
admit-AreAscending b high h =
    set_lane-AreAscending b high _ b.next_entry h (omega arith)
      (rw (admit_lane-queue (b.lanes high)) (h high))
admit-AreAscending b low h =
    set_lane-AreAscending b low _ b.next_entry h (omega arith)
      (rw (admit_lane-queue (b.lanes low)) (h low))
admit-AreAscending b best_effort h =
    set_lane-AreAscending b best_effort _ b.next_entry h (omega arith)
      (rw (admit_lane-queue (b.lanes best_effort)) (h best_effort))

pub enqueue-AreAscending :
    (b : RateLimitBudget) (tier : TaskPriority) → AreAscending b → AreAscending (enqueue b tier)
unfolding enqueue
enqueue-AreAscending b tier h =
    set_lane-AreAscending b tier _ (suc b.next_entry) h (omega arith)
      (Ascends-snoc b.next_entry (b.lanes tier).queue (h tier))

pub admit_or_queue-AreAscending :
    (b : RateLimitBudget) (tier : TaskPriority)
    → AreAscending b
    → AreAscending (admit_or_queue b tier).1
unfolding admit_or_queue
admit_or_queue-AreAscending b tier h = elim (Bool-cases (admit b tier).0) [
  | inl ok ↦ rw ok (admit-AreAscending b tier h)
  | inr full ↦ elim (Bool-cases (is_dropped b tier)) [
    | inl dropped_ ↦ rw (full, dropped_) h
    | inr waits_ ↦ rw (full, waits_) (enqueue-AreAscending b tier h)
  ]
]

pub release_lane-Ascends :
    (next : ℕ) (lane : Lane) → Ascends next lane.queue → Ascends next (release_lane lane).queue
unfolding release_lane
release_lane-Ascends next lane h = by_queue lane.queue h
  where
    by_queue :
        (q : List ℕ)
        → Ascends next q
        → Ascends next (release_lane (record lane { queue = q })).queue
    by_queue [] h = tt
    by_queue (e ∷ es) (below, first, rest) = rest

pub release-AreAscending :
    (b : RateLimitBudget) (tier : TaskPriority) → AreAscending b → AreAscending (release b tier)
unfolding release
release-AreAscending b critical h =
    set_lane-AreAscending b critical _ b.next_entry h (omega arith) (h critical)
release-AreAscending b high h =
    set_lane-AreAscending b high _ b.next_entry h (omega arith)
      (release_lane-Ascends b.next_entry (b.lanes high) (h high))
release-AreAscending b low h =
    set_lane-AreAscending b low _ b.next_entry h (omega arith)
      (release_lane-Ascends b.next_entry (b.lanes low) (h low))
release-AreAscending b best_effort h =
    set_lane-AreAscending b best_effort _ b.next_entry h (omega arith)
      (release_lane-Ascends b.next_entry (b.lanes best_effort) (h best_effort))
