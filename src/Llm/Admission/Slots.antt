-- ===== src/Llm/Admission/Slots.antt =====
-- The slots of one tier: free, in use, or handed to a waiting call that has not run yet.
use fictional_barnacle.Prelude.{
  ℕ, ◌+◌, ◌-◌, ◌≤◌, ◌≡◌, ◌≢◌, ◌⊎◌, true, false, List, [], ◌∷◌, ◌++◌, arith, if◌then◌else◌, ◌==◌,
  length, length-append, any,
}
use fictional_barnacle.Prelude.Int.{pos, suc_ℤ}
use fictional_barnacle.Llm.Admission.{Lane, admit_lane, release_lane, remove_entry}

-- At most `cap` slots in all, `running` of them in use; calls wait only while no slot is free.
pub record HasSlots (cap running : ℕ) (lane : Lane) : Type 0 where
  pub counted : lane.active ≡ pos running
  pub bounded : lane.permits + running + length lane.signalled ≤ cap
  pub busy : (lane.queue ≡ []) ⊎ (lane.permits ≡ 0)

pub length-remove_entry :
    (entry : ℕ) (es : List ℕ)
    → length (remove_entry entry es) + (if any (λ e. e == entry) es then 1 else 0) ≡ length es
unfolding remove_entry
length-remove_entry entry [] = omega arith
length-remove_entry entry (e ∷ es) = ground (arith, length-remove_entry entry es)

module _ (cap running : ℕ) (lane : Lane) (v : HasSlots cap running lane) where
  pub admit_lane-HasSlots :
      (admit_lane lane).0 ≡ true → HasSlots cap (running + 1) (admit_lane lane).1
  unfolding admit_lane
  admit_lane-HasSlots e = ground arith

  pub admit_lane_full : (admit_lane lane).0 ≡ false → lane.permits ≡ 0
  unfolding admit_lane
  admit_lane_full e = ground arith

  pub enqueue-HasSlots :
      (entry : ℕ)
      → lane.permits ≡ 0
      → HasSlots cap running (record lane { queue = lane.queue ++ entry ∷ [] })
  enqueue-HasSlots entry e = ground arith

  pub resume-HasSlots :
      (entry : ℕ)
      → any (λ e. e == entry) lane.signalled ≡ true
      → HasSlots cap (running + 1) (record lane {
        signalled = remove_entry entry lane.signalled;
        active = suc_ℤ lane.active;
      })
  resume-HasSlots entry e = ground (arith, length-remove_entry entry lane.signalled)

  pub time_out-HasSlots :
      (entry : ℕ)
      → HasSlots cap running (record lane {
        queue = remove_entry entry lane.queue;
        signalled = remove_entry entry lane.signalled;
      })
  unfolding remove_entry
  time_out-HasSlots entry = ground (arith, length-remove_entry entry lane.signalled)

  pub release_lane-HasSlots : running ≢ 0 → HasSlots cap (running - 1) (release_lane lane)
  unfolding release_lane
  release_lane-HasSlots e = grind (arith, length-append)
