-- ===== src/Simulation/WorldMemory/Context.antt =====
-- `get_context`.
use fictional_barnacle.Prelude.{
  ℕ, suc, ◌+◌, ◌-◌, ◌≤◌, String, ◌≡◌, refl, ap, ◌∙◌, ◌⊎◌, inl, inr, Bool, not, ◌&&◌, List, [], ◌∷◌,
  ◌++◌, arith, if◌then◌else◌, Bool-cases, ◌==◌, ltb, leb→le, leb, take, filter, any, length,
  sum_by-append,
}
use fictional_barnacle.Prelude.Keyed.{count}
use fictional_barnacle.Simulation.WorldMemory.{
  MemoryRecord, MemoryWriter, current_importance, estimate_tokens, is_archived, is_of, tokens_of,
  turns_of,
}

-- `MemoryContext`
pub record MemoryContext : Type 0 where
  pub working : List MemoryRecord
  pub active : List MemoryRecord
  pub compressed : List MemoryRecord
  pub total_tokens : ℕ
  pub dropped_count : ℕ

-- `MemoryContext()`
abbrev pub empty_context : MemoryContext
empty_context = record {
  working = [];
  active = [];
  compressed = [];
  total_tokens = 0;
  dropped_count = 0;
}

-- `sort(key=…, reverse=True)`, which keeps the order of equals.
pub insert_by : (MemoryRecord → ℕ) → MemoryRecord → List MemoryRecord → List MemoryRecord
insert_by key r [] = r ∷ []
insert_by key r (s ∷ ss) = if leb (key s) (key r) then r ∷ s ∷ ss else s ∷ insert_by key r ss

pub sort_by : (MemoryRecord → ℕ) → List MemoryRecord → List MemoryRecord
unfolding insert_by
sort_by key [] = []
sort_by key (r ∷ rs) = insert_by key r (sort_by key rs)

-- The loop that fills what is left of the budget: the records that it takes, what is left then, and
-- how many it drops.
pub record Filled : Type 0 where
  pub active : List MemoryRecord
  pub remaining : ℕ
  pub dropped : ℕ

pub fill : ℕ → List MemoryRecord → Filled
fill remaining [] = record { active = []; remaining = remaining; dropped = 0 }
fill remaining (r ∷ rs) =
    let t = estimate_tokens r.content in
    let taken = fill (remaining - t) rs in
    let left = fill remaining rs in
    if leb t remaining
    then record taken { active = r ∷ taken.active }
    else record left { dropped = left.dropped + 1 }

abbrev pub is_in_turns : List ℕ → MemoryRecord → Bool
is_in_turns turns r = any (λ t. t == r.turn_number) turns

-- The end of `get_context`, on the three groups of records. Where they alone go over the budget
-- nothing is left of it, which is a negative number in the source.
pub assemble : List MemoryRecord → List MemoryRecord → List MemoryRecord → ℕ → MemoryContext
unfolding fill
assemble working candidates compressed budget_tokens =
    let filled = fill (budget_tokens - (tokens_of working + tokens_of compressed)) candidates in
    if ltb budget_tokens (tokens_of working)
    then record {
      working = working;
      active = [];
      compressed = [];
      total_tokens = tokens_of working;
      dropped_count = length candidates + length compressed;
    }
    else record {
      working = working;
      active = filled.active;
      compressed = compressed;
      total_tokens = tokens_of (working ++ (filled.active ++ compressed));
      dropped_count = filled.dropped;
    }

-- The session's records that `get_context` reads.
abbrev pub readable : MemoryWriter → String → String → List MemoryRecord
readable w universe_id session_id =
    filter (λ r. is_of universe_id session_id r && not (is_archived r.tier)) w.records

abbrev pub working_of : ℕ → List MemoryRecord → List MemoryRecord
working_of size rs = filter (is_in_turns (take size (turns_of rs))) rs

abbrev pub candidates_of : ℕ → List MemoryRecord → List MemoryRecord
candidates_of size rs =
    filter (λ r. not (is_in_turns (take size (turns_of rs)) r) && not r.is_compressed) rs

-- The method on the records that it reads.
unfoldable pub context_of : (MemoryRecord → ℕ) → ℕ → ℕ → List MemoryRecord → MemoryContext
unfolding assemble sort_by
context_of importance budget_tokens size [] = empty_context
context_of importance budget_tokens size (r ∷ rs) =
    assemble (working_of size (r ∷ rs)) (sort_by importance (candidates_of size (r ∷ rs)))
      (filter (λ s. s.is_compressed) (r ∷ rs)) budget_tokens

-- `get_context`
unfoldable pub get_context :
    (ℕ → ℕ → ℕ → ℕ) → MemoryWriter → String → String → ℕ → ℕ → ℕ → ℕ → MemoryContext
unfolding context_of
get_context fade w universe_id session_id current_tick budget_tokens working_memory_size half_life =
    context_of (current_importance fade current_tick half_life) budget_tokens working_memory_size
      (readable w universe_id session_id)

fill_lem :
    (remaining : ℕ) (rs : List MemoryRecord)
    → let filled = fill remaining rs in
      (tokens_of filled.active + filled.remaining ≡ remaining)
      × (length filled.active + filled.dropped ≡ length rs)
unfolding fill
fill_lem remaining [] = (omega arith, omega arith)
fill_lem remaining (r ∷ rs) =
    let t = estimate_tokens r.content in
    let taken = fill_lem (remaining - t) rs in
    let left = fill_lem remaining rs in
    elim (Bool-cases (leb t remaining)) [
      | inl fits ↦ rw fits (omega (arith, leb→le t remaining fits, taken.0), omega (arith, taken.1))
      | inr too_long ↦ rw too_long (left.0, omega (arith, left.1))
    ]

length-insert_by :
    (key : MemoryRecord → ℕ) (r : MemoryRecord) (ss : List MemoryRecord)
    → length (insert_by key r ss) ≡ suc (length ss)
unfolding insert_by
length-insert_by key r [] = refl
length-insert_by key r (s ∷ ss) = ground (arith, length-insert_by key r ss)

length-sort_by :
    (key : MemoryRecord → ℕ) (rs : List MemoryRecord) → length (sort_by key rs) ≡ length rs
unfolding sort_by
length-sort_by key [] = refl
length-sort_by key (r ∷ rs) =
    length-insert_by key r (sort_by key rs) ∙ ap suc (length-sort_by key rs)

-- What a context owes to the records that it was made of.
pub record IsContext (budget_tokens size : ℕ) (rs : List MemoryRecord) (c : MemoryContext)
    : Type 0 where
  pub keeps_working : c.working ≡ working_of size rs
  pub total : c.total_tokens ≡ tokens_of c.working + tokens_of c.active + tokens_of c.compressed
  pub fits : (c.active ≡ []) ⊎ (c.total_tokens ≤ budget_tokens)
  pub accounted :
      length c.active + length c.compressed + c.dropped_count
      ≡ length (candidates_of size rs) + length (filter (λ r. r.is_compressed) rs)

estimate_pos : (text : String) → 1 ≤ estimate_tokens text
unfolding estimate_tokens
estimate_pos text = omega arith

-- What is taken fits, since a record is at least one token.
taken_fits :
    (budget_tokens used remaining : ℕ) (taken : List MemoryRecord)
    → tokens_of taken + remaining ≡ budget_tokens - used
    → (taken ≡ []) ⊎ (used + tokens_of taken ≤ budget_tokens)
taken_fits budget_tokens used remaining [] h = inl refl
taken_fits budget_tokens used remaining (r ∷ rs) h = inr (omega (arith, h, estimate_pos r.content))

tokens_of_groups :
    (a b c : List MemoryRecord)
    → tokens_of (a ++ (b ++ c)) ≡ tokens_of a + tokens_of b + tokens_of c
tokens_of_groups a b c =
    let estimate : MemoryRecord → ℕ = λ r. estimate_tokens r.content in
    omega (arith, sum_by-append estimate a (b ++ c), sum_by-append estimate b c)

assemble-IsContext :
    (budget_tokens size : ℕ) (rs candidates : List MemoryRecord)
    → length candidates ≡ length (candidates_of size rs)
    → IsContext budget_tokens size rs
        (assemble (working_of size rs) candidates (filter (λ r. r.is_compressed) rs) budget_tokens)
unfolding assemble
assemble-IsContext budget_tokens size rs candidates same =
    let working = working_of size rs in
    let compressed = filter (λ r. r.is_compressed) rs in
    let room = budget_tokens - (tokens_of working + tokens_of compressed) in
    let (balance, count) = fill_lem room candidates in
    let filled = fill room candidates in
    elim (Bool-cases (ltb budget_tokens (tokens_of working))) [
      | inl over ↦ rw over (record {
        keeps_working = refl;
        total = omega arith;
        fits = inl refl;
        accounted = omega (arith, same);
      })
      | inr within ↦ rw within (record {
        keeps_working = refl;
        total = tokens_of_groups working filled.active compressed;
        fits =
            rw (tokens_of_groups working filled.active compressed)
              (elim (taken_fits budget_tokens (tokens_of working + tokens_of compressed)
                filled.remaining filled.active balance) [
                  | inl none_taken ↦ inl none_taken
                  | inr le ↦ inr (omega (arith, le))
                ]);
        accounted = omega (arith, same, count);
      })
    ]

context_of-IsContext :
    (importance : MemoryRecord → ℕ) (budget_tokens size : ℕ) (rs : List MemoryRecord)
    → IsContext budget_tokens size rs (context_of importance budget_tokens size rs)
unfolding context_of
context_of-IsContext importance budget_tokens size [] = record {
  keeps_working = refl;
  total = omega arith;
  fits = inl refl;
  accounted = omega arith;
}
context_of-IsContext importance budget_tokens size (r ∷ rs) =
    assemble-IsContext budget_tokens size (r ∷ rs)
      (sort_by importance (candidates_of size (r ∷ rs)))
      (length-sort_by importance (candidates_of size (r ∷ rs)))

-- A context holds every working record. Its total is that of its groups, a group's record being
-- counted in each group that it is in; an active record is taken only if the total stays within the
-- budget; and each record that could be active or is compressed is in the context or counted as
-- dropped.
pub get_context-IsContext :
    (fade : ℕ → ℕ → ℕ → ℕ) (w : MemoryWriter) (universe_id session_id : String)
    (current_tick budget_tokens working_memory_size half_life : ℕ)
    → IsContext budget_tokens working_memory_size (readable w universe_id session_id) (
        get_context fade w universe_id session_id current_tick budget_tokens working_memory_size
          half_life)
unfolding get_context
get_context-IsContext fade w universe_id session_id current_tick budget_tokens working_memory_size
      half_life =
    context_of-IsContext (current_importance fade current_tick half_life) budget_tokens
      working_memory_size (readable w universe_id session_id)
