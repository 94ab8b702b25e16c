-- ===== src/Choices/Service/Prune/Cap.antt =====
-- Pruning leaves no more chains running than are allowed, and takes those of the least score.
use fictional_barnacle.Prelude.{
  ℕ, zero, suc, ◌+◌, ◌-◌, ◌≤◌, min, String, ◌≡◌, refl, sym, ap, ◌∙◌, inl, inr, Bool, true, not,
  ◌&&◌, List, [], ◌∷◌, map, arith, leb, ltb, ◌==◌, leb→le, Bool-cases, if◌then◌else◌, sum_by, All,
  take, filter, length,
}
use fictional_barnacle.Prelude.Keyed.{
  HaveDistinctKeys, all_one_of, count_all, count_key, count_none, is_one_of, none_one_of,
}
use fictional_barnacle.Choices.Chain.{
  ConsequenceChain, ConsequenceEntry, all_over, is_resolved, is_running,
}
use fictional_barnacle.Choices.Service.{InMemoryConsequenceService, chains_of, get_active_chains}
use fictional_barnacle.Choices.Service.Prune.{
  falls_asleep, id_of, mark_dormant, prune_chains, prune_entry, prune_if, prune_list, put_to_sleep,
  sort_chains, to_prune,
}
use fictional_barnacle.Choices.Service.Prune.Order.{drop, sum_by-sort_chains, sum_by-take-drop}
use fictional_barnacle.Choices.Service.Sessions.{chains_of-put_chains}

-- No two chains of a list have the same identifier.
abbrev pub HaveDistinctIds : List ConsequenceChain → Type 0
HaveDistinctIds = HaveDistinctKeys id_of

abbrev has_entries : ConsequenceChain → Bool
has_entries c = ltb 0 (length c.entries)

pub length-take_exact :
    (n : ℕ) (cs : List ConsequenceChain) → n ≤ length cs → length (take n cs) ≡ n
length-take_exact zero cs le = refl
length-take_exact (suc n) [] le = absurd (omega arith)
length-take_exact (suc n) (c ∷ cs) le = omega (arith, length-take_exact n cs)

length-sum_by : (cs : List ConsequenceChain) → length cs ≡ sum_by (λ c. 1) cs
length-sum_by [] = refl
length-sum_by (c ∷ cs) = omega (arith, length-sum_by cs)

pub length-sort_chains : (cs : List ConsequenceChain) → length (sort_chains cs) ≡ length cs
length-sort_chains cs =
    length-sum_by (sort_chains cs) ∙ sum_by-sort_chains (λ c. 1) cs ∙ sym (length-sum_by cs)

-- How many of the chains to prune are among those that run: all.
count_victims :
    (n : ℕ) (running : List ConsequenceChain)
    → HaveDistinctIds running
    → n ≤ length running
    → sum_by (λ c. if is_one_of id_of (take n (sort_chains running)) c then 1 else 0) running ≡ n
count_victims n running d le =
    let sorted = sort_chains running in
    let victims = take n sorted in
    let rest = drop n sorted in
    let f : ConsequenceChain → ℕ = λ c. if is_one_of id_of victims c then 1 else 0 in
    let fresh = none_one_of id_of victims rest (λ id. omega (
      arith,
      d id,
      sum_by-take-drop (λ c. if id_of c == id then 1 else 0) n sorted,
      sum_by-sort_chains (λ c. if id_of c == id then 1 else 0) running,
    )) in
    omega (
      arith,
      count_none id_of victims rest fresh,
      count_all id_of victims victims (all_one_of id_of victims),
      sum_by-take-drop f n sorted,
      sum_by-sort_chains f running,
      length-take_exact n sorted,
      length-sort_chains running,
    )

all_over_pruned : (es : List ConsequenceEntry) → all_over (map prune_entry es) ≡ true
all_over_pruned [] = refl
all_over_pruned (e ∷ es) = all_over_pruned es

pub length-map : {A B : Type 0} (f : A → B) (xs : List A) → length (map f xs) ≡ length xs
length-map f [] = refl
length-map f (x ∷ xs) = ap suc (length-map f xs)

-- Pruning stops a chain that has entries.
is_running-prune_if :
    (victims : List ConsequenceChain) (c : ConsequenceChain)
    → has_entries c ≡ true
    → is_running (prune_if victims c) ≡ (is_running c && not (is_one_of id_of victims c))
unfolding is_resolved
is_running-prune_if victims c h = elim (Bool-cases (is_one_of id_of victims c)) [
  | inl one ↦ ground (arith, one, all_over_pruned c.entries, length-map prune_entry c.entries, h)
  | inr other ↦ ground (arith, other)
]

-- What still runs, with those that are pruned, is what ran.
running_after_prune :
    (victims cs : List ConsequenceChain)
    → All (λ c. has_entries c ≡ true) cs
    → length (filter is_running (map (prune_if victims) cs))
        + sum_by (λ c. if is_one_of id_of victims c then 1 else 0) (filter is_running cs)
      ≡ length (filter is_running cs)
running_after_prune victims [] h = refl
running_after_prune victims (c ∷ cs) h =
    ground (arith, is_running-prune_if victims c h.0, running_after_prune victims cs h.1)

has_entries-mark_dormant :
    (turn : ℕ) (c : ConsequenceChain)
    → has_entries c ≡ true
    → has_entries (mark_dormant turn c) ≡ true
has_entries-mark_dormant turn c h = elim (Bool-cases (falls_asleep turn c)) [
  | inl asleep ↦ rw (asleep, length-map put_to_sleep c.entries) h
  | inr awake ↦ rw awake h
]

id-mark_dormant : (turn : ℕ) (c : ConsequenceChain) → (mark_dormant turn c).id ≡ c.id
id-mark_dormant turn c = elim (Bool-cases (falls_asleep turn c)) [
  | inl asleep ↦ rw asleep refl
  | inr awake ↦ rw awake refl
]

pub count_key-marked :
    (turn id : ℕ) (cs : List ConsequenceChain)
    → count_key id_of id (filter is_running (map (mark_dormant turn) cs)) ≤ count_key id_of id cs
count_key-marked turn id [] = omega arith
count_key-marked turn id (c ∷ cs) =
    ground (arith, id-mark_dormant turn c, count_key-marked turn id cs)

has_entries_marked :
    (turn : ℕ) (cs : List ConsequenceChain)
    → All (λ c. has_entries c ≡ true) cs
    → All (λ c. has_entries c ≡ true) (map (mark_dormant turn) cs)
has_entries_marked turn [] h = tt
has_entries_marked turn (c ∷ cs) h =
    (has_entries-mark_dormant turn c h.0, has_entries_marked turn cs h.1)

-- The chains that still run once the inactive ones are dormant.
abbrev pub still_running : ℕ → List ConsequenceChain → List ConsequenceChain
still_running turn cs = filter is_running (map (mark_dormant turn) cs)

pub prune_list_caps :
    (turn max_chains : ℕ) (cs : List ConsequenceChain)
    → HaveDistinctIds cs
    → All (λ c. has_entries c ≡ true) cs
    → length (filter is_running (prune_list turn max_chains cs).chains)
      ≡ min max_chains (length (still_running turn cs))
unfolding prune_list
prune_list_caps turn max_chains cs d h =
    let running = still_running turn cs in
    elim (Bool-cases (leb (length running) max_chains)) [
      | inl fit ↦ rw fit (omega (arith, leb→le (length running) max_chains fit))
      | inr over ↦
          let distinct : HaveDistinctIds running =
            λ id. omega (arith, d id, count_key-marked turn id cs) in
          let many : max_chains ≤ length running = ground (arith, over) in
          rw over (
            omega (
              arith,
              many,
              running_after_prune (to_prune max_chains running) (map (mark_dormant turn) cs)
                  (has_entries_marked turn cs h),
              count_victims (length running - max_chains) running distinct (omega arith),
            ))
    ]

nothing_pruned : (turn max_chains : ℕ) → (prune_list turn max_chains []).chains ≡ []
unfolding prune_list
nothing_pruned turn max_chains = ground arith

-- If the chains of a session have different identifiers and each has entries, then after pruning as
-- many run as ran without the inactive ones, and no more than `max_chains`.
pub prune_chains_caps :
    (s : InMemoryConsequenceService) (session : String) (turn max_chains : ℕ)
    → HaveDistinctIds (chains_of s session)
    → All (λ c. has_entries c ≡ true) (chains_of s session)
    → let (pruned_ids, closures, s') = prune_chains s session turn max_chains in
      length (get_active_chains s' session)
      ≡ min max_chains (length (still_running turn (chains_of s session)))
unfolding prune_chains get_active_chains
prune_chains_caps s session turn max_chains d h =
    let after = λ (cs : List ConsequenceChain). (prune_list turn max_chains cs).chains in
    ap (λ cs. length (filter is_running cs))
      (chains_of-put_chains s session after (nothing_pruned turn max_chains))
    ∙ prune_list_caps turn max_chains (chains_of s session) d h
