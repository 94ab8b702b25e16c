-- ===== src/Choices/Service/Prune/Least.antt =====
-- The chains that are pruned are those of the least score.
use fictional_barnacle.Prelude.{
  ℕ, ◌-◌, String, ◌≡◌, refl, ap, inl, inr, Bool, true, ◌||◌, List, [], ◌∷◌, map, arith, ◌==◌,
  Bool-cases, if◌then◌else◌, leb, All-map, All, any, length, take, sum_by,
}
use fictional_barnacle.Prelude.Keyed.{all_one_of, is_one_of, none_one_of}
use fictional_barnacle.Choices.Chain.{ConsequenceChain, chain_prune_score}
use fictional_barnacle.Choices.Service.{InMemoryConsequenceService, chains_of}
use fictional_barnacle.Choices.Service.Prune.{id_of, prune_chains, prune_list, sort_chains}
use fictional_barnacle.Choices.Service.Prune.Cap.{HaveDistinctIds, count_key-marked, still_running}
use fictional_barnacle.Choices.Service.Prune.Order.{
  All-both, drop, sort_chains-Divides, sum_by-sort_chains, sum_by-take-drop,
}

none_failing :
    (q : ConsequenceChain → Bool) (xs : List ConsequenceChain)
    → sum_by (λ c. if q c then 0 else 1) xs ≡ 0
    → All (λ c. q c ≡ true) xs
none_failing q [] e = tt
none_failing q (x ∷ xs) e = (ground (arith, e), none_failing q xs (ground (arith, e)))

no_failures :
    (q : ConsequenceChain → Bool) (xs : List ConsequenceChain)
    → All (λ c. q c ≡ true) xs
    → sum_by (λ c. if q c then 0 else 1) xs ≡ 0
no_failures q [] a = refl
no_failures q (x ∷ xs) a = ground (arith, a.0, no_failures q xs a.1)

-- A chain is pruned at a score of at most the given one, and left at one of at least it.
abbrev pub is_split : ℕ → (ConsequenceChain → Bool) → ConsequenceChain → Bool
is_split score is_pruned c =
    if is_pruned c then leb (chain_prune_score c) score else leb score (chain_prune_score c)

split_victims :
    (n : ℕ) (running : List ConsequenceChain)
    → HaveDistinctIds running
    → (score : ℕ) × All
        (λ c. is_split score (is_one_of id_of (take n (sort_chains running))) c ≡ true)
        running
split_victims n running d =
    let sorted = sort_chains running in
    let victims = take n sorted in
    let rest = drop n sorted in
    let (score, (below, above)) = sort_chains-Divides n running in
    let q = is_split score (is_one_of id_of victims) in
    let fresh = none_one_of id_of victims rest (λ id. omega (
      arith,
      d id,
      sum_by-take-drop (λ c. if id_of c == id then 1 else 0) n sorted,
      sum_by-sort_chains (λ c. if id_of c == id then 1 else 0) running,
    )) in
    let first =
      no_failures q victims
        (All-both victims (λ c one le. ground (arith, one, le)) (all_one_of id_of victims) below) in
    let last =
      no_failures q rest (All-both rest (λ c other le. ground (arith, other, le)) fresh above) in
    (
      score,
      none_failing q running (
          omega (
            arith,
            first,
            last,
            sum_by-take-drop (λ c. if q c then 0 else 1) n sorted,
            sum_by-sort_chains (λ c. if q c then 0 else 1) running,
          )),
    )

-- Whether an identifier is among those that the method returns.
abbrev pub has_id : List ℕ → ConsequenceChain → Bool
has_id ids c = any (λ id. id == c.id) ids

any_ids :
    (vs : List ConsequenceChain) (c : ConsequenceChain)
    → has_id (map id_of vs) c ≡ is_one_of id_of vs c
any_ids [] c = refl
any_ids (v ∷ vs) c = ap (λ b. (v.id == c.id) || b) (any_ids vs c)

keeps_all : (cs : List ConsequenceChain) → All (λ c. is_split 0 (has_id []) c ≡ true) cs
keeps_all [] = tt
keeps_all (c ∷ cs) = (ground arith, keeps_all cs)

-- If the chains of a session have different identifiers, then of those that run once the inactive
-- ones are dormant, the ones that are pruned score no higher than the ones that are left: some
-- score divides them.
pub prune_chains_least :
    (s : InMemoryConsequenceService) (session : String) (turn max_chains : ℕ)
    → HaveDistinctIds (chains_of s session)
    → let pruned_ids = (prune_chains s session turn max_chains).0 in
      (score : ℕ) × All
        (λ c. is_split score (has_id pruned_ids) c ≡ true)
        (still_running turn (chains_of s session))
unfolding prune_chains prune_list
prune_chains_least s session turn max_chains d =
    let running = still_running turn (chains_of s session) in
    let n = length running - max_chains in
    let distinct : HaveDistinctIds running =
      λ id. omega (arith, d id, count_key-marked turn id (chains_of s session)) in
    elim (Bool-cases (leb (length running) max_chains)) [
      | inl fit ↦ rw fit (0, keeps_all running)
      | inr over ↦
          let (score, all) = split_victims n running distinct in
          rw over
            (score, All-map running (λ c h. rw (any_ids (take n (sort_chains running)) c) h) all)
    ]
