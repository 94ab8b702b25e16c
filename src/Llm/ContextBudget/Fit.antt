-- ===== src/Llm/ContextBudget/Fit.antt =====
-- The two rounds together.
use mathlib.Core.List.{reverse, reverse-reverse, append-nil}
use fictional_barnacle.Prelude.{
  ℕ, ◌+◌, ◌≤◌, String, ◌≡◌, refl, sym, ap, ◌∙◌, ◌⊎◌, inl, inr, List, [], ◌∷◌, ◌++◌, map, arith,
  if◌then◌else◌, sum_by-reverse, filter-reverse, sum_by-append, filter-append,
}
use fictional_barnacle.Llm.ContextBudget.{
  BudgetResult, ContextChunk, Pass, Priority, drop_pass, fill_count, fit_chunks_to_budget, p0, p1,
  p2, p3, same_priority, sorted_chunks, tier, tokens,
}
use fictional_barnacle.Llm.ContextBudget.Passes.{PassSpec, drop_pass-PassSpec}

abbrev names : List ContextChunk → List String
names = map (λ c. c.name)

-- What the fitter promises for the chunks `cs`, whose counts are filled in.
pub record IsFit (budget : ℕ) (cs : List ContextChunk) (r : BudgetResult) : Type 0 where
  pub total : r.total_tokens ≡ tokens r.chunks
  pub safe_p0 : tier p0 r.chunks ≡ tier p0 cs
  pub safe_p1 : tier p1 r.chunks ≡ tier p1 cs
  pub p3_first : (tier p2 r.chunks ≡ tier p2 cs) ⊎ (tier p3 r.chunks ≡ [])
  pub within : (r.total_tokens ≤ budget) ⊎ ((tier p2 r.chunks ≡ []) × (tier p3 r.chunks ≡ []))
  pub untouched : tokens cs ≤ budget → r.chunks ≡ sorted_chunks cs
  pub lost_p3 : List String
  pub lost_p2 : List String
  pub named : r.dropped ≡ lost_p3 ++ lost_p2
  pub newest_p3 : names (reverse (tier p3 cs)) ≡ lost_p3 ++ names (reverse (tier p3 r.chunks))
  pub newest_p2 : names (reverse (tier p2 cs)) ≡ lost_p2 ++ names (reverse (tier p2 r.chunks))

tier-tier :
    (q r : Priority) (cs : List ContextChunk)
    → tier q (tier r cs) ≡ (if same_priority r q then tier q cs else [])
tier-tier q r [] = ground arith
tier-tier q r (c ∷ cs) = ground (arith, tier-tier q r cs)

tier-sorted_chunks : (q : Priority) (cs : List ContextChunk) → tier q (sorted_chunks cs) ≡ tier q cs
tier-sorted_chunks q cs =
    rw
      (
        filter-append (λ c. same_priority c.priority q) (tier p0 cs)
            (tier p1 cs ++ (tier p2 cs ++ tier p3 cs)),
        filter-append (λ c. same_priority c.priority q) (tier p1 cs) (tier p2 cs ++ tier p3 cs),
        filter-append (λ c. same_priority c.priority q) (tier p2 cs) (tier p3 cs),
        tier-tier q p0 cs,
        tier-tier q p1 cs,
        tier-tier q p2 cs,
        tier-tier q p3 cs,
      )
      (one_of q)
  where
    one_of :
        (q : Priority)
        → (if same_priority p0 q then tier q cs else [])
            ++ ((if same_priority p1 q then tier q cs else [])
                ++ ((if same_priority p2 q then tier q cs else [])
                    ++ (if same_priority p3 q then tier q cs else [])))
          ≡ tier q cs
    one_of p0 = append-nil (tier p0 cs)
    one_of p1 = append-nil (tier p1 cs)
    one_of p2 = append-nil (tier p2 cs)
    one_of p3 = refl

tokens-tiers :
    (cs : List ContextChunk)
    → tokens (tier p0 cs) + (tokens (tier p1 cs) + (tokens (tier p2 cs) + tokens (tier p3 cs)))
      ≡ tokens cs
tokens-tiers [] = omega arith
tokens-tiers (c ∷ cs) = ground (arith, tokens-tiers cs)

tokens-sorted_chunks : (cs : List ContextChunk) → tokens (sorted_chunks cs) ≡ tokens cs
tokens-sorted_chunks cs =
    rw
      (
        sum_by-append (λ c. c.token_count) (tier p0 cs) (tier p1 cs ++ (tier p2 cs ++ tier p3 cs)),
        sum_by-append (λ c. c.token_count) (tier p1 cs) (tier p2 cs ++ tier p3 cs),
        sum_by-append (λ c. c.token_count) (tier p2 cs) (tier p3 cs),
      )
      (tokens-tiers cs)

module _ (budget : ℕ) (cs : List ContextChunk) where
  abbrev backwards : List ContextChunk
  backwards = reverse (sorted_chunks cs)

  abbrev third : Pass
  third = drop_pass p3 budget (tokens (sorted_chunks cs)) [] backwards

  abbrev second : Pass
  second = drop_pass p2 budget third.used third.dropped third.kept

  tokens-backwards : tokens backwards ≡ tokens (sorted_chunks cs)
  tokens-backwards = sum_by-reverse (λ c. c.token_count) (sorted_chunks cs)

  third_spec : PassSpec p3 budget (tokens (sorted_chunks cs)) [] backwards third
  third_spec =
      drop_pass-PassSpec p3 budget (tokens (sorted_chunks cs)) [] backwards
        (omega (arith, tokens-backwards))

  third_used : third.used ≡ tokens third.kept
  third_used = omega (arith, third_spec.balance, tokens-backwards)

  second_spec : PassSpec p2 budget third.used third.dropped third.kept second
  second_spec =
      drop_pass-PassSpec p2 budget third.used third.dropped third.kept (omega (arith, third_used))

  second_used : second.used ≡ tokens second.kept
  second_used = omega (arith, second_spec.balance, third_used)

  tier-backwards : (q : Priority) → tier q backwards ≡ reverse (tier q cs)
  tier-backwards q =
      filter-reverse (λ c. same_priority c.priority q) (sorted_chunks cs)
      ∙ ap reverse (tier-sorted_chunks q cs)

  -- What both rounds leave alone comes out as it came in.
  tier_restored :
      (q : Priority)
      → tier q second.kept ≡ tier q backwards
      → tier q (reverse second.kept) ≡ tier q cs
  tier_restored q e =
      filter-reverse (λ c. same_priority c.priority q) second.kept
      ∙ ap reverse (e ∙ tier-backwards q)
      ∙ reverse-reverse (tier q cs)

  tier_gone : (q : Priority) → tier q second.kept ≡ [] → tier q (reverse second.kept) ≡ []
  tier_gone q e = filter-reverse (λ c. same_priority c.priority q) second.kept ∙ ap reverse e

  reverse-tier : (q : Priority) → reverse (tier q (reverse second.kept)) ≡ tier q second.kept
  reverse-tier q =
      ap reverse (filter-reverse (λ c. same_priority c.priority q) second.kept)
      ∙ reverse-reverse (tier q second.kept)

  result : BudgetResult
  result = record {
    chunks = reverse second.kept;
    total_tokens = second.used;
    dropped = second.dropped;
  }

  result-IsFit : IsFit budget cs result
  unfolding result
  result-IsFit = record {
    total = second_used ∙ sym (sum_by-reverse (λ c. c.token_count) second.kept);
    safe_p0 = tier_restored p0 (second_spec.others p0 refl ∙ third_spec.others p0 refl);
    safe_p1 = tier_restored p1 (second_spec.others p1 refl ∙ third_spec.others p1 refl);
    p3_first = elim third_spec.enough [
      | inl met ↦
          inl (tier_restored p2 (ap (tier p2) (second_spec.idle met) ∙ third_spec.others p2 refl))
      | inr gone ↦ inr (tier_gone p3 (second_spec.others p3 refl ∙ gone))
    ];
    within = elim third_spec.enough [
      | inl met ↦ inl (omega (arith, second_used, third_used, ap tokens (second_spec.idle met)))
      | inr gone3 ↦ elim second_spec.enough [
        | inl le ↦ inl le
        | inr gone2 ↦ inr (tier_gone p2 gone2, tier_gone p3 (second_spec.others p3 refl ∙ gone3))
      ]
    ];
    untouched = λ le.
        let kept3 = third_spec.idle (omega (arith, tokens-sorted_chunks cs)) in
        let kept2 =
          second_spec.idle (
            omega
              (arith, third_used, ap tokens kept3, tokens-backwards, tokens-sorted_chunks cs)) in
        ap reverse (kept2 ∙ kept3) ∙ reverse-reverse (sorted_chunks cs);
    lost_p3 = third_spec.lost;
    lost_p2 = second_spec.lost;
    named = second_spec.named ∙ ap (λ d. d ++ second_spec.lost) third_spec.named;
    newest_p3 =
        ap names (sym (tier-backwards p3))
        ∙ third_spec.oldest_stay
        ∙ ap (λ x. third_spec.lost ++ names x)
            (sym (second_spec.others p3 refl) ∙ sym (reverse-tier p3));
    newest_p2 =
        ap names (sym (third_spec.others p2 refl ∙ tier-backwards p2))
        ∙ second_spec.oldest_stay
        ∙ ap (λ x. second_spec.lost ++ names x) (sym (reverse-tier p2));
  }

-- Whatever the chunks and the budget, the fitter returns the total of the chunks that it keeps. It
-- keeps every chunk of P0 and P1 in its order, drops nothing of P2 while a chunk of P3 is left,
-- goes over the budget only when nothing of P2 and P3 is left, changes nothing but the order if all
-- fits, and reports by name, the last first, exactly the chunks at the end of P3 and then of P2
-- that it drops.
pub fit_chunks_to_budget-IsFit :
    (chunks : List ContextChunk) (budget_tokens : ℕ)
    → IsFit budget_tokens (map fill_count chunks) (fit_chunks_to_budget chunks budget_tokens)
unfolding fit_chunks_to_budget result
fit_chunks_to_budget-IsFit chunks budget_tokens = result-IsFit budget_tokens (map fill_count chunks)
