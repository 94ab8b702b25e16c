-- ===== src/Llm/ContextBudget/Passes.antt =====
-- One round of dropping.
use mathlib.Core.List.{append-nil, append_assoc}
use fictional_barnacle.Prelude.{
  ℕ, ◌+◌, ◌-◌, ◌≤◌, ◌<◌, String, ◌≡◌, refl, sym, ap, ◌∙◌, ◌⊎◌, inl, inr, true, false, List, [], ◌∷◌,
  ◌++◌, map, arith, ltb, Bool-cases, ltb→lt,
}
use fictional_barnacle.Llm.ContextBudget.{
  ContextChunk, Pass, Priority, drop_pass, same_priority, tier, tokens,
}

-- What a round does to the chunks that it walks through.
pub record PassSpec (q : Priority) (budget used : ℕ) (dropped : List String)
    (cs : List ContextChunk) (p : Pass) : Type 0 where
  pub balance : p.used + tokens cs ≡ used + tokens p.kept
  pub others : (r : Priority) → same_priority q r ≡ false → tier r p.kept ≡ tier r cs
  pub enough : (p.used ≤ budget) ⊎ (tier q p.kept ≡ [])
  pub idle : used ≤ budget → p.kept ≡ cs
  pub lost : List String
  pub named : p.dropped ≡ dropped ++ lost
  pub oldest_stay : map (λ c. c.name) (tier q cs) ≡ lost ++ map (λ c. c.name) (tier q p.kept)

same_priority-eq : (q r : Priority) → same_priority q r ≡ true → q ≡ r
same_priority-eq q r h = ground arith

-- The round stops here: the budget is met.
stop-PassSpec :
    (q : Priority) (budget used : ℕ) (dropped : List String) (cs : List ContextChunk)
    → (used ≤ budget) ⊎ (cs ≡ [])
    → PassSpec q budget used dropped cs (record { kept = cs; used = used; dropped = dropped })
stop-PassSpec q budget used dropped cs h = record {
  balance = refl;
  others = λ r e. refl;
  enough = ground arith;
  idle = λ e. refl;
  lost = [];
  named = sym (append-nil dropped);
  oldest_stay = refl;
}

-- A chunk of another priority stays.
keep-PassSpec :
    (q : Priority) (budget used : ℕ) (dropped : List String) (c : ContextChunk)
    (cs : List ContextChunk) (p : Pass)
    → budget < used
    → same_priority c.priority q ≡ false
    → PassSpec q budget used dropped cs p
    → PassSpec q budget used dropped (c ∷ cs) (record p { kept = c ∷ p.kept })
keep-PassSpec q budget used dropped c cs p over other ih = record {
  balance = omega (arith, ih.balance);
  others = λ r e. ground (arith, ih.others r e);
  enough = rw other ih.enough;
  idle = λ le. absurd (omega arith);
  lost = ih.lost;
  named = ih.named;
  oldest_stay = rw other ih.oldest_stay;
}

-- A chunk of this priority goes.
remove-PassSpec :
    (q : Priority) (budget used : ℕ) (dropped : List String) (c : ContextChunk)
    (cs : List ContextChunk) (p : Pass)
    → budget < used
    → c.token_count ≤ used
    → same_priority c.priority q ≡ true
    → PassSpec q budget (used - c.token_count) (dropped ++ c.name ∷ []) cs p
    → PassSpec q budget used dropped (c ∷ cs) p
remove-PassSpec q budget used dropped c cs p over fits same ih = record {
  balance = omega (arith, ih.balance);
  others = λ r e. ground (arith, ih.others r e, same_priority-eq c.priority q same);
  enough = ih.enough;
  idle = λ le. absurd (omega arith);
  lost = c.name ∷ ih.lost;
  named = ih.named ∙ append_assoc dropped (c.name ∷ []) ih.lost;
  oldest_stay = rw same (ap (◌∷◌ c.name) ih.oldest_stay);
}

pub drop_pass-PassSpec :
    (q : Priority) (budget used : ℕ) (dropped : List String) (cs : List ContextChunk)
    → tokens cs ≤ used
    → PassSpec q budget used dropped cs (drop_pass q budget used dropped cs)
unfolding drop_pass
drop_pass-PassSpec q budget used dropped [] h = stop-PassSpec q budget used dropped [] (inr refl)
drop_pass-PassSpec q budget used dropped (c ∷ cs) h = elim (Bool-cases (ltb budget used)) [
  | inr met ↦ rw met (stop-PassSpec q budget used dropped (c ∷ cs) (inl (ground arith)))
  | inl over ↦ rw over (elim (Bool-cases (same_priority c.priority q)) [
    | inl same ↦ rw same (
        remove-PassSpec q budget used dropped c cs _ (ltb→lt budget used over) (omega arith) same (
          drop_pass-PassSpec q budget (used - c.token_count) (dropped ++ c.name ∷ []) cs
            (omega arith)))
    | inr other ↦ rw other (
        keep-PassSpec q budget used dropped c cs _ (ltb→lt budget used over) other
          (drop_pass-PassSpec q budget used dropped cs (omega arith)))
  ])
]
