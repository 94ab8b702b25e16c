-- ===== src/Choices/Service/Prune/Order.antt =====
-- Sorting chains by their score, and cutting the sorted list.
use fictional_barnacle.Prelude.{
  ℕ, zero, suc, ◌+◌, ◌≤◌, max, ◌≡◌, refl, inl, inr, List, [], ◌∷◌, arith, leb→le, Bool-cases, leb,
  All, take, sum_by, All-map,
}
use fictional_barnacle.Choices.Chain.{ConsequenceChain, chain_prune_score}
use fictional_barnacle.Choices.Service.Prune.{insert_chain, sort_chains}

sum_by-insert_chain :
    (f : ConsequenceChain → ℕ) (c : ConsequenceChain) (ds : List ConsequenceChain)
    → sum_by f (insert_chain c ds) ≡ f c + sum_by f ds
unfolding insert_chain
sum_by-insert_chain f c [] = refl
sum_by-insert_chain f c (d ∷ ds) = ground (arith, sum_by-insert_chain f c ds)

-- Sorting keeps what is summed over a list.
pub sum_by-sort_chains :
    (f : ConsequenceChain → ℕ) (cs : List ConsequenceChain)
    → sum_by f (sort_chains cs) ≡ sum_by f cs
unfolding sort_chains
sum_by-sort_chains f [] = refl
sum_by-sort_chains f (c ∷ cs) =
    omega (arith, sum_by-insert_chain f c (sort_chains cs), sum_by-sort_chains f cs)

abbrev IsSorted : List ConsequenceChain → Type 0
IsSorted [] = Unit
IsSorted (c ∷ cs) = All (λ d. chain_prune_score c ≤ chain_prune_score d) cs × IsSorted cs

All-insert_chain :
    (P : ConsequenceChain → Type 0) (c : ConsequenceChain) (ds : List ConsequenceChain)
    → P c
    → All P ds
    → All P (insert_chain c ds)
unfolding insert_chain
All-insert_chain P c [] p a = (p, tt)
All-insert_chain P c (d ∷ ds) p a =
    elim (Bool-cases (leb (chain_prune_score c) (chain_prune_score d))) [
      | inl first ↦ rw first (p, a)
      | inr later ↦ rw later (a.0, All-insert_chain P c ds p a.1)
    ]

insert_chain-IsSorted :
    (c : ConsequenceChain) (ds : List ConsequenceChain) → IsSorted ds → IsSorted (insert_chain c ds)
unfolding insert_chain
insert_chain-IsSorted c [] s = (tt, tt)
insert_chain-IsSorted c (d ∷ ds) s =
    elim (Bool-cases (leb (chain_prune_score c) (chain_prune_score d))) [
      | inl first ↦
          let le = leb→le (chain_prune_score c) (chain_prune_score d) first in
          rw first ((le, All-map ds (λ x h. omega (arith, h, le)) s.0), s)
      | inr later ↦ rw later (
        All-insert_chain (λ x. chain_prune_score d ≤ chain_prune_score x) c ds
            (ground (arith, later)) s.0,
        insert_chain-IsSorted c ds s.1,
      )
    ]

sort_chains-IsSorted : (cs : List ConsequenceChain) → IsSorted (sort_chains cs)
unfolding sort_chains
sort_chains-IsSorted [] = tt
sort_chains-IsSorted (c ∷ cs) = insert_chain-IsSorted c (sort_chains cs) (sort_chains-IsSorted cs)

-- What `take` leaves.
abbrev pub drop {ℓ} : {A : Type ℓ} → ℕ → List A → List A
drop zero xs = xs
drop (suc n) [] = []
drop (suc n) (x ∷ xs) = drop n xs

pub sum_by-take-drop :
    (f : ConsequenceChain → ℕ) (n : ℕ) (cs : List ConsequenceChain)
    → sum_by f (take n cs) + sum_by f (drop n cs) ≡ sum_by f cs
sum_by-take-drop f zero cs = omega arith
sum_by-take-drop f (suc n) [] = refl
sum_by-take-drop f (suc n) (c ∷ cs) = omega (arith, sum_by-take-drop f n cs)

All-drop :
    (P : ConsequenceChain → Type 0) (n : ℕ) (cs : List ConsequenceChain)
    → All P cs
    → All P (drop n cs)
All-drop P zero cs a = a
All-drop P (suc n) [] a = tt
All-drop P (suc n) (c ∷ cs) a = All-drop P n cs a.1

-- Some score lies between those of a sorted list's first chains and those of the rest.
abbrev pub Divides : ℕ → ℕ → List ConsequenceChain → Type 0
Divides score n cs =
    All (λ c. chain_prune_score c ≤ score) (take n cs)
    × All (λ c. score ≤ chain_prune_score c) (drop n cs)

pub All-both :
    {P Q R : ConsequenceChain → Type 0} (cs : List ConsequenceChain)
    → ((c : ConsequenceChain) → P c → Q c → R c)
    → All P cs
    → All Q cs
    → All R cs
All-both [] f p q = tt
All-both (c ∷ cs) f p q = (f c p.0 q.0, All-both cs f p.1 q.1)

none_below : (cs : List ConsequenceChain) → All (λ c. 0 ≤ chain_prune_score c) cs
none_below [] = tt
none_below (c ∷ cs) = (omega arith, none_below cs)

sorted-Divides :
    (n : ℕ) (cs : List ConsequenceChain) → IsSorted cs → (score : ℕ) × Divides score n cs
sorted-Divides zero cs s = (0, (tt, none_below cs))
sorted-Divides (suc n) [] s = (0, (tt, tt))
sorted-Divides (suc n) (c ∷ cs) s =
    let (score, (below, above)) = sorted-Divides n cs s.1 in
    (
      max (chain_prune_score c) score,
      (
        (omega arith, All-map (take n cs) (λ d h. omega (arith, h)) below),
        All-both (drop n cs) (λ d h k. omega (arith, h, k)) above
            (All-drop (λ d. chain_prune_score c ≤ chain_prune_score d) n cs s.0),
      ),
    )

pub sort_chains-Divides :
    (n : ℕ) (cs : List ConsequenceChain) → (score : ℕ) × Divides score n (sort_chains cs)
sort_chains-Divides n cs = sorted-Divides n (sort_chains cs) (sort_chains-IsSorted cs)
