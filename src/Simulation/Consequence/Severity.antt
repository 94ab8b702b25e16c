-- ===== src/Simulation/Consequence/Severity.antt =====
-- The decay of severity and of the words.
use fictional_barnacle.Prelude.{
  ℕ, zero, suc, ◌+◌, ◌≤◌, ◌<◌, ◌≡◌, refl, ◌⊎◌, inl, inr, none, some, List, [], ◌∷◌, ◌++◌, arith,
  leb, Bool-cases, ◌==◌, if◌then◌else◌, leb→le, length-take, take, length-append, length,
}
use fictional_barnacle.Prelude.Texts.{codes}
use fictional_barnacle.Simulation.Consequence.{
  EventSeverity, critical, decay_severity, fidelity_description, major, minor, notable, rstrip,
}

abbrev pub rank : EventSeverity → ℕ
rank minor = 0
rank notable = 1
rank major = 2
rank critical = 3

-- Every hop takes one rank off the severity, and an event is gone exactly when the hops exceed its
-- rank.
pub decay_severity-rank :
    (original : EventSeverity) (hop : ℕ)
    → ((s : EventSeverity) × (decay_severity original hop ≡ some s)
        × (rank s + hop ≡ rank original))
      ⊎ ((decay_severity original hop ≡ none) × (rank original < hop))
unfolding decay_severity
decay_severity-rank original zero = inl (original, refl, omega arith)
decay_severity-rank minor (suc n) = inr (refl, omega arith)
decay_severity-rank notable (suc zero) = inl (minor, refl, omega arith)
decay_severity-rank notable (suc (suc n)) = inr (refl, omega arith)
decay_severity-rank major (suc zero) = inl (notable, refl, omega arith)
decay_severity-rank major (suc (suc zero)) = inl (minor, refl, omega arith)
decay_severity-rank major (suc (suc (suc n))) = inr (refl, omega arith)
decay_severity-rank critical (suc zero) = inl (major, refl, omega arith)
decay_severity-rank critical (suc (suc zero)) = inl (notable, refl, omega arith)
decay_severity-rank critical (suc (suc (suc zero))) = inl (minor, refl, omega arith)
decay_severity-rank critical (suc (suc (suc (suc n)))) = inr (refl, omega arith)

length-rstrip-le : (cs : List ℕ) → length (rstrip cs) ≤ length cs
unfolding rstrip
length-rstrip-le [] = omega arith
length-rstrip-le (c ∷ cs) = ground (arith, length-rstrip-le cs)

cut_length :
    (words cs : List ℕ) (n : ℕ)
    → length (words ++ (rstrip (take n cs) ++ codes "…")) ≤ length words + (n + 1)
cut_length words cs n =
    rw (length-append, length-append)
      (ground (arith, length-rstrip-le (take n cs), length-take n cs))

heard_length :
    (description : List ℕ)
    → length (
        if leb (length description) 60
        then description
        else codes "Word has reached here that " ++ (rstrip (take 60 description) ++ codes "…"))
      ≤ 88
heard_length description = elim (Bool-cases (leb (length description) 60)) [
  | inl short ↦ rw short (ground (arith, leb→le (length description) 60 short))
  | inr long ↦ rw long (cut_length (codes "Word has reached here that ") description 60)
]

weaken : {n : ℕ} → n ≤ 67 → n ≤ 88
weaken le = omega arith

-- Up to one hop away a description is verbatim. From two hops on it takes at most 88 characters,
-- and from three hops on at most 67, however long it was.
pub fidelity_description-length :
    (description : List ℕ) (hop : ℕ)
    → ((hop ≤ 1) × (fidelity_description description hop ≡ description))
      ⊎ ((2 ≤ hop)
          × (length (fidelity_description description hop) ≤ 88)
          × (3 ≤ hop → length (fidelity_description description hop) ≤ 67))
unfolding fidelity_description
fidelity_description-length description hop = elim (Bool-cases (leb hop 1)) [
  | inl near ↦ inl (leb→le hop 1 near, rw (near, fidelity_description))
  | inr far ↦ elim (Bool-cases (hop == 2)) [
    | inl two ↦ inr (
      ground (arith, far),
      rw (far, two) (heard_length description),
      λ three. ground (arith, two),
    )
    | inr more ↦
        let bound = cut_length (codes "There are vague rumors of ") description 40 in
        inr (ground (arith, far), rw (far, more) (weaken bound), λ three. rw (far, more) bound)
  ]
]
