-- ===== src/Moderation/Keyword/Severe.antt =====
-- The scan gives the most severe verdict of the categories that match.
use fictional_barnacle.Prelude.{
  ℕ, ◌≤◌, max, String, ◌≡◌, refl, ap, ◌∙◌, ◌⊎◌, inl, inr, Bool, true, false, Option, none, some,
  List, [], ◌∷◌, arith, if◌then◌else◌, Bool-cases, Option-cases, Any, any,
}
use fictional_barnacle.Moderation.Category.{
  ContentCategory, ModerationResult, ModerationVerdict, always_block, block, flag, pass,
}
use fictional_barnacle.Moderation.Keyword.{
  Overrides, PatternList, beats, candidate_for, first_match, resolve_verdict, scan, scan_from,
  severity_of,
}

-- Some pattern of a category is found.
abbrev pub matches : String → PatternList → Bool
matches content ps = any (λ p. p.0 content) ps

abbrev pub severity_or_zero : Option ModerationResult → ℕ
severity_or_zero none = 0
severity_or_zero (some r) = severity_of r.verdict

-- The greatest severity of the categories that match.
abbrev pub greatest_severity : Overrides → String → List (ContentCategory × PatternList) → ℕ
greatest_severity overrides content [] = 0
greatest_severity overrides content (p ∷ ps) =
    max (if matches content p.1 then severity_of (resolve_verdict p.0 overrides) else 0)
      (greatest_severity overrides content ps)

first_match_cases :
    (content : String) (ps : PatternList)
    → ((first_match content ps ≡ none) × (matches content ps ≡ false))
      ⊎ ((c : ℕ) × (first_match content ps ≡ some c) × (matches content ps ≡ true))
unfolding first_match
first_match_cases content [] = inl (refl, refl)
first_match_cases content ((is_found, confidence) ∷ ps) = elim (Bool-cases (is_found content)) [
  | inl found ↦ rw found (inr (confidence, refl, refl))
  | inr missing ↦ rw missing (first_match_cases content ps)
]

-- What the scan keeps has the greater of the two severities.
keeps_severe :
    (candidate : ModerationResult) (best : Option ModerationResult)
    → severity_or_zero (if beats candidate best then some candidate else best)
      ≡ max (severity_or_zero best) (severity_of candidate.verdict)
keeps_severe candidate none = omega arith
keeps_severe candidate (some best) = ground arith

module _ (content_hash : String → String) (overrides : Overrides) where
  scan_from_severity :
      (content : String) (best : Option ModerationResult)
      (patterns : List (ContentCategory × PatternList))
      → severity_or_zero (scan_from content_hash overrides content best patterns)
        ≡ max (severity_or_zero best) (greatest_severity overrides content patterns)
  unfolding scan_from
  scan_from_severity content best [] = omega arith
  scan_from_severity content best ((category, ps) ∷ rest) = elim (first_match_cases content ps) [
    | inl (missing, no_match) ↦
        let ih = scan_from_severity content best rest in
        rw (scan_from, missing, no_match) (omega arith)
    | inr (confidence, found, match_) ↦
        let candidate = candidate_for content_hash overrides content category confidence in
        let kept = keeps_severe candidate best in
        let ih =
          scan_from_severity content (if beats candidate best then some candidate else best) rest in
        rw (scan_from, found, match_, ih, kept) (omega arith)
  ]

  -- Whatever the patterns, their order and the overrides, the scan's verdict is as severe as the
  -- most severe verdict of all the categories that match, and it is "pass" where none does.
  pub scan_severity :
      (patterns : List (ContentCategory × PatternList)) (content : String)
      → severity_of ((scan content_hash overrides patterns content).verdict)
        ≡ greatest_severity overrides content patterns
  unfolding scan
  scan_severity patterns content =
      let most = scan_from_severity content none patterns in
      elim (Option-cases (scan_from content_hash overrides content none patterns)) [
        | inl nothing ↦
            let nil = ap severity_or_zero nothing in rw (scan, severity_of, nothing) (omega arith)
        | inr (best, found) ↦
            let kept = ap severity_or_zero found in rw (scan, severity_of, found) (omega arith)
      ]

-- A category that no override can allow matches.
abbrev pub Forbidden : List (ContentCategory × PatternList) → String → Type 0
Forbidden patterns content =
    Any (λ p. (always_block p.0 ≡ true) × (matches content p.1 ≡ true)) patterns

severity_le : (verdict : ModerationVerdict) → severity_of verdict ≤ 2
severity_le pass = omega arith
severity_le flag = omega arith
severity_le block = omega arith

greatest_le :
    (overrides : Overrides) (patterns : List (ContentCategory × PatternList)) (content : String)
    → greatest_severity overrides content patterns ≤ 2
greatest_le overrides [] content = omega arith
greatest_le overrides ((category, ps) ∷ rest) content =
    let ih = greatest_le overrides rest content in
    let le = severity_le (resolve_verdict category overrides) in ground arith

greatest-Forbidden :
    (overrides : Overrides) (patterns : List (ContentCategory × PatternList)) (content : String)
    → Forbidden patterns content
    → greatest_severity overrides content patterns ≡ 2
unfolding resolve_verdict
greatest-Forbidden overrides [] content forbidden = elim forbidden [ ]
greatest-Forbidden overrides ((category, ps) ∷ rest) content (inl (blocks, found)) =
    let le = greatest_le overrides rest content in rw (resolve_verdict, blocks, found) (omega arith)
greatest-Forbidden overrides ((category, ps) ∷ rest) content (inr forbidden) =
    let ih = greatest-Forbidden overrides rest content forbidden in
    let le = severity_le (resolve_verdict category overrides) in ground arith

block_of_severity : (verdict : ModerationVerdict) → severity_of verdict ≡ 2 → verdict ≡ block
block_of_severity pass h = absurd (omega arith)
block_of_severity flag h = absurd (omega arith)
block_of_severity block h = refl

-- What an always-blocking category matches is blocked, whatever the overrides are.
pub scan_blocks :
    (content_hash : String → String) (overrides : Overrides)
    (patterns : List (ContentCategory × PatternList)) (content : String)
    → Forbidden patterns content
    → (scan content_hash overrides patterns content).verdict ≡ block
scan_blocks content_hash overrides patterns content forbidden =
    block_of_severity ((scan content_hash overrides patterns content).verdict) (
      scan_severity content_hash overrides patterns content
      ∙ greatest-Forbidden overrides patterns content forbidden)
