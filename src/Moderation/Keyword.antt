-- ===== src/Moderation/Keyword.antt =====
-- tta/moderation/keyword_moderator.py. A compiled pattern is the test whether it is found in a
-- text.
pub mod Severe
mod Tests
use fictional_barnacle.Prelude.{
  ℕ, String, Bool, true, Option, none, some, List, [], ◌∷◌, ltb, if◌then◌else◌,
}
use fictional_barnacle.Moderation.Category.{
  ContentCategory, ModerationResult, ModerationVerdict, always_block, block, category_value,
  default_action, flag, pass, safe,
}

-- The overrides of verdicts, where there are any.
abbrev pub Overrides : Type 0
Overrides = ContentCategory → Option ModerationVerdict

-- `_resolve_verdict`
unfoldable pub resolve_verdict : ContentCategory → Overrides → ModerationVerdict
resolve_verdict category overrides =
    if always_block category
    then block
    else elim (overrides category) [ some verdict ↦ verdict | none ↦ default_action category ]

-- `_PatternList`: each pattern with its confidence.
abbrev pub PatternList : Type 0
PatternList = List ((String → Bool) × ℕ)

-- `_severity`
abbrev pub severity_of : ModerationVerdict → ℕ
severity_of pass = 0
severity_of flag = 1
severity_of block = 2

-- The inner loop of `_scan`: the confidence of the first pattern that is found.
unfoldable pub first_match : String → PatternList → Option ℕ
first_match content [] = none
first_match content ((is_found, confidence) ∷ ps) =
    let rest = first_match content ps in if is_found content then some confidence else rest

-- `best is None or _severity(candidate) > _severity(best)`
abbrev pub beats : ModerationResult → Option ModerationResult → Bool
beats candidate none = true
beats candidate (some best) = ltb (severity_of best.verdict) (severity_of candidate.verdict)

module _ (content_hash : String → String) (overrides : Overrides) where
  abbrev pub candidate_for : String → ContentCategory → ℕ → ModerationResult
  candidate_for content category confidence = record {
    verdict = resolve_verdict category overrides;
    category = category;
    confidence = confidence;
    reason = category_value category;
    content_hash = content_hash content;
    flags = [];
  }

  -- The outer loop, over `_PATTERNS`.
  unfoldable pub scan_from :
      String
      → Option ModerationResult
      → List (ContentCategory × PatternList)
      → Option ModerationResult
  unfolding first_match
  scan_from content best [] = best
  scan_from content best ((category, ps) ∷ rest) = elim (first_match content ps) [
    | none ↦ scan_from content best rest
    | some confidence ↦
        let candidate = candidate_for content category confidence in
        scan_from content (if beats candidate best then some candidate else best) rest
  ]

  -- `_scan`, which both methods of `KeywordModerator` call.
  unfoldable pub scan : List (ContentCategory × PatternList) → String → ModerationResult
  unfolding scan_from
  scan patterns content = elim (scan_from content none patterns) [
    | some best ↦ best
    | none ↦ record {
      verdict = pass;
      category = safe;
      confidence = 100;
      reason = "safe";
      content_hash = content_hash content;
      flags = [];
    }
  ]
