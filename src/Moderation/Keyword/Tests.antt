-- ===== src/Moderation/Keyword/Tests.antt =====
-- A text that an operator's overrides would allow, and the theorems at it.
use fictional_barnacle.Prelude.{
  String, ◌≡◌, refl, Bool, none, some, List, [], ◌∷◌, str_eq, text_append,
}
use fictional_barnacle.Moderation.Category.{
  ContentCategory, mild_violence, off_topic, pass, self_harm,
}
use fictional_barnacle.Moderation.Keyword.{
  Overrides, PatternList, first_match, resolve_verdict, scan, scan_from, severity_of,
}
use fictional_barnacle.Moderation.Keyword.Severe.{greatest_severity, scan_severity}

abbrev pub find : String → String → Bool
find word content = str_eq word content

abbrev pub lists : List (ContentCategory × PatternList)
lists =
    (mild_violence, (find "a punch", 60) ∷ [])
    ∷ (off_topic, (find "the weather", 65) ∷ (find "a punch", 70) ∷ [])
    ∷ (self_harm, (find "a poison", 90) ∷ [])
    ∷ []

abbrev pub lenient : Overrides
lenient category = some pass

abbrev pub digest : String → String
digest content = text_append "#" content

-- Without overrides the more severe of two matching categories wins.
off_topic_wins : (scan digest (λ category. none) lists "a punch").category ≡ off_topic
unfolding scan scan_from first_match resolve_verdict
off_topic_wins = refl

scan_severity_example :
    severity_of ((scan digest lenient lists "a poison").verdict)
    ≡ greatest_severity lenient "a poison" lists
scan_severity_example = scan_severity digest lenient lists "a poison"
