-- ===== src/Moderation/Category.antt =====
-- tta/moderation/models.py. Confidences are in hundredths, times are left out.
use fictional_barnacle.Prelude.{ℕ, String, Bool, true, false, List}

-- `ModerationVerdict`
pub data ModerationVerdict : Type 0 where
  pass flag block : ModerationVerdict

-- `ContentCategory`
pub data ContentCategory : Type 0 where
  safe mild_violence graphic_violence sexual_content self_harm hate_speech : ContentCategory
  dangerous_activity personal_info off_topic prompt_injection : ContentCategory

-- The value of a category, which is its text.
abbrev pub category_value : ContentCategory → String
category_value safe = "safe"
category_value mild_violence = "mild_violence"
category_value graphic_violence = "graphic_violence"
category_value sexual_content = "sexual_content"
category_value self_harm = "self_harm"
category_value hate_speech = "hate_speech"
category_value dangerous_activity = "dangerous_activity"
category_value personal_info = "personal_info"
category_value off_topic = "off_topic"
category_value prompt_injection = "prompt_injection"

-- `category in ALWAYS_BLOCK`
abbrev pub always_block : ContentCategory → Bool
always_block graphic_violence = true
always_block sexual_content = true
always_block self_harm = true
always_block hate_speech = true
always_block dangerous_activity = true
always_block prompt_injection = true
always_block _ = false

-- `DEFAULT_CATEGORY_ACTIONS.get(category, FLAG)`
abbrev pub default_action : ContentCategory → ModerationVerdict
default_action safe = pass
default_action mild_violence = pass
default_action _ = flag

-- `ModerationResult`
pub record ModerationResult : Type 0 where
  pub verdict : ModerationVerdict
  pub category : ContentCategory
  pub confidence : ℕ
  pub reason : String
  pub content_hash : String
  pub flags : List String

-- `ModerationContext`
pub record ModerationContext : Type 0 where
  pub game_id : String
  pub player_id : String
  pub turn_id : String
  pub stage : String

-- `ModerationRecord`
pub record ModerationRecord : Type 0 where
  pub turn_id : String
  pub game_id : String
  pub player_id : String
  pub stage : String
  pub content_hash : String
  pub content : String
  pub verdict : ModerationVerdict
  pub category : ContentCategory
  pub confidence : ℕ
  pub reason : String

abbrev pub is_block : ModerationVerdict → Bool
is_block block = true
is_block _ = false
