-- ===== src/Moderation/Hook.antt =====
-- tta/moderation/hook.py and the `SafetyResult` of tta/safety/hooks.py. The SHA-256 digest is a
-- parameter; the ids and the times of the records, the logs and the counters are left out.
pub mod Guard
mod Tests
use fictional_barnacle.Prelude.{
  ℕ, ◌+◌, String, Bool, true, false, not, Option, none, some, List, [], ◌∷◌, ◌++◌, str_eq,
  text_append, if◌then◌else◌,
}
use fictional_barnacle.Prelude.Dict.{Dict, lookup}
use fictional_barnacle.Moderation.Category.{
  ContentCategory, ModerationContext, ModerationRecord, ModerationResult, ModerationVerdict, block,
  category_value, flag, pass,
}
use fictional_barnacle.Moderation.Flagging.{SessionFlagTracker, record_block}
use fictional_barnacle.Simulation.Consequence.{decimal}

-- `SafetyResult`
pub record SafetyResult : Type 0 where
  pub safe : Bool
  pub flags : List String
  pub modified_content : Option String

-- `ModerationService`; where a method raises, there is no result.
pub record ModerationService : Type 0 where
  pub moderate_input : String → ModerationContext → Option ModerationResult
  pub moderate_output : String → ModerationContext → Option ModerationResult

-- What the hook reads of a `TurnState`; the id is its text.
pub record TurnState : Type 0 where
  pub turn_id : Option String
  pub turn_number : ℕ
  pub player_input : String
  pub game_state : Dict String

-- `ModerationHook`, with the rows of the table `moderation_records`. The recorder is whether its
-- insertion of a record succeeds: `ModerationRecorder.save` only logs a failure.
pub record ModerationHook : Type 0 where
  pub service : ModerationService
  pub enabled : Bool
  pub fail_open : Bool
  pub recorder : Option (ModerationRecord → Bool)
  pub flag_tracker : Option SessionFlagTracker
  pub saved : List ModerationRecord

-- `BLOCK_REDIRECT_INPUT`
abbrev pub block_redirect_input : String
block_redirect_input =
    "The story pauses for a moment as the narrator considers your words. Perhaps we could explore a different direction…"

-- `BLOCK_REDIRECT_OUTPUT`
abbrev pub block_redirect_output : String
block_redirect_output =
    "The story pauses for a moment as the narrator reconsiders the direction of the tale. Let's explore a different path…"

abbrev pub or_default : Option String → String → String
or_default (some text) default = text
or_default none default = default

-- `_build_context`
abbrev pub build_context : TurnState → String → ModerationContext
build_context state stage = record {
  game_id = or_default (lookup "game_id" state.game_state) "";
  player_id = or_default (lookup "player_id" state.game_state) "";
  turn_id = or_default state.turn_id (decimal (state.turn_number + 1) state.turn_number);
  stage = stage;
}

-- `result.flags or [...]`
abbrev pub flags_or : List String → String → List String
flags_or [] default = default ∷ []
flags_or (flag_ ∷ flags) default = flag_ ∷ flags

-- `_to_safety_result`
unfoldable pub to_safety_result : ModerationResult → String → SafetyResult
to_safety_result result redirect = elim result.verdict [
  | block ↦ record {
    safe = false;
    flags = flags_or result.flags (text_append "moderation:" (category_value result.category));
    modified_content = some redirect;
  }
  | flag ↦ record {
    safe = true;
    flags = text_append "flagged:" (category_value result.category) ∷ [];
    modified_content = none;
  }
  | pass ↦ record { safe = true; flags = []; modified_content = none }
]

-- The row that `recorder.save(record)` adds.
abbrev pub save : Option (ModerationRecord → Bool) → ModerationRecord → List ModerationRecord
save none r = []
save (some succeeds) r = if succeeds r then r ∷ [] else []

-- The result for a service that raises.
abbrev pub unavailable : ModerationVerdict → List String → String → ModerationResult
unavailable verdict flags hash = record {
  verdict = verdict;
  category = ContentCategory.safe;
  confidence = 0;
  reason = "moderation_unavailable";
  content_hash = hash;
  flags = flags;
}

-- The tracker after a check: a block is counted.
abbrev pub track :
    ModerationVerdict
    → ModerationContext
    → ℕ
    → Option SessionFlagTracker
    → Option SessionFlagTracker
track block ctx now (some tracker) = some ((record_block tracker ctx.game_id now).1)
track verdict ctx now tracker = tracker

abbrev pub allowed : SafetyResult
allowed = record { safe = true; flags = []; modified_content = none }

module _ (sha256 : String → String) where
  -- `_checked_call`
  unfoldable pub checked_call :
      Bool
      → (String → ModerationContext → Option ModerationResult)
      → String
      → ModerationContext
      → ModerationResult
  checked_call fail_open fn content ctx = elim (fn content ctx) [
    | some result ↦ result
    | none ↦
        if fail_open
        then unavailable pass [] (sha256 content)
        else unavailable block ("moderation:unavailable" ∷ []) (sha256 content)
  ]

  -- The record of a check, with the digest of the content whatever the service returned.
  unfoldable pub record_of : ModerationResult → String → ModerationContext → ModerationRecord
  record_of result content ctx = record {
    turn_id = ctx.turn_id;
    game_id = ctx.game_id;
    player_id = ctx.player_id;
    stage = ctx.stage;
    content_hash =
        if str_eq result.content_hash (sha256 content) then result.content_hash else sha256 content;
    content = content;
    verdict = result.verdict;
    category = result.category;
    confidence = result.confidence;
    reason = result.reason;
  }

  -- `_post_check`
  unfoldable pub post_check :
      ModerationHook → ModerationResult → String → ModerationContext → ℕ → ModerationHook
  post_check hook result content ctx now = record hook {
    saved = hook.saved ++ save hook.recorder (record_of result content ctx);
    flag_tracker = track result.verdict ctx now hook.flag_tracker;
  }

  -- `pre_generation_check`, at the time `now`
  unfoldable pub pre_generation_check :
      ModerationHook → TurnState → ℕ → SafetyResult × ModerationHook
  pre_generation_check hook state now =
      if not hook.enabled
      then (allowed, hook)
      else (let ctx = build_context state "input" in
          let content = state.player_input in
          let result = checked_call hook.fail_open hook.service.moderate_input content ctx in
          (to_safety_result result block_redirect_input, post_check hook result content ctx now))

  -- `post_generation_check`, at the time `now`
  unfoldable pub post_generation_check :
      ModerationHook → String → TurnState → ℕ → SafetyResult × ModerationHook
  post_generation_check hook narrative_output state now =
      if not hook.enabled
      then (allowed, hook)
      else (let ctx = build_context state "output" in
          let result =
            checked_call hook.fail_open hook.service.moderate_output narrative_output ctx in
          (
            to_safety_result result block_redirect_output,
            post_check hook result narrative_output ctx now,
          ))

-- The two checks of a turn: of the player's input, and of the narrative.
pub data Check : Type 0 where
  input : Check
  output : String → Check

abbrev pub stage_of : Check → String
stage_of input = "input"
stage_of (output narrative_output) = "output"

abbrev pub redirect_of : Check → String
redirect_of input = block_redirect_input
redirect_of (output narrative_output) = block_redirect_output

abbrev pub content_of : TurnState → Check → String
content_of state input = state.player_input
content_of state (output narrative_output) = narrative_output

abbrev pub perform :
    (String → String) → ModerationHook → TurnState → Check → ℕ → SafetyResult × ModerationHook
perform sha256 hook state input now = pre_generation_check sha256 hook state now
perform sha256 hook state (output narrative_output) now =
    post_generation_check sha256 hook narrative_output state now

abbrev pub method_of :
    ModerationService → Check → String → ModerationContext → Option ModerationResult
method_of service input = service.moderate_input
method_of service (output narrative_output) = service.moderate_output
