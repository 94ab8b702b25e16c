-- ===== src/Moderation/Hook/Guard.antt =====
-- What a hook guarantees about a service that blocks what is forbidden.
use fictional_barnacle.Prelude.{
  ℕ, String, ◌≡◌, refl, sym, ap, subst, ◌≢◌, inl, inr, Bool, true, false, not, Option, none, some,
  List, [], ◌∷◌, ◌++◌, arith, str_eq, eq_iff, text_append, Bool-cases, if◌then◌else◌, length,
}
use fictional_barnacle.Moderation.Category.{
  ContentCategory, ModerationContext, ModerationRecord, ModerationResult, block, category_value,
  pass,
}
use fictional_barnacle.Moderation.Hook.{
  Check, ModerationHook, ModerationService, SafetyResult, TurnState, build_context, checked_call,
  content_of, flags_or, input, method_of, output, perform, post_check, post_generation_check,
  pre_generation_check, record_of, redirect_of, save, stage_of, to_safety_result, track,
  unavailable,
}
use fictional_barnacle.Moderation.Keyword.{Overrides, PatternList, scan}
use fictional_barnacle.Moderation.Keyword.Severe.{Forbidden, scan_blocks}

-- A service guards against a class of contents when both its methods return and block them.
pub record Guards (service : ModerationService) (IsForbidden : String → Type 0) : Type 0 where
  pub blocks :
      (check : Check) (content : String) (ctx : ModerationContext)
      → IsForbidden content
      → (result : ModerationResult) × (method_of service check content ctx ≡ some result)
        × (result.verdict ≡ block)

-- Both methods of `KeywordModerator`.
abbrev pub keyword_service :
    (String → String) → Overrides → List (ContentCategory × PatternList) → ModerationService
keyword_service sha256 overrides patterns = record {
  moderate_input = λ content ctx. some (scan sha256 overrides patterns content);
  moderate_output = λ content ctx. some (scan sha256 overrides patterns content);
}

-- Both checks call the one method of a service that has the same method twice.
method_of_same :
    (check : Check) (method : String → ModerationContext → Option ModerationResult)
    (content : String) (ctx : ModerationContext)
    → method_of (record { moderate_input = method; moderate_output = method }) check content ctx
      ≡ method content ctx
method_of_same input method content ctx = refl
method_of_same (output narrative_output) method content ctx = refl

pub keyword_service-Guards :
    (sha256 : String → String) (overrides : Overrides)
    (patterns : List (ContentCategory × PatternList))
    → Guards (keyword_service sha256 overrides patterns) (Forbidden patterns)
keyword_service-Guards sha256 overrides patterns = record {
  blocks = λ check content ctx forbidden. (
    scan sha256 overrides patterns content,
    method_of_same check (λ text context. some (scan sha256 overrides patterns text)) content ctx,
    scan_blocks sha256 overrides patterns content forbidden,
  );
}

if_not : {A : Type 0} (b : Bool) (x y : A) → b ≡ true → (if not b then x else y) ≡ y
if_not b x y on = rw on refl

flags_or_ne : (flags : List String) (default : String) → flags_or flags default ≢ []
flags_or_ne [] default h = let e = ap length h in omega arith
flags_or_ne (flag_ ∷ flags) default h = let e = ap length h in omega arith

-- What an enabled hook answers when the service raises.
pub record IsUnavailable (fail_open : Bool) (redirect : String) (answer : SafetyResult)
    : Type 0 where
  decided : answer.safe ≡ fail_open
  sent : answer.modified_content ≡ (if fail_open then none else some redirect)
  tagged : answer.flags ≡ (if fail_open then [] else "moderation:unavailable" ∷ [])

unavailable-IsUnavailable :
    (fail_open : Bool) (hash redirect : String)
    → IsUnavailable fail_open redirect (
        to_safety_result
          (if fail_open
            then unavailable pass [] hash
            else unavailable block ("moderation:unavailable" ∷ []) hash)
          redirect)
unfolding to_safety_result
unavailable-IsUnavailable true hash redirect = record { decided = refl; sent = refl; tagged = refl }
unavailable-IsUnavailable false hash redirect = record {
  decided = refl;
  sent = refl;
  tagged = refl;
}

module _ (sha256 : String → String) (hook : ModerationHook) where
  -- The player sees the redirection with a reason, the game's block is counted, and what is saved
  -- is the block of the content with its digest.
  pub record IsStopped (redirect content : String) (ctx : ModerationContext) (now : ℕ)
      (answer : SafetyResult × ModerationHook) : Type 0 where
    refused : (answer.0).safe ≡ false
    redirected : (answer.0).modified_content ≡ some redirect
    explained : (answer.0).flags ≢ []
    counted : (answer.1).flag_tracker ≡ track block ctx now hook.flag_tracker
    saved_as :
        (r : ModerationRecord) × ((answer.1).saved ≡ hook.saved ++ save hook.recorder r)
        × (r.verdict ≡ block)
        × (r.content ≡ content)
        × (r.content_hash ≡ sha256 content)

  hash_of_record :
      (result : ModerationResult) (content : String) (ctx : ModerationContext)
      → (record_of sha256 result content ctx).content_hash ≡ sha256 content
  unfolding record_of
  hash_of_record result content ctx =
      elim (Bool-cases (str_eq result.content_hash (sha256 content))) [
        | inl same ↦ rw (same, (eq_iff result.content_hash (sha256 content)).0 same) refl
        | inr other ↦ rw other refl
      ]

  to_safety_result-flags :
      (result : ModerationResult) (redirect : String)
      → result.verdict ≡ block
      → ((to_safety_result result redirect).safe ≡ false)
        × ((to_safety_result result redirect).modified_content ≡ some redirect)
        × ((to_safety_result result redirect).flags ≢ [])
  unfolding to_safety_result
  to_safety_result-flags result redirect is_blocked = rw is_blocked (
    refl,
    refl,
    flags_or_ne result.flags (text_append "moderation:" (category_value result.category)),
  )

  post_check-IsStopped :
      (result : ModerationResult) (redirect content : String) (ctx : ModerationContext) (now : ℕ)
      → result.verdict ≡ block
      → IsStopped redirect content ctx now
          (to_safety_result result redirect, post_check sha256 hook result content ctx now)
  unfolding post_check record_of
  post_check-IsStopped result redirect content ctx now is_blocked =
      let (unsafe_, sent, reason) = to_safety_result-flags result redirect is_blocked in
      record {
        refused = unsafe_;
        redirected = sent;
        explained = reason;
        counted = ap (λ v. track v ctx now hook.flag_tracker) is_blocked;
        saved_as = (
          record_of sha256 result content ctx,
          refl,
          is_blocked,
          refl,
          hash_of_record result content ctx,
        );
      }

  result_of : TurnState → Check → ModerationResult
  result_of state check =
      checked_call sha256 hook.fail_open (method_of hook.service check) (content_of state check)
        (build_context state (stage_of check))

  -- Both checks of an enabled hook do the same with the result of their method.
  perform_enabled :
      (state : TurnState) (check : Check) (now : ℕ)
      → hook.enabled ≡ true
      → perform sha256 hook state check now ≡ (
        to_safety_result (result_of state check) (redirect_of check),
        post_check sha256 hook
            (result_of state check)
            (content_of state check)
            (build_context state (stage_of check))
            now,
      )
  unfolding pre_generation_check post_generation_check result_of
  perform_enabled state input now on = if_not hook.enabled _ _ on
  perform_enabled state (output narrative_output) now on = if_not hook.enabled _ _ on

  -- With a service that guards against a class of contents, an enabled hook stops every such
  -- content, written by the player or by the model, whether it fails open or not, and with or
  -- without a recorder and a tracker.
  pub perform-IsStopped :
      (IsForbidden : String → Type 0) (state : TurnState) (check : Check) (now : ℕ)
      → Guards hook.service IsForbidden
      → hook.enabled ≡ true
      → IsForbidden (content_of state check)
      → IsStopped
          (redirect_of check)
          (content_of state check)
          (build_context state (stage_of check))
          now
          (perform sha256 hook state check now)
  unfolding result_of checked_call
  perform-IsStopped IsForbidden state check now guards on forbidden =
      let content = content_of state check in
      let ctx = build_context state (stage_of check) in
      let (result, returned, is_blocked) = guards.blocks check content ctx forbidden in
      subst (IsStopped (redirect_of check) content ctx now)
        (sym (perform_enabled state check now on))
        (post_check-IsStopped (result_of state check) (redirect_of check) content ctx now
          (rw (result_of, checked_call, returned) is_blocked))

  -- When the service raises, an enabled hook lets the content through untouched if it fails open,
  -- and answers with the redirection and the flag "moderation:unavailable" if not.
  pub perform-IsUnavailable :
      (state : TurnState) (check : Check) (now : ℕ)
      → hook.enabled ≡ true
      → method_of hook.service check (content_of state check) (build_context state (stage_of check))
        ≡ none
      → IsUnavailable hook.fail_open (redirect_of check) ((perform sha256 hook state check now).0)
  unfolding result_of checked_call to_safety_result
  perform-IsUnavailable state check now on raised =
      subst (λ answer. IsUnavailable hook.fail_open (redirect_of check) answer.0)
        (sym (perform_enabled state check now on))
        (rw (result_of, checked_call, raised)
          (unavailable-IsUnavailable hook.fail_open (sha256 (content_of state check))
            (redirect_of check)))
