-- ===== src/Moderation/Hook/Tests.antt =====
-- A hook over the keyword moderator, and one over a service that raises.
use fictional_barnacle.Prelude.{
  String, ◌≡◌, refl, inl, Bool, true, false, none, some, List, [], ◌∷◌, map, str_eq, text_append,
}
use fictional_barnacle.Prelude.Dict.{lookup}
use fictional_barnacle.Moderation.Category.{ContentCategory, pass, self_harm}
use fictional_barnacle.Moderation.Flagging.{new_tracker}
use fictional_barnacle.Moderation.Hook.{
  ModerationHook, TurnState, block_redirect_input, block_redirect_output, build_context,
  checked_call, input, output, perform, post_check, pre_generation_check, record_of,
}
use fictional_barnacle.Moderation.Hook.Guard.{
  IsStopped, IsUnavailable, keyword_service, keyword_service-Guards, perform-IsStopped,
  perform-IsUnavailable,
}
use fictional_barnacle.Moderation.Keyword.{
  Overrides, PatternList, first_match, resolve_verdict, scan, scan_from,
}
use fictional_barnacle.Moderation.Keyword.Severe.{Forbidden}
use fictional_barnacle.Simulation.Consequence.{decimal}

abbrev find_poison : String → Bool
find_poison content = str_eq "a poison" content

abbrev lists : List (ContentCategory × PatternList)
lists = (self_harm, (find_poison, 90) ∷ []) ∷ []

abbrev lenient : Overrides
lenient category = some pass

abbrev digest : String → String
digest content = text_append "#" content

abbrev hook : ModerationHook
hook = record {
  service = keyword_service digest lenient lists;
  enabled = true;
  fail_open = true;
  recorder = some (λ r. true);
  flag_tracker = some (new_tracker 2 10);
  saved = [];
}

abbrev turn : TurnState
turn = record {
  turn_id = none;
  turn_number = 12;
  player_input = "a poison";
  game_state = ("game_id", "g") ∷ [];
}

-- The block is saved with the turn's number and counted for the game.
saved_block :
    map {B = String × String}
      (λ r. (r.turn_id, r.content_hash))
      ((perform digest hook turn input 5).1).saved
    ≡ ("12", "#a poison") ∷ []
unfolding pre_generation_check checked_call post_check record_of scan scan_from first_match
    resolve_verdict decimal lookup
saved_block = refl

perform-IsStopped_example :
    IsStopped digest hook block_redirect_input "a poison"
      (build_context turn "input")
      5
      (perform digest hook turn input 5)
perform-IsStopped_example =
    perform-IsStopped digest hook (Forbidden lists) turn input 5
      (keyword_service-Guards digest lenient lists) refl (inl (refl, refl))

abbrev broken : ModerationHook
broken = record {
  service = record { moderate_input = λ content ctx. none; moderate_output = λ content ctx. none };
  enabled = true;
  fail_open = false;
  recorder = none;
  flag_tracker = none;
  saved = [];
}

perform-IsUnavailable_example :
    IsUnavailable false block_redirect_output ((perform digest broken turn (output "dawn") 5).0)
perform-IsUnavailable_example = perform-IsUnavailable digest broken turn (output "dawn") 5 refl refl
