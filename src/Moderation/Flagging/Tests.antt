-- ===== src/Moderation/Flagging/Tests.antt =====
-- Two games of which one is flagged, and the theorem at it.
use fictional_barnacle.Prelude.{◌*◌, ◌≡◌, refl, true, false, List, [], ◌∷◌, arith}
use fictional_barnacle.Prelude.Dict.{erase, insert, lookup}
use fictional_barnacle.Moderation.Flagging.{minute, new_tracker, record_block, reset, times_of}
use fictional_barnacle.Moderation.Flagging.History.{
  FlagEvent, blocked, cleared, flags_in, flags_of, record_block_refines,
}

abbrev afternoon : List FlagEvent
afternoon =
    blocked "g" 1
    ∷ blocked "h" (2 * minute)
    ∷ blocked "g" (3 * minute)
    ∷ cleared "h"
    ∷ blocked "h" (4 * minute)
    ∷ blocked "g" (12 * minute)
    ∷ []

-- The second block of "g" is flagged, and its third again, since the first has left the window.
flagged_again : flags_of (new_tracker 2 10) afternoon ≡ false ∷ false ∷ true ∷ false ∷ true ∷ []
unfolding flags_of record_block reset times_of lookup insert erase
flagged_again = refl

record_block_refines_example : flags_of (new_tracker 2 10) afternoon ≡ flags_in 2 10 [] afternoon
record_block_refines_example =
    record_block_refines 2 10 afternoon
      (omega arith, (omega arith, (omega arith, (omega arith, (omega arith, tt)))))
