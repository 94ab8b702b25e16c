-- ===== src/Moderation/Flagging.antt =====
-- tta/moderation/flagging.py. Times are in microseconds, and logs are left out.
pub mod History
mod Tests
use fictional_barnacle.Prelude.{
  ℕ, ◌+◌, ◌*◌, String, ◌≡◌, Bool, none, some, List, [], ◌∷◌, ◌++◌, arith, str_eq, ◌==◌, ltb,
  if◌then◌else◌, filter, length,
}
use fictional_barnacle.Prelude.Dict.{Dict, erase, insert, lookup, lookup-erase, lookup-insert}

-- `SessionFlagTracker`: for each game the times of its blocks.
pub record SessionFlagTracker : Type 0 where
  pub threshold : ℕ
  pub window_minutes : ℕ
  pub blocks : Dict (List ℕ)

-- `SessionFlagTracker.__init__`
abbrev pub new_tracker : ℕ → ℕ → SessionFlagTracker
new_tracker threshold window_minutes = record {
  threshold = threshold;
  window_minutes = window_minutes;
  blocks = [];
}

abbrev pub minute : ℕ
minute = 60 * 1000000

-- `t.timestamp() > cutoff`
abbrev pub is_recent : ℕ → ℕ → ℕ → Bool
is_recent window_minutes now t = ltb now (t + window_minutes * minute)

-- `self._blocks[game_id]`, which makes an empty list where there is none.
unfoldable pub times_of : Dict (List ℕ) → String → List ℕ
times_of blocks game_id = elim (lookup game_id blocks) [ some times ↦ times | none ↦ [] ]

-- `record_block`
unfoldable pub record_block : SessionFlagTracker → String → ℕ → Bool × SessionFlagTracker
record_block tracker game_id now =
    let timestamps =
      filter (is_recent tracker.window_minutes now) (times_of tracker.blocks game_id) ++ now ∷ [] in
    (
      length timestamps == tracker.threshold,
      record tracker { blocks = insert game_id timestamps tracker.blocks },
    )

-- `reset`
unfoldable pub reset : SessionFlagTracker → String → SessionFlagTracker
reset tracker game_id = record tracker { blocks = erase game_id tracker.blocks }

pub times_of-insert :
    (game_id g : String) (times : List ℕ) (blocks : Dict (List ℕ))
    → times_of (insert game_id times blocks) g
      ≡ (if str_eq game_id g then times else times_of blocks g)
unfolding times_of
times_of-insert game_id g times blocks =
    rw (times_of, lookup-insert game_id g times blocks) (ground arith)

pub times_of-erase :
    (game_id g : String) (blocks : Dict (List ℕ))
    → times_of (erase game_id blocks) g ≡ (if str_eq game_id g then [] else times_of blocks g)
unfolding times_of
times_of-erase game_id g blocks = rw (times_of, lookup-erase game_id g blocks) (ground arith)
