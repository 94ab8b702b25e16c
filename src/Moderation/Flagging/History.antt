-- ===== src/Moderation/Flagging/History.antt =====
-- The tracker flags what a tracker that forgets nothing would flag.
use mathlib.Core.Path.{ap₂}
use mathlib.Core.List.{append-nil}
use fictional_barnacle.Prelude.{
  ℕ, ◌+◌, ◌≤◌, String, ◌≡◌, refl, sym, ap, ◌∙◌, inl, inr, Bool, true, not, List, [], ◌∷◌, ◌++◌,
  arith, str_eq, eq_iff, if◌then◌else◌, ◌==◌, Bool-cases, filter, filter-filter_of_imp,
  filter-append, length-append, length,
}
use fictional_barnacle.Prelude.Dict.{Dict, erase, insert, lookup}
use fictional_barnacle.Moderation.Flagging.{
  SessionFlagTracker, is_recent, new_tracker, record_block, reset, times_of, times_of-erase,
  times_of-insert,
}

-- What happens to a tracker: a block of a game at a time, or a reset of the game.
pub data FlagEvent : Type 0 where
  blocked : String → ℕ → FlagEvent
  cleared : String → FlagEvent

-- The answers of `record_block` along a list of events.
unfoldable pub flags_of : SessionFlagTracker → List FlagEvent → List Bool
flags_of tracker [] = []
flags_of tracker (blocked game_id now ∷ events) =
    let (flagged, tracker') = record_block tracker game_id now in flagged ∷ flags_of tracker' events
flags_of tracker (cleared game_id ∷ events) = flags_of (reset tracker game_id) events

-- Every block since the last reset of its game, with its game.
abbrev pub History : Type 0
History = List (String × ℕ)

abbrev pub times_in : String → History → List ℕ
times_in game_id [] = []
times_in game_id ((g, t) ∷ history) =
    let rest = times_in game_id history in if str_eq g game_id then t ∷ rest else rest

abbrev pub forget : String → History → History
forget game_id history = filter (λ block_. not (str_eq block_.0 game_id)) history

-- A block is flagged when it and the earlier blocks of its game in the window that ends with it
-- are `threshold` many.
unfoldable pub flags_in : ℕ → ℕ → History → List FlagEvent → List Bool
flags_in threshold window history [] = []
flags_in threshold window history (blocked game_id now ∷ events) =
    (length (filter (is_recent window now) (times_in game_id history)) + 1 == threshold)
    ∷ flags_in threshold window (history ++ (game_id, now) ∷ []) events
flags_in threshold window history (cleared game_id ∷ events) =
    flags_in threshold window (forget game_id history) events

-- The times of the blocks do not fall.
abbrev pub AreOrdered : ℕ → List FlagEvent → Type 0
AreOrdered start [] = Unit
AreOrdered start (blocked game_id now ∷ events) = (start ≤ now) × AreOrdered now events
AreOrdered start (cleared game_id ∷ events) = AreOrdered start events

times_in-append :
    (g game_id : String) (now : ℕ) (history : History)
    → times_in g (history ++ (game_id, now) ∷ [])
      ≡ times_in g history ++ (if str_eq game_id g then now ∷ [] else [])
times_in-append g game_id now [] = ground arith
times_in-append g game_id now ((j, t) ∷ history) =
    ground (arith, times_in-append g game_id now history)

times_in-forget :
    (g game_id : String) (history : History)
    → times_in g (forget game_id history) ≡ (if str_eq game_id g then [] else times_in g history)
times_in-forget g game_id [] = ground arith
times_in-forget g game_id ((j, t) ∷ history) =
    ground
      (arith, eq_iff j game_id, eq_iff j g, eq_iff game_id g, times_in-forget g game_id history)

module _ (threshold window : ℕ) where
  abbrev recent : ℕ → List ℕ → List ℕ
  recent now times = filter (is_recent window now) times

  recent_later :
      (latest now : ℕ) (times : List ℕ)
      → latest ≤ now
      → recent now (recent latest times) ≡ recent now times
  recent_later latest now times le =
      filter-filter_of_imp (is_recent window latest) (is_recent window now) times
        (λ t h. ground arith)

  -- The lists that are stored are what is recent of the history.
  abbrev Agrees : ℕ → Dict (List ℕ) → History → Type 0
  Agrees latest blocks history =
      (g : String) → recent latest (times_of blocks g) ≡ recent latest (times_in g history)

  later-Agrees :
      (latest now : ℕ) (blocks : Dict (List ℕ)) (history : History)
      → latest ≤ now
      → Agrees latest blocks history
      → Agrees now blocks history
  later-Agrees latest now blocks history le agrees g =
      sym (recent_later latest now (times_of blocks g) le)
      ∙ ap (recent now) (agrees g)
      ∙ recent_later latest now (times_in g history) le

  abbrev tracker_of : Dict (List ℕ) → SessionFlagTracker
  tracker_of blocks = record { threshold = threshold; window_minutes = window; blocks = blocks }

  str_eq_refl : (g : String) → str_eq g g ≡ true
  str_eq_refl g = (eq_iff g g).1 refl

  record_block-Agrees :
      (now : ℕ) (game_id : String) (blocks : Dict (List ℕ)) (history : History)
      → Agrees now blocks history
      → Agrees now
          (insert game_id (recent now (times_of blocks game_id) ++ now ∷ []) blocks)
          (history ++ (game_id, now) ∷ [])
  record_block-Agrees now game_id blocks history agrees g =
      rw
        (
          times_of-insert game_id g (recent now (times_of blocks game_id) ++ now ∷ []) blocks,
          times_in-append g game_id now history,
        )
        (elim (Bool-cases (str_eq game_id g)) [
          | inl own ↦
              rw
                (
                  (eq_iff game_id g).0 own,
                  str_eq_refl g,
                  filter-append (is_recent window now) (recent now (times_of blocks g)) (now ∷ []),
                  filter-append (is_recent window now) (times_in g history) (now ∷ []),
                  recent_later now now (times_of blocks g) (omega arith),
                  agrees g,
                )
                refl
          | inr other ↦ rw (other, append-nil) (agrees g)
        ])

  reset-Agrees :
      (latest : ℕ) (game_id : String) (blocks : Dict (List ℕ)) (history : History)
      → Agrees latest blocks history
      → Agrees latest (erase game_id blocks) (forget game_id history)
  reset-Agrees latest game_id blocks history agrees g =
      rw (times_of-erase game_id g blocks, times_in-forget g game_id history)
        (ground (arith, agrees g))

  -- The two run in step.
  flags_agree :
      (latest : ℕ) (blocks : Dict (List ℕ)) (history : History) (events : List FlagEvent)
      → AreOrdered latest events
      → Agrees latest blocks history
      → flags_of (tracker_of blocks) events ≡ flags_in threshold window history events
  unfolding flags_of flags_in record_block reset
  flags_agree latest blocks history [] ordered agrees = refl
  flags_agree latest blocks history (blocked game_id now ∷ events) (le, ordered) agrees =
      let agrees' = later-Agrees latest now blocks history le agrees in
      ap₂ ◌∷◌
        (rw (length-append (recent now (times_of blocks game_id)) (now ∷ []), agrees' game_id) refl)
        (flags_agree now (insert game_id (recent now (times_of blocks game_id) ++ now ∷ []) blocks)
          (history ++ (game_id, now) ∷ []) events ordered
          (record_block-Agrees now game_id blocks history agrees'))
  flags_agree latest blocks history (cleared game_id ∷ events) ordered agrees =
      flags_agree latest (erase game_id blocks) (forget game_id history) events ordered
        (reset-Agrees latest game_id blocks history agrees)

-- Whatever blocks and resets of whatever games come, in the order of their times, a new tracker
-- gives the flags of one that forgets nothing: a block is flagged exactly when it is the
-- `threshold`-th block of its game in the window that ends with it, since the game's last reset.
-- As the window slides on, a game can so be flagged more than once.
pub record_block_refines :
    (threshold window : ℕ) (events : List FlagEvent)
    → AreOrdered 0 events
    → flags_of (new_tracker threshold window) events ≡ flags_in threshold window [] events
unfolding times_of lookup
record_block_refines threshold window events ordered =
    flags_agree threshold window 0 [] [] events ordered (λ g. refl)
