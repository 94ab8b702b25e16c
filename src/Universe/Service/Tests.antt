-- ===== src/Universe/Service/Tests.antt =====
-- A universe that is seeded, played and archived, and the theorems at it.
use fictional_barnacle.Prelude.{String, ◌≡◌, refl, inr, Option, some, List, [], ◌∷◌, map}
use fictional_barnacle.Prelude.Dict.{insert, lookup}
use fictional_barnacle.Universe.Service.{
  Config, Tables, Universe, UniverseStatus, activate, archive, create, dormant, ensure_seed,
  find_row, get, merge, patch_config, pause, update, update_rows, value_of,
}
use fictional_barnacle.Universe.Service.Lifecycle.{
  Operation, activating, archiving, patching, pausing, perform, playing, run, seeding,
}
use fictional_barnacle.Universe.Service.Lifecycle.Runs.{MovesAlong, run-MovesAlong, run_keeps_seed}

abbrev fresh : Universe String
fresh = record { id = "u"; owner_id = "p"; name = "Valley"; status = dormant; config = [] }

abbrev tables : Tables String
tables = record { universes = fresh ∷ []; game_sessions = [] }

abbrev accepts_all : Option String → List String
accepts_all composition = []

abbrev same_text : String → String
same_text seed = seed

abbrev story : List (Operation String)
story =
    seeding "u" "42"
    ∷ activating "u"
    ∷ patching "u" (("seed", some "7") ∷ [])
    ∷ patching "u" (("time", some "fast") ∷ [])
    ∷ pausing "u"
    ∷ playing (("u", "created") ∷ [])
    ∷ activating "u"
    ∷ archiving "u"
    ∷ activating "u"
    ∷ []

-- The second activation fails on the session, and the third since the universe is archived.
ended : run accepts_all same_text tables story ≡ record {
  universes =
      record fresh {
        status = UniverseStatus.archived;
        config = ("seed", some "42") ∷ ("time", some "fast") ∷ [];
      }
      ∷ [];
  game_sessions = ("u", "created") ∷ [];
}
unfolding run perform get update create activate pause archive patch_config ensure_seed find_row
    update_rows merge lookup insert
ended = refl

-- An archived universe can still be patched.
patched_late :
    let gone : Tables String = record tables {
      universes = record fresh { status = UniverseStatus.archived } ∷ [];
    } in
    map {B = Config String}
      (λ u. u.config)
      (perform accepts_all same_text gone (patching "u" (("time", some "fast") ∷ []))).universes
    ≡ (("time", some "fast") ∷ []) ∷ []
unfolding perform get update patch_config find_row update_rows merge lookup insert
patched_late = refl

run-MovesAlong_example : MovesAlong accepts_all same_text tables story "u" fresh
unfolding find_row
run-MovesAlong_example = run-MovesAlong accepts_all same_text tables story "u" fresh refl

abbrev seeded : Universe String
seeded = record fresh { config = ("seed", some "42") ∷ [] }

run_keeps_seed_example :
    let t' = run accepts_all same_text (record tables { universes = seeded ∷ [] }) story in
    (u' : Universe String) × (find_row "u" t'.universes ≡ some u')
    × (value_of "seed" u'.config ≡ some "42")
    × (ensure_seed same_text "9" t' "u" ≡ inr ("42", t'))
unfolding find_row lookup
run_keeps_seed_example =
    run_keeps_seed accepts_all same_text (record tables { universes = seeded ∷ [] }) story "u"
      seeded "42" "9" refl refl
