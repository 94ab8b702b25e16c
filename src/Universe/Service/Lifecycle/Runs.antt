-- ===== src/Universe/Service/Lifecycle/Runs.antt =====
-- What may become of a universe in any run of calls.
use fictional_barnacle.Prelude.{
  String, ◌≡◌, refl, ap, inr, true, false, Option, some, List, [], ◌∷◌, arith,
}
use fictional_barnacle.Universe.Service.{
  Tables, Universe, UniverseStatus, archived, ensure_seed, find_row, get, is_final, value_of,
}
use fictional_barnacle.Universe.Service.Lifecycle.{
  Extends, Extends-refl, Move, Operation, activating, archiving, creating, halted, opened, patching,
  pausing, perform, playing, resumed, retired, run, seeding, stays,
}
use fictional_barnacle.Universe.Service.Lifecycle.Steps.{
  activate-Extends, archive-Extends, create-Extends, ensure_seed-Extends, patch_config-Extends,
  pause-Extends,
}

module _ {V : Type 0} (validate : Option V → List String) (show : V → String) where
  perform-Extends :
      (t : Tables V) (op : Operation V) → Extends t op (perform validate show t op).universes
  unfolding perform
  perform-Extends t (creating universe_id owner_id name config) =
      create-Extends t universe_id owner_id name config
  perform-Extends t (activating universe_id) = activate-Extends t universe_id
  perform-Extends t (pausing universe_id) = pause-Extends t universe_id
  perform-Extends t (archiving universe_id) = archive-Extends t universe_id
  perform-Extends t (patching universe_id patch) = patch_config-Extends validate t universe_id patch
  perform-Extends t (seeding universe_id drawn) = ensure_seed-Extends show drawn t universe_id
  perform-Extends t (playing sessions) = Extends-refl t (playing sessions)

  -- Through every call of a run the universe stays in the table, with its owner, and its status
  -- makes one of the moves that the call has.
  abbrev pub MovesAlong : Tables V → List (Operation V) → String → Universe V → Type 0
  MovesAlong t [] universe_id u = Unit
  MovesAlong t (op ∷ ops) universe_id u =
      let t' = perform validate show t op in
      (u' : Universe V) × (find_row universe_id t'.universes ≡ some u')
      × (u'.owner_id ≡ u.owner_id)
      × Move t op universe_id u.status u'.status
      × MovesAlong t' ops universe_id u'

  -- In any run of calls on any universes, with sessions that come and go, a universe stays in the
  -- table with its owner, and each call changes its status at most so: a call that activates it
  -- takes it from dormant or paused to active, and only while no session that is created or active
  -- has it; one that pauses it takes it from active to paused; one that archives it takes it from
  -- any other status to archived; and no other call moves it.
  pub run-MovesAlong :
      (t : Tables V) (ops : List (Operation V)) (universe_id : String) (u : Universe V)
      → find_row universe_id t.universes ≡ some u
      → MovesAlong t ops universe_id u
  run-MovesAlong t [] universe_id u found = tt
  run-MovesAlong t (op ∷ ops) universe_id u found =
      let (u', found', follows) = perform-Extends t op universe_id u found in
      (
        u',
        found',
        follows.same_owner,
        follows.moved,
        run-MovesAlong (perform validate show t op) ops universe_id u' found',
      )

  remains_archived :
      (t : Tables V) (op : Operation V) (id : String) (s s' : UniverseStatus)
      → Move t op id s s'
      → s ≡ archived
      → s' ≡ archived
  remains_archived t op id s s' stays e = e
  remains_archived t op id s s' (opened free) e =
      let clash : false ≡ true = ap is_final e in ground arith
  remains_archived t op id s s' (resumed free) e =
      let clash : false ≡ true = ap is_final e in ground arith
  remains_archived t op id s s' halted e = let clash : false ≡ true = ap is_final e in ground arith
  remains_archived t op id s s' (retired other) e = refl

  -- An archived universe stays archived in any run.
  pub run_archived :
      (t : Tables V) (ops : List (Operation V)) (universe_id : String) (u : Universe V)
      → find_row universe_id t.universes ≡ some u
      → u.status ≡ archived
      → (u' : Universe V) × (find_row universe_id (run validate show t ops).universes ≡ some u')
        × (u'.status ≡ archived)
  unfolding run
  run_archived t [] universe_id u found is_over = (u, found, is_over)
  run_archived t (op ∷ ops) universe_id u found is_over =
      let (u', found', follows) = perform-Extends t op universe_id u found in
      run_archived (perform validate show t op) ops universe_id u' found'
        (remains_archived t op universe_id u.status u'.status follows.moved is_over)

  keeps_seed_along :
      (t : Tables V) (ops : List (Operation V)) (universe_id : String) (u : Universe V) (seed : V)
      → find_row universe_id t.universes ≡ some u
      → value_of "seed" u.config ≡ some seed
      → (u' : Universe V) × (find_row universe_id (run validate show t ops).universes ≡ some u')
        × (value_of "seed" u'.config ≡ some seed)
  unfolding run
  keeps_seed_along t [] universe_id u seed found has_seed = (u, found, has_seed)
  keeps_seed_along t (op ∷ ops) universe_id u seed found has_seed =
      let (u', found', follows) = perform-Extends t op universe_id u found in
      keeps_seed_along (perform validate show t op) ops universe_id u' seed found'
        (follows.keeps_seed seed has_seed)

  -- In any run of calls a universe that has a seed keeps it, whatever is patched and whatever seeds
  -- are drawn, and `ensure_seed` then gives its text and changes nothing.
  pub run_keeps_seed :
      (t : Tables V) (ops : List (Operation V)) (universe_id : String) (u : Universe V)
      (seed drawn : V)
      → find_row universe_id t.universes ≡ some u
      → value_of "seed" u.config ≡ some seed
      → let t' = run validate show t ops in
        (u' : Universe V) × (find_row universe_id t'.universes ≡ some u')
        × (value_of "seed" u'.config ≡ some seed)
        × (ensure_seed show drawn t' universe_id ≡ inr (show seed, t'))
  unfolding ensure_seed get
  run_keeps_seed t ops universe_id u seed drawn found has_seed =
      let (u', found', kept) = keeps_seed_along t ops universe_id u seed found has_seed in
      (u', found', kept, rw (ensure_seed, get, found', kept) refl)
