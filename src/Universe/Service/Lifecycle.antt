-- ===== src/Universe/Service/Lifecycle.antt =====
-- What a call may make of a universe: which moves of its status it has, and that its seed stays.
pub mod Steps
pub mod Runs
use fictional_barnacle.Prelude.{
  String, ◌≡◌, refl, sym, ap, subst, ◌∙◌, ◌≢◌, inl, inr, Bool, true, false, Option, none, some,
  List, [], ◌∷◌, arith, str_eq, eq_iff, Bool-cases,
}
use fictional_barnacle.Universe.Service.{
  Config, Raises, Tables, Universe, UniverseStatus, activate, active, archive, archived, create,
  dormant, ensure_seed, find_row, is_played, patch_config, pause, paused, update_rows, value_of,
}

-- Calls of the service, and what the sessions do in between. What a call raises leaves the tables.
pub data Operation (V : Type 0) : Type 0 where
  creating : String → String → String → Config V → Operation V
  activating pausing archiving : String → Operation V
  patching : String → Config V → Operation V
  seeding : String → V → Operation V
  playing : List (String × String) → Operation V

module _ {V : Type 0} where
  -- What a call leaves of the tables.
  abbrev pub tables_after : {A : Type 0} → Tables V → Raises (A × Tables V) → Tables V
  tables_after t (inl e) = t
  tables_after t (inr (a, t')) = t'

  module _ (validate : Option V → List String) (show : V → String) where
    unfoldable pub perform : Tables V → Operation V → Tables V
    perform t (creating universe_id owner_id name config) =
        tables_after t (create t universe_id owner_id name config)
    perform t (activating universe_id) = tables_after t (activate t universe_id)
    perform t (pausing universe_id) = tables_after t (pause t universe_id)
    perform t (archiving universe_id) = tables_after t (archive t universe_id)
    perform t (patching universe_id patch) =
        tables_after t (patch_config validate t universe_id patch)
    perform t (seeding universe_id drawn) = tables_after t (ensure_seed show drawn t universe_id)
    perform t (playing sessions) = record t { game_sessions = sessions }

    unfoldable pub run : Tables V → List (Operation V) → Tables V
    run t [] = t
    run t (op ∷ ops) = run (perform t op) ops

  -- What a call may make of the status of the universe `id`: only a call that names it moves it,
  -- and it becomes active only while no session that is created or active has it.
  pub data Move (t : Tables V)
      : Operation V → String → UniverseStatus → UniverseStatus → Type 0 where
    stays : {op : Operation V} {id : String} {s : UniverseStatus} → Move t op id s s
    opened : {id : String} → is_played t id ≡ false → Move t (activating id) id dormant active
    resumed : {id : String} → is_played t id ≡ false → Move t (activating id) id paused active
    halted : {id : String} → Move t (pausing id) id active paused
    retired :
        {id : String} {s : UniverseStatus} → s ≢ archived → Move t (archiving id) id s archived

  -- What may become of one row, where its status may go as `R` says.
  pub record Follows (R : UniverseStatus → UniverseStatus → Type 0) (u u' : Universe V)
      : Type 0 where
    pub same_owner : u'.owner_id ≡ u.owner_id
    pub moved : R u.status u'.status
    pub keeps_seed :
        (seed : V) → value_of "seed" u.config ≡ some seed → value_of "seed" u'.config ≡ some seed

  -- Every row of the one is in the other, with what may have become of it in a call.
  abbrev pub Extends : Tables V → Operation V → List (Universe V) → Type 0
  Extends t op us' =
      (id : String) (u : Universe V)
      → find_row id t.universes ≡ some u
      → (u' : Universe V) × (find_row id us' ≡ some u') × Follows (Move t op id) u u'

  pub Follows-refl :
      (t : Tables V) (op : Operation V) (id : String) (u : Universe V) → Follows (Move t op id) u u
  Follows-refl t op id u = record { same_owner = refl; moved = stays; keeps_seed = λ seed h. h }

  pub Extends-refl : (t : Tables V) (op : Operation V) → Extends t op t.universes
  Extends-refl t op id u found = (u, found, Follows-refl t op id u)

  abbrev map_row : Option (Universe V) → Bool → (Universe V → Universe V) → Option (Universe V)
  map_row none b f = none
  map_row (some u) true f = some (f u)
  map_row (some u) false f = some u

  abbrev row_or : Universe V → Option (Universe V) → Universe V
  row_or u none = u
  row_or u (some v) = v

  find_row-update_rows :
      (id universe_id : String) (f : Universe V → Universe V) (us : List (Universe V))
      → ((v : Universe V) → (f v).id ≡ v.id)
      → find_row id (update_rows universe_id f us)
        ≡ map_row (find_row id us) (str_eq universe_id id) f
  unfolding find_row update_rows
  find_row-update_rows id universe_id f [] same = refl
  find_row-update_rows id universe_id f (u ∷ us) same =
      let ih = find_row-update_rows id universe_id f us same in
      elim (Bool-cases (str_eq u.id universe_id)) [
        | inl at ↦
            let e = (eq_iff u.id universe_id).0 at in
            let new : str_eq (f u).id id ≡ str_eq universe_id id =
              ap (λ x. str_eq x id) (same u ∙ e) in
            let old : str_eq u.id id ≡ str_eq universe_id id = ap (λ x. str_eq x id) e in
            elim (Bool-cases (str_eq universe_id id)) [
              | inl own ↦ rw (at, new, old, own) refl
              | inr other ↦
                  rw (at, new, old, other) (ih ∙ ap (λ b. map_row (find_row id us) b f) other)
            ]
        | inr elsewhere ↦ elim (Bool-cases (str_eq u.id id)) [
          | inl own ↦
              let other : str_eq universe_id id ≡ false =
                ground (arith, eq_iff u.id id, eq_iff universe_id id, eq_iff u.id universe_id) in
              rw (elsewhere, own, other) refl
          | inr other ↦ rw (elsewhere, other) ih
        ]
      ]

  -- An update by a function that the row follows.
  pub update_rows-Extends :
      (t : Tables V) (op : Operation V) (universe_id : String) (f : Universe V → Universe V)
      (u : Universe V)
      → find_row universe_id t.universes ≡ some u
      → ((v : Universe V) → (f v).id ≡ v.id)
      → Follows (Move t op universe_id) u (f u)
      → Extends t op (update_rows universe_id f t.universes)
  update_rows-Extends t op universe_id f u found same follows id v found' =
      let us = t.universes in
      elim (Bool-cases (str_eq universe_id id)) [
        | inl own ↦
            let e = (eq_iff universe_id id).0 own in
            let there : find_row id us ≡ some u = ap (λ i. find_row i us) (sym e) ∙ found in
            let same_row : u ≡ v = ap (row_or u) (sym there ∙ found') in
            (
              f u,
              rw (find_row-update_rows id universe_id f us same, own, there) refl,
              subst (λ i. Follows (Move t op i) v (f u)) e
                  (subst (λ w. Follows (Move t op universe_id) w (f u)) same_row follows),
            )
        | inr other ↦ (
          v,
          rw (find_row-update_rows id universe_id f us same, other, found') refl,
          Follows-refl t op id v,
        )
      ]
