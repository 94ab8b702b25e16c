-- ===== src/Universe/Service.antt =====
-- tta/universe/service.py, on the tables `universes` and `game_sessions`. A method that raises
-- leaves the tables as they were. Descriptions and times are left out. A value of a configuration
-- is `none` where JSON has null; what else it may be, the texts of values, and the validator of
-- compositions are parameters.
pub mod Lifecycle
mod Tests
use fictional_barnacle.Prelude.{
  String, ◌⊎◌, inl, inr, Bool, true, false, not, ◌&&◌, ◌||◌, Option, none, some, List, [], ◌∷◌,
  ◌++◌, str_eq, if◌then◌else◌, any,
}
use fictional_barnacle.Prelude.Dict.{Dict, insert, lookup}

-- `UniverseStatus`
pub data UniverseStatus : Type 0 where
  dormant active paused archived : UniverseStatus

-- `to in _TRANSITIONS.get(from, set())`
abbrev pub allows : UniverseStatus → UniverseStatus → Bool
allows dormant active = true
allows dormant archived = true
allows active paused = true
allows active archived = true
allows paused active = true
allows paused archived = true
allows _ _ = false

abbrev pub is_final : UniverseStatus → Bool
is_final archived = true
is_final _ = false

-- The exceptions of tta/universe/exceptions.py that the service raises, and the database's refusal
-- of an identifier that a row has.
pub data UniverseError : Type 0 where
  universe_not_found_error : String → UniverseError
  universe_already_active_error : String → UniverseError
  universe_archived_error : String → UniverseError
  universe_status_transition_error : UniverseStatus → UniverseStatus → UniverseError
  seed_immutability_error : UniverseError
  composition_validation_error : List String → UniverseError
  duplicate_id_error : String → UniverseError

module _ (V : Type 0) where
  abbrev pub Config : Type 0
  Config = Dict (Option V)

  -- `Universe`
  pub record Universe : Type 0 where
    pub id : String
    pub owner_id : String
    pub name : String
    pub status : UniverseStatus
    pub config : Config

  -- The two tables; of a session, its universe and its status.
  pub record Tables : Type 0 where
    pub universes : List Universe
    pub game_sessions : List (String × String)

abbrev pub Raises {ℓ} : Type ℓ → Type ℓ
Raises A = UniverseError ⊎ A

module _ {V : Type 0} where
  -- The row with an identifier.
  pub find_row : String → List (Universe V) → Option (Universe V)
  find_row universe_id [] = none
  find_row universe_id (u ∷ us) =
      let rest = find_row universe_id us in if str_eq u.id universe_id then some u else rest

  -- An `UPDATE` of the rows with an identifier.
  pub update_rows : String → (Universe V → Universe V) → List (Universe V) → List (Universe V)
  update_rows universe_id f [] = []
  update_rows universe_id f (u ∷ us) =
      let rest = update_rows universe_id f us in
      if str_eq u.id universe_id then f u ∷ rest else u ∷ rest

  -- `get` and `_lock_row`
  unfoldable pub get : Tables V → String → Raises (Universe V)
  get t universe_id = elim (find_row universe_id t.universes) [
    | none ↦ inl (universe_not_found_error universe_id)
    | some u ↦ inr u
  ]

  -- What an update leaves, and the row after it.
  unfoldable pub update :
      Tables V → String → (Universe V → Universe V) → Raises (Universe V × Tables V)
  update t universe_id f =
      let t' = record t { universes = update_rows universe_id f t.universes } in
      elim (get t' universe_id) [ inl e ↦ inl e | inr u ↦ inr (u, t') ]

  -- `create`
  unfoldable pub create :
      Tables V → String → String → String → Config V → Raises (Universe V × Tables V)
  create t universe_id owner_id name config =
      let u : Universe V = record {
        id = universe_id;
        owner_id = owner_id;
        name = name;
        status = dormant;
        config = config;
      } in
      elim (find_row universe_id t.universes) [
        | some old ↦ inl (duplicate_id_error universe_id)
        | none ↦ inr (u, record t { universes = t.universes ++ u ∷ [] })
      ]

  -- `_set_status`
  abbrev pub set_status : Tables V → String → UniverseStatus → Raises (Universe V × Tables V)
  set_status t universe_id status = update t universe_id (λ u. record u { status = status })

  -- Whether a session that is created or active has the universe.
  abbrev pub is_played : Tables V → String → Bool
  is_played t universe_id =
      any (λ s. str_eq s.0 universe_id && (str_eq s.1 "created" || str_eq s.1 "active"))
        t.game_sessions

  -- What `activate` does with the row.
  abbrev pub activate_row :
      Tables V → Universe V → String → UniverseStatus → Raises (Universe V × Tables V)
  activate_row t u universe_id active = inl (universe_already_active_error universe_id)
  activate_row t u universe_id archived = inl (universe_archived_error universe_id)
  activate_row t u universe_id status =
      if not (allows status active)
      then inl (universe_status_transition_error status active)
      else if is_played t universe_id
      then inl (universe_already_active_error universe_id)
      else set_status t universe_id active

  -- `activate`
  unfoldable pub activate : Tables V → String → Raises (Universe V × Tables V)
  activate t universe_id = elim (get t universe_id) [
    | inl e ↦ inl e
    | inr u ↦ activate_row t u universe_id u.status
  ]

  -- `pause`
  unfoldable pub pause : Tables V → String → Raises (Universe V × Tables V)
  pause t universe_id = elim (get t universe_id) [
    | inl e ↦ inl e
    | inr u ↦
        if not (allows u.status paused)
        then inl (universe_status_transition_error u.status paused)
        else set_status t universe_id paused
  ]

  -- `archive`
  unfoldable pub archive : Tables V → String → Raises (Universe V × Tables V)
  archive t universe_id = elim (get t universe_id) [
    | inl e ↦ inl e
    | inr u ↦
        if is_final u.status
        then inr (u, t)
        else if not (allows u.status archived)
        then inl (universe_status_transition_error u.status archived)
        else set_status t universe_id archived
  ]

  abbrev pub value_in : Option (Option V) → Option V
  value_in none = none
  value_in (some v) = v

  -- `config.get(key)`, where null is as good as nothing
  abbrev pub value_of : String → Config V → Option V
  value_of key config = value_in (lookup key config)

  abbrev pub is_present : Option (Option V) → Bool
  is_present none = false
  is_present (some v) = true

  -- `key in config`
  abbrev pub has_key : String → Config V → Bool
  has_key key config = is_present (lookup key config)

  abbrev pub is_set : Option V → Bool
  is_set none = false
  is_set (some v) = true

  -- `{**current, **patch}`
  pub merge : Config V → Config V → Config V
  merge current [] = current
  merge current ((key, v) ∷ patch) = merge (insert key v current) patch

  -- The errors in the composition of a patch, if it has one.
  abbrev pub composition_errors : (Option V → List String) → Config V → List String
  composition_errors validate config_patch =
      if has_key "composition" config_patch
      then validate (value_of "composition" config_patch)
      else []

  -- The end of `patch_config`, with the errors.
  abbrev pub merge_checked :
      List String → Tables V → Universe V → String → Config V → Raises (Universe V × Tables V)
  merge_checked [] t u universe_id config_patch =
      update t universe_id (λ row. record row { config = merge u.config config_patch })
  merge_checked (e ∷ errors) t u universe_id config_patch =
      inl (composition_validation_error (e ∷ errors))

  -- `patch_config`; `validate` gives the errors in a composition.
  unfoldable pub patch_config :
      (Option V → List String) → Tables V → String → Config V → Raises (Universe V × Tables V)
  patch_config validate t universe_id config_patch = elim (get t universe_id) [
    | inl e ↦ inl e
    | inr u ↦
        if has_key "seed" config_patch && is_set (value_of "seed" u.config)
        then inl seed_immutability_error
        else merge_checked (composition_errors validate config_patch) t u universe_id config_patch
  ]

  -- The text of the seed, with the tables that an update has left.
  abbrev pub returning : String → Raises (Universe V × Tables V) → Raises (String × Tables V)
  returning text (inl e) = inl e
  returning text (inr (row, t)) = inr (text, t)

  -- `ensure_seed`, with the seed that is drawn
  unfoldable pub ensure_seed : (V → String) → V → Tables V → String → Raises (String × Tables V)
  ensure_seed show drawn t universe_id = elim (get t universe_id) [
    | inl e ↦ inl e
    | inr u ↦ elim (value_of "seed" u.config) [
      | some seed ↦ inr (show seed, t)
      | none ↦ returning (show drawn) (
          update t universe_id (λ row. record row { config = insert "seed" (some drawn) u.config }))
    ]
  ]
