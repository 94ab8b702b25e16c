-- ===== src/Universe/Service/Lifecycle/Steps.antt =====
-- Every call leaves each universe where it may go.
use fictional_barnacle.Prelude.{
  String, ◌≡◌, refl, sym, ap, subst, ◌∙◌, inl, inr, true, false, ◌&&◌, Option, none, some, List, [],
  ◌∷◌, ◌++◌, arith, str_eq, if◌then◌else◌, Bool-cases, Option-cases,
}
use fictional_barnacle.Prelude.Dict.{insert, lookup, lookup-insert}
use fictional_barnacle.Universe.Service.{
  Config, Raises, Tables, Universe, UniverseStatus, activate, activate_row, active, allows, archive,
  archived, composition_errors, create, dormant, ensure_seed, find_row, get, has_key, is_final,
  is_played, is_present, is_set, merge, merge_checked, patch_config, pause, paused, returning,
  set_status, update, update_rows, value_in, value_of,
}
use fictional_barnacle.Universe.Service.Lifecycle.{
  Extends, Extends-refl, Follows, Follows-refl, Move, Operation, activating, archiving, creating,
  halted, opened, patching, pausing, resumed, retired, seeding, stays, tables_after,
  update_rows-Extends,
}

module _ {V : Type 0} where
  -- A call that updates a row which it has read.
  update-Extends :
      (t : Tables V) (op : Operation V) (universe_id : String) (f : Universe V → Universe V)
      (u : Universe V)
      → find_row universe_id t.universes ≡ some u
      → ((v : Universe V) → (f v).id ≡ v.id)
      → Follows (Move t op universe_id) u (f u)
      → Extends t op (tables_after t (update t universe_id f)).universes
  unfolding update get
  update-Extends t op universe_id f u found same follows =
      elim (Option-cases (find_row universe_id (update_rows universe_id f t.universes))) [
        | inl gone ↦ rw (update, get, gone) (Extends-refl t op)
        | inr (v, there) ↦
            rw (update, get, there) (update_rows-Extends t op universe_id f u found same follows)
      ]

  status-Extends :
      (t : Tables V) (op : Operation V) (universe_id : String) (u : Universe V)
      (status : UniverseStatus)
      → find_row universe_id t.universes ≡ some u
      → Move t op universe_id u.status status
      → Extends t op (tables_after t (set_status t universe_id status)).universes
  status-Extends t op universe_id u status found move =
      update-Extends t op universe_id (λ row. record row { status = status }) u found (λ v. refl)
        (record { same_owner = refl; moved = move; keeps_seed = λ seed h. h })

  -- The table lets only what is active be paused, and all that is not archived be archived.
  halts :
      (t : Tables V) (id : String) (s : UniverseStatus)
      → allows s paused ≡ true
      → Move t (pausing id) id s paused
  halts t id active h = halted
  halts t id dormant h = ground arith
  halts t id paused h = ground arith
  halts t id archived h = ground arith

  retires :
      (t : Tables V) (id : String) (s : UniverseStatus)
      → is_final s ≡ false
      → Move t (archiving id) id s archived
  retires t id s h =
      retired (λ e. let clash : true ≡ false = sym (ap is_final e) ∙ h in ground arith)

  find_row-append :
      (id : String) (us : List (Universe V)) (w u : Universe V)
      → find_row id us ≡ some u
      → find_row id (us ++ w ∷ []) ≡ some u
  unfolding find_row
  find_row-append id [] w u found = ground arith
  find_row-append id (v ∷ us) w u found = elim (Bool-cases (str_eq v.id id)) [
    | inl here ↦ rw here (sym (ap (λ b. if b then some v else find_row id us) here) ∙ found)
    | inr later ↦ rw later (
        find_row-append id us w u
          (sym (ap (λ b. if b then some v else find_row id us) later) ∙ found))
  ]

  pub create-Extends :
      (t : Tables V) (universe_id owner_id name : String) (config : Config V)
      → Extends t
          (creating universe_id owner_id name config)
          (tables_after t (create t universe_id owner_id name config)).universes
  unfolding create
  create-Extends t universe_id owner_id name config =
      elim (Option-cases (find_row universe_id t.universes)) [
        | inr (old, there) ↦
            rw (create, there) (Extends-refl t (creating universe_id owner_id name config))
        | inl fresh ↦
            rw (create, fresh)
              (λ id u found. (
                u,
                find_row-append id t.universes _ u found,
                Follows-refl t (creating universe_id owner_id name config) id u,
              ))
      ]

  activate_row-Extends :
      (t : Tables V) (u : Universe V) (universe_id : String) (status : UniverseStatus)
      → find_row universe_id t.universes ≡ some u
      → u.status ≡ status
      → Extends t
          (activating universe_id)
          (tables_after t (activate_row t u universe_id status)).universes
  activate_row-Extends t u universe_id active found e = Extends-refl t (activating universe_id)
  activate_row-Extends t u universe_id archived found e = Extends-refl t (activating universe_id)
  activate_row-Extends t u universe_id dormant found e =
      elim (Bool-cases (is_played t universe_id)) [
        | inl played ↦ rw played (Extends-refl t (activating universe_id))
        | inr free ↦ rw free (
            status-Extends t (activating universe_id) universe_id u active found (
              subst (λ s. Move t (activating universe_id) universe_id s active) (sym e)
                (opened free)))
      ]
  activate_row-Extends t u universe_id paused found e =
      elim (Bool-cases (is_played t universe_id)) [
        | inl played ↦ rw played (Extends-refl t (activating universe_id))
        | inr free ↦ rw free (
            status-Extends t (activating universe_id) universe_id u active found (
              subst (λ s. Move t (activating universe_id) universe_id s active) (sym e)
                (resumed free)))
      ]

  pub activate-Extends :
      (t : Tables V) (universe_id : String)
      → Extends t (activating universe_id) (tables_after t (activate t universe_id)).universes
  unfolding activate get
  activate-Extends t universe_id = elim (Option-cases (find_row universe_id t.universes)) [
    | inl missing ↦ rw (activate, get, missing) (Extends-refl t (activating universe_id))
    | inr (u, found) ↦
        rw (activate, get, found) (activate_row-Extends t u universe_id u.status found refl)
  ]

  pub pause-Extends :
      (t : Tables V) (universe_id : String)
      → Extends t (pausing universe_id) (tables_after t (pause t universe_id)).universes
  unfolding pause get
  pause-Extends t universe_id = elim (Option-cases (find_row universe_id t.universes)) [
    | inl missing ↦ rw (pause, get, missing) (Extends-refl t (pausing universe_id))
    | inr (u, found) ↦ elim (Bool-cases (allows u.status paused)) [
      | inl allowed ↦
          rw (pause, get, found, allowed)
            (status-Extends t (pausing universe_id) universe_id u paused found
              (halts t universe_id u.status allowed))
      | inr refused ↦ rw (pause, get, found, refused) (Extends-refl t (pausing universe_id))
    ]
  ]

  pub archive-Extends :
      (t : Tables V) (universe_id : String)
      → Extends t (archiving universe_id) (tables_after t (archive t universe_id)).universes
  unfolding archive get
  archive-Extends t universe_id = elim (Option-cases (find_row universe_id t.universes)) [
    | inl missing ↦ rw (archive, get, missing) (Extends-refl t (archiving universe_id))
    | inr (u, found) ↦ elim (Bool-cases (is_final u.status)) [
      | inl final ↦ rw (archive, get, found, final) (Extends-refl t (archiving universe_id))
      | inr open_ ↦ elim (Bool-cases (allows u.status archived)) [
        | inl allowed ↦
            rw (archive, get, found, open_, allowed)
              (status-Extends t (archiving universe_id) universe_id u archived found
                (retires t universe_id u.status open_))
        | inr refused ↦
            rw (archive, get, found, open_, refused) (Extends-refl t (archiving universe_id))
      ]
    ]
  ]

  -- A patch without the key leaves the value of the key.
  lookup-merge :
      (key : String) (patch current : Config V)
      → has_key key patch ≡ false
      → lookup key (merge current patch) ≡ lookup key current
  unfolding merge lookup
  lookup-merge key [] current absent = refl
  lookup-merge key ((k, v) ∷ patch) current absent = elim (Bool-cases (str_eq k key)) [
    | inl own ↦
        let clash : true ≡ false =
          sym (ap (λ b. is_present (if b then some v else lookup key patch)) own) ∙ absent in
        ground arith
    | inr other ↦
        let absent' : has_key key patch ≡ false =
          sym (ap (λ b. is_present (if b then some v else lookup key patch)) other) ∙ absent in
        lookup-merge key patch (insert k v current) absent'
        ∙ lookup-insert k key v current
        ∙ ap (λ b. if b then some v else lookup key current) other
  ]

  none_set : (seed : V) → none ≡ some seed → ⊥
  none_set seed h = let e : false ≡ true = ap is_set h in ground arith

  merge_checked-Extends :
      (errors : List String) (t : Tables V) (u : Universe V) (universe_id : String)
      (patch : Config V)
      → find_row universe_id t.universes ≡ some u
      → (has_key "seed" patch && is_set (value_of "seed" u.config)) ≡ false
      → Extends t
          (patching universe_id patch)
          (tables_after t (merge_checked errors t u universe_id patch)).universes
  merge_checked-Extends (e ∷ errors) t u universe_id patch found free =
      Extends-refl t (patching universe_id patch)
  merge_checked-Extends [] t u universe_id patch found free =
      update-Extends t (patching universe_id patch) universe_id
        (λ row. record row { config = merge u.config patch }) u found (λ v. refl)
        (record {
          same_owner = refl;
          moved = stays;
          keeps_seed = λ seed h.
              let absent : has_key "seed" patch ≡ false = ground (arith, free, ap is_set h) in
              ap value_in (lookup-merge "seed" patch u.config absent) ∙ h;
        })

  returning-Extends :
      (t : Tables V) (op : Operation V) (text : String) (r : Raises (Universe V × Tables V))
      → Extends t op (tables_after t r).universes
      → Extends t op (tables_after t (returning text r)).universes
  returning-Extends t op text (inl e) h = h
  returning-Extends t op text (inr (row, t')) h = h

  pub patch_config-Extends :
      (validate : Option V → List String) (t : Tables V) (universe_id : String) (patch : Config V)
      → Extends t
          (patching universe_id patch)
          (tables_after t (patch_config validate t universe_id patch)).universes
  unfolding patch_config get
  patch_config-Extends validate t universe_id patch =
      elim (Option-cases (find_row universe_id t.universes)) [
        | inl missing ↦
            rw (patch_config, get, missing) (Extends-refl t (patching universe_id patch))
        | inr (u, found) ↦
            elim (Bool-cases (has_key "seed" patch && is_set (value_of "seed" u.config))) [
              | inl clash ↦
                  rw (patch_config, get, found, clash) (Extends-refl t (patching universe_id patch))
              | inr free ↦
                  rw (patch_config, get, found, free)
                    (merge_checked-Extends (composition_errors validate patch) t u universe_id patch
                      found free)
            ]
      ]

  pub ensure_seed-Extends :
      (show : V → String) (drawn : V) (t : Tables V) (universe_id : String)
      → Extends t
          (seeding universe_id drawn)
          (tables_after t (ensure_seed show drawn t universe_id)).universes
  unfolding ensure_seed get
  ensure_seed-Extends show drawn t universe_id =
      elim (Option-cases (find_row universe_id t.universes)) [
        | inl missing ↦ rw (ensure_seed, get, missing) (Extends-refl t (seeding universe_id drawn))
        | inr (u, found) ↦ elim (Option-cases (value_of "seed" u.config)) [
          | inr (seed, there) ↦
              rw (ensure_seed, get, found, there) (Extends-refl t (seeding universe_id drawn))
          | inl absent ↦
              rw (ensure_seed, get, found, absent)
                (returning-Extends t (seeding universe_id drawn) (show drawn)
                  (update t universe_id
                    (λ row. record row { config = insert "seed" (some drawn) u.config }))
                  (update-Extends t (seeding universe_id drawn) universe_id
                    (λ row. record row { config = insert "seed" (some drawn) u.config }) u found
                    (λ v. refl)
                    (record {
                      same_owner = refl;
                      moved = stays;
                      keeps_seed = λ seed h. absurd (none_set seed (sym absent ∙ h));
                    })))
        ]
      ]
