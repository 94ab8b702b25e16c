-- ===== src/Simulation/WorldTime/Label.antt =====
-- The time-of-day label.
use native.Mathlib.Nat.{le_trans, le_refl}
use fictional_barnacle.Prelude.{
  ℕ, ◌%◌, ◌≤◌, String, ◌≡◌, refl, sym, subst, ◌⊎◌, inl, inr, Bool, true, false, some, [], ◌∷◌,
  arith, Bool-cases, leb→le, leb, if◌then◌else◌, Any, Any-map, Any-map_All, All-map, All,
}
use fictional_barnacle.Prelude.Dict.{Dict}
use fictional_barnacle.Simulation.WorldTime.{
  TimeConfig, WorldTime, boundaries_of, compute_world_time, has_started, insert_boundary,
  minutes_per_day, resolve_label, sort_boundaries, total_minutes,
}

abbrev pub IsAscending : Dict ℕ → Type 0
IsAscending [] = Unit
IsAscending (b ∷ bs) = All (λ c. b.1 ≤ c.1) bs × IsAscending bs

module _ (P : String × ℕ → Type 0) where
  All-insert_boundary :
      (b : String × ℕ) (bs : Dict ℕ) → P b → All P bs → All P (insert_boundary b bs)
  unfolding insert_boundary
  All-insert_boundary b [] p a = (p, tt)
  All-insert_boundary b (c ∷ cs) p a = elim (Bool-cases (leb b.1 c.1)) [
    | inl le ↦ rw le (p, a)
    | inr gt ↦ rw gt (a.0, All-insert_boundary b cs p a.1)
  ]

  insert_boundary-All :
      (b : String × ℕ) (bs : Dict ℕ) → All P (insert_boundary b bs) → P b × All P bs
  unfolding insert_boundary
  insert_boundary-All b [] a = (a.0, tt)
  insert_boundary-All b (c ∷ cs) a = elim (Bool-cases (leb b.1 c.1)) [
    | inl le ↦ (let a' = rw (le, insert_boundary) at a in (a'.0, a'.1))
    | inr gt ↦
        (let a' = rw (gt, insert_boundary) at a in
          let (p, r) = insert_boundary-All b cs a'.1 in (p, (a'.0, r)))
  ]

  Any-insert_boundary :
      (b : String × ℕ) (bs : Dict ℕ) → Any P (insert_boundary b bs) → P b ⊎ Any P bs
  unfolding insert_boundary
  Any-insert_boundary b [] s = s
  Any-insert_boundary b (c ∷ cs) s = elim (Bool-cases (leb b.1 c.1)) [
    | inl le ↦ rw (le, insert_boundary) at s
    | inr gt ↦ elim (rw (gt, insert_boundary) at s) [
      | inl p ↦ inr (inl p)
      | inr r ↦ elim (Any-insert_boundary b cs r) [ inl p ↦ inl p | inr t ↦ inr (inr t) ]
    ]
  ]

  sort_boundaries-All : (bs : Dict ℕ) → All P (sort_boundaries bs) → All P bs
  unfolding sort_boundaries
  sort_boundaries-All [] a = a
  sort_boundaries-All (b ∷ bs) a =
      let (p, r) = insert_boundary-All b (sort_boundaries bs) a in (p, sort_boundaries-All bs r)

  Any-sort_boundaries : (bs : Dict ℕ) → Any P (sort_boundaries bs) → Any P bs
  unfolding sort_boundaries
  Any-sort_boundaries [] s = s
  Any-sort_boundaries (b ∷ bs) s = elim (Any-insert_boundary b (sort_boundaries bs) s) [
    | inl p ↦ inl p
    | inr r ↦ inr (Any-sort_boundaries bs r)
  ]

insert_boundary-IsAscending :
    (b : String × ℕ) (bs : Dict ℕ) → IsAscending bs → IsAscending (insert_boundary b bs)
unfolding insert_boundary
insert_boundary-IsAscending b [] a = (tt, tt)
insert_boundary-IsAscending b (c ∷ cs) a = elim (Bool-cases (leb b.1 c.1)) [
  | inl le ↦ rw le ((leb→le b.1 c.1 le, All-map cs (λ d h. le_trans (leb→le b.1 c.1 le) h) a.0), a)
  | inr gt ↦ rw gt (
    All-insert_boundary (λ d. c.1 ≤ d.1) b cs (ground arith) a.0,
    insert_boundary-IsAscending b cs a.1,
  )
]

sort_boundaries-IsAscending : (bs : Dict ℕ) → IsAscending (sort_boundaries bs)
unfolding sort_boundaries
sort_boundaries-IsAscending [] = tt
sort_boundaries-IsAscending (b ∷ bs) =
    insert_boundary-IsAscending b (sort_boundaries bs) (sort_boundaries-IsAscending bs)

module _ (minutes per_day : ℕ) where
  abbrev pub Started : String × ℕ → Type 0
  Started b = has_started minutes per_day b.1 ≡ true

  -- `b` gives the label, and none that has started begins later.
  abbrev pub IsLatest : String → Dict ℕ → String × ℕ → Type 0
  IsLatest label bs b = (label ≡ b.0) × Started b × All (λ c. Started c → c.1 ≤ b.1) bs

  -- The label is that of a boundary that has started, the last of them in the day; if none has, it
  -- is the default.
  abbrev pub IsLabel : String → String → Dict ℕ → Type 0
  IsLabel default label bs =
      ((label ≡ default) × All (λ c. ¬ (Started c)) bs) ⊎ Any (IsLatest label bs) bs

  resolve_label_cons :
      (default : String) (b : String × ℕ) (bs : Dict ℕ) (on : Bool)
      → has_started minutes per_day b.1 ≡ on
      → resolve_label minutes per_day default (b ∷ bs)
        ≡ resolve_label minutes per_day (if on then b.0 else default) bs
  unfolding resolve_label
  resolve_label_cons default b bs on e = rw e

  -- A later boundary that has started stays the latest behind an earlier one.
  later-IsLatest :
      (label : String) (b : String × ℕ) (bs : Dict ℕ)
      → All (λ c. b.1 ≤ c.1) bs
      → Any (IsLatest label bs) bs
      → Any (IsLatest label (b ∷ bs)) (b ∷ bs)
  later-IsLatest label b bs a later =
      inr (Any-map_All bs a later (λ c le latest. (latest.0, latest.1, (λ s. le, latest.2))))

  resolve_label-IsLabel :
      (default : String) (bs : Dict ℕ)
      → IsAscending bs
      → IsLabel default (resolve_label minutes per_day default bs) bs
  unfolding resolve_label
  resolve_label-IsLabel default [] a = inl (refl, tt)
  resolve_label-IsLabel default (b ∷ bs) a = elim (Bool-cases (has_started minutes per_day b.1)) [
    | inl on ↦
        subst (λ l. IsLabel default l (b ∷ bs)) (sym (resolve_label_cons default b bs true on))
          (elim (resolve_label-IsLabel b.0 bs a.1) [
            | inl alone ↦
                inr (
                  inl (alone.0, on, (λ s. le_refl b.1, All-map bs (λ c n s. absurd (n s)) alone.1)))
            | inr later ↦ inr (later-IsLatest (resolve_label minutes per_day b.0 bs) b bs a.0 later)
          ])
    | inr off ↦
        subst (λ l. IsLabel default l (b ∷ bs)) (sym (resolve_label_cons default b bs false off))
          (elim (resolve_label-IsLabel default bs a.1) [
            | inl alone ↦ inl (alone.0, (λ s. clash s off, alone.1))
            | inr later ↦
                inr (later-IsLatest (resolve_label minutes per_day default bs) b bs a.0 later)
          ])
  ]
    where
      clash : {t : Bool} → t ≡ true → t ≡ false → ⊥
      clash p q = cc

-- Whatever the order of the boundaries, the label of a world time is "midnight" if none of them has
-- started at that minute of the day, and otherwise it names one that has started, such that none
-- that has started begins later.
pub compute_world_time-IsLabel :
    (ticks : ℕ) (config : TimeConfig) (w : WorldTime)
    → compute_world_time ticks config ≡ some w
    → IsLabel
        (total_minutes ticks config % minutes_per_day config)
        (minutes_per_day config)
        "midnight"
        w.time_of_day_label
        (boundaries_of config)
unfolding compute_world_time
compute_world_time-IsLabel ticks config w e =
    subst (λ l. IsLabel minutes per_day "midnight" l bs) (sym told)
      (elim (resolve_label-IsLabel minutes per_day "midnight" (sort_boundaries bs)
        (sort_boundaries-IsAscending bs)) [
          | inl alone ↦
              inl (alone.0, sort_boundaries-All (λ c. ¬ (Started minutes per_day c)) bs alone.1)
          | inr later ↦ inr (
              Any-sort_boundaries (IsLatest minutes per_day label bs) bs (
                Any-map (sort_boundaries bs)
                  (λ c latest. (
                    latest.0,
                    latest.1,
                    sort_boundaries-All (λ d. Started minutes per_day d → d.1 ≤ c.1) bs latest.2,
                  ))
                  later))
        ])
  where
    minutes : ℕ
    minutes = total_minutes ticks config % minutes_per_day config

    per_day : ℕ
    per_day = minutes_per_day config

    bs : Dict ℕ
    bs = boundaries_of config

    label : String
    label = resolve_label minutes per_day "midnight" (sort_boundaries bs)

    told : w.time_of_day_label ≡ label
    told = ground arith
