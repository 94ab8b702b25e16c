-- ===== src/Simulation/WorldMemory/Compress/Frees.antt =====
-- What a compression takes away from the session's memories, and that it loses none.
use mathlib.Core.List.{map-append}
use fictional_barnacle.Prelude.{
  ℕ, ◌+◌, ◌≤◌, ◌<◌, String, ◌≡◌, refl, ap, ◌∙◌, ◌⊎◌, inl, inr, Bool, true, false, not, ◌&&◌, ◌||◌,
  List, [], ◌∷◌, ◌++◌, map, arith, if◌then◌else◌, ◌==◌, ltb, Bool-cases, leb, sum_by, filter,
  length, All,
}
use fictional_barnacle.Prelude.Keyed.{
  HaveDistinctKeys, all_one_of, count_key, is_one_of, none_one_of, sum_by-split,
}
use fictional_barnacle.Simulation.WorldMemory.{
  MemoryRecord, MemoryWriter, current_importance, is_active, is_of, tokens_of,
}
use fictional_barnacle.Simulation.WorldMemory.Compress.{
  CompressionConfig, CompressionResult, active_of, archive_if, compress, compress_if_needed,
  compressed_record, greatest, insert_by_turn, skip, sort_by_turn, summary_of, to_compress,
  uncompressed,
}

abbrev pub id_of : MemoryRecord → ℕ
id_of r = r.memory_id

filter-filter_and :
    (p q : MemoryRecord → Bool) (rs : List MemoryRecord)
    → filter q (filter p rs) ≡ filter (λ r. p r && q r) rs
filter-filter_and p q [] = refl
filter-filter_and p q (r ∷ rs) = ground (arith, filter-filter_and p q rs)

-- Sorting by turn keeps sums, and which identifiers there are.
sum_by-insert_by_turn :
    (f : MemoryRecord → ℕ) (r : MemoryRecord) (ss : List MemoryRecord)
    → sum_by f (insert_by_turn r ss) ≡ f r + sum_by f ss
unfolding insert_by_turn
sum_by-insert_by_turn f r [] = refl
sum_by-insert_by_turn f r (s ∷ ss) = ground (arith, sum_by-insert_by_turn f r ss)

sum_by-sort_by_turn :
    (f : MemoryRecord → ℕ) (rs : List MemoryRecord) → sum_by f (sort_by_turn rs) ≡ sum_by f rs
unfolding sort_by_turn
sum_by-sort_by_turn f [] = refl
sum_by-sort_by_turn f (r ∷ rs) =
    omega (arith, sum_by-insert_by_turn f r (sort_by_turn rs), sum_by-sort_by_turn f rs)

is_one_of-insert_by_turn :
    (r : MemoryRecord) (ss : List MemoryRecord) (t : MemoryRecord)
    → is_one_of id_of (insert_by_turn r ss) t ≡ is_one_of id_of (r ∷ ss) t
unfolding insert_by_turn
is_one_of-insert_by_turn r [] t = refl
is_one_of-insert_by_turn r (s ∷ ss) t = ground (arith, is_one_of-insert_by_turn r ss t)

is_one_of-sort_by_turn :
    (rs : List MemoryRecord) (t : MemoryRecord)
    → is_one_of id_of (sort_by_turn rs) t ≡ is_one_of id_of rs t
unfolding sort_by_turn
is_one_of-sort_by_turn [] t = refl
is_one_of-sort_by_turn (r ∷ rs) t =
    is_one_of-insert_by_turn r (sort_by_turn rs) t
    ∙ ap (λ b. (r.memory_id == t.memory_id) || b) (is_one_of-sort_by_turn rs t)

-- What a method picks of a list, it picks by a test.
abbrev IsPicked : List MemoryRecord → List MemoryRecord → Type 0
IsPicked picked rs = (test : MemoryRecord → Bool) × (picked ≡ filter test rs)

active_of-IsPicked : (size : ℕ) (rs : List MemoryRecord) → IsPicked (active_of size rs) rs
unfolding active_of
active_of-IsPicked size rs = by_tier (filter (λ r. is_active r.tier) rs) refl
  where
    by_tier :
        (found : List MemoryRecord)
        → filter (λ r. is_active r.tier) rs ≡ found
        → IsPicked (active_of size rs) rs
    by_tier [] e = (
      (λ r. ltb (r.turn_number + size) (greatest (λ r. r.turn_number) rs + 1)),
      rw (active_of, e) refl,
    )
    by_tier (r ∷ found) e = ((λ r. is_active r.tier), rw (active_of, e) refl)

-- The sums over what is left once the picked records are archived.
module _ (g : MemoryRecord → ℕ) where
  sum_picked :
      (picked : List MemoryRecord) (rs : List MemoryRecord)
      → All (λ r. is_one_of id_of picked r ≡ true) rs
      → sum_by (λ r. if is_one_of id_of picked r then 0 else g r) rs ≡ 0
  sum_picked picked [] a = refl
  sum_picked picked (r ∷ rs) a = ground (arith, a.0, sum_picked picked rs a.1)

  sum_left :
      (picked : List MemoryRecord) (rs : List MemoryRecord)
      → All (λ r. is_one_of id_of picked r ≡ false) rs
      → sum_by (λ r. if is_one_of id_of picked r then 0 else g r) rs ≡ sum_by g rs
  sum_left picked [] a = refl
  sum_left picked (r ∷ rs) a = ground (arith, a.0, sum_left picked rs a.1)

  sum_freed :
      (test : MemoryRecord → Bool) (rs : List MemoryRecord)
      → HaveDistinctKeys id_of rs
      → sum_by (λ r. if is_one_of id_of (filter test rs) r then 0 else g r) rs
          + sum_by g (filter test rs)
        ≡ sum_by g rs
  sum_freed test rs d =
      let picked = filter test rs in
      let rest = filter (λ r. not (test r)) rs in
      omega (
        arith,
        sum_by-split g test rs,
        sum_by-split (λ r. if is_one_of id_of picked r then 0 else g r) test rs,
        sum_picked picked picked (all_one_of id_of picked),
        sum_left picked rest (
            none_one_of id_of picked rest
              (λ k. omega (arith, d k, sum_by-split (λ r. if id_of r == k then 1 else 0) test rs))),
      )

-- The weight, by their contents, of some records.
abbrev pub weight : (String → ℕ) → List MemoryRecord → ℕ
weight weigh = sum_by (λ r. weigh r.content)

-- What a compression of some records does to a session.
pub record HasCompressed (w w' : MemoryWriter) (universe_id session_id : String)
    (result : CompressionResult) (chosen : List MemoryRecord) : Type 0 where
  pub some_chosen : 0 < length chosen
  pub counted : result.compressed_count ≡ length chosen
  pub contents :
      map (λ r. r.content) w'.records
      ≡ map (λ r. r.content) w.records ++ summary_of (length chosen) ∷ []
  pub frees :
      (weigh : String → ℕ)
      → weight weigh (uncompressed w' universe_id session_id) + weight weigh chosen
        ≡ weight weigh (uncompressed w universe_id session_id)

module _ (universe_id session_id : String) where
  abbrev is_plain : MemoryRecord → Bool
  is_plain r = is_of universe_id session_id r && not r.is_compressed

  contents_archived :
      (chosen rs : List MemoryRecord)
      → map (λ r. r.content) (map (archive_if chosen) rs) ≡ map (λ r. r.content) rs
  contents_archived chosen [] = refl
  contents_archived chosen (r ∷ rs) = elim (Bool-cases (is_one_of id_of chosen r)) [
    | inl one ↦ rw one (ap (λ cs. r.content ∷ cs) (contents_archived chosen rs))
    | inr other ↦ rw other (ap (λ cs. r.content ∷ cs) (contents_archived chosen rs))
  ]

  -- The uncompressed records after the originals are archived.
  weight_archived :
      (weigh : String → ℕ) (chosen rs : List MemoryRecord)
      → weight weigh (filter is_plain (map (archive_if chosen) rs))
        ≡ sum_by (λ r. if is_one_of id_of chosen r then 0 else weigh r.content) (filter is_plain rs)
  weight_archived weigh chosen [] = refl
  weight_archived weigh chosen (r ∷ rs) = elim (Bool-cases (is_one_of id_of chosen r)) [
    | inl one ↦ ground (arith, one, weight_archived weigh chosen rs)
    | inr other ↦ ground (arith, other, weight_archived weigh chosen rs)
  ]

  count_key-filter :
      (k : ℕ) (rs : List MemoryRecord)
      → count_key id_of k (filter is_plain rs) ≤ count_key id_of k rs
  count_key-filter k [] = omega arith
  count_key-filter k (r ∷ rs) = ground (arith, count_key-filter k rs)

  same_one_of :
      (weigh : String → ℕ) (picked rs : List MemoryRecord)
      → sum_by (λ r. if is_one_of id_of (sort_by_turn picked) r then 0 else weigh r.content) rs
        ≡ sum_by (λ r. if is_one_of id_of picked r then 0 else weigh r.content) rs
  same_one_of weigh picked [] = refl
  same_one_of weigh picked (r ∷ rs) =
      ground (arith, is_one_of-sort_by_turn picked r, same_one_of weigh picked rs)

  weight-snoc :
      (weigh : String → ℕ) (rs : List MemoryRecord) (r : MemoryRecord)
      → r.is_compressed ≡ true
      → weight weigh (filter is_plain (rs ++ r ∷ [])) ≡ weight weigh (filter is_plain rs)
  weight-snoc weigh [] r h = ground (arith, h)
  weight-snoc weigh (s ∷ rs) r h = ground (arith, weight-snoc weigh rs r h)

  compress-HasCompressed :
      (w : MemoryWriter) (test : MemoryRecord → Bool) (chosen : List MemoryRecord)
      → HaveDistinctKeys id_of w.records
      → chosen ≡ sort_by_turn (filter test (uncompressed w universe_id session_id))
      → let (result, w') = compress w universe_id session_id chosen in
        ((result ≡ skip) × (w' ≡ w)) ⊎ HasCompressed w w' universe_id session_id result chosen
  unfolding compress compressed_record
  compress-HasCompressed w test [] d e = inl (refl, refl)
  compress-HasCompressed w test (r ∷ rs) d e =
      let chosen = r ∷ rs in
      let plain = uncompressed w universe_id session_id in
      let picked = filter test plain in
      let new_rec = compressed_record w.drawn universe_id session_id r rs in
      let archived = map (archive_if chosen) w.records in
      inr (record {
        some_chosen = omega arith;
        counted = refl;
        contents =
            map-append (λ (r : MemoryRecord). r.content) archived (new_rec ∷ [])
            ∙ ap (λ cs. cs ++ summary_of (length chosen) ∷ []) (contents_archived chosen w.records);
        frees = λ weigh.
            let freed =
              sum_freed (λ r. weigh r.content) test plain
                (λ k. omega (arith, d k, count_key-filter k w.records)) in
            let chosen_sum : weight weigh chosen ≡ weight weigh picked =
              ap (weight weigh) e ∙ sum_by-sort_by_turn (λ r. weigh r.content) picked in
            let left_sum : sum_by (λ r. if is_one_of id_of chosen r then 0 else weigh r.content)
                  plain
                ≡ sum_by (λ r. if is_one_of id_of picked r then 0 else weigh r.content) plain =
              ap (λ cs. sum_by (λ r. if is_one_of id_of cs r then 0 else weigh r.content) plain) e
              ∙ same_one_of weigh picked plain in
            omega (
              arith,
              weight-snoc weigh archived new_rec refl,
              weight_archived weigh chosen w.records,
              chosen_sum,
              left_sum,
              freed,
            );
      })

-- If the records have different identifiers, a compression either is skipped and changes nothing,
-- or chooses at least one uncompressed record: then the memories keep their contents and their
-- order, one record that tells how many were compressed is added at the end, and whatever one
-- counts or weighs by content, the uncompressed records of the session lose just what was chosen.
pub compress_if_needed-HasCompressed :
    (cfg : CompressionConfig) (w : MemoryWriter) (universe_id session_id : String)
    → HaveDistinctKeys id_of w.records
    → let (result, w') = compress_if_needed cfg w universe_id session_id in
      ((result ≡ skip) × (w' ≡ w))
      ⊎ ((chosen : List MemoryRecord) × HasCompressed w w' universe_id session_id result chosen)
unfolding compress_if_needed to_compress
compress_if_needed-HasCompressed cfg w universe_id session_id d =
    let plain = uncompressed w universe_id session_id in
    let active = active_of cfg.working_memory_size plain in
    let (by_tier, found) = active_of-IsPicked cfg.working_memory_size plain in
    let fades : MemoryRecord → Bool = λ r.
      ltb
        (current_importance cfg.fade (greatest (λ s. s.world_time_tick) active)
          cfg.memory_half_life_ticks r)
        cfg.compression_importance_threshold in
    let picked : to_compress cfg active ≡ sort_by_turn (filter (λ r. by_tier r && fades r) plain) =
      ap (λ rs. sort_by_turn (filter fades rs)) found
      ∙ ap sort_by_turn (filter-filter_and by_tier fades plain) in
    elim (Bool-cases (leb (tokens_of active) cfg.compression_threshold_tokens)) [
      | inl fits ↦ rw fits (inl (refl, refl))
      | inr over ↦
          rw over
            (elim (compress-HasCompressed universe_id session_id w (λ r. by_tier r && fades r)
              (to_compress cfg active) d picked) [
                | inl same ↦ inl same
                | inr done ↦ inr (to_compress cfg active, done)
              ])
    ]
