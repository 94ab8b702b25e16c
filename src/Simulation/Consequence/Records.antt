-- ===== src/Simulation/Consequence/Records.antt =====
-- What every record of an event shows.
use fictional_barnacle.Prelude.{
  ℕ, zero, suc, ◌+◌, ◌≤◌, String, ◌≡◌, refl, inl, inr, Bool, not, ◌&&◌, Option, none, some, arith,
  str_eq, ◌==◌, Bool-cases, if◌then◌else◌, All-snoc, All,
}
use fictional_barnacle.Prelude.Texts.{member}
use fictional_barnacle.Simulation.Consequence.{
  ConsequenceRecord, EventSeverity, Progress, PropagationSource, add_faction, add_physical,
  critical, faction_entity_id, faction_step, fidelity_description, finish, major, make_record,
  minor, notable, nothing, physical_entity_id, progress_of, propagate_one, start_at, walk,
}
use fictional_barnacle.Simulation.Consequence.Severity.{decay_severity-rank, rank}

-- The record is of this event, and its severity and words are what its hops leave of the event's.
pub record IsOf (source : PropagationSource) (max_depth : ℕ) (r : ConsequenceRecord) : Type 0 where
  pub same_event : r.source_event_id ≡ source.source_event_id
  pub same_original : r.original_severity ≡ source.original_severity
  pub decayed : rank r.propagated_severity + r.hop_distance ≡ rank source.original_severity
  pub within_depth : r.hop_distance ≤ max_depth
  pub words : r.description ≡ fidelity_description source.description r.hop_distance

abbrev pub AllOf : PropagationSource → ℕ → Progress → Type 0
AllOf source max_depth p =
    All (IsOf source max_depth) p.records × All (IsOf source max_depth) p.faction_records

module _ (source : PropagationSource) (universe_id : String) (tick max_depth : ℕ) where
  made_IsOf :
      (entity kind : String) (drawn hop : ℕ) (decayed : EventSeverity)
      → rank decayed + hop ≡ rank source.original_severity
      → hop ≤ max_depth
      → IsOf source max_depth (
          make_record source universe_id tick drawn entity kind hop decayed
            (fidelity_description source.description hop))
  unfolding make_record
  made_IsOf entity kind drawn hop decayed d le = record {
    same_event = refl;
    same_original = refl;
    decayed = d;
    within_depth = le;
    words = refl;
  }

  add_physical-AllOf :
      (hop : ℕ) (decayed : EventSeverity) (p : Progress)
      → rank decayed + hop ≡ rank source.original_severity
      → hop ≤ max_depth
      → AllOf source max_depth p
      → AllOf source max_depth (add_physical source universe_id tick hop decayed p)
  unfolding add_physical make_record
  add_physical-AllOf hop decayed p d le a =
      elim (Bool-cases
        (member (physical_entity_id source.source_location_id hop) p.seen_entity_ids)) [
          | inl seen ↦ rw seen a
          | inr new ↦ rw new (
            All-snoc (IsOf source max_depth) p.records _ a.0 (made_IsOf _ _ _ hop decayed d le),
            a.1,
          )
        ]

  add_faction-AllOf :
      (faction : String) (decayed : EventSeverity) (p : Progress)
      → rank decayed + 1 ≡ rank source.original_severity
      → 1 ≤ max_depth
      → AllOf source max_depth p
      → AllOf source max_depth (add_faction source universe_id tick faction decayed p)
  unfolding add_faction make_record
  add_faction-AllOf faction decayed p d le a =
      elim (Bool-cases (member (faction_entity_id faction) p.seen_entity_ids)) [
        | inl seen ↦ rw seen a
        | inr new ↦ rw new (
          a.0,
          All-snoc (IsOf source max_depth) p.faction_records _ a.1 (made_IsOf _ _ _ 1 decayed d le),
        )
      ]

  faction_case :
      (hop : ℕ) (decayed : EventSeverity) (p : Progress) (given : Option String)
      → rank decayed + hop ≡ rank source.original_severity
      → hop ≤ max_depth
      → AllOf source max_depth p
      → AllOf source max_depth (elim given [
        | none ↦ p
        | some faction ↦
            if hop == 1 && not (str_eq faction "")
            then add_faction source universe_id tick faction decayed p
            else p
      ])
  faction_case hop decayed p none d le a = a
  faction_case hop decayed p (some faction) d le a =
      elim (Bool-cases (hop == 1 && not (str_eq faction ""))) [
        | inl at_one ↦
            rw at_one (add_faction-AllOf faction decayed p (ground arith) (ground arith) a)
        | inr elsewhere ↦ rw elsewhere a
      ]

  faction_step-AllOf :
      (hop : ℕ) (decayed : EventSeverity) (p : Progress)
      → rank decayed + hop ≡ rank source.original_severity
      → hop ≤ max_depth
      → AllOf source max_depth p
      → AllOf source max_depth (faction_step source universe_id tick hop decayed p)
  unfolding faction_step
  faction_step-AllOf hop decayed p d le a = faction_case hop decayed p source.faction_id d le a

  walk-AllOf :
      (rounds hop : ℕ) (p : Progress)
      → rounds + hop ≡ suc max_depth
      → AllOf source max_depth p
      → AllOf source max_depth (walk source universe_id tick rounds hop p)
  unfolding walk
  walk-AllOf zero hop p e a = a
  walk-AllOf (suc rounds) hop p e a = elim (decay_severity-rank source.original_severity hop) [
    | inl (s, left, d) ↦
        rw (walk, left)
          (walk-AllOf rounds (suc hop) _ (omega arith) (
            faction_step-AllOf hop s _ d (omega arith)
              (add_physical-AllOf hop s (record p { max_hop_reached = hop }) d (omega arith) a)))
    | inr (gone, _) ↦ rw (walk, gone) a
  ]

  start_at-AllOf :
      (entity : String) → AllOf source max_depth (start_at source universe_id tick entity)
  unfolding start_at make_record fidelity_description
  start_at-AllOf entity = (
    (
      record {
        same_event = refl;
        same_original = refl;
        decayed = omega arith;
        within_depth = omega arith;
        words = refl;
      },
      tt,
    ),
    tt,
  )

  progress_case :
      (budget_exceeded : Bool) (affected : Option String)
      → AllOf source max_depth (elim affected [
        | none ↦ nothing source universe_id tick
        | some entity ↦
            if str_eq entity ""
            then nothing source universe_id tick
            else if budget_exceeded
            then start_at source universe_id tick entity
            else walk source universe_id tick max_depth 1 (start_at source universe_id tick entity)
      ])
  progress_case budget_exceeded none = (tt, tt)
  progress_case budget_exceeded (some entity) = elim (Bool-cases (str_eq entity "")) [
    | inl blank ↦ rw blank (tt, tt)
    | inr given ↦ elim (Bool-cases budget_exceeded) [
      | inl late ↦ rw (given, late) (start_at-AllOf entity)
      | inr timely ↦
          rw (given, timely) (walk-AllOf max_depth 1 _ (omega arith) (start_at-AllOf entity))
    ]
  ]

  finish_case :
      (severity : EventSeverity) (budget_exceeded : Bool) (p : Progress)
      → AllOf source max_depth p
      → All
          (IsOf source max_depth)
          (finish source universe_id tick severity budget_exceeded p).records
        × All
            (IsOf source max_depth)
            (finish source universe_id tick severity budget_exceeded p).faction_records
  unfolding finish
  finish_case minor budget_exceeded p a = (tt, tt)
  finish_case notable budget_exceeded p a = a
  finish_case major budget_exceeded p a = a
  finish_case critical budget_exceeded p a = a

  -- Every record of an event is of that event, lies within the depth, carries the event's severity
  -- less one rank for each hop, and tells the event in the words for its hops.
  pub propagate_one-AllOf :
      (budget_exceeded : Bool)
      → All
          (IsOf source max_depth)
          (propagate_one source universe_id tick max_depth budget_exceeded).records
        × All
            (IsOf source max_depth)
            (propagate_one source universe_id tick max_depth budget_exceeded).faction_records
  unfolding propagate_one progress_of
  propagate_one-AllOf budget_exceeded =
      finish_case source.original_severity budget_exceeded _
        (progress_case budget_exceeded source.affected_entity_id)
