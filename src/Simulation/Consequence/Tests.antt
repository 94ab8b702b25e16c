-- ===== src/Simulation/Consequence/Tests.antt =====
-- Runs of the propagation of consequences, and the theorems at concrete events.
-- A critical event in a village, which concerns a guild.
use fictional_barnacle.Prelude.{◌≤◌, ◌≡◌, refl, ◌⊎◌, true, false, some, length, All}
use fictional_barnacle.Prelude.Texts.{codes}
use fictional_barnacle.Simulation.Consequence.{
  PropagationSource, critical, fidelity_description, physical_entity_id, propagate_one,
}
use fictional_barnacle.Simulation.Consequence.Records.{IsOf, propagate_one-AllOf}
use fictional_barnacle.Simulation.Consequence.Severity.{fidelity_description-length}

abbrev uprising : PropagationSource
uprising = record {
  source_event_id = "e1";
  source_type = "player_action";
  source_location_id = "village";
  original_severity = critical;
  description = codes "The mill burned down.";
  faction_id = some "millers";
  affected_entity_id = some "mill";
  affected_entity_type = some "location";
}

hops_of_uprising : length (propagate_one uprising "u" 7 3 false).records ≡ 4
unfolding propagate_one
hops_of_uprising = refl

factions_of_uprising : (propagate_one uprising "u" 7 3 false).total_records ≡ 5
unfolding propagate_one
factions_of_uprising = refl

late_uprising : (propagate_one uprising "u" 7 3 true).total_records ≡ 1
unfolding propagate_one
late_uprising = refl

rumor :
    fidelity_description (codes "The mill burned down.") 3
    ≡ codes "There are vague rumors of The mill burned down.…"
unfolding fidelity_description
rumor = refl

physical : physical_entity_id "village" 12 ≡ "physical:village:hop12"
unfolding physical_entity_id
physical = refl

fidelity_description-length_example :
    ((3 ≤ 1) × (fidelity_description (codes "A fire.") 3 ≡ codes "A fire."))
    ⊎ ((2 ≤ 3)
        × (length (fidelity_description (codes "A fire.") 3) ≤ 88)
        × (3 ≤ 3 → length (fidelity_description (codes "A fire.") 3) ≤ 67))
fidelity_description-length_example = fidelity_description-length (codes "A fire.") 3

propagate_one-AllOf_example :
    All (IsOf uprising 3) (propagate_one uprising "u" 7 3 false).records
    × All (IsOf uprising 3) (propagate_one uprising "u" 7 3 false).faction_records
propagate_one-AllOf_example = propagate_one-AllOf uprising "u" 7 3 false
