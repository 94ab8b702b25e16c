-- ===== src/World/Validator/Tests.antt =====
-- A template of three rooms.
use fictional_barnacle.Prelude.{String, ◌≡◌, refl, Bool, true, false, none, some, List, [], ◌∷◌}
use fictional_barnacle.Prelude.Dict.{insert, lookup}
use fictional_barnacle.Prelude.Int.{pos}
use fictional_barnacle.Prelude.Texts.{add_pair}
use fictional_barnacle.World.Template.{
  TemplateConnection, TemplateItem, TemplateLocation, TemplateMetadata, WorldTemplate,
}
use fictional_barnacle.World.Validator.{
  SetOrder, reverse_direction, rule_at_least_one_location, rule_connected_graph,
  rule_connection_refs, rule_item_placement, rule_location_refs, rule_no_direction_conflicts,
  rule_npc_knowledge_refs, rule_one_starting_location, rule_region_refs, rule_unique_keys,
  validate_template,
}

abbrev by_arrival : SetOrder
by_arrival = record { arrange = λ xs. xs; same_members = λ x xs. refl; same_size = λ xs. refl }

abbrev room : String → Bool → TemplateLocation
room key start = record {
  key = key;
  region_key = "keep";
  location_type = "interior";
  archetype = "room";
  is_starting_location = start;
  light_level = "lit";
  tags = [];
}

abbrev passage : String → String → String → Bool → TemplateConnection
passage from to direction both = record {
  from_key = from;
  to_key = to;
  direction = direction;
  bidirectional = both;
  is_locked = false;
  is_hidden = false;
}

abbrev lamp : TemplateItem
lamp = record {
  key = "lamp";
  location_key = some "hall";
  npc_key = none;
  item_type = "tool";
  archetype = "lamp";
  portable = true;
  hidden = false;
}

abbrev metadata : TemplateMetadata
metadata = record {
  template_key = "keep";
  display_name = "Keep";
  tags = [];
  compatible_tones = [];
  compatible_tech_levels = [];
  compatible_magic = [];
  compatible_scales = [];
  location_count = 3;
  npc_count = 0;
}

abbrev keep : List TemplateConnection → WorldTemplate
keep connections = record {
  metadata = metadata;
  regions = record { key = "keep"; archetype = "castle" } ∷ [];
  locations = room "hall" true ∷ room "tower" false ∷ room "cellar" false ∷ [];
  connections = connections;
  npcs = [];
  items = lamp ∷ [];
  knowledge = [];
  relationships = [];
}

abbrev sound_keep : WorldTemplate
sound_keep = keep (passage "hall" "tower" "up" true ∷ passage "tower" "cellar" "west" false ∷ [])

-- Nobody in the keep is an NPC, and yet a relationship between two of them is accepted.
abbrev strangers : WorldTemplate
strangers = record sound_keep {
  relationships =
      record {
        source_npc_key = "warden";
        target_npc_key = "smith";
        trust = pos 0;
        affinity = pos 0;
        respect = pos 0;
        fear = pos 0;
        familiarity = pos 0;
      }
      ∷ [];
}

validate-strangers : validate_template by_arrival strangers ≡ none
unfolding validate_template rule_unique_keys rule_at_least_one_location rule_region_refs
    rule_location_refs rule_npc_knowledge_refs rule_one_starting_location rule_connection_refs
    reverse_direction rule_no_direction_conflicts rule_item_placement rule_connected_graph lookup
    insert add_pair
validate-strangers = refl
