-- ===== src/World/Template.antt =====
-- The template of tta/models/world.py. The `Literal` types of the source are texts.
use fictional_barnacle.Prelude.{ℕ, String, Bool, Option, List}
use fictional_barnacle.Prelude.Int.{ℤ}

-- `TemplateMetadata`
pub record TemplateMetadata : Type 0 where
  pub template_key : String
  pub display_name : String
  pub tags : List String
  pub compatible_tones : List String
  pub compatible_tech_levels : List String
  pub compatible_magic : List String
  pub compatible_scales : List String
  pub location_count : ℕ
  pub npc_count : ℕ

-- `TemplateRegion`
pub record TemplateRegion : Type 0 where
  pub key : String
  pub archetype : String

-- `TemplateLocation`
pub record TemplateLocation : Type 0 where
  pub key : String
  pub region_key : String
  pub location_type : String
  pub archetype : String
  pub is_starting_location : Bool
  pub light_level : String
  pub tags : List String

-- `TemplateConnection`
pub record TemplateConnection : Type 0 where
  pub from_key : String
  pub to_key : String
  pub direction : String
  pub bidirectional : Bool
  pub is_locked : Bool
  pub is_hidden : Bool

-- `TemplateNPC`
pub record TemplateNpc : Type 0 where
  pub key : String
  pub location_key : String
  pub role : String
  pub archetype : String
  pub disposition : String
  pub tier : String
  pub traits : List String
  pub goals_hint : Option String
  pub backstory_hint : Option String

-- `TemplateItem`
pub record TemplateItem : Type 0 where
  pub key : String
  pub location_key : Option String
  pub npc_key : Option String
  pub item_type : String
  pub archetype : String
  pub portable : Bool
  pub hidden : Bool

-- `TemplateKnowledge`
pub record TemplateKnowledge : Type 0 where
  pub npc_key : String
  pub about_key : String
  pub knowledge_type : String
  pub is_secret : Bool

-- `TemplateRelationship`
pub record TemplateRelationship : Type 0 where
  pub source_npc_key : String
  pub target_npc_key : String
  pub trust : ℤ
  pub affinity : ℤ
  pub respect : ℤ
  pub fear : ℤ
  pub familiarity : ℤ

-- `WorldTemplate`
pub record WorldTemplate : Type 0 where
  pub metadata : TemplateMetadata
  pub regions : List TemplateRegion
  pub locations : List TemplateLocation
  pub connections : List TemplateConnection
  pub npcs : List TemplateNpc
  pub items : List TemplateItem
  pub knowledge : List TemplateKnowledge
  pub relationships : List TemplateRelationship
