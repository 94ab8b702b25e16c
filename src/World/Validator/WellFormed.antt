-- ===== src/World/Validator/WellFormed.antt =====
-- What a template has to be, stated without the rules' loops.
use fictional_barnacle.Prelude.{
  String, ◌≡◌, ◌≢◌, Bool, false, ◌&&◌, ◌||◌, Option, none, some, List, [], ◌∷◌, map, str_eq,
  if◌then◌else◌, length, All,
}
use fictional_barnacle.Prelude.Texts.{AreDistinct, IsDistinct, Pair, ◌∈◌}
use fictional_barnacle.World.Template.{TemplateConnection, WorldTemplate}
use fictional_barnacle.World.Validator.{
  all_keys, entries, loc_keys, npc_keys, region_keys, reverse_direction, starts,
}
use fictional_barnacle.World.Validator.Graph.{Reach}

-- A reference that may be left out.
abbrev pub RefersTo : Option String → List String → Type 0
RefersTo none keys = Unit
RefersTo (some key) keys = key ∈ keys

-- Exactly one of the two is given.
abbrev pub IsPlaced : Option String → Option String → Type 0
IsPlaced (some l) none = Unit
IsPlaced none (some n) = Unit
IsPlaced none none = ⊥
IsPlaced (some l) (some n) = ⊥

-- The exits that the connections make, each with its location.
abbrev pub exits_of : List TemplateConnection → List Pair
exits_of [] = []
exits_of (c ∷ cs) =
    (c.from_key, c.direction)
    ∷ (if c.bidirectional
        then (c.to_key, reverse_direction c.direction) ∷ exits_of cs
        else exits_of cs)

-- One can walk from `u` to `v` along a connection.
abbrev pub links : List TemplateConnection → String → String → Bool
links [] u v = false
links (c ∷ cs) u v =
    (str_eq c.from_key u && str_eq c.to_key v)
    || (c.bidirectional && (str_eq c.to_key u && str_eq c.from_key v))
    || links cs u v

pub record IsWellFormed (t : WorldTemplate) : Type 0 where
  pub unique_keys : IsDistinct (map (λ e. e.0) (entries t))
  pub some_location : t.locations ≢ []
  pub region_refs : All (λ l. l.region_key ∈ region_keys t) t.locations
  pub npc_refs : All (λ n. n.location_key ∈ loc_keys t) t.npcs
  pub item_refs :
      All (λ i. RefersTo i.location_key (loc_keys t) × RefersTo i.npc_key (npc_keys t)) t.items
  pub knowledge_refs : All (λ k. (k.npc_key ∈ npc_keys t) × (k.about_key ∈ all_keys t)) t.knowledge
  pub one_start : length (starts t) ≡ 1
  pub connection_refs : All (λ c. (c.from_key ∈ loc_keys t) × (c.to_key ∈ loc_keys t)) t.connections
  pub distinct_exits : AreDistinct (exits_of t.connections)
  pub placed_items : All (λ i. IsPlaced i.location_key i.npc_key) t.items
  pub connected :
      (start : String)
      → start ∈ starts t
      → All (λ l. Reach (links t.connections) start l.key) t.locations
