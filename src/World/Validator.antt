-- ===== src/World/Validator.antt =====
-- tta/world/template_validator.py: a rule returns the exception that it raises, if any, with the
-- values that its message shows. The order in which Python goes through a set is a parameter.
pub mod Graph
pub mod Rules
pub mod WellFormed
pub mod Connected
pub mod Sound
mod Tests
use fictional_barnacle.Prelude.{
  ℕ, zero, suc, String, ◌≡◌, Bool, true, false, not, ◌&&◌, Option, none, some, List, [], ◌∷◌, ◌++◌,
  map, str_eq, text_append, ◌==◌, if◌then◌else◌, length, filter,
}
use fictional_barnacle.Prelude.Dict.{Dict, insert, lookup}
use fictional_barnacle.Prelude.Texts.{Pair, add_pair, member, member_pair}
use fictional_barnacle.World.Template.{TemplateConnection, TemplateLocation, WorldTemplate}

-- The four kinds of entity that have a key.
pub data Kind : Type 0 where
  region location npc item : Kind

-- The exception hierarchy.
pub data TemplateValidationError : Type 0 where
  duplicate_key : String → Kind → Kind → TemplateValidationError
  dangling_reference : String → TemplateValidationError
  no_starting_location : List String → TemplateValidationError
  direction_conflict : String → String → TemplateValidationError
  item_placement : String → TemplateValidationError
  empty_template : TemplateValidationError
  disconnected_graph : String → List String → TemplateValidationError

abbrev pub Check : Type 0
Check = Option TemplateValidationError

-- A rule that goes on only where the one before raised nothing.
infixr 6 ◌then_check◌
abbrev pub ◌then_check◌ : Check → Check → Check
none then_check next = next
some e then_check next = some e

-- `for x in xs: …`, where the body may raise.
abbrev pub for_each {ℓ} : {A : Type ℓ} → (A → Check) → List A → Check
for_each body [] = none
for_each body (x ∷ xs) = let rest = for_each body xs in body x then_check rest

-- `if key not in keys: raise DanglingReferenceError`
abbrev pub require_key : String → List String → Check
require_key key keys = if member key keys then none else some (dangling_reference key)

abbrev pub region_keys : WorldTemplate → List String
region_keys t = map (λ r. r.key) t.regions

abbrev pub loc_keys : WorldTemplate → List String
loc_keys t = map (λ l. l.key) t.locations

abbrev pub npc_keys : WorldTemplate → List String
npc_keys t = map (λ n. n.key) t.npcs

abbrev pub item_keys : WorldTemplate → List String
item_keys t = map (λ i. i.key) t.items

abbrev pub all_keys : WorldTemplate → List String
all_keys t = region_keys t ++ loc_keys t ++ npc_keys t ++ item_keys t

-- The list `entries` of rule 1.
abbrev pub entries : WorldTemplate → List (String × Kind)
entries t =
    map (λ r. (r.key, region)) t.regions
    ++ map (λ l. (l.key, location)) t.locations
    ++ map (λ n. (n.key, npc)) t.npcs
    ++ map (λ i. (i.key, item)) t.items

pub check_entries : Dict Kind → List (String × Kind) → Check
check_entries seen [] = none
check_entries seen ((key, kind) ∷ es) =
    let rest = check_entries (insert key kind seen) es in
    elim (lookup key seen) [ some first ↦ some (duplicate_key key first kind) | none ↦ rest ]

-- Rule 1.
pub rule_unique_keys : WorldTemplate → Check
unfolding check_entries
rule_unique_keys t = check_entries [] (entries t)

-- Rule 2.
pub rule_region_refs : WorldTemplate → Check
rule_region_refs t = for_each (λ loc. require_key loc.region_key (region_keys t)) t.locations

abbrev pub require_optional : Option String → List String → Check
require_optional none keys = none
require_optional (some key) keys = require_key key keys

-- Rule 3.
pub rule_location_refs : WorldTemplate → Check
rule_location_refs t =
    for_each (λ n. require_key n.location_key (loc_keys t)) t.npcs
    then_check for_each
        (λ i.
          require_optional i.location_key (loc_keys t)
          then_check require_optional i.npc_key (npc_keys t))
        t.items

-- Rule 4.
pub rule_npc_knowledge_refs : WorldTemplate → Check
rule_npc_knowledge_refs t =
    for_each
      (λ k. require_key k.npc_key (npc_keys t) then_check require_key k.about_key (all_keys t))
      t.knowledge

-- The list `starts` of rule 5.
abbrev pub starts : WorldTemplate → List String
starts t = map (λ l. l.key) (filter (λ l. l.is_starting_location) t.locations)

-- Rule 5.
pub rule_one_starting_location : WorldTemplate → Check
rule_one_starting_location t =
    if length (starts t) == 1 then none else some (no_starting_location (starts t))

-- Rule 6.
pub rule_connection_refs : WorldTemplate → Check
rule_connection_refs t =
    for_each (λ c. require_key c.from_key (loc_keys t) then_check require_key c.to_key (loc_keys t))
      t.connections

-- `_REVERSE_MAP`
abbrev pub reverse_map : Dict String
reverse_map =
    ("north", "south")
    ∷ ("south", "north")
    ∷ ("east", "west")
    ∷ ("west", "east")
    ∷ ("northeast", "southwest")
    ∷ ("southwest", "northeast")
    ∷ ("northwest", "southeast")
    ∷ ("southeast", "northwest")
    ∷ ("up", "down")
    ∷ ("down", "up")
    ∷ ("in", "out")
    ∷ ("out", "in")
    ∷ ("n", "s")
    ∷ ("s", "n")
    ∷ ("e", "w")
    ∷ ("w", "e")
    ∷ ("ne", "sw")
    ∷ ("sw", "ne")
    ∷ ("nw", "se")
    ∷ ("se", "nw")
    ∷ []

-- `_reverse_direction`
pub reverse_direction : String → String
reverse_direction direction = elim (lookup direction reverse_map) [
  | some opposite ↦ opposite
  | none ↦ text_append "reverse_" direction
]

-- `exits[key]` holds `direction` just if the pair is in the set.
pub check_exits : List Pair → List TemplateConnection → Check
check_exits exits [] = none
check_exits exits (c ∷ cs) =
    let there : Pair = (c.from_key, c.direction) in
    let back : Pair = (c.to_key, reverse_direction c.direction) in
    let one_way = check_exits (there ∷ exits) cs in
    let both_ways = check_exits (back ∷ there ∷ exits) cs in
    if member_pair there exits
    then some (direction_conflict c.from_key c.direction)
    else if not c.bidirectional
    then one_way
    else if member_pair back (there ∷ exits)
    then some (direction_conflict c.to_key (reverse_direction c.direction))
    else both_ways

-- Rule 7.
pub rule_no_direction_conflicts : WorldTemplate → Check
unfolding check_exits
rule_no_direction_conflicts t = check_exits [] t.connections

abbrev pub is_present : Option String → Bool
is_present none = false
is_present (some key) = true

-- `a == b` on truth values.
abbrev pub same_truth : Bool → Bool → Bool
same_truth true b = b
same_truth false b = not b

-- Rule 8.
pub rule_item_placement : WorldTemplate → Check
rule_item_placement t =
    for_each
      (λ i.
        if same_truth (is_present i.location_key) (is_present i.npc_key)
        then some (item_placement i.key)
        else none)
      t.items

-- Rule 9.
pub rule_at_least_one_location : WorldTemplate → Check
rule_at_least_one_location t = elim t.locations [ [] ↦ some empty_template | l ∷ ls ↦ none ]

-- `adj`, as the set of its pairs.
pub adjacency : List Pair → List TemplateConnection → List Pair
adjacency adj [] = adj
adjacency adj (c ∷ cs) =
    let there = add_pair (c.from_key, c.to_key) adj in
    adjacency (if c.bidirectional then add_pair (c.to_key, c.from_key) there else there) cs

-- `adj[node] - visited`
pub new_neighbours : List Pair → String → List String → List String
new_neighbours [] node visited = []
new_neighbours ((u, v) ∷ adj) node visited =
    let rest = new_neighbours adj node visited in
    if str_eq u node && not (member v visited) then v ∷ rest else rest

-- The order in which Python goes through a set: some arrangement of its elements.
pub record SetOrder : Type 0 where
  pub arrange : List String → List String
  pub same_members : (x : String) (xs : List String) → member x (arrange xs) ≡ member x xs
  pub same_size : (xs : List String) → length (arrange xs) ≡ length xs

-- The `while` loop of rule 10, which returns `visited`; the top of the stack is the list's head.
pub visit : SetOrder → List Pair → ℕ → List String → List String → List String
unfolding new_neighbours
visit o adj zero visited stack = visited
visit o adj (suc fuel) visited [] = visited
visit o adj (suc fuel) visited (node ∷ stack) = elim (member node visited) [
  | true ↦ visit o adj fuel visited stack
  | false ↦
      visit o adj fuel (node ∷ visited)
        (o.arrange (new_neighbours adj node (node ∷ visited)) ++ stack)
]

-- The loop pops each push once, and pushes at most once for each pair of `adj`.
pub reachable_from : SetOrder → List Pair → String → List String
unfolding visit
reachable_from o adj start = visit o adj (suc (length adj)) [] (start ∷ [])

-- The key of the first starting location.
pub first_start : List TemplateLocation → Option String
first_start [] = none
first_start (l ∷ ls) =
    let rest = first_start ls in if l.is_starting_location then some l.key else rest

-- `if unreachable: raise DisconnectedGraphError(msg)`
abbrev pub report_unreachable : String → List String → Check
report_unreachable start [] = none
report_unreachable start (key ∷ keys) = some (disconnected_graph start (key ∷ keys))

-- `loc_keys - visited`, in the template's order; the message of the source sorts it.
abbrev pub unreachable : SetOrder → WorldTemplate → String → List String
unreachable o t start =
    let visited = reachable_from o (adjacency [] t.connections) start in
    filter (λ key. not (member key visited)) (loc_keys t)

-- Rule 10. A template with no location has no first start.
pub rule_connected_graph : SetOrder → WorldTemplate → Check
unfolding adjacency reachable_from first_start
rule_connected_graph o t = elim (first_start t.locations) [
  | none ↦ none
  | some start ↦ report_unreachable start (unreachable o t start)
]

-- `_RULES`
abbrev pub rules : SetOrder → List (WorldTemplate → Check)
rules o =
    rule_unique_keys
    ∷ rule_at_least_one_location
    ∷ rule_region_refs
    ∷ rule_location_refs
    ∷ rule_npc_knowledge_refs
    ∷ rule_one_starting_location
    ∷ rule_connection_refs
    ∷ rule_no_direction_conflicts
    ∷ rule_item_placement
    ∷ rule_connected_graph o
    ∷ []

-- `validate_template`
pub validate_template : SetOrder → WorldTemplate → Check
validate_template o t = for_each (λ rule. rule t) (rules o)
