-- ===== src/World/Validator/Rules.antt =====
-- Each rule passes exactly the templates that it should.
use fictional_barnacle.Prelude.{
  String, ◌≡◌, refl, sym, ◌∙◌, ◌≢◌, ◌↔◌, inl, inr, false, Option, none, some, List, [], ◌∷◌, map,
  arith, eq_iff, Option-cases, if◌then◌else◌, length, All,
}
use fictional_barnacle.Prelude.Dict.{Dict, insert, lookup, lookup-insert}
use fictional_barnacle.Prelude.Texts.{AreDistinct, AreFresh, IsDistinct, IsFresh, Pair, member, ◌∈◌}
use fictional_barnacle.World.Template.{TemplateConnection, TemplateItem, WorldTemplate}
use fictional_barnacle.World.Validator.{
  Check, Kind, TemplateValidationError, all_keys, check_entries, check_exits, entries, for_each,
  is_present, item_placement, loc_keys, npc_keys, region_keys, require_key, require_optional,
  reverse_direction, rule_at_least_one_location, rule_connection_refs, rule_item_placement,
  rule_location_refs, rule_no_direction_conflicts, rule_npc_knowledge_refs,
  rule_one_starting_location, rule_region_refs, rule_unique_keys, same_truth, starts, ◌then_check◌,
}
use fictional_barnacle.World.Validator.WellFormed.{IsPlaced, RefersTo, exits_of}

pub for_each_iff {ℓ κ} :
    {A : Type ℓ} {P : A → Type κ} (body : A → Check) (xs : List A)
    → ((x : A) → (body x ≡ none) ↔ P x)
    → (for_each body xs ≡ none) ↔ All P xs
for_each_iff body [] h = (λ e. tt, λ a. refl)
for_each_iff body (x ∷ xs) h = elim (Option-cases (body x)) [
  | inl e ↦
      rw e (λ r. ((h x).0 e, (for_each_iff body xs h).0 r), λ a. (for_each_iff body xs h).1 a.1)
  | inr (err, e) ↦ rw e (λ r. cc, λ a. absurd (some_ne (sym e ∙ (h x).1 a.0)))
]
  where
    some_ne : {e : TemplateValidationError} → some e ≡ none → ⊥
    some_ne e = cc

require_key_iff : (key : String) (keys : List String) → (require_key key keys ≡ none) ↔ (key ∈ keys)
require_key_iff key keys = ground arith

require_optional_iff :
    (key : Option String) (keys : List String)
    → (require_optional key keys ≡ none) ↔ RefersTo key keys
require_optional_iff none keys = (λ e. tt, λ a. refl)
require_optional_iff (some key) keys = require_key_iff key keys

then_check_iff {ℓ κ} :
    {P : Type ℓ} {Q : Type κ} (a b : Check)
    → (a ≡ none) ↔ P
    → (b ≡ none) ↔ Q
    → ((a then_check b) ≡ none) ↔ (P × Q)
then_check_iff none b p q = (λ e. (p.0 refl, q.0 e), λ h. q.1 h.1)
then_check_iff (some e) b p q = (λ h. cc, λ h. p.1 h.0)

-- Rule 1: `seen` holds the keys of the entries so far.
check_entries_iff :
    (seen : Dict Kind) (keys : List String) (es : List (String × Kind))
    → ((k : String) → (lookup k seen ≡ none) ↔ (member k keys ≡ false))
    → (check_entries seen es ≡ none) ↔ IsFresh keys (map (λ e. e.0) es)
unfolding check_entries
check_entries_iff seen keys [] h = (λ e. tt, λ a. refl)
check_entries_iff seen keys ((key, kind) ∷ es) h =
    ground (arith, h key, check_entries_iff (insert key kind seen) (key ∷ keys) es agree)
  where
    agree :
        (k : String) → (lookup k (insert key kind seen) ≡ none) ↔ (member k (key ∷ keys) ≡ false)
    agree k = ground (arith, h k, lookup-insert key k kind seen, eq_iff key k)

pub rule_unique_keys_iff :
    (t : WorldTemplate) → (rule_unique_keys t ≡ none) ↔ IsDistinct (map (λ e. e.0) (entries t))
unfolding rule_unique_keys lookup
rule_unique_keys_iff t = check_entries_iff [] [] (entries t) (λ k. (λ e. refl, λ e. refl))

pub rule_region_refs_iff :
    (t : WorldTemplate)
    → (rule_region_refs t ≡ none) ↔ All (λ l. l.region_key ∈ region_keys t) t.locations
unfolding rule_region_refs
rule_region_refs_iff t =
    for_each_iff _ t.locations (λ l. require_key_iff l.region_key (region_keys t))

pub rule_location_refs_iff :
    (t : WorldTemplate)
    → (rule_location_refs t ≡ none) ↔ (
        All (λ n. n.location_key ∈ loc_keys t) t.npcs
        × All (λ i. RefersTo i.location_key (loc_keys t) × RefersTo i.npc_key (npc_keys t)) t.items)
unfolding rule_location_refs
rule_location_refs_iff t =
    then_check_iff _ _ (for_each_iff _ t.npcs (λ n. require_key_iff n.location_key (loc_keys t))) (
      for_each_iff _ t.items (λ i.
        then_check_iff _ _ (require_optional_iff i.location_key (loc_keys t))
          (require_optional_iff i.npc_key (npc_keys t))))

pub rule_npc_knowledge_refs_iff :
    (t : WorldTemplate)
    → (rule_npc_knowledge_refs t ≡ none)
      ↔ All (λ k. (k.npc_key ∈ npc_keys t) × (k.about_key ∈ all_keys t)) t.knowledge
unfolding rule_npc_knowledge_refs
rule_npc_knowledge_refs_iff t = for_each_iff _ t.knowledge (λ k.
    then_check_iff _ _ (require_key_iff k.npc_key (npc_keys t))
      (require_key_iff k.about_key (all_keys t)))

pub rule_one_starting_location_iff :
    (t : WorldTemplate) → (rule_one_starting_location t ≡ none) ↔ (length (starts t) ≡ 1)
unfolding rule_one_starting_location
rule_one_starting_location_iff t = ground arith

pub rule_connection_refs_iff :
    (t : WorldTemplate)
    → (rule_connection_refs t ≡ none)
      ↔ All (λ c. (c.from_key ∈ loc_keys t) × (c.to_key ∈ loc_keys t)) t.connections
unfolding rule_connection_refs
rule_connection_refs_iff t = for_each_iff _ t.connections (λ c.
    then_check_iff _ _ (require_key_iff c.from_key (loc_keys t))
      (require_key_iff c.to_key (loc_keys t)))

check_exits_iff :
    (exits : List Pair) (cs : List TemplateConnection)
    → (check_exits exits cs ≡ none) ↔ AreFresh exits (exits_of cs)
unfolding check_exits
check_exits_iff exits [] = (λ e. tt, λ a. refl)
check_exits_iff exits (c ∷ cs) =
    let there : Pair = (c.from_key, c.direction) in
    let back : Pair = (c.to_key, reverse_direction c.direction) in
    ground (arith, check_exits_iff (there ∷ exits) cs, check_exits_iff (back ∷ there ∷ exits) cs)

pub rule_no_direction_conflicts_iff :
    (t : WorldTemplate)
    → (rule_no_direction_conflicts t ≡ none) ↔ AreDistinct (exits_of t.connections)
unfolding rule_no_direction_conflicts
rule_no_direction_conflicts_iff t = check_exits_iff [] t.connections

placement_iff :
    (i : TemplateItem) (l n : Option String)
    → ((if same_truth (is_present l) (is_present n) then some (item_placement i.key) else none)
        ≡ none)
      ↔ IsPlaced l n
placement_iff i none none = (λ e. cc, λ h. absurd h)
placement_iff i none (some n) = (λ e. tt, λ h. refl)
placement_iff i (some l) none = (λ e. tt, λ h. refl)
placement_iff i (some l) (some n) = (λ e. cc, λ h. absurd h)

pub rule_item_placement_iff :
    (t : WorldTemplate)
    → (rule_item_placement t ≡ none) ↔ All (λ i. IsPlaced i.location_key i.npc_key) t.items
unfolding rule_item_placement
rule_item_placement_iff t = for_each_iff _ t.items (λ i. placement_iff i i.location_key i.npc_key)

pub rule_at_least_one_location_iff :
    (t : WorldTemplate) → (rule_at_least_one_location t ≡ none) ↔ (t.locations ≢ [])
unfolding rule_at_least_one_location
rule_at_least_one_location_iff t = ground arith
