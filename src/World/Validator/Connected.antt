-- ===== src/World/Validator/Connected.antt =====
-- Rule 10 passes exactly the templates whose locations can all be reached from the start.
use fictional_barnacle.Prelude.{
  String, ◌≡◌, refl, sym, subst, ◌∙◌, ◌↔◌, inl, inr, not, ◌||◌, Option, none, some, List, [], ◌∷◌,
  map, arith, eq_iff, Option-cases, filter, All, length,
}
use fictional_barnacle.Prelude.Texts.{
  Pair, add_pair, member, member_pair, member_pair-add_pair, ◌∈◌,
}
use fictional_barnacle.World.Template.{TemplateConnection, TemplateLocation, WorldTemplate}
use fictional_barnacle.World.Validator.{
  SetOrder, adjacency, first_start, reachable_from, report_unreachable, rule_connected_graph,
  starts, unreachable,
}
use fictional_barnacle.World.Validator.Graph.{Reach, Reach-mono, pairs_edge, reachable_from-Reach}
use fictional_barnacle.World.Validator.WellFormed.{links}

adjacency-links :
    (adj : List Pair) (cs : List TemplateConnection) (u v : String)
    → member_pair (u, v) (adjacency adj cs) ≡ (member_pair (u, v) adj || links cs u v)
unfolding adjacency
adjacency-links adj [] u v = ground arith
adjacency-links adj (c ∷ cs) u v =
    let there = add_pair (c.from_key, c.to_key) adj in
    ground (
      arith,
      adjacency-links there cs u v,
      adjacency-links (add_pair (c.to_key, c.from_key) there) cs u v,
      member_pair-add_pair (c.from_key, c.to_key) (u, v) adj,
      member_pair-add_pair (c.to_key, c.from_key) (u, v) there,
    )

adjacency-Reach :
    (cs : List TemplateConnection) (start x : String)
    → Reach (pairs_edge (adjacency [] cs)) start x ↔ Reach (links cs) start x
adjacency-Reach cs start x = (
  Reach-mono (λ u v e. sym (adjacency-links [] cs u v) ∙ e),
  Reach-mono (λ u v e. adjacency-links [] cs u v ∙ e),
)

unreachable_iff :
    (visited : List String) (ls : List TemplateLocation)
    → (filter (λ key. not (member key visited)) (map (λ l. l.key) ls) ≡ [])
      ↔ All (λ l. l.key ∈ visited) ls
unreachable_iff visited [] = (λ e. tt, λ a. refl)
unreachable_iff visited (l ∷ ls) = ground (arith, unreachable_iff visited ls)

All-iff {ℓ κ μ} :
    {A : Type ℓ} {P : A → Type κ} {Q : A → Type μ} (xs : List A)
    → ((x : A) → P x ↔ Q x)
    → All P xs ↔ All Q xs
All-iff [] h = (λ a. tt, λ a. tt)
All-iff (x ∷ xs) h =
    (λ a. ((h x).0 a.0, (All-iff xs h).0 a.1), λ a. ((h x).1 a.0, (All-iff xs h).1 a.1))

-- The first starting location heads the list of them.
abbrev heads : List String → Option String
heads [] = none
heads (k ∷ ks) = some k

first_start-starts :
    (ls : List TemplateLocation)
    → first_start ls ≡ heads (map (λ l. l.key) (filter (λ l. l.is_starting_location) ls))
unfolding first_start
first_start-starts [] = refl
first_start-starts (l ∷ ls) = ground (arith, first_start-starts ls)

only_start : (ks : List String) (s : String) → length ks ≡ 1 → (s ∈ ks) ↔ (heads ks ≡ some s)
only_start [] s h = absurd (omega arith)
only_start (k ∷ []) s h = ground (arith, eq_iff k s)
only_start (k ∷ j ∷ ks) s h = absurd (omega arith)

report_iff :
    (start : String) (keys : List String) → (report_unreachable start keys ≡ none) ↔ (keys ≡ [])
report_iff start [] = (λ e. refl, λ e. refl)
report_iff start (key ∷ keys) = (λ e. cc, λ e. cc)

same_text : {x y : String} → some x ≡ some y → x ≡ y
same_text e = cc

none_start : (ks : List String) → length ks ≡ 1 → heads ks ≡ none → ⊥
none_start [] h e = omega arith
none_start (k ∷ ks) h e = cc

module _ (o : SetOrder) (t : WorldTemplate) where
  abbrev AllReached : String → Type 0
  AllReached start = All (λ l. Reach (links t.connections) start l.key) t.locations

  all_visited_iff :
      (start : String)
      → (report_unreachable start (unreachable o t start) ≡ none) ↔ AllReached start
  all_visited_iff start =
      let visited = reachable_from o (adjacency [] t.connections) start in
      let quiet_iff = report_iff start (unreachable o t start) in
      let empty_iff = unreachable_iff visited t.locations in
      let reach_iff = All-iff t.locations reach in
      (
        λ e. reach_iff.0 (empty_iff.0 (quiet_iff.0 e)),
        λ a. quiet_iff.1 (empty_iff.1 (reach_iff.1 a)),
      )
    where
      reach :
          (l : TemplateLocation)
          → (l.key ∈ reachable_from o (adjacency [] t.connections) start)
            ↔ Reach (links t.connections) start l.key
      reach l =
          let visit_iff = reachable_from-Reach o (adjacency [] t.connections) start l.key in
          let link_iff = adjacency-Reach t.connections start l.key in
          (λ e. link_iff.0 (visit_iff.0 e), λ r. visit_iff.1 (link_iff.1 r))

  pub rule_connected_graph_iff :
      length (starts t) ≡ 1
      → (rule_connected_graph o t ≡ none) ↔ ((start : String) → start ∈ starts t → AllReached start)
  unfolding rule_connected_graph
  rule_connected_graph_iff one = elim (Option-cases (first_start t.locations)) [
    | inl e ↦ absurd (no_start (sym (first_start-starts t.locations) ∙ e))
    | inr (s, e) ↦
        (let only : (start : String) → (start ∈ starts t) ↔ (some s ≡ some start) = λ start.
            rw (sym (first_start-starts t.locations) ∙ e) at (only_start (starts t) start one) in
          rw (e, rule_connected_graph)
            (
              λ quiet start m.
                  subst AllReached (same_text ((only start).0 m)) ((all_visited_iff s).0 quiet),
              λ all. (all_visited_iff s).1 (all s ((only s).1 refl)),
            ))
  ]
    where
      no_start : heads (starts t) ≡ none → ⊥
      no_start = none_start (starts t) one
