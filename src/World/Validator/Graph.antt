-- ===== src/World/Validator/Graph.antt =====
-- The loop of rule 10 visits exactly what can be reached.
use fictional_barnacle.Prelude.{
  ℕ, zero, suc, ◌+◌, ◌≤◌, String, ◌≡◌, sym, subst, inl, inr, Bool, true, false, ◌||◌, List, [], ◌∷◌,
  ◌++◌, arith, str_eq, eq_iff, if◌then◌else◌, Bool-cases, length-append, length,
}
use fictional_barnacle.Prelude.Texts.{Pair, member, member-append, member_pair, ◌∈◌}
use fictional_barnacle.World.Validator.{SetOrder, new_neighbours, reachable_from, visit}

-- There is a way from `start` along edges.
pub data Reach (edge : String → String → Bool) (start : String) : String → Type 0 where
  here : Reach edge start start
  next : {u : String} (v : String) → Reach edge start u → edge u v ≡ true → Reach edge start v

pub Reach-mono :
    {edge edge' : String → String → Bool} {start x : String}
    → ((u v : String) → edge u v ≡ true → edge' u v ≡ true)
    → Reach edge start x
    → Reach edge' start x
Reach-mono h here = here
Reach-mono h (next {u = u} v r e) = next v (Reach-mono h r) (h u v e)

abbrev pub pairs_edge : List Pair → String → String → Bool
pairs_edge adj u v = member_pair (u, v) adj

-- How many pairs lead out of nodes that have not been visited.
abbrev open_pairs : List Pair → List String → ℕ
open_pairs [] visited = 0
open_pairs ((u, v) ∷ adj) visited = (if member u visited then 0 else 1) + open_pairs adj visited

open_pairs-le : (adj : List Pair) (visited : List String) → open_pairs adj visited ≤ length adj
open_pairs-le [] visited = omega arith
open_pairs-le ((u, v) ∷ adj) visited = ground (arith, open_pairs-le adj visited)

-- Visiting a node pays for its pushes.
new_neighbours_paid :
    (adj : List Pair) (node : String) (visited seen : List String)
    → member node visited ≡ false
    → length (new_neighbours adj node seen) + open_pairs adj (node ∷ visited)
      ≤ open_pairs adj visited
unfolding new_neighbours
new_neighbours_paid [] node visited seen h = omega arith
new_neighbours_paid ((u, v) ∷ adj) node visited seen h =
    ground (arith, eq_iff u node, eq_iff node u, new_neighbours_paid adj node visited seen h)

-- The pushes are successors of the node.
new_neighbours_sound :
    (adj : List Pair) (node : String) (visited : List String) (x : String)
    → member x (new_neighbours adj node visited) ≡ true
    → member_pair (node, x) adj ≡ true
unfolding new_neighbours
new_neighbours_sound [] node visited x h = cc
new_neighbours_sound ((u, v) ∷ adj) node visited x h =
    ground (arith, new_neighbours_sound adj node visited x)

-- Each successor is pushed or has been visited.
new_neighbours_complete :
    (adj : List Pair) (node : String) (visited : List String) (x : String)
    → member_pair (node, x) adj ≡ true
    → (member x visited || member x (new_neighbours adj node visited)) ≡ true
unfolding new_neighbours
new_neighbours_complete [] node visited x h = cc
new_neighbours_complete ((u, v) ∷ adj) node visited x h =
    ground (arith, eq_iff v x, new_neighbours_complete adj node visited x)

module _ (o : SetOrder) (adj : List Pair) where
  abbrev pushed : String → List String → List String → List String
  pushed node visited stack = o.arrange (new_neighbours adj node (node ∷ visited)) ++ stack

  member-pushed :
      (node : String) (visited stack : List String) (x : String)
      → member x (pushed node visited stack)
        ≡ (member x (new_neighbours adj node (node ∷ visited)) || member x stack)
  member-pushed node visited stack x = rw (
    member-append x (o.arrange (new_neighbours adj node (node ∷ visited))) stack,
    o.same_members x (new_neighbours adj node (node ∷ visited)),
  )

  -- A node that is visited for the first time brings in itself and its successors.
  pushed_sound :
      (start node : String) (visited stack : List String)
      → ((x : String) → x ∈ visited → Reach (pairs_edge adj) start x)
      → ((x : String) → x ∈ (node ∷ stack) → Reach (pairs_edge adj) start x)
      → ((x : String) → x ∈ (node ∷ visited) → Reach (pairs_edge adj) start x)
        × ((x : String) → x ∈ pushed node visited stack → Reach (pairs_edge adj) start x)
  pushed_sound start node visited stack hv hs = (visited_ok, stack_ok)
    where
      top : Reach (pairs_edge adj) start node
      top = hs node (ground (arith, eq_iff node node))

      visited_ok : (x : String) → x ∈ (node ∷ visited) → Reach (pairs_edge adj) start x
      visited_ok x m = elim (Bool-cases (str_eq node x)) [
        | inl e ↦ subst (Reach (pairs_edge adj) start) ((eq_iff node x).0 e) top
        | inr e ↦ hv x (ground arith)
      ]

      stack_ok : (x : String) → x ∈ pushed node visited stack → Reach (pairs_edge adj) start x
      stack_ok x m = elim (Bool-cases (member x (new_neighbours adj node (node ∷ visited)))) [
        | inl e ↦ next x top (new_neighbours_sound adj node (node ∷ visited) x e)
        | inr e ↦ hs x (ground (arith, member-pushed node visited stack x))
      ]

  visit_sound :
      (start : String) (fuel : ℕ) (visited stack : List String)
      → ((x : String) → x ∈ visited → Reach (pairs_edge adj) start x)
      → ((x : String) → x ∈ stack → Reach (pairs_edge adj) start x)
      → (x : String) → x ∈ visit o adj fuel visited stack
      → Reach (pairs_edge adj) start x
  unfolding visit
  visit_sound start zero visited stack hv hs x m = hv x m
  visit_sound start (suc fuel) visited [] hv hs x m = hv x m
  visit_sound start (suc fuel) visited (node ∷ stack) hv hs x m =
      elim (Bool-cases (member node visited)) [
        | inl old ↦
            visit_sound start fuel visited stack hv (λ y e. hs y (ground (arith, e))) x
              (rw (old, visit) at m)
        | inr new ↦
            (let (hv', hs') = pushed_sound start node visited stack hv hs in
              visit_sound start fuel (node ∷ visited) (pushed node visited stack) hv' hs' x
                (rw (new, visit) at m))
      ]

  -- What has been visited leads only to what has been visited or waits on the stack.
  abbrev IsClosed : List String → List String → Type 0
  IsClosed visited stack =
      (u v : String)
      → u ∈ visited
      → member_pair (u, v) adj ≡ true
      → (member v visited || member v stack) ≡ true

  pushed-IsClosed :
      (node : String) (visited stack : List String)
      → IsClosed visited (node ∷ stack)
      → IsClosed (node ∷ visited) (pushed node visited stack)
  pushed-IsClosed node visited stack c u v m e = elim (Bool-cases (str_eq node u)) [
    | inl same ↦
        (let from_node : member_pair (node, v) adj ≡ true =
            subst (λ w. member_pair (w, v) adj ≡ true) (sym ((eq_iff node u).0 same)) e in
          ground (
            arith,
            member-pushed node visited stack v,
            new_neighbours_complete adj node (node ∷ visited) v from_node,
          ))
    | inr other ↦ ground (arith, member-pushed node visited stack v, c u v (ground arith) e)
  ]

  visit_complete :
      (fuel : ℕ) (visited stack : List String)
      → length stack + open_pairs adj visited ≤ fuel
      → IsClosed visited stack
      → ((x : String)
          → (member x visited || member x stack) ≡ true
          → x ∈ visit o adj fuel visited stack)
        × IsClosed (visit o adj fuel visited stack) []
  unfolding visit
  visit_complete zero visited [] f c = (λ x h. ground arith, c)
  visit_complete zero visited (x ∷ stack) f c = absurd (omega arith)
  visit_complete (suc fuel) visited [] f c = (λ x h. ground arith, c)
  visit_complete (suc fuel) visited (node ∷ stack) f c = elim (Bool-cases (member node visited)) [
    | inl old ↦
        (let (within, closed) =
            visit_complete fuel visited stack (omega arith)
              (λ u v m e. ground (arith, c u v m e, eq_iff node v)) in
          rw (old, visit) (λ x h. within x (ground (arith, eq_iff node x)), closed))
    | inr new ↦
        (let (within, closed) =
            visit_complete fuel (node ∷ visited) (pushed node visited stack)
              (omega (
                arith,
                length-append (o.arrange (new_neighbours adj node (node ∷ visited))) stack,
                o.same_size (new_neighbours adj node (node ∷ visited)),
                new_neighbours_paid adj node visited (node ∷ visited) new,
              ))
              (pushed-IsClosed node visited stack c) in
          rw (new, visit)
            (λ x h. within x (ground (arith, member-pushed node visited stack x)), closed))
  ]

  -- Whatever the order of the sets, the loop visits exactly the nodes that can be reached.
  pub reachable_from-Reach :
      (start x : String)
      → (x ∈ reachable_from o adj start → Reach (pairs_edge adj) start x)
        × (Reach (pairs_edge adj) start x → x ∈ reachable_from o adj start)
  unfolding reachable_from
  reachable_from-Reach start x = (sound, complete x)
    where
      sound : x ∈ reachable_from o adj start → Reach (pairs_edge adj) start x
      sound =
          visit_sound start (suc (length adj)) [] (start ∷ []) (λ y e. cc)
            (λ y e. subst (Reach (pairs_edge adj) start) ((eq_iff start y).0 (ground arith)) here) x

      finished :
          ((y : String)
            → (member y [] || member y (start ∷ [])) ≡ true
            → y ∈ visit o adj (suc (length adj)) [] (start ∷ []))
          × IsClosed (visit o adj (suc (length adj)) [] (start ∷ [])) []
      finished =
          visit_complete (suc (length adj)) [] (start ∷ []) (omega (arith, open_pairs-le adj []))
            (λ u v m e. cc)

      complete : (y : String) → Reach (pairs_edge adj) start y → y ∈ reachable_from o adj start
      complete y here = finished.0 start (ground (arith, eq_iff start start))
      complete y (next {u = u} v r e) = ground (arith, finished.1 u y (complete u r) e)
