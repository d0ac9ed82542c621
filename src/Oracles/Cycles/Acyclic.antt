-- ===== src/Oracles/Cycles/Acyclic.antt =====
-- scripts/harness-oracles.py: what the answer of `_find_cycle` says of the edges.
use coffee_order_system.Prelude.{
  ◌≡◌, ◌∙◌, subst, inl, inr, true, List, [], ◌∷◌, ◌++◌, ◌==◌, ==_iff, text_eq, contains, Bool-cases,
  Text, arith, sorted_set, contains-sorted_set,
}
use coffee_order_system.Oracles.Cycles.{
  graph_of, Search, Visit, found, done, exhausted, no_search, find_cycle,
}
use coffee_order_system.Oracles.Cycles.Edges.{IsEdge, targets-IsEdge, edge-targets, nodes-targets}
use coffee_order_system.Oracles.Cycles.Walks.{Follows, IsChain, IsOrdered, IsOrdered-closed}
use coffee_order_system.Oracles.Cycles.Decided.{Ends, nodes-Ends}

-- From one node to another, over one edge or more.
pub data Walk (edges : List (Text × Text)) : Text → Text → Type 0 where
  one : {a b : Text} → IsEdge edges a b → Walk edges a b
  more : {a b c : Text} → IsEdge edges a b → Walk edges b c → Walk edges a c

-- Each is joined to the next by an edge.
abbrev pub IsPath : List (Text × Text) → List Text → Type 0
IsPath edges [] = Unit
IsPath edges (x ∷ []) = Unit
IsPath edges (x ∷ y ∷ xs) = IsEdge edges x y × IsPath edges (y ∷ xs)

-- A path that ends where it starts.
abbrev pub IsCircle : List (Text × Text) → List Text → Type 0
IsCircle edges cycle =
    (start : Text) × (middle : List Text) × (cycle ≡ start ∷ (middle ++ (start ∷ [])))
    × IsPath edges cycle

abbrev pub Decides : List (Text × Text) → Visit → Type 0
Decides edges (found cycle) = IsCircle edges cycle
Decides edges (done s) = (a : Text) → Walk edges a a → ⊥
Decides edges exhausted = ⊥

module _ (edges : List (Text × Text)) where
  chain-IsPath : (xs : List Text) → IsChain (graph_of edges) xs → IsPath edges xs
  chain-IsPath [] h = tt
  chain-IsPath (x ∷ []) h = tt
  chain-IsPath (x ∷ y ∷ xs) h = (targets-IsEdge edges x y h.0, chain-IsPath (y ∷ xs) h.1)

  follows : (a b : Text) → IsEdge edges a b → Follows (graph_of edges) a b
  follows a b e = edge-targets edges a b e.0 e.1

  Walk-closed :
      (vs : List Text) {a b : Text}
      → IsOrdered (graph_of edges) vs
      → contains vs a ≡ true
      → Walk edges a b
      → contains vs b ≡ true
  Walk-closed vs {a} {b} o m (one e) = IsOrdered-closed (graph_of edges) vs a b o m (follows a b e)
  Walk-closed vs {a} o m (more {b = k} e w) =
      Walk-closed vs o (IsOrdered-closed (graph_of edges) vs a k o m (follows a k e)) w

  later_only :
      (v : Text) (vs : List Text) {b : Text}
      → IsOrdered (graph_of edges) (v ∷ vs)
      → Walk edges v b
      → contains vs b ≡ true
  later_only v vs {b} o (one e) = o.0 b (follows v b e)
  later_only v vs o (more {b = k} e w) = Walk-closed vs o.2 (o.0 k (follows v k e)) w

  no_return :
      (vs : List Text) (a : Text)
      → IsOrdered (graph_of edges) vs
      → contains vs a ≡ true
      → Walk edges a a
      → ⊥
  unfolding contains
  no_return [] a o m w = ground (arith, m)
  no_return (v ∷ vs) a o m w = elim (Bool-cases (a == v)) [
    | inl here ↦
        let same = (==_iff a v).0 here in
        let again = later_only v vs o (subst (λ x. Walk edges x x) same w) in
        let not_again = o.1 in ground (arith, again, not_again)
    | inr there ↦ no_return vs a o.2 (ground (arith, m, there)) w
  ]

  first-Follows : {a b : Text} → Walk edges a b → (c : Text) × Follows (graph_of edges) a c
  first-Follows {a} {b} (one e) = (b, follows a b e)
  first-Follows {a} (more {b = k} e w) = (k, follows a k e)

  visited_all :
      (s : Search)
      → IsOrdered (graph_of edges) s.visited
      → ((n : Text)
          → contains (sorted_set (graph_of edges).nodes) n ≡ true
          → contains s.visited n ≡ true)
      → (a : Text) → Walk edges a a
      → ⊥
  visited_all s ordered new a w =
      let (b, f) = first-Follows w in
      let node = (nodes-targets edges a b f).0 in
      no_return s.visited a ordered (new a (contains-sorted_set (graph_of edges).nodes a ∙ node)) w

  Ends-Decides :
      (v : Visit)
      → Ends (graph_of edges) no_search (sorted_set (graph_of edges).nodes) v
      → Decides edges v
  Ends-Decides (found cycle) h = (h.start, h.middle, h.closed, chain-IsPath cycle h.chain)
  Ends-Decides exhausted h = h
  Ends-Decides (done s) h = visited_all s h.good.ordered h.new

  -- `_find_cycle` never runs out of fuel; a cycle that it gives is a path of edges between different nodes that ends
  -- where it starts, and if it gives none, there is no walk over such edges, of any length, from a node to itself.
  pub find_cycle-Decides : Decides edges (find_cycle edges)
  unfolding find_cycle
  find_cycle-Decides =
      Ends-Decides _ (nodes-Ends (graph_of edges) (λ a b f. (nodes-targets edges a b f).1))
