-- ===== src/Oracles/Cycles/Edges.antt =====
-- scripts/harness-oracles.py: the graph of `_find_cycle` and its edges.
use coffee_order_system.Prelude.{
  ◌≡◌, refl, sym, ◌∙◌, ◌≢◌, ◌⊎◌, inl, inr, Bool, true, false, not, ◌||◌, ◌&&◌, List, [], ◌∷◌, ◌==◌,
  text_eq, contains, Text, arith,
}
use coffee_order_system.Oracles.Cycles.{Graph, add_edge, graph_of}

-- The list has this pair.
abbrev pub HasPair : List (Text × Text) → Text → Text → Type 0
HasPair [] a b = ⊥
HasPair (edge ∷ edges) a b = ((edge.0 ≡ a) × (edge.1 ≡ b)) ⊎ HasPair edges a b

-- An edge between two nodes.
abbrev pub IsEdge : List (Text × Text) → Text → Text → Type 0
IsEdge edges a b = HasPair edges a b × (a ≢ b)

contains-add_edge :
    (edge : Text × Text) (g : Graph) (a b : Text)
    → contains ((add_edge edge g).targets a) b
      ≡ (not (edge.0 == edge.1) && (a == edge.0 && b == edge.1) || contains (g.targets a) b)
unfolding add_edge contains
contains-add_edge edge g a b = ground arith

nodes-add_edge :
    (edge : Text × Text) (g : Graph) (a : Text)
    → contains (add_edge edge g).nodes a
      ≡ (not (edge.0 == edge.1) && (a == edge.0 || a == edge.1) || contains g.nodes a)
unfolding add_edge contains
nodes-add_edge edge g a = ground arith

added : (x y a b : Text) → not (x == y) && (a == x && b == y) ≡ true → (x ≡ a) × (y ≡ b) × (a ≢ b)
added x y a b h = ground (arith, h)

or_cases : (p q : Bool) → p || q ≡ true → (p ≡ true) ⊎ (q ≡ true)
or_cases true q h = inl refl
or_cases false q h = inr h

pub targets-IsEdge :
    (edges : List (Text × Text)) (a b : Text)
    → contains ((graph_of edges).targets a) b ≡ true
    → IsEdge edges a b
unfolding graph_of contains
targets-IsEdge [] a b h = absurd (ground (arith, h))
targets-IsEdge (edge ∷ edges) a b h =
    elim (or_cases _ _ (sym (contains-add_edge edge (graph_of edges) a b) ∙ h)) [
      | inl new ↦ let (e, f, n) = added edge.0 edge.1 a b new in (inl (e, f), n)
      | inr old ↦ let (m, n) = targets-IsEdge edges a b old in (inr m, n)
    ]

pub edge-targets :
    (edges : List (Text × Text)) (a b : Text)
    → HasPair edges a b
    → a ≢ b
    → contains ((graph_of edges).targets a) b ≡ true
unfolding graph_of
edge-targets [] a b h n = absurd h
edge-targets (edge ∷ edges) a b (inl (e, f)) n =
    ground (arith, e, f, n, contains-add_edge edge (graph_of edges) a b)
edge-targets (edge ∷ edges) a b (inr h) n =
    ground (arith, contains-add_edge edge (graph_of edges) a b, edge-targets edges a b h n)

pub nodes-targets :
    (edges : List (Text × Text)) (a b : Text)
    → contains ((graph_of edges).targets a) b ≡ true
    → (contains (graph_of edges).nodes a ≡ true) × (contains (graph_of edges).nodes b ≡ true)
unfolding graph_of contains
nodes-targets [] a b h = absurd (ground (arith, h))
nodes-targets (edge ∷ edges) a b h =
    let for_a = nodes-add_edge edge (graph_of edges) a in
    let for_b = nodes-add_edge edge (graph_of edges) b in
    let split : (not (edge.0 == edge.1) && (a == edge.0 && b == edge.1) ≡ true)
        ⊎ (contains ((graph_of edges).targets a) b ≡ true) =
      or_cases _ _ (sym (contains-add_edge edge (graph_of edges) a b) ∙ h) in
    elim split [
      | inl new ↦ (ground (arith, for_a, new), ground (arith, for_b, new))
      | inr old ↦
          let (m, n) = nodes-targets edges a b old in
          (ground (arith, for_a, m), ground (arith, for_b, n))
    ]
