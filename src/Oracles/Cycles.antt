-- ===== src/Oracles/Cycles.antt =====
-- scripts/harness-oracles.py: `_find_cycle`.
pub mod Edges
pub mod Walks
pub mod Bounded
pub mod Acyclic
pub mod Members
pub mod Decided
use coffee_order_system.Prelude.{
  ℕ, zero, suc, ◌≡◌, Bool, true, false, not, Option, none, some, List, [], ◌∷◌, ◌++◌, ◌==◌, text_eq,
  if◌then◌else◌, contains, keep, Text, length, sorted_set,
}

-- The keys of the dict, and its values, which are empty for the others.
pub record Graph : Type 0 where
  pub nodes : List Text
  pub targets : Text → List Text

abbrev pub no_graph : Graph
no_graph = record { nodes = []; targets = λ n. [] }

-- The body of the loop over the edges.
unfoldable pub add_edge : Text × Text → Graph → Graph
add_edge edge g = if edge.0 == edge.1 then g else record {
  nodes = edge.0 ∷ edge.1 ∷ g.nodes;
  targets = λ n. if n == edge.0 then edge.1 ∷ g.targets n else g.targets n;
}

unfoldable pub graph_of : List (Text × Text) → Graph
unfolding add_edge
graph_of [] = no_graph
graph_of (edge ∷ edges) = add_edge edge (graph_of edges)

-- The sets and the list that the search changes.
pub record Search : Type 0 where
  pub visiting : List Text
  pub visited : List Text
  pub path : List Text

-- How a visit ends: with a cycle, with `None`, or by the fuel.
pub data Visit : Type 0 where
  found : List Text → Visit
  done : Search → Visit
  exhausted : Visit

-- `path[path.index(node) :]`
unfoldable pub from_first : Text → List Text → List Text
from_first node [] = []
from_first node (p ∷ path) = let rest = from_first node path in if p == node then p ∷ path else rest

-- `path.pop()`
unfoldable pub pop : List Text → List Text
pop [] = []
pop (p ∷ []) = []
pop (p ∷ q ∷ path) = p ∷ pop (q ∷ path)

abbrev pub enter : Text → Search → Search
enter node s = record {
  visiting = node ∷ s.visiting;
  visited = s.visited;
  path = s.path ++ (node ∷ []);
}

unfoldable pub leave : Text → Search → Search
unfolding pop
leave node s = record {
  visiting = keep (λ n. not (n == node)) s.visiting;
  visited = node ∷ s.visited;
  path = pop s.path;
}

abbrev pub then_visit : Visit → (Search → Visit) → Visit
then_visit (found cycle) next = found cycle
then_visit (done s) next = next s
then_visit exhausted next = exhausted

-- The loop over the targets of a node, or over the nodes.
unfoldable pub visit_each : (Text → Search → Visit) → List Text → Search → Visit
visit_each visit [] s = done s
visit_each visit (node ∷ nodes) s = then_visit (visit node s) (visit_each visit nodes)

unfoldable pub visit : Graph → ℕ → Text → Search → Visit
unfolding from_first leave visit_each
visit g zero node s = exhausted
visit g (suc fuel) node s = elim (contains s.visiting node) [
  | true ↦ found (from_first node s.path ++ (node ∷ []))
  | false ↦ elim (contains s.visited node) [
    | true ↦ done s
    | false ↦
        then_visit (visit_each (visit g fuel) (sorted_set (g.targets node)) (enter node s))
          (λ s'. done (leave node s'))
  ]
]

abbrev pub no_search : Search
no_search = record { visiting = []; visited = []; path = [] }

-- `_find_cycle` up to its answer; the recursion goes at most one deeper than there are nodes.
unfoldable pub find_cycle : List (Text × Text) → Visit
unfolding graph_of visit visit_each
find_cycle edges =
    let g = graph_of edges in
    visit_each (visit g (suc (length g.nodes))) (sorted_set g.nodes) no_search
