-- ===== src/Gate/Scope.antt =====
-- `scope_violations` by its members.
use coffee_order_system.Prelude.{
  ◌≡◌, ◌⊎◌, true, not, ◌&&◌, List, [], arith, ◌==◌, text_eq, contains, Text, keep, contains-keep,
  contains-sorted_set, IsSorted, sorted_set-IsSorted, any-witness,
}
use coffee_order_system.Paths.{path_matches}
use coffee_order_system.Model.{Plan}
use coffee_order_system.Gate.{any_matches, is_outside, scope_violations}

-- `scope_violations` reports exactly the changed paths that are neither the plan nor matched by an
-- allowed pattern, in increasing order and without repetition.
pub scope_violations_lem :
    (changed : List Text) (plan : Plan)
    → IsSorted (scope_violations changed plan)
      × ((path : Text)
          → contains (scope_violations changed plan) path ≡ (
              contains changed path
              && not (path == plan.relative_path)
              && not (any_matches plan.allowed_paths path)))
unfolding scope_violations
scope_violations_lem changed plan = (
  sorted_set-IsSorted (keep (is_outside plan) changed),
  λ path. ground (
    arith,
    contains-sorted_set (keep (is_outside plan) changed) path,
    contains-keep (is_outside plan) changed path,
  ),
)

pub matches-witness :
    (patterns : List Text) (path : Text)
    → any_matches patterns path ≡ true
    → (pattern : Text) × (contains patterns pattern ≡ true) × (path_matches pattern path ≡ true)
unfolding any_matches
matches-witness patterns path h = any-witness (λ pattern. path_matches pattern path) patterns h

-- When nothing is reported, each changed path is the plan or is matched by an allowed pattern.
pub scope_violations-none :
    (changed : List Text) (plan : Plan) (path : Text)
    → scope_violations changed plan ≡ []
    → contains changed path ≡ true
    → (path ≡ plan.relative_path) ⊎ (any_matches plan.allowed_paths path ≡ true)
unfolding contains
scope_violations-none changed plan path none_left m =
    let e = (scope_violations_lem changed plan).1 path in ground arith
