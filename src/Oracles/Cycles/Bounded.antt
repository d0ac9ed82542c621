-- ===== src/Oracles/Cycles/Bounded.antt =====
-- scripts/harness-oracles.py: the nodes that `_find_cycle` has not entered.
use coffee_order_system.Prelude.{
  ◌<◌, ◌≤◌, ◌≡◌, Bool, true, false, not, List, [], ◌∷◌, text_eq, contains, keep, Text, length,
  arith,
}

abbrev pub others : List Text → List Text → List Text
others nodes visiting = keep (λ n. not (contains visiting n)) nodes

others_fewer :
    (nodes visiting : List Text) (n : Text)
    → length (others nodes (n ∷ visiting)) ≤ length (others nodes visiting)
unfolding keep contains
others_fewer [] visiting n = omega arith
others_fewer (m ∷ nodes) visiting n =
    let rest = others_fewer nodes visiting n in ground (arith, rest)

pub length-others :
    (nodes visiting : List Text) (n : Text)
    → contains nodes n ≡ true
    → contains visiting n ≡ false
    → length (others nodes (n ∷ visiting)) < length (others nodes visiting)
unfolding keep contains
length-others [] visiting n m v = absurd (ground (arith, m))
length-others (k ∷ nodes) visiting n m v =
    let fewer = others_fewer nodes visiting n in
    let rest = length-others nodes visiting n in ground (arith, m, v, fewer, rest)

pub length-keep : (p : Text → Bool) (xs : List Text) → length (keep p xs) ≤ length xs
unfolding keep
length-keep p [] = omega arith
length-keep p (x ∷ xs) = let rest = length-keep p xs in ground (arith, rest)
