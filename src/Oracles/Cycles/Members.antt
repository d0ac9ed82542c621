-- ===== src/Oracles/Cycles/Members.antt =====
-- scripts/harness-oracles.py: the members of the sets that `_find_cycle` keeps.
use coffee_order_system.Prelude.{
  ◌≡◌, ◌≢◌, refl, ap, ◌∙◌, ◌⊎◌, inl, inr, Bool, true, false, List, [], ◌∷◌, ◌++◌, ◌==◌, ==_iff,
  text_eq, contains, Bool-cases, Text, arith, contains-append,
}

pub contains-cons :
    (n : Text) (ns : List Text) (k : Text)
    → contains (n ∷ ns) k ≡ true
    → (k ≡ n) ⊎ (contains ns k ≡ true)
unfolding contains
contains-cons n ns k m = ground (arith, m)

pub nowhere : (k : Text) → contains [] k ≡ true → ⊥
unfolding contains
nowhere k h = ground (arith, h)

pub in_one : (n : Text) → contains (n ∷ []) n ≡ true
unfolding contains
in_one n = ground arith

pub unequal : (a b : Bool) → a ≡ true → b ≡ false → a ≢ b
unequal a b h k e = ground (arith, h, k, e)

pub at_end :
    (path : List Text) (n k : Text)
    → (k ≡ n) ⊎ (contains path k ≡ true)
    → contains (path ++ (n ∷ [])) k ≡ true
unfolding contains
at_end path n k h = let split = contains-append path (n ∷ []) k in ground (arith, h, split)

pub still_apart :
    (vs visited : List Text) (n k : Text)
    → contains visited k ≡ true
    → contains visited n ≡ false
    → contains vs k ≡ false
    → contains (n ∷ vs) k ≡ false
unfolding contains
still_apart vs visited n k m u h = elim (Bool-cases (k == n)) [
  | inl same ↦ absurd (unequal _ _ m (ap (contains visited) ((==_iff k n).0 same) ∙ u) refl)
  | inr other ↦ ground (arith, h, other)
]

pub apart_rest : (vs : List Text) (n k : Text) → contains (n ∷ vs) k ≡ false → contains vs k ≡ false
unfolding contains
apart_rest vs n k h = ground (arith, h)

pub in_cons :
    (vs : List Text) (n k : Text) → (k ≡ n) ⊎ (contains vs k ≡ true) → contains (n ∷ vs) k ≡ true
unfolding contains
in_cons vs n k h = ground (arith, h)
