-- ===== src/Gate/Differences.antt =====
-- When `sorted(set(xs) - set(ys))` and its kin are empty.
use coffee_order_system.Prelude.{
  ◌≡◌, refl, ◌↔◌, Bool, true, false, not, List, [], ◌∷◌, arith, ==_refl, text_eq, texts_eq,
  contains, Text, keep, contains-keep, sorted_set, contains-sorted_set,
}
use coffee_order_system.Gate.{difference}

no_members : (xs : List Text) → ((a : Text) → contains xs a ≡ false) → xs ≡ []
unfolding contains
no_members [] h = refl
no_members (x ∷ xs) h = absurd (ground (arith, h x, ==_refl x))

pub sorted_keep-nil :
    (p : Text → Bool) (xs : List Text)
    → (sorted_set (keep p xs) ≡ []) ↔ ((a : Text) → contains xs a ≡ true → p a ≡ false)
sorted_keep-nil p xs = (
  λ h a m.
      unfold contains in ground (arith, contains-sorted_set (keep p xs) a, contains-keep p xs a),
  λ h.
      no_members (sorted_set (keep p xs))
        (λ a. ground (arith, contains-sorted_set (keep p xs) a, contains-keep p xs a, h a)),
)

pub difference-nil :
    (xs ys : List Text)
    → (difference xs ys ≡ []) ↔ ((a : Text) → contains xs a ≡ true → contains ys a ≡ true)
unfolding difference
difference-nil xs ys = (
  λ h a m. let e = (sorted_keep-nil (λ x. not (contains ys x)) xs).0 h a m in ground arith,
  λ h. (sorted_keep-nil (λ x. not (contains ys x)) xs).1 (λ a m. let e = h a m in ground arith),
)
