-- ===== src/Prelude/Sorted.antt =====
-- `sorted(set(…))` over texts: a strictly increasing list with the same members.
use coffee_order_system.Prelude.Tests.{◌==◌, nat_eq, if◌then◌else◌, contains, Bool-cases}
use coffee_order_system.Prelude.Texts.{Text, text_eq, any}
use coffee_order_system.Prelude.Strings.{text_ltb}
use mathlib.Core.Path.{◌≡◌, refl}
use mathlib.Core.Logic.{◌≢◌, inl, inr}
use mathlib.Core.Bool.{Bool, true, false, ◌||◌}
use mathlib.Core.List.{List, [], ◌∷◌}
use native.Mathlib.Omega.{arith}

unfoldable pub insert_sorted : Text → List Text → List Text
insert_sorted x [] = x ∷ []
insert_sorted x (y ∷ ys) =
    if x == y then y ∷ ys else if text_ltb x y then x ∷ y ∷ ys else y ∷ insert_sorted x ys

unfoldable pub sorted_set : List Text → List Text
unfolding insert_sorted text_ltb
sorted_set [] = []
sorted_set (x ∷ xs) = insert_sorted x (sorted_set xs)

abbrev pub IsBefore : Text → List Text → Type 0
IsBefore x [] = Unit
IsBefore x (y ∷ ys) = text_ltb x y ≡ true

abbrev pub IsSorted : List Text → Type 0
IsSorted [] = Unit
IsSorted (x ∷ xs) = IsBefore x xs × IsSorted xs

-- Of two different texts one comes first.
pub text_ltb_total : (s t : Text) → s ≢ t → text_ltb s t ≡ false → text_ltb t s ≡ true
unfolding text_ltb
text_ltb_total [] [] n h = absurd (n refl)
text_ltb_total [] (d ∷ t) n h = ground arith
text_ltb_total (c ∷ s) [] n h = refl
text_ltb_total (c ∷ s) (d ∷ t) n h = ground (arith, text_ltb_total s t)

pub contains-insert_sorted :
    (x : Text) (ys : List Text) (a : Text)
    → contains (insert_sorted x ys) a ≡ (a == x || contains ys a)
unfolding contains insert_sorted
contains-insert_sorted x [] a = refl
contains-insert_sorted x (y ∷ ys) a = ground (arith, contains-insert_sorted x ys a)

pub contains-sorted_set : (xs : List Text) (a : Text) → contains (sorted_set xs) a ≡ contains xs a
unfolding contains sorted_set
contains-sorted_set [] a = refl
contains-sorted_set (x ∷ xs) a =
    ground (arith, contains-insert_sorted x (sorted_set xs) a, contains-sorted_set xs a)

insert_sorted-IsBefore :
    (z x : Text) (ys : List Text)
    → text_ltb z x ≡ true
    → IsBefore z ys
    → IsBefore z (insert_sorted x ys)
unfolding insert_sorted
insert_sorted-IsBefore z x [] h b = h
insert_sorted-IsBefore z x (y ∷ ys) h b = ground arith

pub insert_sorted-IsSorted :
    (x : Text) (ys : List Text) → IsSorted ys → IsSorted (insert_sorted x ys)
unfolding insert_sorted
insert_sorted-IsSorted x [] h = (tt, tt)
insert_sorted-IsSorted x (y ∷ ys) h = elim (Bool-cases (x == y)) [
  | inl same ↦ rw same h
  | inr new ↦ elim (Bool-cases (text_ltb x y)) [
    | inl first ↦ rw (new, first) (first, h)
    | inr later ↦
        rw (new, later)
          (
            insert_sorted-IsBefore y x ys (text_ltb_total x y (λ e. ground arith) later) h.0,
            insert_sorted-IsSorted x ys h.1,
          )
  ]
]

pub sorted_set-IsSorted : (xs : List Text) → IsSorted (sorted_set xs)
unfolding sorted_set
sorted_set-IsSorted [] = tt
sorted_set-IsSorted (x ∷ xs) = insert_sorted-IsSorted x (sorted_set xs) (sorted_set-IsSorted xs)

any-insert_sorted :
    (p : Text → Bool) (x : Text) (ys : List Text) → any p (insert_sorted x ys) ≡ (p x || any p ys)
unfolding any insert_sorted
any-insert_sorted p x [] = refl
any-insert_sorted p x (y ∷ ys) = ground (arith, any-insert_sorted p x ys)

pub any-sorted_set : (p : Text → Bool) (xs : List Text) → any p (sorted_set xs) ≡ any p xs
unfolding any sorted_set
any-sorted_set p [] = refl
any-sorted_set p (x ∷ xs) =
    ground (arith, any-insert_sorted p x (sorted_set xs), any-sorted_set p xs)

pub text_ltb_irrefl : (s : Text) → text_ltb s s ≡ false
unfolding text_ltb
text_ltb_irrefl [] = refl
text_ltb_irrefl (c ∷ s) = ground (arith, text_ltb_irrefl s)

pub text_ltb_trans :
    (s t u : Text) → text_ltb s t ≡ true → text_ltb t u ≡ true → text_ltb s u ≡ true
unfolding text_ltb
text_ltb_trans s [] u h k = absurd (ground arith)
text_ltb_trans s (d ∷ t) [] h k = absurd (ground arith)
text_ltb_trans [] (d ∷ t) (e ∷ u) h k = refl
text_ltb_trans (c ∷ s) (d ∷ t) (e ∷ u) h k = ground (arith, text_ltb_trans s t u)

-- What comes before a sorted list is not in it.
pub before-not-in :
    (x : Text) (ys : List Text) → IsSorted ys → IsBefore x ys → contains ys x ≡ false
unfolding contains
before-not-in x [] h b = refl
before-not-in x (y ∷ []) h b = ground (arith, text_ltb_irrefl x)
before-not-in x (y ∷ z ∷ ys) h b =
    ground (arith, text_ltb_irrefl x, before-not-in x (z ∷ ys) h.1 (text_ltb_trans x y z b h.0))
