-- ===== src/Prelude/Texts.antt =====
-- Python's `str` and `bytes` as lists of code points and of bytes, with the methods that the scripts
-- call on them. A text may hold any code point, so also the lone surrogates that the
-- `surrogateescape` handler puts into it.
use Prim.Native.Nat.{ℕ, ◌+◌, suc}
use Prim.Native.Char.{code}
use Prim.Native.String.{String}
use mathlib.Core.Path.{◌≡◌}
use mathlib.Core.Bool.{Bool, true, false, ◌&&◌, ◌||◌}
use mathlib.Core.List.{List, [], ◌∷◌, ◌++◌}
use native.Mathlib.Omega.{arith}
use native.Mathlib.Decide.{ℕ_discrete}
use coffee_order_system.Prelude.Tests.{Eq, nat_eq, if◌then◌else◌, Bool-cases, contains}
use mathlib.Core.Logic.{inl, inr}

abbrev pub Text : Type 0
Text = List ℕ

unfoldable pub Text-discrete : Discrete Text
unfolding ℕ_discrete
Text-discrete = hlevel ℕ_discrete

instance unfoldable pub text_eq : Eq Text
unfolding Text-discrete
text_eq = record { dec = Text-discrete }

unfoldable pub Texts-discrete : Discrete (List Text)
unfolding Text-discrete
Texts-discrete = hlevel Text-discrete

instance unfoldable pub texts_eq : Eq (List Text)
unfolding Texts-discrete
texts_eq = record { dec = Texts-discrete }

-- A literal of the source.
unfoldable pub txt : String → Text
txt String.[] = []
txt (String.◌∷◌ c s) = code c ∷ txt s

module _ {ℓ} {A : Type ℓ} where
  abbrev pub length : List A → ℕ
  length [] = 0
  length (x ∷ xs) = suc (length xs)

  unfoldable pub any : (A → Bool) → List A → Bool
  any p [] = false
  any p (x ∷ xs) = p x || any p xs

  unfoldable pub all : (A → Bool) → List A → Bool
  all p [] = true
  all p (x ∷ xs) = p x && all p xs

  -- A comprehension with an `if`.
  unfoldable pub keep : (A → Bool) → List A → List A
  keep p [] = []
  keep p (x ∷ xs) = let rest = keep p xs in if p x then x ∷ rest else rest

  pub length-append : (xs ys : List A) → length (xs ++ ys) ≡ length xs + length ys
  length-append [] ys = omega arith
  length-append (x ∷ xs) ys = omega (arith, length-append xs ys)

module _ {ℓ} {A : Type ℓ} ⦃e : Eq A⦄ where
  pub contains-keep :
      (p : A → Bool) (xs : List A) (a : A) → contains (keep p xs) a ≡ (p a && contains xs a)
  unfolding contains keep
  contains-keep p [] a = ground arith
  contains-keep p (x ∷ xs) a = ground (arith, contains-keep p xs a)

  -- `all` and `any` by their members.
  pub all-contains :
      (p : A → Bool) (xs : List A) → all p xs ≡ true → (a : A) → contains xs a ≡ true → p a ≡ true
  unfolding contains all
  all-contains p [] h a m = ground arith
  all-contains p (x ∷ xs) h a m = ground (arith, all-contains p xs (ground arith) a)

  pub any-witness :
      (p : A → Bool) (xs : List A)
      → any p xs ≡ true
      → (a : A) × (contains xs a ≡ true) × (p a ≡ true)
  unfolding contains any
  any-witness p [] h = absurd (ground arith)
  any-witness p (x ∷ xs) h = elim (Bool-cases (p x)) [
    | inl here ↦ (x, ground arith, here)
    | inr there ↦ let w = any-witness p xs (ground arith) in (w.0, (ground (arith, w.1)), w.2)
  ]

  pub any-contains :
      (p : A → Bool) (xs : List A) (a : A) → contains xs a ≡ true → p a ≡ true → any p xs ≡ true
  unfolding contains any
  any-contains p [] a m h = ground arith
  any-contains p (x ∷ xs) a m h = ground (arith, any-contains p xs a)
