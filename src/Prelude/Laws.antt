-- ===== src/Prelude/Laws.antt =====
-- Laws of the text operations.
use coffee_order_system.Prelude.Tests.{nat_eq}
use coffee_order_system.Prelude.Texts.{Text, text_eq, length, length-append}
use coffee_order_system.Prelude.Strings.{starts_with, remove_suffix, split, extend_head, join}
use Prim.Native.Nat.{ℕ}
use mathlib.Core.Path.{◌≡◌, refl, ap, sym}
use mathlib.Core.Logic.{◌⊎◌, inl, inr, ◌↔◌, ◌≢◌}
use mathlib.Core.Bool.{true}
use mathlib.Core.Option.{some}
use mathlib.Core.List.{List, [], ◌∷◌, ◌++◌, append-nil, append_assoc}
use native.Mathlib.Omega.{arith}

pub starts_with-append : (p s : Text) → starts_with (p ++ s) p ≡ true
unfolding starts_with
starts_with-append [] [] = refl
starts_with-append [] (c ∷ s) = refl
starts_with-append (c ∷ p) s = ground (arith, starts_with-append p s)

pub starts_with-rest : (s p : Text) → starts_with s p ≡ true → (t : Text) × (s ≡ p ++ t)
unfolding starts_with
starts_with-rest s [] h = (s, refl)
starts_with-rest [] (d ∷ p) h = absurd (ground arith)
starts_with-rest (c ∷ s) (d ∷ p) h =
    let ih = starts_with-rest s p (ground arith) in (ih.0, ground (arith, ih.1))

pub append-ne-suffix : (c : ℕ) (b s : Text) → c ∷ (b ++ s) ≢ s
append-ne-suffix c b s e = absurd (omega (arith, ap length e, length-append b s))

pub remove_suffix-append : (b s : Text) → remove_suffix (b ++ s) s ≡ some b
unfolding remove_suffix
remove_suffix-append [] [] = ground arith
remove_suffix-append [] (c ∷ s) = ground arith
remove_suffix-append (c ∷ b) s = ground (arith, append-ne-suffix c b s, remove_suffix-append b s)

pub remove_suffix-body : (s t b : Text) → remove_suffix s t ≡ some b → s ≡ b ++ t
unfolding remove_suffix
remove_suffix-body [] t b h = ground arith
remove_suffix-body (c ∷ s) t [] h = ground arith
remove_suffix-body (c ∷ s) t (d ∷ b) h = ground (arith, remove_suffix-body s t b)

module _ (sep : ℕ) where
  pub split-ne-nil : (s : Text) → split sep s ≢ []
  unfolding split
  split-ne-nil [] h = cc
  split-ne-nil (c ∷ s) h = ground arith

  extend_head-append :
      (c : ℕ) (xs ys : List Text) → xs ≢ [] → extend_head c (xs ++ ys) ≡ extend_head c xs ++ ys
  unfolding extend_head
  extend_head-append c [] ys h = absurd (h refl)
  extend_head-append c (x ∷ xs) ys h = refl

  -- A separator cuts the text in two.
  pub split-append : (s t : Text) → split sep (s ++ (sep ∷ t)) ≡ split sep s ++ split sep t
  unfolding split
  split-append [] t = ground arith
  split-append (c ∷ s) t =
      ground
        (arith, split-append s t, extend_head-append c (split sep s) (split sep t), split-ne-nil s)

  join-extend_head :
      (c : ℕ) (xs : List Text) → xs ≢ [] → join sep (extend_head c xs) ≡ c ∷ join sep xs
  unfolding extend_head join
  join-extend_head c [] h = absurd (h refl)
  join-extend_head c (x ∷ []) h = refl
  join-extend_head c (x ∷ y ∷ xs) h = refl

  join-cons_nil : (xs : List Text) → xs ≢ [] → join sep ([] ∷ xs) ≡ sep ∷ join sep xs
  unfolding join
  join-cons_nil [] h = absurd (h refl)
  join-cons_nil (x ∷ xs) h = refl

  pub join-split : (s : Text) → join sep (split sep s) ≡ s
  unfolding split
  join-split [] = unfold join in refl
  join-split (c ∷ s) = ground (
    arith,
    join-split s,
    join-cons_nil (split sep s),
    join-extend_head c (split sep s),
    split-ne-nil s,
  )

  pub join-append :
      (xs : List Text) (y : Text) (ys : List Text)
      → xs ≢ []
      → join sep (xs ++ (y ∷ ys)) ≡ join sep xs ++ (sep ∷ join sep (y ∷ ys))
  unfolding join
  join-append [] y ys h = absurd (h refl)
  join-append (x ∷ []) y ys h = refl
  join-append (x ∷ x' ∷ xs) y ys h = cc (
    join-append (x' ∷ xs) y ys (ground arith),
    append_assoc x (sep ∷ join sep (x' ∷ xs)) (sep ∷ join sep (y ∷ ys)),
  )

  -- A text that continues another behind a separator has the other's segments, and more.
  pub split-prefix :
      (s t : Text)
      → ((s ≡ t) ⊎ (starts_with t (s ++ (sep ∷ [])) ≡ true))
        ↔ ((rest : List Text) × (split sep t ≡ split sep s ++ rest))
  split-prefix s t = (forth, back)
    where
      forth :
          ((s ≡ t) ⊎ (starts_with t (s ++ (sep ∷ [])) ≡ true))
          → (rest : List Text) × (split sep t ≡ split sep s ++ rest)
      forth (inl same) = ([], rw same (sym (append-nil (split sep t))))
      forth (inr below) =
          let (u, e) = starts_with-rest t (s ++ (sep ∷ [])) below in
          (split sep u, rw e (rw append_assoc (split-append s u)))

      back :
          (rest : List Text) × (split sep t ≡ split sep s ++ rest)
          → (s ≡ t) ⊎ (starts_with t (s ++ (sep ∷ [])) ≡ true)
      back ([], e) = inl (cc (join-split s, join-split t, e, append-nil (split sep s)))
      back (y ∷ ys, e) =
          let u : Text = join sep (y ∷ ys) in
          let path : t ≡ (s ++ (sep ∷ [])) ++ u = cc (
            join-split s,
            join-split t,
            e,
            join-append (split sep s) y ys (split-ne-nil s),
            append_assoc s (sep ∷ []) u,
          ) in
          inr (rw path (starts_with-append (s ++ (sep ∷ [])) u))
