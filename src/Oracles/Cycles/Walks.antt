-- ===== src/Oracles/Cycles/Walks.antt =====
-- scripts/harness-oracles.py: the paths and the orders that `_find_cycle` keeps.
use coffee_order_system.Prelude.{
  ◌≡◌, refl, sym, ap, ◌∙◌, subst, inl, inr, true, false, not, List, [], ◌∷◌, ◌++◌, ◌==◌, ==_iff,
  text_eq, contains, keep, Bool-cases, Text, arith,
}
use coffee_order_system.Oracles.Cycles.{Graph, from_first, pop}

pub pop-append : (xs : List Text) (n : Text) → pop (xs ++ (n ∷ [])) ≡ xs
unfolding pop
pop-append [] n = refl
pop-append (x ∷ []) n = refl
pop-append (x ∷ y ∷ xs) n = ap (λ r. x ∷ r) (pop-append (y ∷ xs) n)

keep_others : (vs : List Text) (n : Text) → contains vs n ≡ false → keep (λ k. not (k == n)) vs ≡ vs
unfolding keep contains
keep_others [] n h = refl
keep_others (v ∷ vs) n h = let rest = keep_others vs n in ground (arith, h, rest)

-- What is added to a set and removed is gone.
pub keep-fresh :
    (vs : List Text) (n : Text) → contains vs n ≡ false → keep (λ k. not (k == n)) (n ∷ vs) ≡ vs
unfolding keep
keep-fresh vs n h = let rest = keep_others vs n h in ground (arith, rest)

module _ (g : Graph) where
  abbrev pub Follows : Text → Text → Type 0
  Follows a b = contains (g.targets a) b ≡ true

  -- Each is followed by the next.
  abbrev pub IsChain : List Text → Type 0
  IsChain [] = Unit
  IsChain (x ∷ []) = Unit
  IsChain (x ∷ y ∷ xs) = Follows x y × IsChain (y ∷ xs)

  pub IsChain-append :
      (xs : List Text) (n t : Text)
      → IsChain (xs ++ (n ∷ []))
      → Follows n t
      → IsChain ((xs ++ (n ∷ [])) ++ (t ∷ []))
  IsChain-append [] n t h f = (f, tt)
  IsChain-append (x ∷ []) n t h f = (h.0, (f, tt))
  IsChain-append (x ∷ y ∷ xs) n t h f = (h.0, IsChain-append (y ∷ xs) n t h.1 f)

  IsChain-tail : (x : Text) (xs : List Text) → IsChain (x ∷ xs) → IsChain xs
  IsChain-tail x [] h = tt
  IsChain-tail x (y ∷ xs) h = h.1

  -- A chain that comes back to where it began.
  pub record IsCycle (cycle : List Text) : Type 0 where
    pub start : Text
    pub middle : List Text
    pub closed : cycle ≡ start ∷ (middle ++ (start ∷ []))
    pub chain : IsChain cycle

  pub from_first-IsCycle :
      (n : Text) (path : List Text)
      → contains path n ≡ true
      → IsChain (path ++ (n ∷ []))
      → IsCycle (from_first n path ++ (n ∷ []))
  unfolding from_first contains
  from_first-IsCycle n [] m h = absurd (ground (arith, m))
  from_first-IsCycle n (p ∷ path) m h = elim (Bool-cases (p == n)) [
    | inl same ↦
        let begin : from_first n (p ∷ path) ≡ n ∷ path = ground (arith, same) in
        let whole : p ∷ path ≡ n ∷ path = ap (λ x. x ∷ path) ((==_iff p n).0 same) in
        record {
          start = n;
          middle = path;
          closed = ap (λ xs. xs ++ (n ∷ [])) begin;
          chain = subst (λ xs. IsChain (xs ++ (n ∷ []))) (whole ∙ sym begin) h;
        }
    | inr other ↦
        let later : from_first n (p ∷ path) ≡ from_first n path = ground (arith, other) in
        subst (λ xs. IsCycle (xs ++ (n ∷ []))) (sym later)
          (from_first-IsCycle n path (ground (arith, m, other))
            (IsChain-tail p (path ++ (n ∷ [])) h))
  ]

  -- What follows one of the list comes later in it.
  abbrev pub IsOrdered : List Text → Type 0
  IsOrdered [] = Unit
  IsOrdered (v ∷ vs) =
      ((t : Text) → Follows v t → contains vs t ≡ true) × (contains vs v ≡ false) × IsOrdered vs

  pub IsOrdered-closed :
      (vs : List Text) (a b : Text)
      → IsOrdered vs
      → contains vs a ≡ true
      → Follows a b
      → contains vs b ≡ true
  unfolding contains
  IsOrdered-closed [] a b o m f = absurd (ground (arith, m))
  IsOrdered-closed (v ∷ vs) a b o m f = elim (Bool-cases (a == v)) [
    | inl here ↦
        let later = o.0 b (subst (λ x. Follows x b) ((==_iff a v).0 here) f) in
        ground (arith, later)
    | inr there ↦
        let later = IsOrdered-closed vs a b o.2 (ground (arith, m, there)) f in
        ground (arith, later)
  ]
