-- ===== src/Contracts/Architecture/Imports.antt =====
-- scripts/harness-oracles.py: what the loop over the imports of a file collects.
use coffee_order_system.Prelude.{
  ◌≡◌, cond, refl, ap, subst, ◌⊎◌, inl, inr, true, false, ◌&&◌, List, [], ◌∷◌, ◌++◌, ◌==◌, ==_iff,
  text_eq, texts_eq, Text, txt, All, arith, Bool-cases,
}
use coffee_order_system.Oracles.Cycles.Edges.{HasPair}
use coffee_order_system.Contracts.Architecture.Names.{
  IsUnder, layer_matches-true, IsLayer, layer-IsLayer,
}
use coffee_order_system.Contracts.Architecture.{
  layer, layer_matches, Dependencies, broken_rules, import_of, imports_of,
}

-- The import goes outside; or no rule has the source under its first layer and the target under its second, and the
-- two are an edge.
abbrev pub IsAllowed : List (Text × Text) → List (Text × Text) → Text → Text → Type 0
IsAllowed rules edges source target =
    (target ≡ txt "external")
    ⊎ (All (λ rule. IsUnder source rule.0 → IsUnder target rule.1 → ⊥) rules
        × HasPair edges source target)

-- What is collected is kept.
pub record Extends (before after : Dependencies) : Type 0 where
  pub edges : (a b : Text) → HasPair before.edges a b → HasPair after.edges a b
  pub violations : after.violations ≡ [] → before.violations ≡ []

nil_parts : {A : Type 0} (xs ys : List A) → xs ++ ys ≡ [] → (xs ≡ []) × (ys ≡ [])
nil_parts [] ys h = (refl, h)
nil_parts (x ∷ xs) ys h = absurd (ground (arith, h))

none_broken :
    (file : Text) (rules : List (Text × Text)) (source target : Text)
    → broken_rules file rules source target ≡ []
    → All (λ rule. IsUnder source rule.0 → IsUnder target rule.1 → ⊥) rules
unfolding broken_rules
none_broken file [] source target h = tt
none_broken file (rule ∷ rules) source target h = (
  (λ a b.
      let from = layer_matches-true source rule.0 a in
      let to = layer_matches-true target rule.1 b in ground (arith, h, from, to)),
  none_broken file rules source target
      (elim (Bool-cases (layer_matches source rule.0 && layer_matches target rule.1)) [
        | inl bad ↦ absurd (ground (arith, h, bad))
        | inr good ↦ ground (arith, h, good)
      ]),
)

module _ (file : Text) (rules : List (Text × Text)) (source : Text) where
  import_outside :
      (target : Text) (d : Dependencies)
      → (target == txt "external") ≡ true
      → import_of file rules source target d ≡ d
  unfolding import_of
  import_outside target d h = ground (arith, h)

  abbrev with_import : Text → Dependencies → Dependencies
  with_import target d = record {
    edges = (source, target) ∷ d.edges;
    violations = d.violations ++ broken_rules file rules source target;
  }

  import_inside :
      (target : Text) (d : Dependencies)
      → (target == txt "external") ≡ false
      → import_of file rules source target d ≡ with_import target d
  unfolding import_of
  import_inside target d h = ap (λ b. cond b d (with_import target d)) h

  import_lem :
      (target : Text) (d after : Dependencies)
      → Extends (import_of file rules source target d) after
      → after.violations ≡ []
      → Extends d after × IsAllowed rules after.edges source target
  import_lem target d after h clean = elim (Bool-cases (target == txt "external")) [
    | inl outside ↦ (
      subst (λ x. Extends x after) (import_outside target d outside) h,
      inl ((==_iff target (txt "external")).0 outside),
    )
    | inr inside ↦
        let grown : Extends (with_import target d) after =
          subst (λ x. Extends x after) (import_inside target d inside) h in
        let (kept, unbroken) =
          nil_parts d.violations (broken_rules file rules source target) (grown.violations clean) in
        (
          record { edges = λ a b m. grown.edges a b (inr m); violations = λ e. kept },
          inr (
            none_broken file rules source target unbroken,
            grown.edges source target (inl (refl, refl)),
          ),
        )
  ]

  pub imports_lem :
      (imported : List Text) (d after : Dependencies)
      → Extends (imports_of file rules source imported d) after
      → after.violations ≡ []
      → Extends d after
        × All
            (λ name.
              (target : Text) × IsLayer name target × IsAllowed rules after.edges source target)
            imported
  unfolding imports_of
  imports_lem [] d after h clean = (h, tt)
  imports_lem (name ∷ imported) d after h clean =
      let (mid, rest) =
        imports_lem imported (import_of file rules source (layer name) d) after h clean in
      let (first, allowed) = import_lem (layer name) d after mid clean in
      (first, ((layer name, layer-IsLayer name, allowed), rest))
