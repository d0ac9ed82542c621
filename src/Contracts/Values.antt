-- ===== src/Contracts/Values.antt =====
-- scripts/harness-oracles.py: which JSON values its tests on the contracts let through.
use coffee_order_system.Prelude.{
  ◌≡◌, ◌≢◌, refl, ap, ◌∙◌, sym, subst, some, List, [], ◌∷◌, Text, txt, arith, Option-cases, inl,
  inr,
}
use coffee_order_system.Json.{Json, null, bool, int, float, str, arr, obj, Items, nil, cons, Fields}
use coffee_order_system.Publish.{get_or_null}
use coffee_order_system.Contracts.{
  Reply, replied, oracle_failure, os_error, escaped, filled_items, as_text, reply_injective,
}
use coffee_order_system.Contracts.Architecture.{rule_of, push, rules_of}
use coffee_order_system.Contracts.Routes.{filled_value}

pub filled_items-arr : (j : Json) {items : Items} → filled_items j ≡ some items → j ≡ arr items
unfolding filled_items
filled_items-arr (arr (cons x xs)) h = cc
filled_items-arr (arr nil) h = absurd (ground (arith, h))
filled_items-arr null h = absurd (ground (arith, h))
filled_items-arr (bool b) h = absurd (ground (arith, h))
filled_items-arr (int i) h = absurd (ground (arith, h))
filled_items-arr (float t) h = absurd (ground (arith, h))
filled_items-arr (str s) h = absurd (ground (arith, h))
filled_items-arr (obj fs) h = absurd (ground (arith, h))

pub as_text-str : (j : Json) {s : Text} → as_text j ≡ some s → j ≡ str s
unfolding as_text
as_text-str (str s) h = cc
as_text-str null h = absurd (ground (arith, h))
as_text-str (bool b) h = absurd (ground (arith, h))
as_text-str (int i) h = absurd (ground (arith, h))
as_text-str (float t) h = absurd (ground (arith, h))
as_text-str (arr items) h = absurd (ground (arith, h))
as_text-str (obj fs) h = absurd (ground (arith, h))

pub filled_value-str : (j : Json) {s : Text} → filled_value j ≡ some s → (j ≡ str s) × (s ≢ [])
filled_value-str (str []) h = absurd (ground (arith, h))
filled_value-str (str (c ∷ s)) h = (cc, λ e. ground (arith, h, e))
filled_value-str null h = absurd (ground (arith, h))
filled_value-str (bool b) h = absurd (ground (arith, h))
filled_value-str (int i) h = absurd (ground (arith, h))
filled_value-str (float t) h = absurd (ground (arith, h))
filled_value-str (arr items) h = absurd (ground (arith, h))
filled_value-str (obj fs) h = absurd (ground (arith, h))

-- The raw rule names the two layers of the rule.
abbrev pub IsRule : Json → Text × Text → Type 0
IsRule raw rule =
    (fs : Fields) × (raw ≡ obj fs)
    × (get_or_null (txt "from") fs ≡ str rule.0)
    × (get_or_null (txt "to") fs ≡ str rule.1)

-- One rule for each raw one, in their order.
abbrev pub AreRules : Items → List (Text × Text) → Type 0
AreRules nil [] = Unit
AreRules nil (rule ∷ rules) = ⊥
AreRules (cons raw more) [] = ⊥
AreRules (cons raw more) (rule ∷ rules) = IsRule raw rule × AreRules more rules

rule_of-IsRule : (raw : Json) {rule : Text × Text} → rule_of raw ≡ replied rule → IsRule raw rule
unfolding rule_of
rule_of-IsRule (obj fs) {rule} h = elim (Option-cases (as_text (get_or_null (txt "from") fs))) [
  | inl e ↦ absurd (ground (arith, h, e))
  | inr (source, e) ↦ elim (Option-cases (as_text (get_or_null (txt "to") fs))) [
    | inl f ↦ absurd (ground (arith, h, e, f))
    | inr (target, f) ↦
        let same : (source, target) ≡ rule = reply_injective (ground (arith, h, e, f)) in
        (
          fs,
          refl,
          as_text-str (get_or_null (txt "from") fs) (e ∙ ap (λ (r : Text × Text). some r.0) same),
          as_text-str (get_or_null (txt "to") fs) (f ∙ ap (λ (r : Text × Text). some r.1) same),
        )
  ]
]
rule_of-IsRule null h = absurd (ground (arith, h))
rule_of-IsRule (bool b) h = absurd (ground (arith, h))
rule_of-IsRule (int i) h = absurd (ground (arith, h))
rule_of-IsRule (float t) h = absurd (ground (arith, h))
rule_of-IsRule (str s) h = absurd (ground (arith, h))
rule_of-IsRule (arr items) h = absurd (ground (arith, h))

pushed :
    {A : Type 0} (r : Reply A) (rest : Reply (List A)) {all : List A}
    → push r rest ≡ replied all
    → (a : A) × (more : List A) × (r ≡ replied a) × (rest ≡ replied more) × (all ≡ a ∷ more)
pushed (replied a) (replied more) h = (a, more, refl, refl, reply_injective (sym h))
pushed (replied a) (oracle_failure e) h = absurd (ground (arith, h))
pushed (replied a) (os_error e) h = absurd (ground (arith, h))
pushed (replied a) (escaped e) h = absurd (ground (arith, h))
pushed (oracle_failure e) rest h = absurd (ground (arith, h))
pushed (os_error e) rest h = absurd (ground (arith, h))
pushed (escaped e) rest h = absurd (ground (arith, h))

pub rules_of-AreRules :
    (raw : Items) {rules : List (Text × Text)} → rules_of raw ≡ replied rules → AreRules raw rules
unfolding rules_of
rules_of-AreRules nil {rules} h = subst (AreRules nil) (reply_injective h) tt
rules_of-AreRules (cons raw more) {rules} h =
    let (rule, rest, e, f, same) = pushed (rule_of raw) (rules_of more) h in
    subst (AreRules (cons raw more)) (sym same) (rule_of-IsRule raw e, rules_of-AreRules more f)
