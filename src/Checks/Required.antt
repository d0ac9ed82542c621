-- ===== src/Checks/Required.antt =====
-- The choice of the required checks, for a policy and a plan that were read.
use coffee_order_system.Prelude.{
  ◌≡◌, refl, ap, sym, ◌∙◌, Bool, true, false, not, ◌&&◌, List, [], ◌∷◌, ◌++◌, map, arith, inl, inr,
  Bool-cases, if◌then◌else◌, ◌==◌, ==_refl, text_eq, contains, contains-append, Text, txt, keep,
  contains-keep, sorted_set, contains-sorted_set, sorted_set-IsSorted, IsSorted, before-not-in, any,
  any-witness, All,
}
use coffee_order_system.Outcome.{ok}
use coffee_order_system.Model.{Plan, RiskRule, RiskPolicy, RiskClassification}
use coffee_order_system.Gate.{classify_risks}
use coffee_order_system.Gate.Classify.{carries_risk, classify_risks_lem}
use coffee_order_system.PlanFile.Arrays.{IsNodup}
use coffee_order_system.PolicyFile.WellFormed.{IsPolicy}
use coffee_order_system.PolicyFile.Rules.{IsRule}
use coffee_order_system.Checks.{checks_of_risk, select_checks, required_check_ids, set_apart}

-- The entry of a risk has this check id.
abbrev pub asks : List (Text × List Text) → Text → Text → Bool
asks [] id risk = false
asks ((r, checks) ∷ entries) id risk =
    if r == risk then contains checks id else asks entries id risk

abbrev risks_of : List (Text × List Text) → List Text
risks_of = map (λ (entry : Text × List Text). entry.0)

checks_of_risk_lem :
    (entries : List (Text × List Text)) (risk : Text)
    → contains (risks_of entries) risk ≡ true
    → (checks : List Text) × (checks_of_risk entries risk ≡ ok checks)
      × ((id : Text) → contains checks id ≡ asks entries id risk)
unfolding checks_of_risk contains
checks_of_risk_lem [] risk m = absurd (ground arith)
checks_of_risk_lem ((r, checks) ∷ entries) risk m = elim (Bool-cases (r == risk)) [
  | inl here ↦ rw (here) ((checks, refl, λ id. refl))
  | inr there ↦ rw (there) (checks_of_risk_lem entries risk (ground arith))
]

select_checks_lem :
    (entries : List (Text × List Text)) (risks : List Text)
    → ((risk : Text) → contains risks risk ≡ true → contains (risks_of entries) risk ≡ true)
    → (selected : List Text) × (select_checks entries risks ≡ ok selected)
      × ((id : Text) → contains selected id ≡ any (asks entries id) risks)
unfolding select_checks any
select_checks_lem entries [] h = ([], refl, λ id. unfold contains in refl)
select_checks_lem entries (risk ∷ risks) h =
    let (checks, e, m) =
      checks_of_risk_lem entries risk (h risk (unfold contains in ground (arith, ==_refl risk))) in
    let (more, e', m') =
      select_checks_lem entries risks (λ r n. h r (unfold contains in ground arith)) in
    (
      checks ++ more,
      ground (arith, e, e'),
      λ id. ground (arith, contains-append checks more id, m id, m' id),
    )

rule_risks_known :
    (known : List Text) (rules : List RiskRule) (risk path : Text)
    → All (IsRule known) rules
    → carries_risk rules risk path ≡ true
    → contains known risk ≡ true
unfolding any
rule_risks_known known [] risk path h m = absurd (ground arith)
rule_risks_known known (rule ∷ rules) risk path h m = elim (Bool-cases (contains rule.risks risk)) [
  | inl here ↦ h.0.known risk here
  | inr there ↦ rule_risks_known known rules risk path h.1 (ground arith)
]

detected_known :
    (policy : RiskPolicy) (plan_path : Text) (changed : List Text) (risk : Text)
    → IsPolicy policy
    → contains (classify_risks changed policy plan_path).detected_risks risk ≡ true
    → contains policy.known_risks risk ≡ true
detected_known policy plan_path changed risk h m =
    let p : Text → Bool = λ path. not (path == plan_path) && carries_risk policy.rules risk path in
    let w =
      any-witness p changed (sym ((classify_risks_lem policy plan_path changed).1 risk) ∙ m) in
    rule_risks_known policy.known_risks policy.rules risk w.0 h.rules (ground (arith, w.2))

IsNodup-of_sorted : (xs : List Text) → IsSorted xs → IsNodup xs
IsNodup-of_sorted [] h = tt
IsNodup-of_sorted (x ∷ xs) h = (before-not-in x xs h.1 h.0, IsNodup-of_sorted xs h.1)

module _ (policy : RiskPolicy) (plan : Plan) (changed : List Text) (valid : IsPolicy policy)
    (declared_known : (r : Text)
      → contains plan.declared_risks r ≡ true
      → contains policy.known_risks r ≡ true) where
  abbrev found : RiskClassification
  found = classify_risks changed policy plan.relative_path

  risks_have_checks :
      (risk : Text)
      → contains (plan.declared_risks ++ found.detected_risks) risk ≡ true
      → contains (risks_of policy.risk_checks) risk ≡ true
  risks_have_checks risk m =
      rw (valid.entries) (elim (Bool-cases (contains plan.declared_risks risk)) [
        | inl d ↦ declared_known risk d
        | inr n ↦
            detected_known policy plan.relative_path changed risk valid
              (ground (arith, m, n, contains-append plan.declared_risks found.detected_risks risk))
      ])

  -- For a well-formed policy, a plan that declares known risks only, and any changed paths, the choice
  -- of the required checks returns: "harness.unit", "gradle.test" and distinct further ids, which are
  -- exactly those that the entry of a declared or detected risk names, the ones set apart aside.
  pub required_check_ids_lem :
      (rest : List Text) × (required_check_ids plan found policy
        ≡ ok (txt "harness.unit" ∷ txt "gradle.test" ∷ rest))
      × IsNodup rest
      × ((id : Text)
          → contains rest id ≡ (
              not (contains set_apart id)
              && any (asks policy.risk_checks id) (plan.declared_risks ++ found.detected_risks)))
  unfolding required_check_ids
  required_check_ids_lem =
      let (selected, e, m) =
        select_checks_lem policy.risk_checks (plan.declared_risks ++ found.detected_risks)
          risks_have_checks in
      let kept = keep (λ id. not (contains set_apart id)) selected in
      (
        sorted_set kept,
        rw e refl,
        IsNodup-of_sorted (sorted_set kept) (sorted_set-IsSorted kept),
        λ id.
            contains-sorted_set kept id
            ∙ contains-keep (λ i. not (contains set_apart i)) selected id
            ∙ ap (λ b. not (contains set_apart id) && b) (m id),
      )
