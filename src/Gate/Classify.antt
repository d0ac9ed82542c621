-- ===== src/Gate/Classify.antt =====
-- `classify_risks` by its members.
use coffee_order_system.Prelude.{
  ◌≡◌, ◌∙◌, Bool, false, not, ◌&&◌, ◌||◌, List, [], ◌∷◌, arith, ◌==◌, text_eq, contains,
  contains-append, Text, sorted_set, contains-sorted_set, any-sorted_set, any, texts_eq,
}
use coffee_order_system.Model.{RiskRule, RiskPolicy}
use coffee_order_system.Gate.{any_matches, match_rules, classify_paths, classify_risks}

-- Some rule has a pattern that matches the path.
abbrev pub is_classified : List RiskRule → Text → Bool
is_classified rules path = any (λ (rule : RiskRule). any_matches rule.patterns path) rules

-- Some rule with the risk has a pattern that matches the path.
abbrev pub carries_risk : List RiskRule → Text → Text → Bool
carries_risk rules risk path =
    any (λ (rule : RiskRule). any_matches rule.patterns path && contains rule.risks risk) rules

match_rules-matched :
    (path : Text) (rules : List RiskRule) (matched : Bool) (detected : List Text)
    → (match_rules path rules matched detected).0 ≡ (matched || is_classified rules path)
unfolding match_rules any
match_rules-matched path [] matched detected = ground arith
match_rules-matched path (rule ∷ rules) matched detected =
    match_rules-matched path rules _ _ ∙ ground arith

match_rules-detected :
    (path risk : Text) (rules : List RiskRule) (matched : Bool) (detected : List Text)
    → contains (match_rules path rules matched detected).1 risk
      ≡ (contains detected risk || carries_risk rules risk path)
unfolding match_rules any
match_rules-detected path risk [] matched detected = ground arith
match_rules-detected path risk (rule ∷ rules) matched detected =
    match_rules-detected path risk rules _ _
    ∙ ground (arith, contains-append detected rule.risks risk)

module _ (policy : RiskPolicy) (plan_path : Text) where
  classify_paths-unclassified :
      (paths detected unclassified : List Text) (path : Text)
      → contains
          (classify_paths paths policy plan_path detected unclassified).unclassified_paths
          path
        ≡ (contains unclassified path
            || contains paths path
              && not (path == plan_path)
              && not (is_classified policy.rules path))
  unfolding classify_paths
  classify_paths-unclassified [] detected unclassified path = unfold contains in ground arith
  classify_paths-unclassified (p ∷ paths) detected unclassified path =
      classify_paths-unclassified paths _ _ path
      ∙ unfold contains in
        ground (
          arith,
          match_rules-matched p policy.rules false detected,
          contains-append unclassified (p ∷ []) path,
        )

  classify_paths-detected :
      (paths detected unclassified : List Text) (risk : Text)
      → contains (classify_paths paths policy plan_path detected unclassified).detected_risks risk
        ≡ (contains detected risk
            || any (λ path. not (path == plan_path) && carries_risk policy.rules risk path) paths)
  unfolding classify_paths
  classify_paths-detected [] detected unclassified risk =
      unfold any in ground (arith, contains-sorted_set detected risk)
  classify_paths-detected (p ∷ paths) detected unclassified risk =
      classify_paths-detected paths _ _ risk
      ∙ unfold any in ground (arith, match_rules-detected p risk policy.rules false detected)

  -- `classify_risks` leaves unclassified exactly the changed paths, the plan aside, that no rule
  -- matches, and it detects exactly the risks of the rules that match a changed path other than
  -- the plan: every risk of every such rule.
  pub classify_risks_lem :
      (changed : List Text)
      → let found = classify_risks changed policy plan_path in
        ((path : Text)
          → contains found.unclassified_paths path ≡ (
              contains changed path
              && not (path == plan_path)
              && not (is_classified policy.rules path)))
        × ((risk : Text)
            → contains found.detected_risks risk
              ≡ any
                  (λ path. not (path == plan_path) && carries_risk policy.rules risk path)
                  changed)
  unfolding classify_risks
  classify_risks_lem changed = (
    λ path.
        classify_paths-unclassified (sorted_set changed) [] [] path
        ∙ unfold contains in ground (arith, contains-sorted_set changed path),
    λ risk.
        classify_paths-detected (sorted_set changed) [] [] risk
        ∙ unfold contains in any-sorted_set _ changed,
  )
