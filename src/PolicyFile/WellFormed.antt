-- ===== src/PolicyFile/WellFormed.antt =====
-- What the reading of a risk policy promises of the policy that it returns.
use coffee_order_system.Prelude.{
  ℕ, ◌≡◌, refl, subst, ap, true, false, not, List, [], ◌∷◌, ◌++◌, map, arith, ◌==◌, nat_eq, text_eq,
  texts_eq, contains, Text, txt, keep, sorted_set, All,
}
use coffee_order_system.Outcome.{ok, >>=-eq-ok, ok-injective, reject_if, reject_if-eq-ok, rethrow}
use coffee_order_system.Json.{Fields, get_item, keys, Library, parse_json_object}
use coffee_order_system.Paths.Safe.{IsSafe}
use coffee_order_system.Model.{RiskPolicy}
use coffee_order_system.PlanFile.{check_each}
use coffee_order_system.PlanFile.Arrays.{IsArray}
use coffee_order_system.PlanFile.WellFormed.{check_each-contains}
use coffee_order_system.PolicyFile.{
  policy_string_array, validate_policy_pattern, parse_rules, parse_risk_checks, parse_policy_fields,
  object_of, items_of, same_set, policy_fields, is_version_one, as_policy_error, parse_risk_policy,
}
use coffee_order_system.Gate.Differences.{sorted_keep-nil}
use coffee_order_system.Gate.Contract.{nil-of_test}
use coffee_order_system.PolicyFile.Rules.{
  IsRule, IsApart, IsDisjoint, IsDisjoint-sym, validate_policy_pattern-IsSafe, parse_rules_lem,
  policy_string_array-IsArray,
}

-- The entries of `riskChecks`: one for each known risk, in order, with a valid array of check ids.
abbrev AreEntries : List Text → List (Text × List Text) → Type 0
AreEntries risks entries =
    (map (λ (entry : Text × List Text). entry.0) entries ≡ risks)
    × All (λ (entry : Text × List Text). IsArray true entry.1) entries

-- No two entries share a check id, and none has one of these.
abbrev pub AreApart : List Text → List (Text × List Text) → Type 0
AreApart seen [] = Unit
AreApart seen ((risk, checks) ∷ entries) =
    IsDisjoint seen checks × AreApart (checks ++ seen) entries

parse_risk_checks_lem :
    (raw : Fields) (seen risks : List Text) (entries : List (Text × List Text))
    → parse_risk_checks raw seen risks ≡ ok entries
    → AreEntries risks entries × AreApart seen entries
unfolding parse_risk_checks
parse_risk_checks_lem raw seen [] [] h = ((refl, tt), tt)
parse_risk_checks_lem raw seen [] (e ∷ entries) h = absurd (ground arith)
parse_risk_checks_lem raw seen (risk ∷ risks) out h =
    let (j, _, h1) = >>=-eq-ok (get_item risk raw) _ h in
    let (checks, hc, h2) =
      >>=-eq-ok (policy_string_array j (txt "riskChecks." ++ risk) false) _ h1 in
    let (_, hd, h3) =
      >>=-eq-ok (reject_if (not (sorted_set (keep (contains seen) checks) == [])) _) _ h2 in
    let (entries, he, e) = >>=-eq-ok (parse_risk_checks raw (checks ++ seen) risks) _ h3 in
    let rest = parse_risk_checks_lem raw (checks ++ seen) risks entries he in
    let apart =
      (sorted_keep-nil (contains seen) checks).0 (nil-of_test _ (reject_if-eq-ok _ _ hd)) in
    subst (λ (es : List (Text × List Text)). AreEntries (risk ∷ risks) es × AreApart seen es)
      (ok-injective ((risk, checks) ∷ entries) out e)
      (
        (
          ap (λ rs. risk ∷ rs) rest.0.0,
          (policy_string_array-IsArray j _ false checks hc, rest.0.1),
        ),
        (IsDisjoint-sym checks seen apart, rest.1),
      )

pub record IsPolicy (policy : RiskPolicy) : Type 0 where
  pub known : IsArray true policy.known_risks
  pub rules : All (IsRule policy.known_risks) policy.rules
  pub apart : IsApart policy.rules
  pub protected : IsArray true policy.protected_patterns
  pub safe : (p : Text) → contains policy.protected_patterns p ≡ true → IsSafe p
  pub entries : map (λ (entry : Text × List Text). entry.0) policy.risk_checks ≡ policy.known_risks
  pub arrays : All (λ (entry : Text × List Text). IsArray true entry.1) policy.risk_checks
  pub checks_apart : AreApart [] policy.risk_checks

parse_policy_fields-IsPolicy :
    (payload : Fields) (policy : RiskPolicy)
    → parse_policy_fields payload ≡ ok policy
    → IsPolicy policy
unfolding parse_policy_fields
parse_policy_fields-IsPolicy payload policy h =
    let (_, _, h1) = >>=-eq-ok (reject_if (not (same_set (keys payload) policy_fields)) _) _ h in
    let (jv, _, h2) = >>=-eq-ok (get_item (txt "schemaVersion") payload) _ h1 in
    let (_, _, h3) = >>=-eq-ok (reject_if (not (is_version_one jv)) _) _ h2 in
    let (jk, _, h4) = >>=-eq-ok (get_item (txt "knownRisks") payload) _ h3 in
    let (known, hk, h5) = >>=-eq-ok (policy_string_array jk (txt "knownRisks") false) _ h4 in
    let (jr, _, h6) = >>=-eq-ok (get_item (txt "rules") payload) _ h5 in
    let (raw, _, h7) = >>=-eq-ok (items_of _ jr) _ h6 in
    let (rules, hr, h8) = >>=-eq-ok (parse_rules known [] [] raw) _ h7 in
    let (jp, _, h9) = >>=-eq-ok (get_item (txt "protectedPatterns") payload) _ h8 in
    let (protected, hp, h10) =
      >>=-eq-ok (policy_string_array jp (txt "protectedPatterns") false) _ h9 in
    let (_, hs, h11) = >>=-eq-ok (check_each validate_policy_pattern protected) _ h10 in
    let (jc, _, h12) = >>=-eq-ok (get_item (txt "riskChecks") payload) _ h11 in
    let (fields, _, h13) = >>=-eq-ok (object_of _ jc) _ h12 in
    let (_, _, h14) = >>=-eq-ok (reject_if (not (same_set (keys fields) known)) _) _ h13 in
    let (entries, he, e) = >>=-eq-ok (parse_risk_checks fields [] known) _ h14 in
    let rules_ok = parse_rules_lem known [] [] raw rules hr in
    let entries_ok = parse_risk_checks_lem fields [] known entries he in
    subst IsPolicy (ok-injective _ policy e) (record {
      known = policy_string_array-IsArray jk _ false known hk;
      rules = rules_ok.0;
      apart = rules_ok.2;
      protected = policy_string_array-IsArray jp _ false protected hp;
      safe = λ p m.
          validate_policy_pattern-IsSafe p
            (check_each-contains validate_policy_pattern protected hs p m);
      entries = entries_ok.0.0;
      arrays = entries_ok.0.1;
      checks_apart = entries_ok.1;
    })

-- A policy that is read from bytes is well formed: its risks, patterns and check ids are valid arrays,
-- its patterns are safe, no two rules share their id or a pattern, the rules have known risks only, and
-- `riskChecks` has an entry for each known risk, in order, no two of them with a check id in common.
pub parse_risk_policy-IsPolicy :
    (library : Library) (raw : List ℕ) (policy : RiskPolicy)
    → parse_risk_policy library raw ≡ ok policy
    → IsPolicy policy
unfolding parse_risk_policy
parse_risk_policy-IsPolicy library raw policy h =
    let (payload, _, h1) =
      >>=-eq-ok
        (rethrow as_policy_error
          (parse_json_object library raw (txt "policy.schema") (txt "risk policy")))
        _ h in
    parse_policy_fields-IsPolicy payload policy h1
