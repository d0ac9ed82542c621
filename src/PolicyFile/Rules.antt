-- ===== src/PolicyFile/Rules.antt =====
-- What the reading of the rules of a policy promises of the rules that it returns.
use coffee_order_system.Prelude.{
  ◌≡◌, subst, sym, Bool, true, false, not, ◌||◌, List, [], ◌∷◌, arith, inl, inr, Bool-cases, ◌==◌,
  ==_iff, nat_eq, text_eq, texts_eq, contains, Text, txt, All, All-map,
}
use coffee_order_system.Outcome.{
  ok, >>=-eq-ok, ok-injective, reject_if, reject_if-eq-ok, rethrow-eq-ok,
}
use coffee_order_system.Json.{Json, Items, nil, cons, get_item, keys}
use coffee_order_system.Paths.Safe.{IsSafe, validate_repository_pattern-IsSafe}
use coffee_order_system.Model.{RiskRule}
use coffee_order_system.PlanFile.{require_known, check_string}
use coffee_order_system.PlanFile.Arrays.{
  IsTrimmed, IsArray, check_string-IsTrimmed, checked_array-IsArray,
}
use coffee_order_system.PlanFile.WellFormed.{known-of_require}
use coffee_order_system.PolicyFile.{
  policy_error, policy_string_array, validate_policy_pattern, check_rule_patterns, parse_rule,
  parse_rules, object_of, same_set, rule_fields,
}

pub record IsRule (known_risks : List Text) (rule : RiskRule) : Type 0 where
  pub rule_id : IsTrimmed rule.rule_id
  pub patterns : IsArray true rule.patterns
  pub safe : (p : Text) → contains rule.patterns p ≡ true → IsSafe p
  pub risks : IsArray false rule.risks
  pub known : (r : Text) → contains rule.risks r ≡ true → contains known_risks r ≡ true

-- No text is in both lists.
abbrev pub IsDisjoint : List Text → List Text → Type 0
IsDisjoint xs ys = (p : Text) → contains xs p ≡ true → contains ys p ≡ false

pub IsDisjoint-sym : (xs ys : List Text) → IsDisjoint xs ys → IsDisjoint ys xs
IsDisjoint-sym xs ys h p m = elim (Bool-cases (contains xs p)) [
  | inl both ↦ absurd (ground (arith, h p both))
  | inr other ↦ other
]

-- The rule has neither one of these ids nor one of these patterns.
abbrev pub IsNew : List Text → List Text → RiskRule → Type 0
IsNew rule_ids all_patterns rule =
    (contains rule_ids rule.rule_id ≡ false) × IsDisjoint all_patterns rule.patterns

-- No two rules share their id or a pattern.
abbrev pub IsApart : List RiskRule → Type 0
IsApart [] = Unit
IsApart (rule ∷ rules) = All (IsNew (rule.rule_id ∷ []) rule.patterns) rules × IsApart rules

pub validate_policy_pattern-IsSafe : (p : Text) → validate_policy_pattern p ≡ ok tt → IsSafe p
unfolding validate_policy_pattern
validate_policy_pattern-IsSafe p h =
    validate_repository_pattern-IsSafe p (txt "policy.schema") (rethrow-eq-ok _ _ h)

check_rule_patterns_lem :
    (all_patterns patterns after : List Text)
    → check_rule_patterns all_patterns patterns ≡ ok after
    → ((p : Text) → contains after p ≡ (contains all_patterns p || contains patterns p))
      × ((p : Text) → contains patterns p ≡ true → IsSafe p × (contains all_patterns p ≡ false))
unfolding check_rule_patterns contains
check_rule_patterns_lem all_patterns [] after h = (λ p. ground arith, λ p m. absurd (ground arith))
check_rule_patterns_lem all_patterns (q ∷ patterns) after h =
    let (u, valid, h1) = >>=-eq-ok (validate_policy_pattern q) _ h in
    let (v, new, h2) = >>=-eq-ok (reject_if (contains all_patterns q) _) _ h1 in
    let ih = check_rule_patterns_lem (q ∷ all_patterns) patterns after h2 in
    let is_new = reject_if-eq-ok _ _ new in
    (
      λ p. let e = ih.0 p in ground (arith, e),
      λ p m. elim (Bool-cases (p == q)) [
        | inl here ↦
            subst (λ (t : Text). IsSafe t × (contains all_patterns t ≡ false))
              (sym ((==_iff p q).0 here)) (validate_policy_pattern-IsSafe q valid, is_new)
        | inr there ↦ let l = ih.1 p (ground arith) in (l.0, ground (arith, l.1))
      ],
    )

pub policy_string_array-IsArray :
    (j : Json) (field : Text) (allow_empty : Bool) (ss : List Text)
    → policy_string_array j field allow_empty ≡ ok ss
    → IsArray (not allow_empty) ss
unfolding policy_string_array
policy_string_array-IsArray j field allow_empty ss h =
    checked_array-IsArray policy_error field (not allow_empty) j ss h

abbrev IsParsed : List Text → List Text → List Text → RiskRule × List Text → Type 0
IsParsed known rule_ids all_patterns (rule, after) =
    IsRule known rule
    × IsNew rule_ids all_patterns rule
    × ((p : Text) → contains after p ≡ (contains all_patterns p || contains rule.patterns p))

parse_rule-IsParsed :
    (known rule_ids all_patterns : List Text) (raw : Json) (out : RiskRule × List Text)
    → parse_rule known rule_ids all_patterns raw ≡ ok out
    → IsParsed known rule_ids all_patterns out
unfolding parse_rule
parse_rule-IsParsed known rule_ids all_patterns raw out h =
    let (fields, _, h1) = >>=-eq-ok (object_of _ raw) _ h in
    let (_, _, h2) = >>=-eq-ok (reject_if (not (same_set (keys fields) rule_fields)) _) _ h1 in
    let (ji, _, h3) = >>=-eq-ok (get_item (txt "id") fields) _ h2 in
    let (id, hi, h4) = >>=-eq-ok (check_string policy_error (txt "rules.id") ji) _ h3 in
    let (_, new, h5) = >>=-eq-ok (reject_if (contains rule_ids id) _) _ h4 in
    let (jp, _, h6) = >>=-eq-ok (get_item (txt "patterns") fields) _ h5 in
    let (patterns, hp, h7) = >>=-eq-ok (policy_string_array jp (txt "rules.patterns") false) _ h6 in
    let (after, ha, h8) = >>=-eq-ok (check_rule_patterns all_patterns patterns) _ h7 in
    let (jr, _, h9) = >>=-eq-ok (get_item (txt "risks") fields) _ h8 in
    let (risks, hr, h10) = >>=-eq-ok (policy_string_array jr (txt "rules.risks") true) _ h9 in
    let (_, hk, e) = >>=-eq-ok (require_known policy_error risks known) _ h10 in
    let l = check_rule_patterns_lem all_patterns patterns after ha in
    subst (IsParsed known rule_ids all_patterns) (ok-injective _ out e) (
      record {
        rule_id = check_string-IsTrimmed policy_error _ ji id hi;
        patterns = policy_string_array-IsArray jp _ false patterns hp;
        safe = λ p m. (l.1 p m).0;
        risks = policy_string_array-IsArray jr _ true risks hr;
        known = known-of_require policy_error risks known hk;
      },
      (reject_if-eq-ok _ _ new, IsDisjoint-sym patterns all_patterns (λ p m. (l.1 p m).1)),
      l.0,
    )

IsNew-weaken :
    (rule : RiskRule) (rule_ids all_patterns after : List Text)
    → ((p : Text) → contains after p ≡ (contains all_patterns p || contains rule.patterns p))
    → (other : RiskRule) → IsNew (rule.rule_id ∷ rule_ids) after other
    → IsNew rule_ids all_patterns other × IsNew (rule.rule_id ∷ []) rule.patterns other
IsNew-weaken rule rule_ids all_patterns after e other (i, h) = (
  (unfold contains in ground (arith, i), λ p m. h p (ground (arith, e p))),
  (unfold contains in ground (arith, i), λ p m. h p (ground (arith, e p))),
)

pub parse_rules_lem :
    (known rule_ids all_patterns : List Text) (raw : Items) (rules : List RiskRule)
    → parse_rules known rule_ids all_patterns raw ≡ ok rules
    → All (IsRule known) rules × All (IsNew rule_ids all_patterns) rules × IsApart rules
unfolding parse_rules
parse_rules_lem known rule_ids all_patterns nil [] h = (tt, tt, tt)
parse_rules_lem known rule_ids all_patterns nil (r ∷ rules) h = absurd (ground arith)
parse_rules_lem known rule_ids all_patterns (cons j raw) out h =
    let (parsed, hp, h1) = >>=-eq-ok (parse_rule known rule_ids all_patterns j) _ h in
    let (rules, hr, e) =
      >>=-eq-ok (parse_rules known (parsed.0.rule_id ∷ rule_ids) parsed.1 raw) _ h1 in
    let first = parse_rule-IsParsed known rule_ids all_patterns j parsed hp in
    let rest = parse_rules_lem known (parsed.0.rule_id ∷ rule_ids) parsed.1 raw rules hr in
    let weaken = IsNew-weaken parsed.0 rule_ids all_patterns parsed.1 first.2 in
    subst
      (λ (rs : List RiskRule).
        All (IsRule known) rs × All (IsNew rule_ids all_patterns) rs × IsApart rs)
      (ok-injective (parsed.0 ∷ rules) out e)
      (
        (first.0, rest.0),
        (first.1, All-map _ _ (λ r n. (weaken r n).0) rules rest.1),
        (All-map _ _ (λ r n. (weaken r n).1) rules rest.1, rest.2),
      )
