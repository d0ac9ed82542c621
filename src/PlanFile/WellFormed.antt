-- ===== src/PlanFile/WellFormed.antt =====
-- What `parse_plan` promises of the plan that it returns.
use coffee_order_system.Prelude.{
  ℕ, ◌≡◌, refl, subst, ◌≤◌, Bool, true, false, not, List, [], ◌∷◌, arith, ◌==◌, nat_eq, text_eq,
  texts_eq, contains, Text, txt, keep, contains-keep, ℤ, below_one,
}
use coffee_order_system.Outcome.{
  Result, ok, Reason, HarnessViolation, >>=-eq-ok, ok-injective, reject_if, reject_if-eq-ok,
}
use coffee_order_system.Json.{Json, int, Fields, Library, parse_json_object, get_item}
use coffee_order_system.Paths.{
  forbidden_plan_patterns, validate_plan_pattern, plan_path_matches_issue, contract_change_path,
}
use coffee_order_system.Paths.Safe.{IsSafe, validate_repository_pattern-IsSafe}
use coffee_order_system.Gate.{difference}
use coffee_order_system.Gate.Contract.{sorted-nil, nil-of_test}
use coffee_order_system.Model.{Plan}
use coffee_order_system.PlanFile.{
  check_each, require_known, require_positive, positive_int, ignore_path, check_plan_fields,
  parse_identity, parse_scope, parse_risks, parse_limits, parse_plan, string_array,
  non_empty_string, plan_error,
}
use coffee_order_system.PlanFile.Arrays.{
  IsTrimmed, IsArray, check_string-IsTrimmed, checked_array-IsArray,
}

pub record IsPlan (known_risks : List Text) (plan : Plan) : Type 0 where
  pub issue : 1 ≤ plan.issue
  pub target : plan.target_branch ≡ txt "main"
  pub place : plan_path_matches_issue plan.relative_path plan.issue ≡ true
  pub objective : IsTrimmed plan.objective
  pub allowed : IsArray true plan.allowed_paths
  pub safe : (p : Text) → contains plan.allowed_paths p ≡ true → IsSafe p
  pub narrow :
      (p : Text) → contains plan.allowed_paths p ≡ true → contains forbidden_plan_patterns p ≡ false
  pub acceptance : IsArray true plan.acceptance_criteria
  pub declared : IsArray false plan.declared_risks
  pub known : (r : Text) → contains plan.declared_risks r ≡ true → contains known_risks r ≡ true
  pub contracts : IsArray false plan.contract_changes
  pub located :
      (d : Text)
      → contains plan.contract_changes d ≡ true
      → (p : Text) × (contract_change_path d ≡ ok p)
  pub non_goals : IsArray true plan.non_goals

pub check_each-contains :
    (check : Text → Result (Unit {0})) (xs : List Text)
    → check_each check xs ≡ ok tt
    → (x : Text) → contains xs x ≡ true
    → check x ≡ ok tt
unfolding check_each contains
check_each-contains check [] h x m = absurd (ground arith)
check_each-contains check (y ∷ ys) h x m =
    let (u, hu, rest) = >>=-eq-ok (check y) _ h in
    ground (arith, check_each-contains check ys rest x)

pub known-of_require :
    (error : Reason → HarnessViolation) (risks known : List Text)
    → require_known error risks known ≡ ok tt
    → (r : Text) → contains risks r ≡ true
    → contains known r ≡ true
unfolding require_known difference
known-of_require error risks known h r m = ground (
  arith,
  sorted-nil (keep (λ x. not (contains known x)) risks) r (nil-of_test _ (reject_if-eq-ok _ _ h)),
  contains-keep (λ x. not (contains known x)) risks r,
)

validate_plan_pattern-IsSafe :
    (p : Text)
    → validate_plan_pattern p ≡ ok tt
    → IsSafe p × (contains forbidden_plan_patterns p ≡ false)
unfolding validate_plan_pattern
validate_plan_pattern-IsSafe p h =
    let (u, broad, rest) = >>=-eq-ok (reject_if (contains forbidden_plan_patterns p) _) _ h in
    (validate_repository_pattern-IsSafe p (txt "plan.schema") rest, reject_if-eq-ok _ _ broad)

ignore_path-located :
    (d : Text) → ignore_path d ≡ ok tt → (p : Text) × (contract_change_path d ≡ ok p)
unfolding ignore_path
ignore_path-located d h = let (p, hp, _) = >>=-eq-ok (contract_change_path d) _ h in (p, hp)

require_positive-pos :
    (error : HarnessViolation) (j : Json) (n : ℕ) → require_positive error j ≡ ok n → 1 ≤ n
unfolding require_positive positive_int below_one
require_positive-pos error (int (ℤ.pos m)) n h = ground arith
require_positive-pos error j n h = absurd (ground arith)

parse_identity_lem :
    (payload : Fields) (path : Text) (id : ℕ × Text)
    → parse_identity payload path ≡ ok id
    → (1 ≤ id.0) × (id.1 ≡ txt "main") × (plan_path_matches_issue path id.0 ≡ true)
unfolding parse_identity
parse_identity_lem payload path id h =
    let (ji, _, h1) = >>=-eq-ok (get_item (txt "issue") payload) _ h in
    let (n, hn, h2) = >>=-eq-ok (require_positive _ ji) _ h1 in
    let (jt, _, h3) = >>=-eq-ok (get_item (txt "targetBranch") payload) _ h2 in
    let (t, _, h4) = >>=-eq-ok (non_empty_string jt (txt "targetBranch")) _ h3 in
    let (u, main, h5) = >>=-eq-ok (reject_if (not (t == txt "main")) _) _ h4 in
    let (v, form, e) = >>=-eq-ok (reject_if (not (plan_path_matches_issue path n)) _) _ h5 in
    let one = require_positive-pos _ ji n hn in
    let is_main = reject_if-eq-ok _ _ main in
    let is_place = reject_if-eq-ok _ _ form in ground arith

string_array-IsArray :
    (j : Json) (field : Text) (non_empty : Bool) (ss : List Text)
    → string_array j field non_empty ≡ ok ss
    → IsArray non_empty ss
unfolding string_array
string_array-IsArray j field non_empty ss h =
    checked_array-IsArray plan_error field non_empty j ss h

non_empty_string-IsTrimmed :
    (j : Json) (field s : Text) → non_empty_string j field ≡ ok s → IsTrimmed s
unfolding non_empty_string
non_empty_string-IsTrimmed j field s h = check_string-IsTrimmed plan_error field j s h

abbrev IsScope : Text × List Text → Type 0
IsScope (objective, allowed) =
    IsTrimmed objective
    × IsArray true allowed
    × ((p : Text)
        → contains allowed p ≡ true
        → IsSafe p × (contains forbidden_plan_patterns p ≡ false))

parse_scope-IsScope :
    (payload : Fields) (out : Text × List Text) → parse_scope payload ≡ ok out → IsScope out
unfolding parse_scope
parse_scope-IsScope payload out h =
    let (jo, _, h4) = >>=-eq-ok (get_item (txt "objective") payload) _ h in
    let (objective, ho, h5) = >>=-eq-ok (non_empty_string jo (txt "objective")) _ h4 in
    let (ja, _, h6) = >>=-eq-ok (get_item (txt "allowedPaths") payload) _ h5 in
    let (allowed, ha, h7) = >>=-eq-ok (string_array ja (txt "allowedPaths") true) _ h6 in
    let (_, hp, e) = >>=-eq-ok (check_each validate_plan_pattern allowed) _ h7 in
    subst IsScope (ok-injective (objective, allowed) out e) (
      non_empty_string-IsTrimmed jo _ objective ho,
      string_array-IsArray ja _ true allowed ha,
      λ p m.
          validate_plan_pattern-IsSafe p (check_each-contains validate_plan_pattern allowed hp p m),
    )

abbrev IsRisks : List Text → List Text × List Text → Type 0
IsRisks known (criteria, risks) =
    IsArray true criteria
    × IsArray false risks
    × ((r : Text) → contains risks r ≡ true → contains known r ≡ true)

parse_risks-IsRisks :
    (payload : Fields) (known : List Text) (out : List Text × List Text)
    → parse_risks payload known ≡ ok out
    → IsRisks known out
unfolding parse_risks
parse_risks-IsRisks payload known out h =
    let (jc, _, h9) = >>=-eq-ok (get_item (txt "acceptanceCriteria") payload) _ h in
    let (criteria, hc, h10) = >>=-eq-ok (string_array jc (txt "acceptanceCriteria") true) _ h9 in
    let (jr, _, h11) = >>=-eq-ok (get_item (txt "declaredRisks") payload) _ h10 in
    let (risks, hr, h12) = >>=-eq-ok (string_array jr (txt "declaredRisks") false) _ h11 in
    let (_, hk, e) = >>=-eq-ok (require_known plan_error risks known) _ h12 in
    subst (IsRisks known) (ok-injective (criteria, risks) out e) (
      string_array-IsArray jc _ true criteria hc,
      string_array-IsArray jr _ false risks hr,
      known-of_require plan_error risks known hk,
    )

abbrev IsLimits : List Text × List Text → Type 0
IsLimits (changes, non_goals) =
    IsArray false changes
    × ((d : Text) → contains changes d ≡ true → (p : Text) × (contract_change_path d ≡ ok p))
    × IsArray true non_goals

parse_limits-IsLimits :
    (payload : Fields) (out : List Text × List Text) → parse_limits payload ≡ ok out → IsLimits out
unfolding parse_limits
parse_limits-IsLimits payload out h =
    let (jx, _, h14) = >>=-eq-ok (get_item (txt "contractChanges") payload) _ h in
    let (changes, hx, h15) = >>=-eq-ok (string_array jx (txt "contractChanges") false) _ h14 in
    let (_, hl, h16) = >>=-eq-ok (check_each ignore_path changes) _ h15 in
    let (jn, _, h17) = >>=-eq-ok (get_item (txt "nonGoals") payload) _ h16 in
    let (non_goals, hn, e) = >>=-eq-ok (string_array jn (txt "nonGoals") true) _ h17 in
    subst IsLimits (ok-injective (changes, non_goals) out e) (
      string_array-IsArray jx _ false changes hx,
      (λ d m. ignore_path-located d (check_each-contains ignore_path changes hl d m)),
      string_array-IsArray jn _ true non_goals hn,
    )

-- A plan that `parse_plan` returns is well formed: a positive issue that its own path names, the
-- target branch main, non-empty arrays of distinct trimmed texts where they are required, allowed
-- patterns that are safe and not among the forbidden broad ones, declared risks that the policy
-- knows, contract changes that each name a path; it keeps the path and the digest of the bytes.
pub parse_plan-IsPlan :
    (library : Library) (raw : List ℕ) (path : Text) (known_risks : List Text) (plan : Plan)
    → parse_plan library raw path known_risks ≡ ok plan
    → IsPlan known_risks plan × (plan.relative_path ≡ path) × (plan.plan_hash ≡ library.sha256 raw)
unfolding parse_plan
parse_plan-IsPlan library raw path known plan h =
    let (payload, _, h1) =
      >>=-eq-ok (parse_json_object library raw (txt "plan.schema") (txt "plan")) _ h in
    let (_, _, h2) = >>=-eq-ok (check_plan_fields payload) _ h1 in
    let (id, hid, h3) = >>=-eq-ok (parse_identity payload path) _ h2 in
    let (scope, hs, h4) = >>=-eq-ok (parse_scope payload) _ h3 in
    let (risks, hr, h5) = >>=-eq-ok (parse_risks payload known) _ h4 in
    let (limits, hl, e) = >>=-eq-ok (parse_limits payload) _ h5 in
    let identity = parse_identity_lem payload path id hid in
    let is_scope = parse_scope-IsScope payload scope hs in
    let is_risks = parse_risks-IsRisks payload known risks hr in
    let is_limits = parse_limits-IsLimits payload limits hl in
    subst
      (λ (p : Plan). IsPlan known p × (p.relative_path ≡ path) × (p.plan_hash ≡ library.sha256 raw))
      (ok-injective _ plan e)
      (
        record {
          issue = identity.0;
          target = identity.1;
          place = identity.2;
          objective = is_scope.0;
          allowed = is_scope.1;
          safe = λ p m. (is_scope.2 p m).0;
          narrow = λ p m. (is_scope.2 p m).1;
          acceptance = is_risks.0;
          declared = is_risks.1;
          known = is_risks.2;
          contracts = is_limits.0;
          located = is_limits.1;
          non_goals = is_limits.2;
        },
        refl,
        refl,
      )
