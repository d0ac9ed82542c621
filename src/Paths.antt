-- ===== src/Paths.antt =====
-- scripts/agent-harness.py: repository patterns, plan paths, branch names and SHAs. A regular
-- expression of the script is a function that takes the text apart at its fixed parts.
pub mod Unicode
pub mod Cover
pub mod Safe
use mathlib.Core.Option
use coffee_order_system.Prelude.{
  ℕ, ◌≡◌, Bool, true, false, not, ◌&&◌, ◌||◌, Option, none, some, List, [], ◌∷◌, ◌++◌, ◌==◌, nat_eq,
  leb, if◌then◌else◌, contains, Text, text_eq, txt, length, any, all, starts_with, remove_suffix,
  rstrip, strip, is_control, split, has_part, decimal,
}
use coffee_order_system.Outcome.{
  Result, ok, violation, about, value, numbers, HarnessViolation, violation_of, reject_if, rethrow,
  ◌>>=◌, ◌>>◌, fail, replan_required,
}
use coffee_order_system.Paths.Unicode.{is_decimal}

abbrev pub slash : ℕ
slash = b'/'

abbrev pub stars : Text
stars = txt "/**"

-- `FORBIDDEN_PLAN_PATTERNS`
abbrev pub forbidden_plan_patterns : List Text
forbidden_plan_patterns =
    txt "**"
    ∷ txt "src/**"
    ∷ txt "src/main/**"
    ∷ txt "src/main/java/**"
    ∷ txt "src/test/**"
    ∷ txt "docs/**"
    ∷ txt "harness/**"
    ∷ txt "scripts/**"
    ∷ txt ".github/**"
    ∷ []

-- The pattern without a trailing `/**`.
unfoldable pub body_of : Text → Text
body_of pattern = elim (remove_suffix pattern stars) [ none ↦ pattern | some body ↦ body ]

is_wildcard : ℕ → Bool
is_wildcard c = contains (txt "*?[]") c

ends_with : Text → Text → Bool
ends_with s suffix = elim (remove_suffix s suffix) [ none ↦ false | some body ↦ true ]

-- The first test of `_validate_repository_pattern`.
pub is_malformed : Text → Bool
unfolding body_of ends_with
is_malformed pattern =
    not (pattern == strip pattern)
    || starts_with pattern (txt "/")
    || contains pattern 92
    || has_part pattern (txt "//")
    || any is_control pattern
    || body_of pattern == []
    || ends_with (body_of pattern) (txt "/")
    || any (λ segment. contains ([] ∷ txt "." ∷ txt ".." ∷ []) segment)
        (split slash (body_of pattern))

unfoldable pub validate_repository_pattern : Text → Text → Result (Unit {0})
unfolding is_malformed is_wildcard
validate_repository_pattern pattern check_id = do
  reject_if (is_malformed pattern)
      (violation_of fail check_id (value (txt "relative path") pattern))
  reject_if (any is_wildcard (body_of pattern))
      (violation_of fail check_id (value (txt "exact or trailing") pattern))

unfoldable pub path_matches : Text → Text → Bool
path_matches pattern path = elim (remove_suffix pattern stars) [
  | none ↦ pattern == path
  | some body ↦
      let directory = rstrip (λ c. c == slash) body in
      path == directory || starts_with path (directory ++ txt "/")
]

-- `validate_plan_pattern`
unfoldable pub validate_plan_pattern : Text → Result (Unit {0})
validate_plan_pattern pattern = do
  reject_if (contains forbidden_plan_patterns pattern)
      (violation_of replan_required (txt "plan.scope") (value (txt "broad pattern") pattern))
  validate_repository_pattern pattern (txt "plan.schema")

abbrev is_lower_alnum : ℕ → Bool
is_lower_alnum c = leb b'a' c && leb c b'z' || leb b'0' c && leb c b'9'

-- `[1-9][0-9]*`, with its value.
unfoldable pub positive_decimal : Text → Option ℕ
positive_decimal [] = none
positive_decimal (c ∷ s) =
    if leb b'1' c && leb c b'9' && all (λ d. leb b'0' d && leb d b'9') s
    then some (decimal 0 (c ∷ s))
    else none

-- `[a-z0-9]+(?:-[a-z0-9]+)*`, split at the dashes.
unfoldable pub is_kebab : List Text → Bool
is_kebab [] = false
is_kebab (word ∷ words) = all (λ w. not (w == []) && all is_lower_alnum w) (word ∷ words)

-- `([1-9][0-9]*)-` and a kebab.
unfoldable pub numbered_slug : List Text → Option ℕ
numbered_slug [] = none
numbered_slug (number ∷ words) = if is_kebab words then positive_decimal number else none

unfoldable pub remove_prefix : Text → Text → Option Text
remove_prefix s [] = some s
remove_prefix [] (p ∷ ps) = none
remove_prefix (c ∷ s) (p ∷ ps) = if c == p then remove_prefix s ps else none

-- What stands between a prefix and a suffix.
unfoldable pub between : Text → Text → Text → Option Text
unfolding remove_prefix
between prefix suffix s = Option.bind (remove_prefix s prefix) (λ t. remove_suffix t suffix)

-- `LEGACY_PLAN_PATH_PATTERN`, with its group.
unfoldable pub legacy_plan_issue : Text → Option ℕ
unfolding positive_decimal between
legacy_plan_issue path =
    Option.bind (between (txt "harness/plans/") (txt ".json") path) positive_decimal

-- `READABLE_PLAN_PATH_PATTERN`, with its group.
unfoldable pub readable_plan_issue : Text → Option ℕ
unfolding numbered_slug is_kebab positive_decimal between
readable_plan_issue path =
    Option.bind (between (txt "harness/plans/issue-") (txt ".json") path)
      (λ middle. numbered_slug (split b'-' middle))

unfoldable pub plan_path_matches_issue : Text → ℕ → Bool
unfolding legacy_plan_issue readable_plan_issue
plan_path_matches_issue relative_path issue = elim (legacy_plan_issue relative_path) [
  | some n ↦ n == issue
  | none ↦ elim (readable_plan_issue relative_path) [ some n ↦ n == issue | none ↦ false ]
]

abbrev pub branch_kinds : List Text
branch_kinds = txt "feature" ∷ txt "fix" ∷ txt "refactor" ∷ txt "docs" ∷ []

-- `BRANCH_PATTERN`, with its second group.
unfoldable pub branch_parts_issue : List Text → Option ℕ
unfolding numbered_slug is_kebab positive_decimal
branch_parts_issue (kind ∷ name ∷ []) =
    if contains branch_kinds kind then numbered_slug (split b'-' name) else none
branch_parts_issue _ = none

unfoldable pub branch_issue : Text → Option ℕ
unfolding branch_parts_issue
branch_issue branch = branch_parts_issue (split slash branch)

unfoldable pub validate_branch : Text → ℕ → Result (Unit {0})
unfolding branch_issue
validate_branch branch issue = elim (branch_issue branch) [
  | none ↦
      violation (violation_of replan_required (txt "git.branch") (value (txt "branch form") branch))
  | some n ↦
      reject_if (not (n == issue))
        (violation_of replan_required (txt "git.branch") (numbers (txt "branch issue") n issue))
]

-- `s.rpartition(sep)`: `none` when there is no separator.
unfoldable pub rpartition : ℕ → Text → Option (Text × Text)
rpartition sep [] = none
rpartition sep (c ∷ s) = elim (rpartition sep s) [
  | some (before, after) ↦ some (c ∷ before, after)
  | none ↦ if c == sep then some ([], s) else none
]

-- `v[1-9]\d*`
unfoldable pub is_version : Text → Bool
is_version (v ∷ d ∷ ds) = v == b'v' && (leb b'1' d && leb d b'9') && all is_decimal ds
is_version _ = false

abbrev contract_form : HarnessViolation
contract_form =
    violation_of replan_required (txt "plan.contract-changes") (about (txt "contractChanges form"))

-- The path of a declaration `<path> v<number>`.
unfoldable pub contract_change_path : Text → Result Text
unfolding rpartition is_version is_wildcard
contract_change_path declaration = elim (rpartition b' ' declaration) [
  | none ↦ violation contract_form
  | some (path, version) ↦ do
    reject_if (path == [] || any is_wildcard path || not (is_version version)) contract_form
    rethrow (λ _. contract_form) (validate_repository_pattern path (txt "plan.contract-changes"))
    ok path
]

abbrev is_hex : ℕ → Bool
is_hex c = leb b'0' c && leb c b'9' || leb b'a' c && leb c b'f'

-- `SHA_PATTERN` and `PLAN_HASH_PATTERN`
unfoldable pub is_sha : Text → Bool
is_sha s = length s == 40 && all is_hex s

unfoldable pub is_plan_hash : Text → Bool
is_plan_hash s = length s == 64 && all is_hex s
