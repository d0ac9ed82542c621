-- ===== src/Contracts/Architecture.antt =====
-- scripts/harness-oracles.py: `_layer`, `_layer_matches` and `validate_architecture`.
pub mod Names
pub mod Imports
pub mod Layered
use coffee_order_system.Prelude.{
  ℕ, Bool, true, false, not, ◌&&◌, ◌||◌, Option, none, some, List, [], ◌∷◌, ◌++◌, ◌==◌, text_eq,
  texts_eq, if◌then◌else◌, Text, txt, split, starts_with, length, keep, map,
}
use coffee_order_system.Outcome.{Reason, about, value, values}
use coffee_order_system.Json.{Json, str, obj, Items, nil, cons, Fields}
use coffee_order_system.Paths.{remove_prefix}
use coffee_order_system.System.{join_path}
use coffee_order_system.Publish.{get_or_null, is_text}
use coffee_order_system.Oracles.Cycles.{Visit, found, done, exhausted, find_cycle}
use coffee_order_system.Contracts.{
  Reply, replied, oracle_failure, os_error, escaped, Host, Task, ◌>>=◌, ◌>>◌, reply, fail_if,
  or_fail, call, or_raised, is_one, filled_items, as_text, load_json,
}

-- The branches on the parts behind the prefix.
unfoldable pub layer_of : List Text → Text
layer_of [] = []
layer_of (head ∷ []) = head
layer_of (head ∷ next ∷ more) =
    if head == txt "domain"
    then txt "domain." ++ next
    else if head == txt "infra"
    then txt "infra." ++ next
    else head

-- `_layer`
unfoldable pub layer : Text → Text
unfolding layer_of
layer package_name = elim (remove_prefix package_name (txt "com.example.coffee.")) [
  | none ↦ txt "external"
  | some tail ↦ layer_of (split b'.' tail)
]

unfoldable pub layer_matches : Text → Text → Bool
layer_matches actual declared = actual == declared || starts_with actual (declared ++ txt ".")

-- A forbidden import of a file.
pub record Violation : Type 0 where
  pub source_file : Text
  pub source_layer : Text
  pub target_layer : Text

-- The loop over the raw rules.
unfoldable pub rule_of : Json → Reply (Text × Text)
rule_of (obj fs) = elim (as_text (get_or_null (txt "from") fs)) [
  | none ↦ oracle_failure (about (txt "from and to"))
  | some source ↦ elim (as_text (get_or_null (txt "to") fs)) [
    | none ↦ oracle_failure (about (txt "from and to"))
    | some target ↦ replied (source, target)
  ]
]
rule_of other = oracle_failure (about (txt "rule"))

abbrev pub push : {A : Type 0} → Reply A → Reply (List A) → Reply (List A)
push (replied a) (replied rest) = replied (a ∷ rest)
push (replied a) other = other
push (oracle_failure e) rest = oracle_failure e
push (os_error e) rest = os_error e
push (escaped e) rest = escaped e

unfoldable pub rules_of : Items → Reply (List (Text × Text))
unfolding rule_of
rules_of nil = replied []
rules_of (cons rule rules) = push (rule_of rule) (rules_of rules)

-- What the loops collect.
pub record Dependencies : Type 0 where
  pub edges : List (Text × Text)
  pub violations : List Violation

abbrev pub no_dependencies : Dependencies
no_dependencies = record { edges = []; violations = [] }

-- The loop over the imports of a file: one violation for each rule that an import breaks.
unfoldable pub broken_rules : Text → List (Text × Text) → Text → Text → List Violation
unfolding layer_matches
broken_rules file [] source target = []
broken_rules file (rule ∷ rules) source target =
    let rest = broken_rules file rules source target in
    if layer_matches source rule.0 && layer_matches target rule.1
    then record { source_file = file; source_layer = source; target_layer = target } ∷ rest
    else rest

unfoldable pub import_of : Text → List (Text × Text) → Text → Text → Dependencies → Dependencies
unfolding broken_rules
import_of file rules source target so_far = if target == txt "external" then so_far else record {
  edges = (source, target) ∷ so_far.edges;
  violations = so_far.violations ++ broken_rules file rules source target;
}

unfoldable pub imports_of :
    Text → List (Text × Text) → Text → List Text → Dependencies → Dependencies
unfolding layer import_of
imports_of file rules source [] so_far = so_far
imports_of file rules source (imported ∷ more) so_far =
    imports_of file rules source more (import_of file rules source (layer imported) so_far)

abbrev pub package_pattern : Text
package_pattern = txt "^\\s*package\\s+([\\w.]+);"

abbrev pub import_pattern : Text
import_pattern = txt "^\\s*import\\s+(com\\.example\\.coffee\\.[\\w.]+);"

abbrev pub first_of : List Text → Text
first_of [] = []
first_of (group ∷ more) = group

-- `match.group(1)`
abbrev pub first_group : List (Option Text) → Option Text
first_group [] = none
first_group (group ∷ more) = group

abbrev pub no_cycle : Visit → Reply (Unit {0})
no_cycle (found cycle) = oracle_failure (values (txt "cycle") cycle)
no_cycle (done s) = replied tt
no_cycle exhausted = escaped (txt "RecursionError")

unfoldable pub check_dependencies : Dependencies → Reply (Unit {0})
unfolding find_cycle
check_dependencies dependencies = elim dependencies.violations [
  | [] ↦ no_cycle (find_cycle dependencies.edges)
  | violation ∷ more ↦
      oracle_failure (values (txt "forbidden") (map (λ v. v.source_file) (violation ∷ more)))
]

module _ (host : Host) where
  open host use {World, read_text, sorted_glob, is_one_float, search, findall}

  unfoldable pub package_of : Text → Text → Reply Text
  package_of file text = elim (search true package_pattern text) [
    | none ↦ oracle_failure (value (txt "package") file)
    | some groups ↦ elim (first_group groups) [
      | none ↦ escaped (txt "AttributeError")
      | some name ↦ replied name
    ]
  ]

  -- The loop over the files.
  unfoldable pub read_sources :
      List (Text × Text) → List Text → Dependencies → Task World Dependencies
  unfolding package_of imports_of layer
  read_sources rules [] so_far = reply (replied so_far)
  read_sources rules (file ∷ files) so_far = do
    read ← call (read_text file)
    text ← reply (or_raised read)
    package_name ← reply (package_of file text)
    let imported = map first_of (findall true import_pattern text)
    read_sources rules files (imports_of file rules (layer package_name) imported so_far)

  -- The number of files for the message.
  unfoldable pub validate_architecture : Text → Task World ℕ
  unfolding load_json is_one is_text get_or_null filled_items rules_of read_sources
      check_dependencies
  validate_architecture root = do
    contract ← load_json host root (txt "harness/contracts/architecture.json")
    reply (
        fail_if (not (is_one is_one_float (get_or_null (txt "schemaVersion") contract)))
          (about (txt "schemaVersion")))
    reply (
        fail_if (not (is_text (get_or_null (txt "sourceRoot") contract) (txt "src/main/java")))
          (about (txt "sourceRoot")))
    raw_rules ← reply (
        or_fail (about (txt "forbiddenImports"))
          (filled_items (get_or_null (txt "forbiddenImports") contract)))
    rules ← reply (rules_of raw_rules)
    source_files ← call (sorted_glob (join_path root (txt "src/main/java")) (txt "**/*.java"))
    reply (fail_if (source_files == []) (about (txt "no Java source")))
    dependencies ← read_sources rules source_files no_dependencies
    reply (check_dependencies dependencies)
    reply (replied (length source_files))
