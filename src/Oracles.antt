-- ===== src/Oracles.antt =====
-- scripts/harness-oracles.py: the oracle of the migration sequence, from the names of the migration
-- files on.
pub mod Sequence
pub mod Cycles
use coffee_order_system.Prelude.{
  ℕ, zero, suc, ◌+◌, ◌*◌, ◌-◌, Bool, false, not, ◌&&◌, Option, none, some, List, [], ◌∷◌, ◌==◌,
  nat_eq, text_eq, leb, ltb, if◌then◌else◌, contains, Text, txt, length, remove_suffix,
}
use coffee_order_system.Outcome.{Reason, about, value}

-- What an oracle says: a version for its message, or an `OracleFailure`.
pub data Verdict : Type 0 where
  passed : ℕ → Verdict
  failure : Reason → Verdict

-- `__[^/]+\.sql`
unfoldable pub is_migration_tail : Text → Bool
is_migration_tail (a ∷ b ∷ s) = a == b'_' && b == b'_' && elim (remove_suffix s (txt ".sql")) [
  | none ↦ false
  | some body ↦ not (body == []) && not (contains body b'/')
]
is_migration_tail s = false

-- `[0-9]*` with its value, and the tail.
unfoldable pub read_version : ℕ → Text → Option ℕ
unfolding is_migration_tail
read_version n [] = none
read_version n (c ∷ s) =
    let rest = read_version (10 * n + (c - b'0')) s in
    if leb b'0' c && leb c b'9' then rest else if is_migration_tail (c ∷ s) then some n else none

-- `MIGRATION_PATTERN`, with its group.
unfoldable pub migration_version : Text → Option ℕ
unfolding read_version
migration_version (v ∷ d ∷ s) =
    if v == b'V' && (leb b'1' d && leb d b'9') then read_version (d - b'0') s else none
migration_version s = none

-- `set` of numbers.
unfoldable pub distinct_numbers : List ℕ → List ℕ
distinct_numbers [] = []
distinct_numbers (n ∷ ns) =
    let rest = distinct_numbers ns in if contains rest n then rest else n ∷ rest

unfoldable pub insert_number : ℕ → List ℕ → List ℕ
insert_number n [] = n ∷ []
insert_number n (k ∷ ks) = let rest = insert_number n ks in if leb n k then n ∷ k ∷ ks else k ∷ rest

-- `sorted` of numbers.
unfoldable pub sort_numbers : List ℕ → List ℕ
unfolding insert_number
sort_numbers [] = []
sort_numbers (n ∷ ns) = insert_number n (sort_numbers ns)

unfoldable pub greatest : ℕ → List ℕ → ℕ
greatest n [] = n
greatest n (k ∷ ks) = greatest (if ltb n k then k else n) ks

-- `count` numbers from `start` on.
unfoldable pub numbers_from : ℕ → ℕ → List ℕ
numbers_from start zero = []
numbers_from start (suc count) = start ∷ numbers_from (suc start) count

-- The tests on the versions.
unfoldable pub check_versions : List ℕ → Verdict
unfolding distinct_numbers sort_numbers greatest numbers_from
check_versions [] = failure (about (txt "no migrations"))
check_versions (n ∷ ns) =
    let last = greatest n ns in
    if not (length (n ∷ ns) == length (distinct_numbers (n ∷ ns)))
    then failure (about (txt "duplicate versions"))
    else if not (sort_numbers (n ∷ ns) == numbers_from 1 last)
    then failure (about (txt "version gap"))
    else passed last

-- The loop over the files: their versions, or the first name of a wrong form.
pub data Versions : Type 0 where
  versions : List ℕ → Versions
  bad_name : Text → Versions

unfoldable pub read_versions : List Text → Versions
unfolding migration_version
read_versions [] = versions []
read_versions (name ∷ names) =
    let rest = read_versions names in
    elim (migration_version name) [
      | none ↦ bad_name name
      | some n ↦ elim rest [ versions ns ↦ versions (n ∷ ns) | bad_name other ↦ bad_name other ]
    ]

-- `validate_migration_sequence`, over the sorted names that `glob` finds.
unfoldable pub validate_migration_sequence : List Text → Verdict
unfolding read_versions check_versions
validate_migration_sequence names = elim (read_versions names) [
  | bad_name name ↦ failure (value (txt "migration name") name)
  | versions ns ↦ check_versions ns
]
