-- ===== src/Oracles/Sequence.antt =====
-- What a passed migration sequence says of the files.
use coffee_order_system.Prelude.{
  ℕ, zero, suc, ◌+◌, ◌≡◌, refl, sym, ap, ◌∙◌, ◌&&◌, ◌||◌, some, List, [], ◌∷◌, arith, ◌==◌, nat_eq,
  text_eq, map, leb, ltb, contains, Text, length, Option-cases, ◌⊎◌, inl, inr, subst,
}
use coffee_order_system.Oracles.{
  passed, migration_version, insert_number, sort_numbers, numbers_from, check_versions, Versions,
  versions, bad_name, read_versions, validate_migration_sequence,
}

contains-insert_number :
    (n : ℕ) (ks : List ℕ) (a : ℕ) → contains (insert_number n ks) a ≡ (a == n || contains ks a)
unfolding insert_number contains
contains-insert_number n [] a = refl
contains-insert_number n (k ∷ ks) a = ground (arith, contains-insert_number n ks a)

contains-sort_numbers : (ns : List ℕ) (a : ℕ) → contains (sort_numbers ns) a ≡ contains ns a
unfolding sort_numbers contains
contains-sort_numbers [] a = refl
contains-sort_numbers (n ∷ ns) a =
    ground (arith, contains-insert_number n (sort_numbers ns) a, contains-sort_numbers ns a)

length-insert_number : (n : ℕ) (ks : List ℕ) → length (insert_number n ks) ≡ suc (length ks)
unfolding insert_number
length-insert_number n [] = refl
length-insert_number n (k ∷ ks) = ground (arith, length-insert_number n ks)

length-sort_numbers : (ns : List ℕ) → length (sort_numbers ns) ≡ length ns
unfolding sort_numbers
length-sort_numbers [] = refl
length-sort_numbers (n ∷ ns) =
    ground (arith, length-insert_number n (sort_numbers ns), length-sort_numbers ns)

contains-numbers_from :
    (start count a : ℕ)
    → contains (numbers_from start count) a ≡ (leb start a && ltb a (start + count))
unfolding numbers_from contains
contains-numbers_from start zero a = ground arith
contains-numbers_from start (suc count) a =
    ground (arith, contains-numbers_from (suc start) count a)

length-numbers_from : (start count : ℕ) → length (numbers_from start count) ≡ count
unfolding numbers_from
length-numbers_from start zero = refl
length-numbers_from start (suc count) = ground (arith, length-numbers_from (suc start) count)

check_versions_lem :
    (ns : List ℕ) (last : ℕ)
    → check_versions ns ≡ passed last
    → sort_numbers ns ≡ numbers_from 1 last
unfolding check_versions
check_versions_lem [] last h = absurd (ground arith)
check_versions_lem (n ∷ ns) last h = ground arith

Versions-cases :
    (v : Versions) → ((ns : List ℕ) × (v ≡ versions ns)) ⊎ ((name : Text) × (v ≡ bad_name name))
Versions-cases (versions ns) = inl (ns, refl)
Versions-cases (bad_name name) = inr (name, refl)

-- The versions that the names carry, in order.
read_versions_lem :
    (names : List Text) (ns : List ℕ)
    → read_versions names ≡ versions ns
    → map migration_version names ≡ map some ns
unfolding read_versions
read_versions_lem [] [] h = refl
read_versions_lem [] (n ∷ ns) h = absurd (ground arith)
read_versions_lem (name ∷ names) ns h = elim (Option-cases (migration_version name)) [
  | inl none_read ↦ absurd (ground (arith, none_read))
  | inr (n, read) ↦ elim (Versions-cases (read_versions names)) [
    | inl (ms, rest) ↦
        let ih = read_versions_lem names ms rest in
        let same : n ∷ ms ≡ ns = ground (arith, read, rest) in
        subst (λ (ks : List ℕ). migration_version name ∷ map migration_version names ≡ map some ks)
          same (cc (read, ih))
    | inr (bad, rest) ↦ absurd (ground (arith, read, rest))
  ]
]

-- When the migration sequence passes with `V1..Vn`, the names carry the versions 1 to n and no other,
-- and there are n of them: each version has exactly one file.
pub validate_migration_sequence_lem :
    (names : List Text) (last : ℕ)
    → validate_migration_sequence names ≡ passed last
    → (ns : List ℕ) × (map migration_version names ≡ map some ns)
      × (length ns ≡ last)
      × ((n : ℕ) → contains ns n ≡ (leb 1 n && leb n last))
unfolding validate_migration_sequence
validate_migration_sequence_lem names last h = elim (Versions-cases (read_versions names)) [
  | inl (ns, read) ↦
      let e = check_versions_lem ns last (ground (arith, read)) in
      (
        ns,
        read_versions_lem names ns read,
        sym (length-sort_numbers ns) ∙ ap length e ∙ length-numbers_from 1 last,
        λ n.
            sym (contains-sort_numbers ns n)
            ∙ ap (λ ks. contains ks n) e
            ∙ contains-numbers_from 1 last n
            ∙ ground arith,
      )
  | inr (bad, read) ↦ absurd (ground (arith, read))
]
