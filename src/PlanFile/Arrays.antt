-- ===== src/PlanFile/Arrays.antt =====
-- What the checks of arrays and of their items let through.
use coffee_order_system.Prelude.{
  ◌+◌, ◌≡◌, ◌≢◌, ◌≤◌, sym, ◌∙◌, inl, inr, Bool, true, false, not, ◌&&◌, List, [], ◌∷◌, arith, ◌==◌,
  nat_eq, text_eq, texts_eq, Bool-cases, contains, Text, length, strip, sorted_set,
  contains-sorted_set, All, insert_sorted, text_ltb, IsSorted, before-not-in, sorted_set-IsSorted,
}
use coffee_order_system.Outcome.{
  ok, Reason, HarnessViolation, >>=-eq-ok, reject_if, reject_if-eq-ok,
}
use coffee_order_system.Json.{Json, str, arr, Items, nil, cons}
use coffee_order_system.PlanFile.{check_string, check_strings, checked_array, is_distinct}

-- A text that is not empty and has no outer whitespace.
abbrev pub IsTrimmed : Text → Type 0
IsTrimmed s = (s ≢ []) × (strip s ≡ s)

abbrev pub IsNodup : List Text → Type 0
IsNodup [] = Unit
IsNodup (x ∷ xs) = (contains xs x ≡ false) × IsNodup xs

pub record IsArray (require_non_empty : Bool) (strings : List Text) : Type 0 where
  pub trimmed : All IsTrimmed strings
  pub nodup : IsNodup strings
  pub non_empty : require_non_empty ≡ true → strings ≢ []

pub check_string-IsTrimmed :
    (error : Reason → HarnessViolation) (field : Text) (j : Json) (s : Text)
    → check_string error field j ≡ ok s
    → IsTrimmed s
unfolding check_string
check_string-IsTrimmed error field (str t) s h = ground arith
check_string-IsTrimmed error field j s h = ground arith

check_strings-IsTrimmed :
    (error : Reason → HarnessViolation) (field : Text) (js : Items) (ss : List Text)
    → check_strings error field js ≡ ok ss
    → All IsTrimmed ss
unfolding check_strings
check_strings-IsTrimmed error field nil [] h = tt
check_strings-IsTrimmed error field nil (s ∷ ss) h = absurd (ground arith)
check_strings-IsTrimmed error field (cons j js) [] h =
    let (s, hs, rest) = >>=-eq-ok (check_string error field j) _ h in
    let (ss, hss, e) = >>=-eq-ok (check_strings error field js) _ rest in absurd (ground arith)
check_strings-IsTrimmed error field (cons j js) (t ∷ ts) h =
    let (s, hs, rest) = >>=-eq-ok (check_string error field j) _ h in
    let (ss, hss, e) = >>=-eq-ok (check_strings error field js) _ rest in
    (
      check_string-IsTrimmed error field j t (ground arith),
      check_strings-IsTrimmed error field js ts (ground arith),
    )

length-insert_sorted-le : (x : Text) (ys : List Text) → length (insert_sorted x ys) ≤ length ys + 1
unfolding insert_sorted
length-insert_sorted-le x [] = omega arith
length-insert_sorted-le x (y ∷ ys) = ground (arith, length-insert_sorted-le x ys)

length-sorted_set-le : (xs : List Text) → length (sorted_set xs) ≤ length xs
unfolding sorted_set
length-sorted_set-le [] = omega arith
length-sorted_set-le (x ∷ xs) =
    omega (arith, length-insert_sorted-le x (sorted_set xs), length-sorted_set-le xs)

-- A member that is there already adds nothing.
length-insert_sorted_of_mem :
    (x : Text) (ys : List Text)
    → IsSorted ys
    → contains ys x ≡ true
    → length (insert_sorted x ys) ≡ length ys
unfolding insert_sorted contains
length-insert_sorted_of_mem x [] h m = absurd (ground arith)
length-insert_sorted_of_mem x (y ∷ ys) h m = elim (Bool-cases (x == y)) [
  | inl same ↦ ground arith
  | inr other ↦ elim (Bool-cases (text_ltb x y)) [
    | inl first ↦ absurd (ground (arith, before-not-in x (y ∷ ys) h first))
    | inr later ↦ ground (arith, length-insert_sorted_of_mem x ys h.1)
  ]
]

IsNodup-of_length : (xs : List Text) → length xs ≡ length (sorted_set xs) → IsNodup xs
unfolding sorted_set
IsNodup-of_length [] e = tt
IsNodup-of_length (x ∷ xs) e =
    let le = length-sorted_set-le xs in
    let step = length-insert_sorted-le x (sorted_set xs) in
    (
      elim (Bool-cases (contains xs x)) [
        | inl again ↦ absurd (
            omega (
              arith,
              length-insert_sorted_of_mem x (sorted_set xs) (sorted_set-IsSorted xs)
                  (contains-sorted_set xs x ∙ again),
            ))
        | inr new ↦ new
      ],
      IsNodup-of_length xs (omega arith),
    )

is_distinct-IsNodup : (xs : List Text) → is_distinct xs ≡ true → IsNodup xs
unfolding is_distinct
is_distinct-IsNodup xs h = IsNodup-of_length xs (ground arith)

-- An array that passes the check of arrays, that of a plan or of a policy, has no text that is empty
-- or has outer whitespace, no text twice, and is not empty where it must not be.
pub checked_array-IsArray :
    (error : Reason → HarnessViolation) (field : Text) (non_empty : Bool) (j : Json)
    (ss : List Text)
    → checked_array error field non_empty j ≡ ok ss
    → IsArray non_empty ss
unfolding checked_array
checked_array-IsArray error field non_empty (arr raw) ss h =
    let (strings, hs, rest) = >>=-eq-ok (check_strings error field raw) _ h in
    let (u, empty, rest') = >>=-eq-ok (reject_if (non_empty && strings == []) _) _ rest in
    let (v, distinct, e) = >>=-eq-ok (reject_if (not (is_distinct strings)) _) _ rest' in
    let same : strings ≡ ss = ground arith in
    rw (sym same) (record {
      trimmed = check_strings-IsTrimmed error field raw strings hs;
      nodup = is_distinct-IsNodup strings (let d = reject_if-eq-ok _ _ distinct in ground arith);
      non_empty = λ t. let d = reject_if-eq-ok _ _ empty in ground arith;
    })
checked_array-IsArray error field non_empty j ss h = absurd (ground arith)
