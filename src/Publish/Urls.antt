-- ===== src/Publish/Urls.antt =====
-- scripts/agent-publish.py: the number at the end of the URL of a request, and the one in a branch.
use coffee_order_system.Prelude.{
  ℕ, suc, ◌+◌, ◌*◌, ◌-◌, ◌≤◌, ◌≡◌, refl, sym, ap, ◌∙◌, inl, inr, true, false, ◌&&◌, leb, some, none,
  [], ◌∷◌, ◌++◌, Text, txt, All, ◌↔◌, ℤ, decimal, all, length, length-append, arith, Option-cases,
  nat_eq,
}
use mathlib.Core.Option
use mathlib.Core.List.{append_assoc}
use coffee_order_system.Paths.{remove_prefix, branch_kinds, positive_decimal}
use coffee_order_system.Publish.{answer, publish_error, number_text}
use coffee_order_system.Outcome.{value}
use coffee_order_system.Publish.Readings.{
  number_before_dash, leading_issue, issue_behind, branch_matches, assert_issue_branch,
}
use coffee_order_system.Publish.Requests.{pull_number, created_number}
use coffee_order_system.Publish.Digits.{
  is_digit, first_digit, all-digits, decimal-digits, positive_decimal-number_text,
}

pub remove_prefix-append : (p s : Text) → remove_prefix (p ++ s) p ≡ some s
unfolding remove_prefix
remove_prefix-append [] s = refl
remove_prefix-append (c ∷ p) s = let rest = remove_prefix-append p s in ground (arith, rest)

-- What is left of a text whose first part is as long as the prefix.
rest_of :
    (p xs t r : Text)
    → length p ≤ length xs
    → remove_prefix (xs ++ t) p ≡ some r
    → (ys : Text) × (r ≡ ys ++ t)
unfolding remove_prefix
rest_of [] xs t r h e = (xs, ground (arith, e))
rest_of (c ∷ p) [] t r h e = absurd (omega (arith, h))
rest_of (c ∷ p) (x ∷ xs) t r h e = rest_of p xs t r (omega (arith, h)) (ground (arith, e))

slash_later : (ys t : Text) → all is_digit (ys ++ (b'/' ∷ t)) ≡ false
unfolding all
slash_later [] t = refl
slash_later (y ∷ ys) t = let rest = slash_later ys t in ground (arith, rest)

no_number : (ys t : Text) → positive_decimal (ys ++ (b'/' ∷ t)) ≡ none
unfolding positive_decimal
no_number [] t = refl
no_number (y ∷ ys) t = let rest = slash_later ys t in ground (arith, rest)

pull_hit :
    (c : ℕ) (s : Text) (n : ℕ)
    → Option.bind (remove_prefix (c ∷ s) (txt "/pull/")) positive_decimal ≡ some n
    → pull_number (c ∷ s) ≡ some n
unfolding pull_number
pull_hit c s n h = ap (λ o. elim o [ some n ↦ some n | none ↦ pull_number s ]) h

pull_miss :
    (c : ℕ) (s : Text)
    → Option.bind (remove_prefix (c ∷ s) (txt "/pull/")) positive_decimal ≡ none
    → pull_number (c ∷ s) ≡ pull_number s
unfolding pull_number
pull_miss c s h = ap (λ o. elim o [ some n ↦ some n | none ↦ pull_number s ]) h

-- `/pull/` before the last one has no number behind it.
no_earlier :
    (c : ℕ) (base digits : Text)
    → Option.bind
        (remove_prefix (c ∷ (base ++ (txt "/pull/" ++ digits))) (txt "/pull/"))
        positive_decimal
      ≡ none
unfolding txt Option.bind
no_earlier c base digits =
    elim (Option-cases (remove_prefix (c ∷ (base ++ (txt "/pull/" ++ digits))) (txt "/pull/"))) [
      | inl e ↦ ap (λ o. Option.bind o positive_decimal) e
      | inr (r, e) ↦
          let whole : c ∷ (base ++ (txt "/pull/" ++ digits))
              ≡ (c ∷ base ++ txt "/pull") ++ (b'/' ∷ digits) =
            ap (λ s. c ∷ s) (sym (append_assoc base (txt "/pull") (b'/' ∷ digits))) in
          let long : length (txt "/pull/") ≤ length (c ∷ base ++ txt "/pull") =
            omega (arith, length-append base (txt "/pull")) in
          let (ys, f) =
            rest_of (txt "/pull/") (c ∷ base ++ txt "/pull") (b'/' ∷ digits) r long
              (ap (λ s. remove_prefix s (txt "/pull/")) (sym whole) ∙ e) in
          ap (λ o. Option.bind o positive_decimal) e ∙ ap positive_decimal f ∙ no_number ys digits
    ]

pull_number-number_text :
    (base : Text) (n : ℕ) → 1 ≤ n → pull_number (base ++ (txt "/pull/" ++ number_text n)) ≡ some n
unfolding txt Option.bind
pull_number-number_text [] n h = pull_hit b'/' (txt "pull/" ++ number_text n) n (
    ap (λ o. Option.bind o positive_decimal) (remove_prefix-append (txt "/pull/") (number_text n))
    ∙ positive_decimal-number_text n h)
pull_number-number_text (c ∷ base) n h =
    pull_miss c (base ++ (txt "/pull/" ++ number_text n)) (no_earlier c base (number_text n))
    ∙ pull_number-number_text base n h

-- The URL that ends in `/pull/` and a number from 1 on gives that number, whatever stands before, another `/pull/`
-- included.
pub created_number-number_text :
    (base : Text) (n : ℕ)
    → 1 ≤ n
    → let url = base ++ (txt "/pull/" ++ number_text n) in
      created_number url ≡ answer (ℤ.pos n, url)
unfolding created_number
created_number-number_text base n h =
    let url = base ++ (txt "/pull/" ++ number_text n) in
    ap
      (λ o. elim o [
        | none ↦ publish_error (value (txt "no number in the PR URL") url)
        | some n ↦ answer (ℤ.pos n, url)
      ])
      (pull_number-number_text base n h)

number_before_dash-decimal :
    (ds slug : Text) (n : ℕ)
    → all is_digit ds ≡ true
    → number_before_dash n (ds ++ (b'-' ∷ slug)) ≡ some (decimal n ds)
unfolding number_before_dash decimal all nat_eq
number_before_dash-decimal [] slug n h = refl
number_before_dash-decimal (d ∷ ds) slug n h =
    let rest = number_before_dash-decimal ds slug (n * 10 + (d - 48)) in ground (arith, h, rest)

leading_issue_cons :
    (c : ℕ) (t slug : Text)
    → leb b'1' c && leb c b'9' ≡ true
    → all is_digit (c ∷ t) ≡ true
    → leading_issue ((c ∷ t) ++ (b'-' ∷ slug)) ≡ some (decimal 0 (c ∷ t))
unfolding leading_issue decimal all
leading_issue_cons c t slug h k =
    let rest = number_before_dash-decimal t slug (c - 48) in ground (arith, h, k, rest)

leading_issue-number_text :
    (n : ℕ) (slug : Text) → 1 ≤ n → leading_issue (number_text n ++ (b'-' ∷ slug)) ≡ some n
unfolding number_text
leading_issue-number_text n slug h =
    let (c, t, e, positive) = first_digit (suc n) n (omega arith) h in
    let digit = ap (all is_digit) (sym e) ∙ all-digits (suc n) n in
    let read = ap (decimal 0) (sym e) ∙ decimal-digits (suc n) n (omega arith) in
    ap (λ s. leading_issue (s ++ (b'-' ∷ slug))) e
    ∙ leading_issue_cons c t slug positive digit
    ∙ ap some read

only_own_issue :
    (branch : Text) (n m : ℕ)
    → issue_behind branch_kinds branch ≡ some n
    → (assert_issue_branch branch m ≡ answer tt) ↔ (n ≡ m)
unfolding assert_issue_branch branch_matches
only_own_issue branch n m h =
    let matched : (assert_issue_branch branch m ≡ answer tt) → n ≡ m = λ e. ground (arith, h, e) in
    let accepted : n ≡ m → assert_issue_branch branch m ≡ answer tt = λ e. ground (arith, h, e) in
    (matched, accepted)

-- A branch of one of the four kinds, whose name is the number of an issue, a dash and anything, is the branch of
-- that issue and of no other.
pub assert_issue_branch-number_text :
    (n m : ℕ) (slug : Text)
    → 1 ≤ n
    → All
        (λ kind.
          (assert_issue_branch (kind ++ (txt "/" ++ (number_text n ++ (b'-' ∷ slug)))) m
            ≡ answer tt)
          ↔ (n ≡ m))
        branch_kinds
unfolding issue_behind txt remove_prefix nat_eq
assert_issue_branch-number_text n m slug h =
    let number = leading_issue-number_text n slug h in
    (
      only_own_issue _ n m number,
      (
        only_own_issue _ n m number,
        (only_own_issue _ n m number, (only_own_issue _ n m number, tt)),
      ),
    )
