-- ===== src/Diff/RoundTrip.antt =====
-- What git writes is what the parsers read.
use coffee_order_system.Prelude.{
  ℕ, ◌≡◌, refl, ap, ◌∙◌, ◌≢◌, true, false, ◌&&◌, some, List, [], ◌∷◌, map, arith, ◌==◌, nat_eq,
  text_eq, leb, contains, Text, txt, any, all, All, split, remove_suffix, decode_surrogateescape,
  join, sym, subst, starts_with, length, ◌≤◌, ◌⊎◌,
}
use coffee_order_system.Outcome.{ok}
use coffee_order_system.Diff.{
  is_status, has_two_paths, check_status, decode_git_path, parse_tokens, parse_name_status,
}
use coffee_order_system.Diff.Tokens.{
  terminate, NulFree, split-join, remove_suffix-terminate, terminate-ne-nil,
}

-- One change of `git diff --name-status -z`: a status and one path, or a rename or copy with two.
pub data Change : Type 0 where
  single : (status path : Text) → Change
  double : (status old new : Text) → Change

abbrev pub change_tokens : List Change → List Text
change_tokens [] = []
change_tokens (single s p ∷ cs) = s ∷ p ∷ change_tokens cs
change_tokens (double s p q ∷ cs) = s ∷ p ∷ q ∷ change_tokens cs

abbrev pub change_paths : List Change → List Text
change_paths [] = []
change_paths (single s p ∷ cs) = p ∷ change_paths cs
change_paths (double s p q ∷ cs) = p ∷ q ∷ change_paths cs

abbrev pub IsPath : Text → Type 0
IsPath p = (p ≢ []) × NulFree p

-- A letter with one path.
abbrev pub IsSingle : Text → Type 0
IsSingle s = (c : ℕ) × (s ≡ c ∷ []) × (contains (txt "ADMTUXB") c ≡ true)

-- R for a rename or C for a copy, and a score of at most three digits.
abbrev pub IsDouble : Text → Type 0
IsDouble s =
    (c : ℕ) × (digits : Text) × (s ≡ c ∷ digits)
    × ((c ≡ b'R') ⊎ (c ≡ b'C'))
    × All (λ d. (b'0' ≤ d) × (d ≤ b'9')) digits
    × (length digits ≤ 3)

abbrev pub IsChange : Change → Type 0
IsChange (single s p) = IsSingle s × IsPath p
IsChange (double s p q) = IsDouble s × IsPath p × IsPath q

-- What the parser finds out of a change.
abbrev IsRead : Change → Type 0
IsRead (single s p) = (is_status s ≡ true) × (has_two_paths s ≡ false) × IsPath p
IsRead (double s p q) = (is_status s ≡ true) × (has_two_paths s ≡ true) × IsPath p × IsPath q

single_letter :
    (c : ℕ)
    → contains (txt "ADMTUXB") c ≡ true
    → (is_status (c ∷ []) ≡ true) × (has_two_paths (c ∷ []) ≡ false)
unfolding contains txt is_status has_two_paths starts_with
single_letter c h = ground arith

all_digits :
    (ds : Text)
    → All (λ d. (b'0' ≤ d) × (d ≤ b'9')) ds
    → all (λ d. leb b'0' d && leb d b'9') ds ≡ true
unfolding all
all_digits [] h = refl
all_digits (d ∷ ds) h = ground (arith, h, all_digits ds h.1)

double_letter :
    (c : ℕ) (ds : Text)
    → (c ≡ b'R') ⊎ (c ≡ b'C')
    → all (λ d. leb b'0' d && leb d b'9') ds ≡ true
    → length ds ≤ 3
    → (is_status (c ∷ ds) ≡ true) × (has_two_paths (c ∷ ds) ≡ true)
unfolding contains txt is_status has_two_paths starts_with
double_letter c ds letter digits short = ground (arith, letter, digits, short)

change-IsRead : (change : Change) → IsChange change → IsRead change
change-IsRead (single s p) ((c, e, h), path) =
    let known =
      subst (λ t. (is_status t ≡ true) × (has_two_paths t ≡ false)) (sym e) (single_letter c h) in
    (known.0, known.1, path)
change-IsRead (double s p q) ((c, ds, e, letter, digits, short), old, new) =
    let known =
      subst (λ t. (is_status t ≡ true) × (has_two_paths t ≡ true)) (sym e)
        (double_letter c ds letter (all_digits ds digits) short) in
    (known.0, known.1, old, new)

changes-IsRead : (cs : List Change) → All IsChange cs → All IsRead cs
changes-IsRead [] h = tt
changes-IsRead (c ∷ cs) h = (change-IsRead c h.0, changes-IsRead cs h.1)

letter_low : (c : ℕ) → contains (txt "ACDMTUXB") c ≡ true → (leb 128 c ≡ false) × ((0 == c) ≡ false)
unfolding contains txt
letter_low c h = ground arith

rename_low : (c : ℕ) → contains (txt "RC") c ≡ true → (leb 128 c ≡ false) × ((0 == c) ≡ false)
unfolding contains txt
rename_low c h = ground arith

digits_low :
    (ds : Text)
    → all (λ d. leb b'0' d && leb d b'9') ds ≡ true
    → (any (λ b. leb 128 b) ds ≡ false) × (contains ds 0 ≡ false)
unfolding all any contains
digits_low [] h = (refl, refl)
digits_low (d ∷ ds) h = ground (arith, digits_low ds)

-- A status is ASCII and has no NUL.
status_low : (s : Text) → is_status s ≡ true → (any (λ b. leb 128 b) s ≡ false) × NulFree s
unfolding is_status any contains
status_low [] h = absurd (ground arith)
status_low (c ∷ ds) h = ground (arith, letter_low c, rename_low c, digits_low ds)

check_status_lem : (s : Text) → is_status s ≡ true → check_status s ≡ ok (has_two_paths s)
unfolding check_status
check_status_lem s h = ground (arith, status_low s h)

decode_lem : (p : Text) → p ≢ [] → decode_git_path p ≡ ok (decode_surrogateescape p)
unfolding decode_git_path
decode_lem [] h = absurd (h refl)
decode_lem (b ∷ p) h = refl

parse_tokens_lem :
    (cs : List Change)
    → All IsRead cs
    → parse_tokens (change_tokens cs) ≡ ok (map decode_surrogateescape (change_paths cs))
unfolding parse_tokens
parse_tokens_lem [] h = refl
parse_tokens_lem (single s p ∷ []) h =
    ground (arith, check_status_lem s h.0.0, decode_lem p h.0.2.0)
parse_tokens_lem (double s p q ∷ cs) h = ground (
  arith,
  check_status_lem s h.0.0,
  decode_lem p h.0.2.0,
  decode_lem q h.0.3.0,
  parse_tokens_lem cs h.1,
)
parse_tokens_lem (single s p ∷ single s' p' ∷ cs) h = ground (
  arith,
  check_status_lem s h.0.0,
  decode_lem p h.0.2.0,
  parse_tokens_lem (single s' p' ∷ cs) h.1,
)
parse_tokens_lem (single s p ∷ double s' p' q' ∷ cs) h = ground (
  arith,
  check_status_lem s h.0.0,
  decode_lem p h.0.2.0,
  parse_tokens_lem (double s' p' q' ∷ cs) h.1,
)

change_tokens-NulFree : (cs : List Change) → All IsRead cs → All NulFree (change_tokens cs)
change_tokens-NulFree [] h = tt
change_tokens-NulFree (single s p ∷ cs) h =
    ((status_low s h.0.0).1, (h.0.2.1, change_tokens-NulFree cs h.1))
change_tokens-NulFree (double s p q ∷ cs) h =
    ((status_low s h.0.0).1, (h.0.2.1, (h.0.3.1, change_tokens-NulFree cs h.1)))

parse_stream :
    (raw body : Text)
    → raw ≢ []
    → remove_suffix raw (0 ∷ []) ≡ some body
    → parse_name_status raw ≡ parse_tokens (split 0 body)
unfolding parse_name_status
parse_stream [] body n h = absurd (n refl)
parse_stream (b ∷ raw) body n h = rw (h, parse_name_status)

parse_terminate :
    (t : Text) (ts : List Text)
    → All NulFree (t ∷ ts)
    → parse_name_status (terminate (t ∷ ts)) ≡ parse_tokens (t ∷ ts)
parse_terminate t ts h =
    parse_stream (terminate (t ∷ ts)) (join 0 (t ∷ ts)) (terminate-ne-nil t ts)
      (remove_suffix-terminate t ts)
    ∙ ap parse_tokens (split-join t ts h)

terminate_lem :
    (cs : List Change)
    → All IsRead cs
    → parse_name_status (terminate (change_tokens cs))
      ≡ ok (map decode_surrogateescape (change_paths cs))
terminate_lem [] h = unfold parse_name_status terminate in refl
terminate_lem (single s p ∷ cs) h =
    parse_terminate s (p ∷ change_tokens cs) (change_tokens-NulFree (single s p ∷ cs) h)
    ∙ parse_tokens_lem (single s p ∷ cs) h
terminate_lem (double s p q ∷ cs) h =
    parse_terminate s (p ∷ q ∷ change_tokens cs) (change_tokens-NulFree (double s p q ∷ cs) h)
    ∙ parse_tokens_lem (double s p q ∷ cs) h

-- The NUL terminated stream of any well-formed changes parses to the decoded paths of the changes, in their order:
-- one path after one of the letters ADMTUXB, and both paths of a rename R or a copy C, with or without a score.
pub parse_name_status-terminate :
    (cs : List Change)
    → All IsChange cs
    → parse_name_status (terminate (change_tokens cs))
      ≡ ok (map decode_surrogateescape (change_paths cs))
parse_name_status-terminate cs h = terminate_lem cs (changes-IsRead cs h)
