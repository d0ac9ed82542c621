-- ===== src/Paths/Safe.antt =====
-- What `_validate_repository_pattern` promises of a pattern that it lets through.
use coffee_order_system.Prelude.{
  ℕ, ◌≡◌, refl, ◌≢◌, inl, inr, Bool, true, false, not, ◌&&◌, ◌||◌, Option, none, some, List, [],
  ◌∷◌, ◌++◌, arith, ◌==◌, nat_eq, if◌then◌else◌, Bool-cases, contains, Text, text_eq, txt, any, all,
  strip, rstrip, is_control, split, extend_head, split-ne-nil, All, any-contains, starts_with,
  has_part,
}
use coffee_order_system.Outcome.{ok}
use coffee_order_system.Paths.{
  slash, body_of, is_wildcard, is_malformed, validate_repository_pattern,
}

abbrev IsName : Text → Type 0
IsName s = (s ≢ []) × (s ≢ txt ".") × (s ≢ txt "..")

-- The pattern without its `/**` is a path of proper names below the repository's root, with no
-- wildcard in it; nowhere in the pattern is there a control character or a backslash.
pub record IsSafe (pattern : Text) : Type 0 where
  pub stripped : strip pattern ≡ pattern
  pub segments : (s : Text) → contains (split slash (body_of pattern)) s ≡ true → IsName s
  pub no_control : (c : ℕ) → contains pattern c ≡ true → is_control c ≡ false
  pub no_backslash : contains pattern 92 ≡ false
  pub no_wildcard : (c : ℕ) → contains (body_of pattern) c ≡ true → contains (txt "*?[]") c ≡ false

any-false {ℓ} :
    {A : Type ℓ} ⦃e : coffee_order_system.Prelude.Eq A⦄ (p : A → Bool) (xs : List A)
    → any p xs ≡ false
    → (a : A) → contains xs a ≡ true
    → p a ≡ false
any-false p xs h a m = elim (Bool-cases (p a)) [
  | inl t ↦ absurd (ground (arith, any-contains p xs a m t))
  | inr f ↦ f
]

reserved-IsName : (s : Text) → contains ([] ∷ txt "." ∷ txt ".." ∷ []) s ≡ false → IsName s
unfolding contains
reserved-IsName s h = ground arith

module _ (pattern check_id : Text)
    (valid : validate_repository_pattern pattern check_id ≡ ok tt) where
  tests : (is_malformed pattern ≡ false) × (any is_wildcard (body_of pattern) ≡ false)
  unfolding validate_repository_pattern
  tests = ground arith

  parts :
      (strip pattern ≡ pattern)
      × (any is_control pattern ≡ false)
      × (contains pattern 92 ≡ false)
      × (any
            (λ segment. contains ([] ∷ txt "." ∷ txt ".." ∷ []) segment)
            (split slash (body_of pattern))
          ≡ false)
  unfolding is_malformed
  parts = let h = tests.0 in ground arith

  -- A pattern that `_validate_repository_pattern` lets through is safe: it is a path of proper
  -- segments, none of them empty, `.` or `..`, with no wildcard before a trailing `/**`, and with
  -- no control character, backslash or outer whitespace.
  pub validate_repository_pattern-IsSafe : IsSafe pattern
  unfolding is_wildcard
  validate_repository_pattern-IsSafe = record {
    stripped = parts.0;
    segments = λ s m. reserved-IsName s (any-false _ _ parts.3 s m);
    no_control = λ c m. any-false _ _ parts.1 c m;
    no_backslash = parts.2;
    no_wildcard = λ c m. any-false _ _ tests.1 c m;
  }
