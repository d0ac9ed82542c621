-- ===== src/Publish/Digits.antt =====
-- scripts/agent-publish.py: numbers that are written and read back.
use coffee_order_system.Prelude.{
  ℕ, zero, suc, ◌+◌, ◌*◌, ◌/◌, ◌%◌, ◌<◌, ◌≤◌, leb, ◌≡◌, refl, sym, ap, ◌∙◌, ◌⊎◌, inl, inr, Bool,
  true, ◌&&◌, some, [], ◌∷◌, ◌++◌, Text, decimal, all, arith,
}
use coffee_order_system.Paths.{positive_decimal}
use coffee_order_system.Publish.{digits, number_text}

decimal-append : (s t : Text) (n : ℕ) → decimal n (s ++ t) ≡ decimal (decimal n s) t
unfolding decimal
decimal-append [] t n = refl
decimal-append (c ∷ s) t n = decimal-append s t _

abbrev pub is_digit : ℕ → Bool
is_digit d = leb b'0' d && leb d b'9'

all-append : (p : ℕ → Bool) (s t : Text) → all p s ≡ true → all p t ≡ true → all p (s ++ t) ≡ true
unfolding all
all-append p [] t h k = k
all-append p (c ∷ s) t h k = let rest = all-append p s t in ground (arith, h, k, rest)

digits_small : (fuel n : ℕ) → n < 10 → digits (suc fuel) n ≡ (48 + n) ∷ []
unfolding digits
digits_small fuel n h = ground (arith, h)

digits_large :
    (fuel n : ℕ) → 10 ≤ n → digits (suc fuel) n ≡ digits fuel (n / 10) ++ ((48 + n % 10) ∷ [])
unfolding digits
digits_large fuel n h = ground (arith, h)

ten_cases : (n : ℕ) → (n < 10) ⊎ (10 ≤ n)
ten_cases n = ground arith

smaller_quotient : (fuel n : ℕ) → n < suc fuel → 10 ≤ n → n / 10 < fuel
smaller_quotient fuel n h k = omega arith

decimal_last : (n d : ℕ) → decimal n ((48 + d) ∷ []) ≡ n * 10 + d
unfolding decimal
decimal_last n d = omega arith

pub decimal-digits : (fuel n : ℕ) → n < fuel → decimal 0 (digits fuel n) ≡ n
decimal-digits zero n h = absurd (omega (arith, h))
decimal-digits (suc fuel) n h = elim (ten_cases n) [
  | inl small ↦ ap (decimal 0) (digits_small fuel n small) ∙ decimal_last 0 n ∙ omega arith
  | inr large ↦
      ap (decimal 0) (digits_large fuel n large)
      ∙ decimal-append (digits fuel (n / 10)) ((48 + n % 10) ∷ []) 0
      ∙ ap (λ m. decimal m ((48 + n % 10) ∷ []))
          (decimal-digits fuel (n / 10) (smaller_quotient fuel n h large))
      ∙ decimal_last (n / 10) (n % 10)
      ∙ omega arith
]

digit_last : (d : ℕ) → d < 10 → all is_digit ((48 + d) ∷ []) ≡ true
unfolding all
digit_last d h = ground (arith, h)

pub all-digits : (fuel n : ℕ) → all is_digit (digits fuel n) ≡ true
unfolding digits all
all-digits zero n = refl
all-digits (suc fuel) n = elim (ten_cases n) [
  | inl small ↦ ap (all is_digit) (digits_small fuel n small) ∙ digit_last n small
  | inr large ↦
      ap (all is_digit) (digits_large fuel n large)
      ∙ all-append is_digit (digits fuel (n / 10)) ((48 + n % 10) ∷ []) (all-digits fuel (n / 10))
          (digit_last (n % 10) (omega arith))
]

-- The first digit of a number that is not 0 is not 0.
abbrev pub StartsPositive : Text → Type 0
StartsPositive s = (c : ℕ) × (t : Text) × (s ≡ c ∷ t) × (leb b'1' c && leb c b'9' ≡ true)

pub first_digit : (fuel n : ℕ) → n < fuel → 1 ≤ n → StartsPositive (digits fuel n)
first_digit zero n h k = absurd (omega (arith, h))
first_digit (suc fuel) n h k = elim (ten_cases n) [
  | inl small ↦ (48 + n, [], digits_small fuel n small, ground (arith, small, k))
  | inr large ↦
      let (c, t, e, positive) =
        first_digit fuel (n / 10) (smaller_quotient fuel n h large) (omega arith) in
      (
        c,
        t ++ ((48 + n % 10) ∷ []),
        digits_large fuel n large ∙ ap (λ s. s ++ ((48 + n % 10) ∷ [])) e,
        positive,
      )
]

positive_decimal_cons :
    (c : ℕ) (t : Text)
    → leb b'1' c && leb c b'9' ≡ true
    → all is_digit (c ∷ t) ≡ true
    → positive_decimal (c ∷ t) ≡ some (decimal 0 (c ∷ t))
unfolding positive_decimal all
positive_decimal_cons c t h k = ground (arith, h, k)

pub positive_decimal-number_text : (n : ℕ) → 1 ≤ n → positive_decimal (number_text n) ≡ some n
unfolding number_text
positive_decimal-number_text n h =
    let (c, t, e, positive) = first_digit (suc n) n (omega arith) h in
    let digit = ap (all is_digit) (sym e) ∙ all-digits (suc n) n in
    let value = ap (decimal 0) (sym e) ∙ decimal-digits (suc n) n (omega arith) in
    ap positive_decimal e ∙ positive_decimal_cons c t positive digit ∙ ap some value
