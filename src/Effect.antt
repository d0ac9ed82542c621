-- ===== src/Effect.antt =====
-- Code that acts on a state and may raise: what happened before the raise stays, so the state comes
-- back beside the violation too.
pub mod NoPass
use coffee_order_system.Prelude.{◌≡◌, refl, ap, sym, ◌∙◌, List, [], ◌∷◌, Text, arith}
use coffee_order_system.Outcome.{Result, ok, violation, exception, HarnessViolation}

abbrev pub Exec : Type 0 → Type 0 → Type 0
Exec S A = S → Result A × S

-- What follows a call, by the way in which the call ended.
abbrev pub proceed : {S A B : Type 0} → Result A → (A → Exec S B) → Exec S B
proceed (ok a) next s = next a s
proceed (violation v) next s = (violation v, s)
proceed (exception e) next s = (exception e, s)

infixl 5 ◌>>=◌ ◌>>◌
abbrev pub ◌>>=◌ : {S A B : Type 0} → Exec S A → (A → Exec S B) → Exec S B
◌>>=◌ call next s = let (r, s') = call s in proceed r next s'

abbrev pub ◌>>◌ : {S B : Type 0} → Exec S (Unit {0}) → Exec S B → Exec S B
first >> second = first >>= λ _. second

-- A part that leaves the state alone.
abbrev pub lift : {S A : Type 0} → Result A → Exec S A
lift r s = (r, s)

abbrev pub give : {S A : Type 0} → A → Exec S A
give a = lift (ok a)

-- `except HarnessViolation as error:`
abbrev pub handle : {S A : Type 0} → Result A → (HarnessViolation → Exec S A) → Exec S A
handle (ok a) handler s = (ok a, s)
handle (violation v) handler s = handler v s
handle (exception e) handler s = (exception e, s)

abbrev pub catch : {S A : Type 0} → Exec S A → (HarnessViolation → Exec S A) → Exec S A
catch call handler s = let (r, s') = call s in handle r handler s'

-- `except Exception as error: raise …`, behind `except HarnessViolation: raise`.
abbrev pub rename_exception : {A : Type 0} → (Text → HarnessViolation) → Result A → Result A
rename_exception f (ok a) = ok a
rename_exception f (violation v) = violation v
rename_exception f (exception e) = violation (f e)

abbrev pub renaming : {S A : Type 0} → (Text → HarnessViolation) → Exec S A → Exec S A
renaming f call s = let (r, s') = call s in (rename_exception f r, s')

-- What a `finally` block leaves of the end of a call: its own raise comes first.
abbrev pub finish : {A : Type 0} → Result (Unit {0}) → Result A → Result A
finish (ok u) r = r
finish (violation v) r = violation v
finish (exception e) r = exception e

-- `try: call finally: last`
abbrev pub finally : {S A : Type 0} → Exec S A → Exec S (Unit {0}) → Exec S A
finally call last s = let (r, s1) = call s in let (q, s2) = last s1 in (finish q r, s2)

abbrev pub repair : {S A : Type 0} → Result A → Exec S (Unit {0}) → Exec S A
repair (ok a) last s = (ok a, s)
repair (violation v) last s = let (q, s') = last s in (finish q (violation v), s')
repair (exception e) last s = let (q, s') = last s in (finish q (exception e), s')

-- `last` runs if the call raises.
abbrev pub on_raise : {S A : Type 0} → Exec S A → Exec S (Unit {0}) → Exec S A
on_raise call last s = let (r, s') = call s in repair r last s'

-- The call returns `a` on some state.
abbrev pub Returns : {S A : Type 0} → Exec S A → A → Type 0
Returns {S} call a = (s : S) × (s' : S) × (call s ≡ (ok a, s'))

pub proceed-eq-ok :
    {S A B : Type 0} (r : Result A) (next : A → Exec S B) (s : S) {b : B} {t : S}
    → proceed r next s ≡ (ok b, t)
    → (a : A) × (r ≡ ok a) × (next a s ≡ (ok b, t))
proceed-eq-ok (ok a) next s h = (a, refl, h)
proceed-eq-ok (violation v) next s h = absurd (ground (arith, h))
proceed-eq-ok (exception e) next s h = absurd (ground (arith, h))

-- When two calls in a row return, the first one returned, and the second from where it ended.
pub bind-eq-ok :
    {S A B : Type 0} (call : Exec S A) (next : A → Exec S B) (s : S) {b : B} {t : S}
    → (call >>= next) s ≡ (ok b, t)
    → (a : A) × (s' : S) × (call s ≡ (ok a, s')) × (next a s' ≡ (ok b, t))
bind-eq-ok call next s h =
    let (a, e, rest) = proceed-eq-ok (call s).0 next (call s).1 h in
    (a, (call s).1, ap (λ r. (r, (call s).1)) e, rest)

pub lift-eq-ok :
    {S A : Type 0} (r : Result A) (s : S) {a : A} {t : S}
    → lift r s ≡ (ok a, t)
    → (r ≡ ok a) × (s ≡ t)
lift-eq-ok r s h = (ap (λ p. p.0) h, ap (λ p. p.1) h)

handle-eq-ok :
    {S A : Type 0} (r : Result A) (f : HarnessViolation → HarnessViolation) (s : S) {a : A} {t : S}
    → handle r (λ v. lift (violation (f v))) s ≡ (ok a, t)
    → lift r s ≡ (ok a, t)
handle-eq-ok (ok a) f s h = h
handle-eq-ok (violation v) f s h = absurd (ground (arith, h))
handle-eq-ok (exception e) f s h = absurd (ground (arith, h))

-- A call whose violations would be raised anew returned itself.
pub catch-eq-ok :
    {S A : Type 0} (call : Exec S A) (f : HarnessViolation → HarnessViolation) (s : S) {a : A}
    {t : S}
    → catch call (λ v. lift (violation (f v))) s ≡ (ok a, t)
    → call s ≡ (ok a, t)
catch-eq-ok call f s h = handle-eq-ok (call s).0 f (call s).1 h
