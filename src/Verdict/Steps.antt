-- ===== src/Verdict/Steps.antt =====
-- Two steps in a row that return, for each kind of step in `evaluate`.
use coffee_order_system.Prelude.{◌≡◌, ap, subst}
use coffee_order_system.Outcome.{Result, ok, ok-injective}
use coffee_order_system.Effect.{Exec, ◌>>=◌, lift, proceed-eq-ok}
use coffee_order_system.Evaluate.{Locals, on_world}

module _ {W A B : Type 0} where
  pub on_world-bind-eq-ok :
      (call : Exec W A) (next : A → Exec (Locals × W) B) (l : Locals) (w : W) {b : B}
      {t : Locals × W}
      → (on_world call >>= next) (l, w) ≡ (ok b, t)
      → (a : A) × (w' : W) × (call w ≡ (ok a, w')) × (next a (l, w') ≡ (ok b, t))
  on_world-bind-eq-ok call next l w h =
      let (a, e, rest) = proceed-eq-ok (call w).0 next (l, (call w).1) h in
      (a, (call w).1, ap (λ r. (r, (call w).1)) e, rest)

  pub lift-bind-eq-ok :
      (r : Result A) (next : A → Exec (Locals × W) B) (l : Locals) (w : W) {b : B} {t : Locals × W}
      → (lift r >>= next) (l, w) ≡ (ok b, t)
      → (a : A) × (r ≡ ok a) × (next a (l, w) ≡ (ok b, t))
  lift-bind-eq-ok r next l w h = proceed-eq-ok r next (l, w) h

-- What holds of the value that is given and of the state that stays holds of what came back.
pub give-eq-ok :
    {W B : Type 0} (P : B → Locals × W → Type 0) (a : B) (s : Locals × W) {b : B} {t : Locals × W}
    → lift (ok a) s ≡ (ok b, t)
    → P a s
    → P b t
give-eq-ok P a s {b} {t} h x =
    subst (P b) (ap (λ p. p.1) h) (subst (λ c. P c s) (ok-injective a b (ap (λ p. p.0) h)) x)
