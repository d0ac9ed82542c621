-- ===== src/Publish/Trace.antt =====
-- The commands that a step gives to the runner, one rule for each way to build a step.
use coffee_order_system.Prelude.{
  ◌≡◌, refl, ap, sym, ◌∙◌, Bool, true, false, List, [], ◌∷◌, ◌++◌, Text, All, All-append,
}
use mathlib.Core.List.{append-nil, append_assoc}
use coffee_order_system.System.{Call}
use coffee_order_system.Publish.{
  Answer, answer, publish_error, other_error, Publisher, Progress, Step, continue, ◌>>=◌, settle,
  ask, issue, output_of, command_output,
}

-- From each state, the step gives some commands more, all of which satisfy the predicate.
pub record Issues {W A : Type 0} (P : List Text → Type 0) (step : Step W A) : Type 0 where
  pub more :
      (p : Progress W) → (cs : List (List Text)) × ((step p).1.issued ≡ p.issued ++ cs) × All P cs

module _ {W : Type 0} (P : List Text → Type 0) where
  pub Issues-settle : {A : Type 0} (a : Answer A) → Issues {W = W} P (settle a)
  Issues-settle a = record { more = λ p. ([], sym (append-nil p.issued), tt) }

  pub Issues-ask : {A : Type 0} (call : Call W A) → Issues P (ask call)
  Issues-ask call = record { more = λ p. ([], sym (append-nil p.issued), tt) }

  continue_lem :
      {A B : Type 0} (a : Answer A) (next : A → Step W B) (p : Progress W)
      → ((a : A) → Issues P (next a))
      → (cs : List (List Text)) × ((continue a next p).1.issued ≡ p.issued ++ cs) × All P cs
  continue_lem (answer a) next p h = (h a).more p
  continue_lem (publish_error e) next p h = ([], sym (append-nil p.issued), tt)
  continue_lem (other_error e) next p h = ([], sym (append-nil p.issued), tt)

  pub Issues-bind :
      {A B : Type 0} (step : Step W A) (next : A → Step W B)
      → Issues P step
      → ((a : A) → Issues P (next a))
      → Issues P (step >>= next)
  Issues-bind step next h k = record {
    more = λ p.
        let (cs, e, good) = h.more p in
        let (ds, f, fine) = continue_lem (step p).0 next (step p).1 k in
        (
          cs ++ ds,
          f ∙ ap (λ is. is ++ ds) e ∙ append_assoc p.issued cs ds,
          All-append P cs ds good fine,
        );
  }

  pub Issues-elim_bool :
      {A : Type 0} (b : Bool) (s t : Step W A)
      → Issues P s
      → Issues P t
      → Issues P (elim b [ true ↦ s | false ↦ t ])
  Issues-elim_bool true s t hs ht = hs
  Issues-elim_bool false s t hs ht = ht

module _ (sys : Publisher) (P : List Text → Type 0) where
  pub Issues-command_output :
      (command : List Text) (root description : Text)
      → P command
      → Issues P (command_output sys command root description)
  unfolding command_output issue
  Issues-command_output command root description h =
      Issues-bind P _ _ (record { more = λ p. (command ∷ [], refl, (h, tt)) })
        (λ result. Issues-settle P (output_of description result))
