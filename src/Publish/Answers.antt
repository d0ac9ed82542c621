-- ===== src/Publish/Answers.antt =====
-- scripts/agent-publish.py: the steps that answered, inverted one by one.
use coffee_order_system.Prelude.{
  ◌≡◌, ap, sym, ◌∙◌, Bool, false, not, Option, none, some, List, [], ◌∷◌, ◌++◌, Text, ℕ, ℤ, arith,
  text_eq, nat_eq, int_eq, strip,
}
use coffee_order_system.Json.{Json, str, obj, null, bool, int, float, arr, Fields}
use coffee_order_system.Outcome.{Reason}
use coffee_order_system.System.{Try, Raised, returned, raised}
use coffee_order_system.Publish.{
  answer, Publisher, Progress, answer_of, guard, as_dict, is_text, output_of, issue, command_output,
  Completed, bind-eq-answer,
}
use coffee_order_system.Publish.Readings.{branch_matches}

pub is_text-true : (j : Json) (t : Text) → not (is_text j t) ≡ false → j ≡ str t
unfolding is_text
is_text-true (str s) t h = ground (arith, h)
is_text-true null t h = absurd (ground (arith, h))
is_text-true (bool b) t h = absurd (ground (arith, h))
is_text-true (int i) t h = absurd (ground (arith, h))
is_text-true (float f) t h = absurd (ground (arith, h))
is_text-true (arr xs) t h = absurd (ground (arith, h))
is_text-true (obj fs) t h = absurd (ground (arith, h))

pub as_dict-eq-answer : (j : Json) {fs : Fields} → as_dict j ≡ answer fs → j ≡ obj fs
unfolding as_dict
as_dict-eq-answer (obj fs) h = ground (arith, h)
as_dict-eq-answer null h = absurd (ground (arith, h))
as_dict-eq-answer (bool b) h = absurd (ground (arith, h))
as_dict-eq-answer (int i) h = absurd (ground (arith, h))
as_dict-eq-answer (float f) h = absurd (ground (arith, h))
as_dict-eq-answer (arr xs) h = absurd (ground (arith, h))
as_dict-eq-answer (str s) h = absurd (ground (arith, h))

pub guard-eq-answer :
    {A : Type 0} (catches : Raised → Bool) (reason : Text → Reason) (t : Try A) {a : A}
    → guard catches reason t ≡ answer a
    → t ≡ returned a
guard-eq-answer catches reason (returned a) h = ground (arith, h)
guard-eq-answer catches reason (raised e) h = absurd (ground (arith, h))

output_of-zero :
    (description : Text) (c : Completed) {out : Text}
    → output_of description c ≡ answer out
    → c.returncode ≡ ℤ.pos 0
unfolding output_of
output_of-zero description c h = ground (arith, h)

pub branch_matches-true : (o : Option ℕ) (n : ℕ) → not (branch_matches o n) ≡ false → o ≡ some n
unfolding branch_matches
branch_matches-true none n h = absurd (ground (arith, h))
branch_matches-true (some m) n h = ground (arith, h)

output_of-strip :
    (description : Text) (c : Completed) {out : Text}
    → output_of description c ≡ answer out
    → out ≡ strip c.stdout
unfolding output_of
output_of-strip description c h = ground (arith, h)

module _ (sys : Publisher) where
  open sys use {World, run, read_text, loads}

  -- The runner ran the command, as the next one, and it ended with 0.
  pub record Succeeds (command : List Text) (root : Text) (p : Progress World) (out : Text)
      (q : Progress World) : Type 0 where
    pub result : Completed
    pub ran : run command root p.world ≡ (returned result, q.world)
    pub zero_code : result.returncode ≡ ℤ.pos 0
    pub printed : out ≡ strip result.stdout
    pub issued : q.issued ≡ p.issued ++ (command ∷ [])

  answer_of-returned : {A : Type 0} (t : Try A) {a : A} → answer_of t ≡ answer a → t ≡ returned a
  answer_of-returned (returned a) h = ground (arith, h)
  answer_of-returned (raised e) h = absurd (ground (arith, h))

  pub command_output-Succeeds :
      (command : List Text) (root description : Text) (p : Progress World) {out : Text}
      {q : Progress World}
      → command_output sys command root description p ≡ (answer out, q)
      → Succeeds command root p out q
  unfolding command_output issue
  command_output-Succeeds command root description p h =
      let (c, q', ran, h1) = bind-eq-answer (issue sys command root) _ p h in
      let last = ap (λ r. r.1) h1 in
      let done = ap (λ r. r.0) h1 in
      record {
        result = c;
        ran =
            ap (λ t. (t, (run command root p.world).1))
              (answer_of-returned (run command root p.world).0 (ap (λ r. r.0) ran))
            ∙ ap (λ (x : Progress World). (returned c, x.world)) (ap (λ r. r.1) ran ∙ last);
        zero_code = output_of-zero description c done;
        printed = output_of-strip description c done;
        issued = ap (λ (x : Progress World). x.issued) (sym last) ∙ ap (λ r. r.1.issued) (sym ran);
      }
