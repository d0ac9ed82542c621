-- ===== src/Publish/Stages.antt =====
-- scripts/agent-publish.py: the stages before the push that answered.
use coffee_order_system.Prelude.{
  ◌≡◌, refl, ap, sym, ◌∙◌, subst, inl, inr, true, false, not, some, List, [], ◌∷◌, ◌++◌, Text, txt,
  All, arith, Option-cases, ◌==◌, text_eq,
}
use mathlib.Core.List.{append-nil}
use coffee_order_system.Outcome.{about, value}
use coffee_order_system.Json.{Json, str, obj, Fields}
use coffee_order_system.System.{returned, is_os_error}
use coffee_order_system.Paths.{is_sha}
use coffee_order_system.Publish.{
  answer, Publisher, Progress, guard, as_dict, is_text, get_or_null, refuse_if, command_output,
  continue-eq-answer, bind-eq-answer, refuse_if-eq-answer,
}
use coffee_order_system.Publish.Readings.{
  Manifest, branch_command, head_command, status_command, evaluate_command, evidence_path,
  load_manifest, current_branch_and_head, assert_clean_worktree, evaluate_and_read_evidence,
  evidence_unreadable, load_or_refuse,
}
use coffee_order_system.Publish.Order.{manifest_commands}
use coffee_order_system.Publish.Answers.{
  is_text-true, as_dict-eq-answer, guard-eq-answer, Succeeds, command_output-Succeeds,
}

no_commands : (cs : List (List Text)) → All (λ c. true ≡ false) cs → cs ≡ []
no_commands [] h = refl
no_commands (c ∷ cs) h = absurd (ground (arith, h.0))

load_or_refuse-eq-answer :
    (sys : Publisher) (text : Text) {payload : Json}
    → load_or_refuse sys evidence_unreadable text ≡ answer payload
    → sys.loads text ≡ some payload
load_or_refuse-eq-answer sys text h = elim (Option-cases (sys.loads text)) [
  | inl e ↦ absurd (ground (arith, h, e))
  | inr (j, e) ↦ ground (arith, h, e)
]

pub answer-injective : {A : Type 0} (a b : A) → answer a ≡ answer b → a ≡ b
answer-injective a b h = cc

sha_true : (head : Text) → not (is_sha head) ≡ false → is_sha head ≡ true
sha_true head h = ground (arith, h)

nil_of : {t : Text} → not (t == []) ≡ false → t ≡ []
nil_of h = ground (arith, h)

module _ (sys : Publisher) (root plan_path : Text) where
  open sys use {World, read_text, loads}

  pub manifest-issued :
      (p : Progress World) {m : Manifest} {p1 : Progress World}
      → load_manifest sys root plan_path p ≡ (answer m, p1)
      → p1.issued ≡ p.issued
  manifest-issued p h =
      let (cs, e, none_good) = (manifest_commands sys (λ c. true ≡ false) root plan_path).more p in
      ap (λ r. r.1.issued) (sym h)
      ∙ e
      ∙ ap (λ ds. p.issued ++ ds) (no_commands cs none_good)
      ∙ append-nil p.issued

  pub place-shown :
      (p : Progress World) {place : Text × Text} {q : Progress World}
      → current_branch_and_head sys root p ≡ (answer place, q)
      → (p2 : Progress World) × Succeeds sys branch_command root p place.0 p2
        × Succeeds sys head_command root p2 place.1 q
        × (is_sha place.1 ≡ true)
  unfolding current_branch_and_head
  place-shown p {place} {q} h =
      let (branch, p2, shown, h1) =
        bind-eq-answer (command_output sys branch_command root (txt "current branch")) _ p h in
      let (head, p3, head_shown, h2) =
        bind-eq-answer (command_output sys head_command root (txt "current HEAD")) _ p2 h1 in
      let (u, attached, h3) =
        continue-eq-answer (refuse_if (branch == []) (about (txt "detached HEAD"))) _ p3 h2 in
      let (v, sha, h4) =
        continue-eq-answer (refuse_if (not (is_sha head)) (about (txt "HEAD SHA"))) _ p3 h3 in
      let given : (branch, head) ≡ place = answer-injective _ _ (ap (λ r. r.0) h4) in
      let at_end : p3 ≡ q = ap (λ r. r.1) h4 in
      (
        p2,
        subst (λ (x : Text × Text). Succeeds sys branch_command root p x.0 p2) given
            (command_output-Succeeds sys branch_command root (txt "current branch") p shown),
        subst (λ (x : Text × Text). Succeeds sys head_command root p2 x.1 q) given
            (subst (Succeeds sys head_command root p2 head) at_end
              (command_output-Succeeds sys head_command root (txt "current HEAD") p2 head_shown)),
        ap (λ (x : Text × Text). is_sha x.1) (sym given)
            ∙ sha_true head (refuse_if-eq-answer _ _ sha),
      )

  pub clean-shown :
      (p : Progress World) {q : Progress World}
      → assert_clean_worktree sys root p ≡ (answer tt, q)
      → Succeeds sys status_command root p [] q
  unfolding assert_clean_worktree
  clean-shown p {q} h =
      let (status, p1, shown, h1) =
        bind-eq-answer (command_output sys status_command root (txt "worktree status")) _ p h in
      let empty = nil_of (
        refuse_if-eq-answer (not (status == [])) (value (txt "worktree not clean") status)
          (ap (λ r. r.0) h1)) in
      subst (λ s. Succeeds sys status_command root p s q) empty
        (subst (Succeeds sys status_command root p status) (ap (λ r. r.1) h1)
          (command_output-Succeeds sys status_command root (txt "worktree status") p shown))

  -- The run of the harness and the evidence that it left.
  pub record Evidenced (p : Progress World) (head : Text) (q : Progress World) : Type 0 where
    pub p1 : Progress World
    pub printed : Text
    pub evaluated : Succeeds sys (evaluate_command sys root plan_path) root p printed p1
    pub text : Text
    pub evidence_read : read_text (evidence_path root) p1.world ≡ (returned text, q.world)
    pub evidence : Fields
    pub loaded : loads text ≡ some (obj evidence)
    pub passed : get_or_null (txt "state") evidence ≡ str (txt "PASS")
    pub same_head : get_or_null (txt "candidateHeadSha") evidence ≡ str head
    pub issued : q.issued ≡ p1.issued

  pub evidence-read :
      (p : Progress World) (head : Text) {evidence : Fields} {q : Progress World}
      → evaluate_and_read_evidence sys root plan_path head p ≡ (answer evidence, q)
      → Evidenced p head q
  unfolding evaluate_and_read_evidence
  evidence-read p head {evidence} {q} h =
      let command = evaluate_command sys root plan_path in
      let (printed, p1, shown, h1) =
        bind-eq-answer (command_output sys command root (txt "harness evaluate")) _ p h in
      let (tried, w) = read_text (evidence_path root) p1.world in
      let p2 = record p1 { world = w } in
      let (text, was_read, h2) =
        continue-eq-answer (guard is_os_error evidence_unreadable tried) _ p2 h1 in
      let (payload, parsed, h3) =
        continue-eq-answer (load_or_refuse sys evidence_unreadable text) _ p2 h2 in
      let (found, dict, h4) = continue-eq-answer (as_dict payload) _ p2 h3 in
      let (u, state, h5) =
        continue-eq-answer
          (refuse_if (not (is_text (get_or_null (txt "state") found) (txt "PASS")))
            (about (txt "evaluation not PASS")))
          _ p2 h4 in
      let (v, same, h6) =
        continue-eq-answer
          (refuse_if (not (is_text (get_or_null (txt "candidateHeadSha") found) head))
            (about (txt "candidate HEAD")))
          _ p2 h5 in
      let at_end : p2 ≡ q = ap (λ r. r.1) h6 in
      record {
        p1 = p1;
        printed = printed;
        evaluated = command_output-Succeeds sys command root (txt "harness evaluate") p shown;
        text = text;
        evidence_read =
            ap (λ t. (t, w)) (guard-eq-answer is_os_error evidence_unreadable tried was_read)
            ∙ ap (λ (x : Progress World). (returned text, x.world)) at_end;
        evidence = found;
        loaded =
            load_or_refuse-eq-answer sys text parsed ∙ ap some (as_dict-eq-answer payload dict);
        passed = is_text-true _ (txt "PASS") (refuse_if-eq-answer _ _ state);
        same_head = is_text-true _ head (refuse_if-eq-answer _ _ same);
        issued = ap (λ (x : Progress World). x.issued) (sym at_end);
      }
