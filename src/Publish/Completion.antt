-- ===== src/Publish/Completion.antt =====
-- scripts/agent-publish.py: `merge_and_verify` and the end of `finalize` that answered.
use coffee_order_system.Prelude.{
  ◌≡◌, refl, ◌⊎◌, inl, inr, ap, sym, ◌∙◌, subst, Bool, true, false, not, ◌||◌, none, some, List,
  Text, txt, ℕ, ℤ, arith, Option-cases,
}
use coffee_order_system.Outcome.{about}
use coffee_order_system.Json.{str, obj, Fields}
use coffee_order_system.Publish.{
  answer, other_error, Publisher, Progress, as_dict, is_text, is_truthy, get_or_null, refuse_if,
  command_output, continue-eq-answer, bind-eq-answer, refuse_if-eq-answer,
}
use coffee_order_system.Publish.Merging.{
  checks_command, merge_command, view_command, issue_command, close_command, load_dict, view_issue,
  close_if, close_issue, is_merged, merge_pr, merge_and_verify,
}
use coffee_order_system.Publish.Answers.{
  is_text-true, as_dict-eq-answer, Succeeds, command_output-Succeeds,
}
use coffee_order_system.Publish.Stages.{answer-injective}

load_dict-eq-answer :
    (sys : Publisher) (text : Text) {fs : Fields}
    → load_dict sys text ≡ answer fs
    → sys.loads text ≡ some (obj fs)
unfolding load_dict
load_dict-eq-answer sys text {fs} h = elim (Option-cases (sys.loads text)) [
  | inl e ↦ absurd (ground (arith, h, e))
  | inr (j, e) ↦
      e
      ∙ ap some (
          as_dict-eq-answer j (
            subst
              (λ o.
                elim o [ none ↦ other_error (txt "JSONDecodeError") | some k ↦ as_dict k ]
                ≡ answer fs)
              e h))
]

true_of_not : (a : Bool) → not a ≡ false → a ≡ true
true_of_not a h = ground (arith, h)

both_of : (a b : Bool) → not (not (not a || not b)) ≡ false → (not a ≡ false) × (b ≡ true)
both_of a b h = ground (arith, h)

module _ (sys : Publisher) (root : Text) where
  open sys use {World, loads, is_zero_float}

  -- A command ran, and printed this object.
  pub record Shows (command : List Text) (p : Progress World) (shown : Fields) (q : Progress World)
      : Type 0 where
    pub printed : Text
    pub ran : Succeeds sys command root p printed q
    pub loaded : loads printed ≡ some (obj shown)

  view_issue-Shows :
      (issue : ℕ) (description : Text) (p : Progress World) {shown : Fields} {q : Progress World}
      → view_issue sys root issue description p ≡ (answer shown, q)
      → Shows (issue_command issue) p shown q
  unfolding view_issue
  view_issue-Shows issue description p {shown} {q} h =
      let (raw, p1, ran, h1) =
        bind-eq-answer (command_output sys (issue_command issue) root description) _ p h in
      record {
        printed = raw;
        ran =
            subst (Succeeds sys (issue_command issue) root p raw) (ap (λ r. r.1) h1)
              (command_output-Succeeds sys (issue_command issue) root description p ran);
        loaded = load_dict-eq-answer sys raw (ap (λ r. r.0) h1);
      }

  -- The request is merged behind its checks, and `gh` shows it so.
  pub record Merged (number : ℤ) (p q : Progress World) : Type 0 where
    pub p1 : Progress World
    pub checks : Text
    pub checked : Succeeds sys (checks_command number) root p checks p1
    pub p2 : Progress World
    pub printed : Text
    pub merged : Succeeds sys (merge_command number) root p1 printed p2
    pub pr : Fields
    pub shown : Shows (view_command number) p2 pr q
    pub pr_state : get_or_null (txt "state") pr ≡ str (txt "MERGED")
    pub merged_at : is_truthy is_zero_float (get_or_null (txt "mergedAt") pr) ≡ true

  -- An issue that was open is closed.
  pub record Closes (issue : ℕ) (number : ℤ) (p q : Progress World) : Type 0 where
    pub opened : Fields
    pub p1 : Progress World
    pub shown : Shows (issue_command issue) p opened p1
    pub open_state : get_or_null (txt "state") opened ≡ str (txt "OPEN")
    pub printed : Text
    pub closed : Succeeds sys (close_command issue number) root p1 printed q

  -- `gh` shows the issue closed, at once or after it was closed.
  pub record Closed (issue : ℕ) (number : ℤ) (p q : Progress World) : Type 0 where
    pub p1 : Progress World
    pub way : (p ≡ p1) ⊎ Closes issue number p p1
    pub fields : Fields
    pub shown : Shows (issue_command issue) p1 fields q
    pub issue_state : get_or_null (txt "state") fields ≡ str (txt "CLOSED")

  merge_pr-Merged :
      (number : ℤ) (p p1 : Progress World) {checks : Text} {q : Progress World}
      → Succeeds sys (checks_command number) root p checks p1
      → merge_pr sys root number p1 ≡ (answer tt, q)
      → Merged number p q
  unfolding merge_pr is_merged
  merge_pr-Merged number p p1 {checks} {q} checked h =
      let (printed, p2, merged, h1) =
        bind-eq-answer (command_output sys (merge_command number) root (txt "merge")) _ p1 h in
      let (raw, p3, viewed, h2) =
        bind-eq-answer (command_output sys (view_command number) root (txt "view PR")) _ p2 h1 in
      let (pr, loaded, h3) = continue-eq-answer (load_dict sys raw) _ p3 h2 in
      let (state, at) =
        both_of (is_text (get_or_null (txt "state") pr) (txt "MERGED"))
          (is_truthy is_zero_float (get_or_null (txt "mergedAt") pr))
          (refuse_if-eq-answer _ _ (ap (λ r. r.0) h3)) in
      record {
        p1 = p1;
        checks = checks;
        checked = checked;
        p2 = p2;
        printed = printed;
        merged = command_output-Succeeds sys (merge_command number) root (txt "merge") p1 merged;
        pr = pr;
        shown = record {
          printed = raw;
          ran =
              subst (Succeeds sys (view_command number) root p2 raw) (ap (λ r. r.1) h3)
                (command_output-Succeeds sys (view_command number) root (txt "view PR") p2 viewed);
          loaded = load_dict-eq-answer sys raw loaded;
        };
        pr_state = is_text-true _ (txt "MERGED") state;
        merged_at = at;
      }

  close_if-Closed :
      (is_open : Bool) (issue : ℕ) (number : ℤ) (p p1 : Progress World) {opened last : Fields}
      {q : Progress World}
      → is_text (get_or_null (txt "state") opened) (txt "OPEN") ≡ is_open
      → Shows (issue_command issue) p opened p1
      → close_if sys is_open root issue number opened p1 ≡ (answer last, q)
      → get_or_null (txt "state") last ≡ str (txt "CLOSED")
      → Closed issue number p q
  unfolding close_if
  close_if-Closed false issue number p p1 {opened} {last} {q} e shown h closed = record {
    p1 = p;
    way = inl refl;
    fields = last;
    shown =
        subst (λ fs. Shows (issue_command issue) p fs q) (answer-injective _ _ (ap (λ r. r.0) h))
          (subst (Shows (issue_command issue) p opened) (ap (λ r. r.1) h) shown);
    issue_state = closed;
  }
  close_if-Closed true issue number p p1 {opened} {last} e shown h closed =
      let (printed, p2, ran, h1) =
        bind-eq-answer (command_output sys (close_command issue number) root (txt "close issue")) _
          p1 h in
      record {
        p1 = p2;
        way = inr (record {
          opened = opened;
          p1 = p1;
          shown = shown;
          open_state = is_text-true _ (txt "OPEN") (ap not e);
          printed = printed;
          closed =
              command_output-Succeeds sys (close_command issue number) root (txt "close issue") p1
                ran;
        });
        fields = last;
        shown = view_issue-Shows issue (txt "view issue again") p2 h1;
        issue_state = closed;
      }

  pub merge_and_verify-Merged :
      (issue : ℕ) (number : ℤ) (p : Progress World) {b : Bool} {q : Progress World}
      → merge_and_verify sys root issue number p ≡ (answer b, q)
      → (b ≡ true) × (p' : Progress World) × Merged number p p' × Closed issue number p' q
  unfolding merge_and_verify close_issue
  merge_and_verify-Merged issue number p {b} {q} h =
      let (checks, p1, checked, h1) =
        bind-eq-answer (command_output sys (checks_command number) root (txt "required checks")) _ p
          h in
      let (u, p2, merged, h2) = bind-eq-answer (merge_pr sys root number) _ p1 h1 in
      let (shown, p3, viewed, h3) =
        bind-eq-answer (view_issue sys root issue (txt "view issue")) _ p2 h2 in
      let (last, p4, closing, h4) =
        bind-eq-answer (close_issue sys root issue number shown) _ p3 h3 in
      let (v, closed, h5) =
        continue-eq-answer
          (refuse_if (not (is_text (get_or_null (txt "state") last) (txt "CLOSED")))
            (about (txt "issue not closed")))
          _ p4 h4 in
      let end_closed =
        close_if-Closed _ issue number p2 p3 refl
          (view_issue-Shows issue (txt "view issue") p2 viewed) closing
          (is_text-true _ (txt "CLOSED") (refuse_if-eq-answer _ _ closed)) in
      (
        sym (answer-injective _ _ (ap (λ r. r.0) h5)),
        p2,
        merge_pr-Merged number p p1
            (command_output-Succeeds sys (checks_command number) root (txt "required checks") p
              checked)
            merged,
        subst (Closed issue number p2) (ap (λ r. r.1) h5) end_closed,
      )
