-- ===== src/Publish/Requested.antt =====
-- scripts/agent-publish.py: `create_or_prepare_pr` that answered.
use coffee_order_system.Prelude.{
  ◌≡◌, refl, ◌⊎◌, inl, inr, ap, sym, subst, Bool, true, false, not, Option, none, some, List, [],
  ◌∷◌, Text, txt, ℕ, ℤ, arith, Option-cases,
}
use coffee_order_system.Outcome.{about, value}
use coffee_order_system.Json.{Json, null, bool, int, float, str, arr, obj, Fields}
use coffee_order_system.Publish.{
  answer, publish_error, Publisher, Progress, is_text, get_or_null, refuse_if, command_output,
  continue-eq-answer, bind-eq-answer, refuse_if-eq-answer,
}
use coffee_order_system.Publish.Readings.{Manifest}
use coffee_order_system.Publish.Requests.{
  closes, linked_body, pr_body, pull_number, pr_metadata_of, pr_metadata, body_has, stripped_body,
  is_true, push_command, list_command, create_command, edit_command, ready_command, title_or,
  created_number, parse_pr_list, create_pr, link_unless, link_issue, ready_if, make_ready,
  prepare_pr, choose_pr, create_or_prepare_pr,
}
use coffee_order_system.Publish.Answers.{is_text-true, Succeeds, command_output-Succeeds}
use coffee_order_system.Publish.Stages.{answer-injective}

created_number-eq-answer :
    (url : Text) {pr : ℤ × Text}
    → created_number url ≡ answer pr
    → (n : ℕ) × (pull_number url ≡ some n) × (pr ≡ (ℤ.pos n, url))
unfolding created_number
created_number-eq-answer url {pr} h = elim (Option-cases (pull_number url)) [
  | inl e ↦ absurd (ground (arith, h, e))
  | inr (n, e) ↦ (
    n,
    e,
    sym (
        answer-injective _ _ (
          subst
            (λ o.
              elim o [
                | none ↦ publish_error (value (txt "no number in the PR URL") url)
                | some k ↦ answer (ℤ.pos k, url)
              ]
              ≡ answer pr)
            e h)),
  )
]

pr_metadata_of-eq-answer :
    (j k : Json) {pr : ℤ × Text} → pr_metadata_of j k ≡ answer pr → (j ≡ int pr.0) × (k ≡ str pr.1)
unfolding pr_metadata_of
pr_metadata_of-eq-answer (int n) (str u) h =
    (ap (λ x. int x.0) (answer-injective _ _ h), ap (λ x. str x.1) (answer-injective _ _ h))
pr_metadata_of-eq-answer null k h = absurd (ground (arith, h))
pr_metadata_of-eq-answer (bool b) k h = absurd (ground (arith, h))
pr_metadata_of-eq-answer (float t) k h = absurd (ground (arith, h))
pr_metadata_of-eq-answer (str s) k h = absurd (ground (arith, h))
pr_metadata_of-eq-answer (arr xs) k h = absurd (ground (arith, h))
pr_metadata_of-eq-answer (obj fs) k h = absurd (ground (arith, h))
pr_metadata_of-eq-answer (int n) null h = absurd (ground (arith, h))
pr_metadata_of-eq-answer (int n) (bool b) h = absurd (ground (arith, h))
pr_metadata_of-eq-answer (int n) (int i) h = absurd (ground (arith, h))
pr_metadata_of-eq-answer (int n) (float t) h = absurd (ground (arith, h))
pr_metadata_of-eq-answer (int n) (arr xs) h = absurd (ground (arith, h))
pr_metadata_of-eq-answer (int n) (obj fs) h = absurd (ground (arith, h))

module _ (sys : Publisher) (root : Text) where
  open sys use {World, is_zero_float}

  -- The body contains the text that closes the issue, or is edited to end with it.
  abbrev Linked : ℕ → ℤ → Json → Progress World → Progress World → Type 0
  Linked issue number body p q =
      ((body_has body (closes issue) ≡ true) × (p ≡ q))
      ⊎ ((kept : Text) × (printed : Text) × (stripped_body is_zero_float body ≡ answer kept)
          × Succeeds sys (edit_command number (linked_body kept issue)) root p printed q)

  -- The request is no draft, or is made ready.
  abbrev Readied : ℤ → Json → Progress World → Progress World → Type 0
  Readied number draft p q =
      ((is_true draft ≡ false) × (p ≡ q))
      ⊎ ((printed : Text) × Succeeds sys (ready_command number) root p printed q)

  -- The request of an existing PR.
  pub record Reused (m : Manifest) (head : Text) (existing : Fields) (p : Progress World)
      (pr : ℤ × Text) (q : Progress World) : Type 0 where
    pub number : get_or_null (txt "number") existing ≡ int pr.0
    pub url : get_or_null (txt "url") existing ≡ str pr.1
    pub same_head : get_or_null (txt "headRefOid") existing ≡ str head
    pub p1 : Progress World
    pub linked : Linked m.issue pr.0 (get_or_null (txt "body") existing) p p1
    pub ready : Readied pr.0 (get_or_null (txt "isDraft") existing) p1 q

  -- A request that is created.
  pub record Created (m : Manifest) (branch head : Text) (title : Option Text) (p : Progress World)
      (pr : ℤ × Text) (q : Progress World) : Type 0 where
    pub created :
        Succeeds sys
          (create_command m.target_branch branch (title_or title m.objective) (pr_body m head))
          root
          p
          pr.1
          q
    pub number : ℕ
    pub found : pull_number pr.1 ≡ some number
    pub same_number : pr.0 ≡ ℤ.pos number

  pub record Requested (m : Manifest) (branch head : Text) (title : Option Text)
      (p : Progress World) (pr : ℤ × Text) (q : Progress World) : Type 0 where
    pub p1 : Progress World
    pub printed : Text
    pub pushed : Succeeds sys (push_command branch) root p printed p1
    pub p2 : Progress World
    pub raw : Text
    pub listed : Succeeds sys (list_command branch m.target_branch) root p1 raw p2
    pub prs : List Fields
    pub parsed : parse_pr_list sys raw ≡ answer prs
    pub way :
        ((prs ≡ []) × Created m branch head title p2 pr q)
        ⊎ ((existing : Fields) × (prs ≡ existing ∷ []) × Reused m head existing p2 pr q)

  link_unless-Linked :
      (named : Bool) (issue : ℕ) (number : ℤ) (body : Json) (p : Progress World)
      {q : Progress World}
      → body_has body (closes issue) ≡ named
      → link_unless sys named root issue number body p ≡ (answer tt, q)
      → Linked issue number body p q
  unfolding link_unless
  link_unless-Linked true issue number body p e h = inl (e, ap (λ r. r.1) h)
  link_unless-Linked false issue number body p {q} e h =
      let (kept, stripped, h1) = continue-eq-answer (stripped_body is_zero_float body) _ p h in
      let command = edit_command number (linked_body kept issue) in
      let (printed, p1, ran, h2) =
        bind-eq-answer (command_output sys command root (txt "link issue")) _ p h1 in
      inr (
        kept,
        printed,
        stripped,
        subst (Succeeds sys command root p printed) (ap (λ r. r.1) h2)
            (command_output-Succeeds sys command root (txt "link issue") p ran),
      )

  ready_if-Readied :
      (draft : Json) (b : Bool) (number : ℤ) (p : Progress World) {q : Progress World}
      → is_true draft ≡ b
      → ready_if sys b root number p ≡ (answer tt, q)
      → Readied number draft p q
  unfolding ready_if
  ready_if-Readied draft false number p e h = inl (e, ap (λ r. r.1) h)
  ready_if-Readied draft true number p e h =
      let (printed, p1, ran, h1) =
        bind-eq-answer (command_output sys (ready_command number) root (txt "ready for review")) _ p
          h in
      inr (
        printed,
        subst (Succeeds sys (ready_command number) root p printed) (ap (λ r. r.1) h1) (
            command_output-Succeeds sys (ready_command number) root (txt "ready for review") p ran),
      )

  prepare_pr-Reused :
      (m : Manifest) (head : Text) (existing : Fields) (p : Progress World) {pr : ℤ × Text}
      {q : Progress World}
      → prepare_pr sys root m head existing p ≡ (answer pr, q)
      → Reused m head existing p pr q
  unfolding prepare_pr pr_metadata link_issue make_ready
  prepare_pr-Reused m head existing p {pr} {q} h =
      let (found, metadata, h1) = continue-eq-answer (pr_metadata existing) _ p h in
      let (u, same, h2) =
        continue-eq-answer
          (refuse_if (not (is_text (get_or_null (txt "headRefOid") existing) head))
            (about (txt "PR head SHA")))
          _ p h1 in
      let (v, p1, linking, h3) =
        bind-eq-answer (link_issue sys root m.issue found.0 (get_or_null (txt "body") existing)) _ p
          h2 in
      let (w, p2, readying, h4) =
        bind-eq-answer (make_ready sys root found.0 (get_or_null (txt "isDraft") existing)) _ p1
          h3 in
      let (number, url) = pr_metadata_of-eq-answer _ _ metadata in
      let reused : Reused m head existing p found p2 = record {
        number = number;
        url = url;
        same_head = is_text-true _ head (refuse_if-eq-answer _ _ same);
        p1 = p1;
        linked = link_unless-Linked _ m.issue found.0 _ p refl linking;
        ready = ready_if-Readied (get_or_null (txt "isDraft") existing) _ found.0 p1 refl readying;
      } in
      subst (λ r. Reused m head existing p r q) (answer-injective _ _ (ap (λ r. r.0) h4))
        (subst (Reused m head existing p found) (ap (λ r. r.1) h4) reused)

  create_pr-Created :
      (m : Manifest) (branch head : Text) (title : Option Text) (p : Progress World) {pr : ℤ × Text}
      {q : Progress World}
      → create_pr sys root m branch head title p ≡ (answer pr, q)
      → Created m branch head title p pr q
  unfolding create_pr
  create_pr-Created m branch head title p {pr} {q} h =
      let command =
        create_command m.target_branch branch (title_or title m.objective) (pr_body m head) in
      let (url, p1, ran, h1) =
        bind-eq-answer (command_output sys command root (txt "create PR")) _ p h in
      let (n, found, same) = created_number-eq-answer url (ap (λ r. r.0) h1) in
      let created =
        subst (Succeeds sys command root p url) (ap (λ r. r.1) h1)
          (command_output-Succeeds sys command root (txt "create PR") p ran) in
      subst (λ r. Created m branch head title p r q) (sym same)
        (record { created = created; number = n; found = found; same_number = refl })

  choose_pr-way :
      (m : Manifest) (branch head : Text) (title : Option Text) (prs : List Fields)
      (p : Progress World) {pr : ℤ × Text} {q : Progress World}
      → choose_pr sys root m branch head title prs p ≡ (answer pr, q)
      → ((prs ≡ []) × Created m branch head title p pr q)
        ⊎ ((existing : Fields) × (prs ≡ existing ∷ []) × Reused m head existing p pr q)
  unfolding choose_pr
  choose_pr-way m branch head title [] p h = inl (refl, create_pr-Created m branch head title p h)
  choose_pr-way m branch head title (fs ∷ []) p h = inr (fs, refl, prepare_pr-Reused m head fs p h)
  choose_pr-way m branch head title (fs ∷ gs ∷ more) p h = absurd (ground (arith, h))

  pub create_or_prepare_pr-IsRequested :
      (m : Manifest) (branch head : Text) (title : Option Text) (p : Progress World) {pr : ℤ × Text}
      {q : Progress World}
      → create_or_prepare_pr sys root m branch head title p ≡ (answer pr, q)
      → Requested m branch head title p pr q
  unfolding create_or_prepare_pr
  create_or_prepare_pr-IsRequested m branch head title p h =
      let (printed, p1, pushed, h1) =
        bind-eq-answer (command_output sys (push_command branch) root (txt "push")) _ p h in
      let (raw, p2, listed, h2) =
        bind-eq-answer
          (command_output sys (list_command branch m.target_branch) root (txt "PR list")) _ p1 h1 in
      let (prs, parsed, h3) = continue-eq-answer (parse_pr_list sys raw) _ p2 h2 in
      record {
        p1 = p1;
        printed = printed;
        pushed = command_output-Succeeds sys (push_command branch) root (txt "push") p pushed;
        p2 = p2;
        raw = raw;
        listed =
            command_output-Succeeds sys (list_command branch m.target_branch) root (txt "PR list")
              p1 listed;
        prs = prs;
        parsed = parsed;
        way = choose_pr-way m branch head title prs p2 h3;
      }
