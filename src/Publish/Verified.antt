-- ===== src/Publish/Verified.antt =====
-- scripts/agent-publish.py: what stands before the first command that publishes.
use coffee_order_system.Prelude.{
  ◌≡◌, refl, ap, sym, ◌∙◌, subst, ◌⊎◌, inl, inr, Bool, true, Option, some, List, [], ◌∷◌, ◌++◌,
  Text, All, text_eq, texts_eq,
}
use mathlib.Core.List.{append_assoc}
use coffee_order_system.Paths.{branch_kinds, is_sha}
use coffee_order_system.Publish.{
  Answer, answer, publish_error, other_error, Publisher, Progress, begin, continue,
  continue-eq-answer, bind-eq-answer, refuse_if-eq-answer,
}
use coffee_order_system.Publish.Readings.{
  branch_command, head_command, status_command, evaluate_command, load_manifest,
  current_branch_and_head, issue_behind, assert_issue_branch, assert_clean_worktree,
  evaluate_and_read_evidence,
}
use coffee_order_system.Publish.Finalize.{Candidate, verify_candidate, publish, finalize}
use coffee_order_system.Publish.Order.{verify_candidate-Issues}
use coffee_order_system.Publish.Answers.{branch_matches-true, Succeeds}
use coffee_order_system.Publish.Stages.{
  answer-injective, manifest-issued, place-shown, clean-shown, Evidenced, evidence-read,
}

four_more :
    (a b c d : List Text) {xs ys zs us vs ws ls : List (List Text)}
    → ys ≡ xs
    → zs ≡ ys ++ (a ∷ [])
    → us ≡ zs ++ (b ∷ [])
    → vs ≡ us ++ (c ∷ [])
    → ws ≡ vs ++ (d ∷ [])
    → ls ≡ ws
    → ls ≡ xs ++ (a ∷ b ∷ c ∷ d ∷ [])
four_more a b c d e f g h i j = simp (j, i, h, g, f, e, append_assoc)

module _ (sys : Publisher) (root plan_path : Text) where
  open sys use {World}

  -- The four commands that verify a candidate, in their order.
  abbrev pub verifying : List (List Text)
  verifying =
      branch_command ∷ head_command ∷ status_command ∷ evaluate_command sys root plan_path ∷ []

  -- The way from `p` to `q`, on which the candidate was verified.
  pub record Verified (p : Progress World) (c : Candidate) (q : Progress World) : Type 0 where
    pub p1 : Progress World
    pub manifest_read : load_manifest sys root plan_path p ≡ (answer c.manifest, p1)
    pub p2 : Progress World
    pub branch_shown : Succeeds sys branch_command root p1 c.branch p2
    pub p3 : Progress World
    pub head_shown : Succeeds sys head_command root p2 c.head p3
    pub head_form : is_sha c.head ≡ true
    pub issue_branch : issue_behind branch_kinds c.branch ≡ some c.manifest.issue
    pub p4 : Progress World
    pub clean : Succeeds sys status_command root p3 [] p4
    pub evidenced : Evidenced sys root plan_path p4 c.head q
    pub issued : q.issued ≡ p.issued ++ verifying

  pub verify_candidate-Verified :
      (p : Progress World) {c : Candidate} {q : Progress World}
      → verify_candidate sys root plan_path p ≡ (answer c, q)
      → Verified p c q
  unfolding verify_candidate assert_issue_branch
  verify_candidate-Verified p {c} {q} h =
      let (m, p1, manifest_read, h1) = bind-eq-answer (load_manifest sys root plan_path) _ p h in
      let (place, p3, placed, h2) = bind-eq-answer (current_branch_and_head sys root) _ p1 h1 in
      let (u, named, h3) = continue-eq-answer (assert_issue_branch place.0 m.issue) _ p3 h2 in
      let (v, p4, clean, h4) = bind-eq-answer (assert_clean_worktree sys root) _ p3 h3 in
      let (evidence, p5, evidenced, h5) =
        bind-eq-answer (evaluate_and_read_evidence sys root plan_path place.1) _ p4 h4 in
      let (p2, branch_shown, head_shown, sha) = place-shown sys root plan_path p1 placed in
      let status = clean-shown sys root plan_path p3 clean in
      let read = evidence-read sys root plan_path p4 place.1 evidenced in
      let found : Candidate = record { manifest = m; branch = place.0; head = place.1 } in
      let given : found ≡ c = answer-injective _ _ (ap (λ r. r.0) h5) in
      let verified : Verified p found p5 = record {
        p1 = p1;
        manifest_read = manifest_read;
        p2 = p2;
        branch_shown = branch_shown;
        p3 = p3;
        head_shown = head_shown;
        head_form = sha;
        issue_branch = branch_matches-true _ m.issue (refuse_if-eq-answer _ _ named);
        p4 = p4;
        clean = status;
        evidenced = read;
        issued =
            four_more _ _ _ _ (manifest-issued sys root plan_path p manifest_read)
              branch_shown.issued head_shown.issued status.issued read.evaluated.issued read.issued;
      } in
      subst (Verified p c) (ap (λ r. r.1) h5) (subst (λ x. Verified p x p5) given verified)

  -- One of the four.
  pub IsVerifying : List Text → Type 0
  IsVerifying c =
      (c ≡ branch_command)
      ⊎ (c ≡ head_command)
      ⊎ (c ≡ status_command)
      ⊎ (c ≡ evaluate_command sys root plan_path)

  verified_only :
      (w : World) {a : Answer Candidate} {q : Progress World}
      → verify_candidate sys root plan_path (begin w) ≡ (a, q)
      → All IsVerifying q.issued
  unfolding IsVerifying
  verified_only w {a} {q} e =
      let verifies =
        verify_candidate-Issues sys IsVerifying root plan_path (inl refl) (inr (inl refl))
          (inr (inr (inl refl))) (inr (inr (inr refl))) in
      let (cs, gave, good) = verifies.more (begin w) in
      subst (All IsVerifying) (sym gave ∙ ap (λ r. r.1.issued) e) good

  after-Verified :
      (a : Answer Candidate) (w : World) (q : Progress World) (merge : Bool) (title : Option Text)
      → verify_candidate sys root plan_path (begin w) ≡ (a, q)
      → All IsVerifying (continue a (publish sys root merge title) q).1.issued
        ⊎ ((c : Candidate) × (q' : Progress World) × Verified (begin w) c q'
            × (continue a (publish sys root merge title) q ≡ publish sys root merge title c q'))
  after-Verified (answer c) w q merge title e = inr (c, q, verify_candidate-Verified _ e, refl)
  after-Verified (publish_error m) w q merge title e = inl (verified_only w e)
  after-Verified (other_error m) w q merge title e = inl (verified_only w e)

  -- Whatever the flag and the end of `finalize`, from an empty record of commands, either all that it gave to the runner
  -- are among the four that verify, or a candidate was verified with those four, in their order, and from there on
  -- `finalize` did what `publish` does with that candidate.
  pub finalize-IsVerified :
      (merge : Bool) (title : Option Text) (w : World)
      → All IsVerifying (finalize sys root plan_path merge title (begin w)).1.issued
        ⊎ ((c : Candidate) × (q : Progress World) × Verified (begin w) c q
            × (finalize sys root plan_path merge title (begin w)
                ≡ publish sys root merge title c q))
  unfolding finalize
  finalize-IsVerified merge title w =
      let (a, q) = verify_candidate sys root plan_path (begin w) in
      after-Verified a w q merge title refl
