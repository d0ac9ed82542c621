-- ===== src/Publish/Order.antt =====
-- scripts/agent-publish.py: which commands the steps of `finalize` give to the runner.
use coffee_order_system.Prelude.{
  ◌≡◌, refl, sym, subst, Bool, true, false, Option, List, [], ◌∷◌, Text, txt, ℕ, ℤ, All, ◌==◌, ◌||◌,
  text_eq, nat_eq,
}
use coffee_order_system.Json.{Json, Fields}
use coffee_order_system.Publish.{Publisher, begin}
use coffee_order_system.Publish.Readings.{
  Manifest, branch_command, head_command, status_command, evaluate_command, load_manifest,
  current_branch_and_head, assert_clean_worktree, evaluate_and_read_evidence,
}
use coffee_order_system.Publish.Requests.{
  push_command, list_command, create_command, edit_command, ready_command, create_pr, body_has,
  is_true, link_unless, ready_if, link_issue, make_ready, prepare_pr, choose_pr,
  create_or_prepare_pr,
}
use coffee_order_system.Publish.Finalize.{Candidate, verify_candidate, finish, publish, finalize}
use coffee_order_system.Publish.Trace.{
  Issues, Issues-settle, Issues-ask, Issues-bind, Issues-elim_bool, Issues-command_output,
}

ruleset trace_rules =
    (Issues-settle, Issues-ask, Issues-bind, Issues-elim_bool, Issues-command_output)

module _ (sys : Publisher) (P : List Text → Type 0) where
  pub manifest_commands : (root plan_path : Text) → Issues P (load_manifest sys root plan_path)
  unfolding load_manifest
  manifest_commands root plan_path = search trace_rules depth 60

  -- The commands before the push.
  pub verify_candidate-Issues :
      (root plan_path : Text)
      → P branch_command
      → P head_command
      → P status_command
      → P (evaluate_command sys root plan_path)
      → Issues P (verify_candidate sys root plan_path)
  unfolding verify_candidate current_branch_and_head assert_clean_worktree
      evaluate_and_read_evidence
  verify_candidate-Issues root plan_path hb hh hs he =
      search (trace_rules, manifest_commands, hb, hh, hs, he) depth 80

  module _ (push : (branch : Text) → P (push_command branch))
      (list : (branch base : Text) → P (list_command branch base))
      (create : (base branch title body : Text) → P (create_command base branch title body))
      (edit : (number : ℤ) (body : Text) → P (edit_command number body))
      (ready : (number : ℤ) → P (ready_command number)) where
    create_commands :
        (root : Text) (m : Manifest) (branch head : Text) (title : Option Text)
        → Issues P (create_pr sys root m branch head title)
    unfolding create_pr
    create_commands root m branch head title = search (trace_rules, create) depth 20

    edit_commands :
        (named : Bool) (root : Text) (issue : ℕ) (number : ℤ) (body : Json)
        → Issues P (link_unless sys named root issue number body)
    unfolding link_unless
    edit_commands true root issue number body = search trace_rules
    edit_commands false root issue number body = search (trace_rules, edit) depth 20

    link_commands :
        (root : Text) (issue : ℕ) (number : ℤ) (body : Json)
        → Issues P (link_issue sys root issue number body)
    unfolding link_issue
    link_commands root issue number body = edit_commands (body_has body _) root issue number body

    draft_commands :
        (draft : Bool) (root : Text) (number : ℤ) → Issues P (ready_if sys draft root number)
    unfolding ready_if
    draft_commands true root number = search (trace_rules, ready) depth 20
    draft_commands false root number = search trace_rules

    ready_commands :
        (root : Text) (number : ℤ) (draft : Json) → Issues P (make_ready sys root number draft)
    unfolding make_ready
    ready_commands root number draft = draft_commands (is_true draft) root number

    prepare_commands :
        (root : Text) (m : Manifest) (head : Text) (fs : Fields)
        → Issues P (prepare_pr sys root m head fs)
    unfolding prepare_pr
    prepare_commands root m head fs = search (trace_rules, link_commands, ready_commands) depth 30

    choose_commands :
        (root : Text) (m : Manifest) (branch head : Text) (title : Option Text) (prs : List Fields)
        → Issues P (choose_pr sys root m branch head title prs)
    unfolding choose_pr
    choose_commands root m branch head title [] = create_commands root m branch head title
    choose_commands root m branch head title (fs ∷ []) = prepare_commands root m head fs
    choose_commands root m branch head title (fs ∷ gs ∷ more) = search trace_rules

    -- The commands of a request.
    pub create_or_prepare_pr-Issues :
        (root : Text) (m : Manifest) (branch head : Text) (title : Option Text)
        → Issues P (create_or_prepare_pr sys root m branch head title)
    unfolding create_or_prepare_pr
    create_or_prepare_pr-Issues root m branch head title =
        search (trace_rules, push, list, choose_commands) depth 30

    pub unmerged-Issues :
        (root : Text) (title : Option Text) (c : Candidate)
        → Issues P (publish sys root false title c)
    unfolding publish finish
    unmerged-Issues root title c = search (trace_rules, create_or_prepare_pr-Issues) depth 20

-- `gh pr merge` and `gh issue close`.
abbrev pub is_merging : List Text → Bool
is_merging (program ∷ topic ∷ verb ∷ more) = verb == txt "merge" || verb == txt "close"
is_merging other = false

abbrev pub IsUnmerging : List Text → Type 0
IsUnmerging command = is_merging command ≡ false

module _ (sys : Publisher) (root plan_path : Text) where
  unmerging_lem :
      (title : Option Text) → Issues IsUnmerging (finalize sys root plan_path false title)
  unfolding finalize txt text_eq nat_eq
  unmerging_lem title =
      Issues-bind IsUnmerging _ _
        (verify_candidate-Issues sys IsUnmerging root plan_path refl refl refl refl)
        (unmerged-Issues sys IsUnmerging (λ b. refl) (λ b c. refl) (λ b c t d. refl) (λ m d. refl)
          (λ m. refl) root title)

  -- Without `merge`, whatever its end, `finalize` gives the runner no command whose third word is "merge" or "close",
  -- so none that merges a request or closes an issue.
  pub finalize-IsUnmerging :
      (title : Option Text) (w : sys.World)
      → All IsUnmerging (finalize sys root plan_path false title (begin w)).1.issued
  finalize-IsUnmerging title w =
      let (cs, e, good) = (unmerging_lem title).more (begin w) in
      subst (All IsUnmerging) (sym e) good
