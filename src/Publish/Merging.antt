-- ===== src/Publish/Merging.antt =====
-- scripts/agent-publish.py: `merge_and_verify`.
use coffee_order_system.Prelude.{
  ℕ, Bool, true, false, not, ◌||◌, none, some, List, [], ◌∷◌, ◌++◌, nat_eq, text_eq, Text, txt, ℤ,
}
use coffee_order_system.Outcome.{about}
use coffee_order_system.Json.{Fields}
use coffee_order_system.Publish.{
  Answer, other_error, Publisher, Step, ◌>>=◌, ◌>>◌, settle, give, refuse_if, command_output,
  get_or_null, as_dict, is_text, is_truthy, number_text, int_text,
}

abbrev pub checks_command : ℤ → List Text
checks_command number =
    txt "gh" ∷ txt "pr" ∷ txt "checks" ∷ int_text number ∷ txt "--watch" ∷ txt "--fail-fast" ∷ []

abbrev pub merge_command : ℤ → List Text
merge_command number =
    txt "gh"
    ∷ txt "pr"
    ∷ txt "merge"
    ∷ int_text number
    ∷ txt "--squash"
    ∷ txt "--delete-branch=false"
    ∷ []

abbrev pub view_command : ℤ → List Text
view_command number =
    txt "gh" ∷ txt "pr" ∷ txt "view" ∷ int_text number ∷ txt "--json" ∷ txt "state,mergedAt" ∷ []

abbrev pub issue_command : ℕ → List Text
issue_command number =
    txt "gh" ∷ txt "issue" ∷ txt "view" ∷ number_text number ∷ txt "--json" ∷ txt "state" ∷ []

abbrev pub close_command : ℕ → ℤ → List Text
close_command issue number =
    txt "gh"
    ∷ txt "issue"
    ∷ txt "close"
    ∷ number_text issue
    ∷ txt "--comment"
    ∷ (txt "Closed after merging PR #" ++ (int_text number ++ txt "."))
    ∷ []

module _ (sys : Publisher) where
  open sys use {World, loads, is_zero_float}

  -- `json.loads` with no handler around it, and `.get` of its value.
  unfoldable pub load_dict : Text → Answer Fields
  unfolding as_dict
  load_dict text = elim (loads text) [
    | none ↦ other_error (txt "JSONDecodeError")
    | some payload ↦ as_dict payload
  ]

  -- The state of the issue as `gh` shows it.
  unfoldable pub view_issue : Text → ℕ → Text → Step World Fields
  unfolding command_output load_dict number_text
  view_issue root issue description = do
    raw ← command_output sys (issue_command issue) root description
    settle (load_dict raw)

  -- An issue that is open is closed, and looked at again.
  unfoldable pub close_if : Bool → Text → ℕ → ℤ → Fields → Step World Fields
  unfolding command_output view_issue number_text int_text
  close_if false root issue number shown = give shown
  close_if true root issue number shown = do
    _ ← command_output sys (close_command issue number) root (txt "close issue")
    view_issue root issue (txt "view issue again")

  unfoldable pub close_issue : Text → ℕ → ℤ → Fields → Step World Fields
  unfolding close_if is_text get_or_null
  close_issue root issue number shown =
      close_if (is_text (get_or_null (txt "state") shown) (txt "OPEN")) root issue number shown

  unfoldable pub is_merged : Fields → Bool
  unfolding get_or_null is_text is_truthy
  is_merged shown = not (
      not (is_text (get_or_null (txt "state") shown) (txt "MERGED"))
      || not (is_truthy is_zero_float (get_or_null (txt "mergedAt") shown)))

  -- The merge, behind the checks that the request waits for.
  unfoldable pub merge_pr : Text → ℤ → Step World (Unit {0})
  unfolding command_output load_dict is_merged int_text
  merge_pr root number = do
    _ ← command_output sys (merge_command number) root (txt "merge")
    raw ← command_output sys (view_command number) root (txt "view PR")
    shown ← settle (load_dict raw)
    settle (refuse_if (not (is_merged shown)) (about (txt "PR not MERGED")))

  unfoldable pub merge_and_verify : Text → ℕ → ℤ → Step World Bool
  unfolding command_output merge_pr view_issue close_issue is_text get_or_null int_text
  merge_and_verify root issue number = do
    _ ← command_output sys (checks_command number) root (txt "required checks")
    merge_pr root number
    shown ← view_issue root issue (txt "view issue")
    last ← close_issue root issue number shown
    settle (
        refuse_if (not (is_text (get_or_null (txt "state") last) (txt "CLOSED")))
          (about (txt "issue not closed")))
    give true
