-- ===== src/Publish/Requests.antt =====
-- scripts/agent-publish.py: `pr_body`, `parse_pr_list` and `create_or_prepare_pr`.
use coffee_order_system.Prelude.{
  ℕ, Bool, true, false, not, Option, none, some, List, [], ◌∷◌, ◌++◌, ◌==◌, nat_eq, text_eq,
  if◌then◌else◌, Text, txt, ℤ, has_part, rstrip, is_space, join,
}
use mathlib.Core.Option
use coffee_order_system.Outcome.{about, value}
use coffee_order_system.Json.{Json, bool, int, str, arr, obj, Items, nil, cons, Fields}
use coffee_order_system.Paths.{remove_prefix, positive_decimal}
use coffee_order_system.Publish.{
  Answer, answer, publish_error, other_error, Publisher, Step, ◌>>=◌, ◌>>◌, settle, give, refuse,
  refuse_if, command_output, get_or_null, is_text, is_truthy, number_text, int_text,
}
use coffee_order_system.Publish.Readings.{Manifest}

abbrev pub closes : ℕ → Text
closes issue = txt "Closes #" ++ number_text issue

unfoldable pub pr_body : Manifest → Text → Text
unfolding number_text
pr_body manifest head = join 10 (
    txt "## 변경 목적"
    ∷ []
    ∷ (txt "- 연결 이슈: " ++ closes manifest.issue)
    ∷ (txt "- 해결하려는 문제: " ++ manifest.objective)
    ∷ []
    ∷ txt "## 하네스 검증"
    ∷ []
    ∷ (txt "- Manifest: `" ++ manifest.relative_path ++ txt "`")
    ∷ txt "- Evaluate: `PASS`"
    ∷ (txt "- Candidate HEAD: `" ++ head ++ txt "`")
    ∷ [])

-- All items, if each is a dict.
unfoldable pub dicts_of : Items → Option (List Fields)
dicts_of nil = some []
dicts_of (cons (obj fs) xs) = elim (dicts_of xs) [ none ↦ none | some rest ↦ some (fs ∷ rest) ]
dicts_of (cons other xs) = none

unfoldable pub pr_list_of : Option Json → Answer (List Fields)
unfolding dicts_of
pr_list_of none = publish_error (about (txt "PR list is no JSON"))
pr_list_of (some (arr xs)) = elim (dicts_of xs) [
  | none ↦ publish_error (about (txt "PR list"))
  | some prs ↦ answer prs
]
pr_list_of (some other) = publish_error (about (txt "PR list"))

-- `re.search(r"/pull/([1-9][0-9]*)$", url)`, for a text that ends in no line feed.
unfoldable pub pull_number : Text → Option ℕ
pull_number [] = none
pull_number (c ∷ s) = elim (Option.bind (remove_prefix (c ∷ s) (txt "/pull/")) positive_decimal) [
  | some n ↦ some n
  | none ↦ pull_number s
]

unfoldable pub pr_metadata_of : Json → Json → Answer (ℤ × Text)
pr_metadata_of (int number) (str url) = answer (number, url)
pr_metadata_of number url = publish_error (about (txt "PR metadata"))

-- The number and the URL of a request that exists.
unfoldable pub pr_metadata : Fields → Answer (ℤ × Text)
unfolding get_or_null pr_metadata_of
pr_metadata existing =
    pr_metadata_of (get_or_null (txt "number") existing) (get_or_null (txt "url") existing)

-- `isinstance(body, str) and text in body`
unfoldable pub body_has : Json → Text → Bool
body_has (str s) text = has_part s text
body_has other text = false

-- `(body or "").rstrip()`
unfoldable pub stripped_body : (Text → Bool) → Json → Answer Text
unfolding is_truthy
stripped_body is_zero_float (str s) = answer (rstrip is_space s)
stripped_body is_zero_float other =
    if is_truthy is_zero_float other then other_error (txt "AttributeError") else answer []

unfoldable pub is_true : Json → Bool
is_true (bool b) = b
is_true other = false

abbrev pub push_command : Text → List Text
push_command branch = txt "git" ∷ txt "push" ∷ txt "--set-upstream" ∷ txt "origin" ∷ branch ∷ []

abbrev pub list_command : Text → Text → List Text
list_command branch base =
    txt "gh"
    ∷ txt "pr"
    ∷ txt "list"
    ∷ txt "--state"
    ∷ txt "open"
    ∷ txt "--head"
    ∷ branch
    ∷ txt "--base"
    ∷ base
    ∷ txt "--json"
    ∷ txt "number,url,isDraft,headRefOid,body"
    ∷ []

abbrev pub create_command : Text → Text → Text → Text → List Text
create_command base branch title body =
    txt "gh"
    ∷ txt "pr"
    ∷ txt "create"
    ∷ txt "--base"
    ∷ base
    ∷ txt "--head"
    ∷ branch
    ∷ txt "--title"
    ∷ title
    ∷ txt "--body"
    ∷ body
    ∷ []

-- The body with the issue named at its end.
abbrev pub linked_body : Text → ℕ → Text
linked_body kept issue = kept ++ 10 ∷ (10 ∷ (closes issue ++ 10 ∷ []))

abbrev pub edit_command : ℤ → Text → List Text
edit_command number body =
    txt "gh" ∷ txt "pr" ∷ txt "edit" ∷ int_text number ∷ txt "--body" ∷ body ∷ []

abbrev pub ready_command : ℤ → List Text
ready_command number = txt "gh" ∷ txt "pr" ∷ txt "ready" ∷ int_text number ∷ []

-- `title or f"feat: {objective}"`
unfoldable pub title_or : Option Text → Text → Text
title_or none objective = txt "feat: " ++ objective
title_or (some title) objective = if title == [] then txt "feat: " ++ objective else title

unfoldable pub created_number : Text → Answer (ℤ × Text)
unfolding pull_number
created_number url = elim (pull_number url) [
  | none ↦ publish_error (value (txt "no number in the PR URL") url)
  | some n ↦ answer (ℤ.pos n, url)
]

module _ (sys : Publisher) where
  open sys use {World, loads, is_zero_float}

  -- `parse_pr_list`
  unfoldable pub parse_pr_list : Text → Answer (List Fields)
  unfolding pr_list_of
  parse_pr_list raw = pr_list_of (loads (if raw == [] then txt "[]" else raw))

  -- The branch for an empty list.
  unfoldable pub create_pr : Text → Manifest → Text → Text → Option Text → Step World (ℤ × Text)
  unfolding command_output title_or created_number pr_body
  create_pr root manifest branch head title = do
    url ←
        command_output sys
          (create_command manifest.target_branch branch (title_or title manifest.objective)
            (pr_body manifest head))
          root (txt "create PR")
    settle (created_number url)

  -- The body is edited unless it names the issue.
  unfoldable pub link_unless : Bool → Text → ℕ → ℤ → Json → Step World (Unit {0})
  unfolding command_output stripped_body number_text int_text
  link_unless true root issue number existing_body = give tt
  link_unless false root issue number existing_body = do
    body ← settle (stripped_body is_zero_float existing_body)
    _ ← command_output sys (edit_command number (linked_body body issue)) root (txt "link issue")
    give tt

  unfoldable pub link_issue : Text → ℕ → ℤ → Json → Step World (Unit {0})
  unfolding link_unless body_has number_text
  link_issue root issue number existing_body =
      link_unless (body_has existing_body (closes issue)) root issue number existing_body

  unfoldable pub ready_if : Bool → Text → ℤ → Step World (Unit {0})
  unfolding command_output int_text
  ready_if false root number = give tt
  ready_if true root number = do
    _ ← command_output sys (ready_command number) root (txt "ready for review")
    give tt

  unfoldable pub make_ready : Text → ℤ → Json → Step World (Unit {0})
  unfolding ready_if is_true
  make_ready root number draft = ready_if (is_true draft) root number

  -- The branch for a request that exists.
  unfoldable pub prepare_pr : Text → Manifest → Text → Fields → Step World (ℤ × Text)
  unfolding pr_metadata link_issue make_ready get_or_null is_text
  prepare_pr root manifest head existing = do
    metadata ← settle (pr_metadata existing)
    settle (
        refuse_if (not (is_text (get_or_null (txt "headRefOid") existing) head))
          (about (txt "PR head SHA")))
    link_issue root manifest.issue metadata.0 (get_or_null (txt "body") existing)
    make_ready root metadata.0 (get_or_null (txt "isDraft") existing)
    give metadata

  unfoldable pub choose_pr :
      Text → Manifest → Text → Text → Option Text → List Fields → Step World (ℤ × Text)
  unfolding create_pr prepare_pr
  choose_pr root manifest branch head title [] = create_pr root manifest branch head title
  choose_pr root manifest branch head title (existing ∷ []) = prepare_pr root manifest head existing
  choose_pr root manifest branch head title (existing ∷ other ∷ more) =
      refuse (about (txt "several open PRs"))

  unfoldable pub create_or_prepare_pr :
      Text → Manifest → Text → Text → Option Text → Step World (ℤ × Text)
  unfolding command_output parse_pr_list choose_pr
  create_or_prepare_pr root manifest branch head title = do
    _ ← command_output sys (push_command branch) root (txt "push")
    raw ← command_output sys (list_command branch manifest.target_branch) root (txt "PR list")
    pr_list ← settle (parse_pr_list raw)
    choose_pr root manifest branch head title pr_list
