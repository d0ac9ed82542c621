-- ===== src/Witnesses/Publishing.antt =====
-- A run of the publication on a repository where every command ends with 0.
use coffee_order_system.Prelude.{
  ℕ, ◌≡◌, refl, ◌⊎◌, ◌↔◌, ap, arith, Bool, true, false, none, some, Option, List, [], ◌∷◌, ◌++◌,
  ◌+◌, Text, txt, ℤ, All, ◌==◌, text_eq, texts_eq, if◌then◌else◌, contains, strip, lstrip, rstrip,
  is_space, nat_eq, int_eq, starts_with, has_part, all, any,
}
use coffee_order_system.Json.{Json, int, str, arr, obj, nil, field, end}
use coffee_order_system.System.{Try, returned}
use coffee_order_system.Publish.{Publisher, Progress, begin, Answer, answer, number_text}
use coffee_order_system.Publish.Readings.{
  Manifest, evidence_path, branch_command, head_command, assert_issue_branch,
}
use coffee_order_system.Publish.Requests.{
  create_or_prepare_pr, list_command, created_number, link_issue, pr_body, linked_body,
}
use coffee_order_system.Publish.Merging.{view_command, issue_command}
use coffee_order_system.Publish.Finalize.{FinalizationResult, Candidate, finalize, publish}
use coffee_order_system.Publish.Order.{IsUnmerging, finalize-IsUnmerging}
use coffee_order_system.Publish.Verified.{Verified, IsVerifying, finalize-IsVerified}
use coffee_order_system.Publish.Requested.{Requested, create_or_prepare_pr-IsRequested}
use coffee_order_system.Paths.{branch_kinds}
use coffee_order_system.Publish.Urls.{created_number-number_text, assert_issue_branch-number_text}
use coffee_order_system.Publish.Links.{link_issue_lem}
use coffee_order_system.Publish.Ended.{completed, Finalized, finalize-IsFinalized}
use coffee_order_system.Witnesses.{some_sha}

abbrev pr_url : Text
pr_url = txt "https://github.com/o/r/pull/5"

-- What each command prints.
abbrev print : List Text → Text
print command =
    if command == branch_command
    then txt "feature/7-orders"
    else if command == head_command
    then some_sha
    else if command == list_command (txt "feature/7-orders") (txt "main")
    then txt "[]"
    else if command == view_command (ℤ.pos 5)
    then txt "merged"
    else if command == issue_command 7
    then txt "closed"
    else if contains command (txt "create")
    then pr_url
    else []

abbrev parse : Text → Option Json
parse text =
    if text == txt "plan"
    then some (
        obj (
          field (txt "issue") (int (ℤ.pos 7)) (
            field (txt "targetBranch") (str (txt "main"))
              (field (txt "objective") (str (txt "orders")) end))))
    else if text == txt "passed"
    then some (
        obj (
          field (txt "state") (str (txt "PASS"))
            (field (txt "candidateHeadSha") (str some_sha) end)))
    else if text == txt "[]"
    then some (arr nil)
    else if text == txt "merged"
    then some (
        obj (
          field (txt "state") (str (txt "MERGED"))
            (field (txt "mergedAt") (str (txt "2026-01-01")) end)))
    else if text == txt "closed"
    then some (obj (field (txt "state") (str (txt "CLOSED")) end))
    else none

abbrev a_publisher : Publisher
a_publisher = record {
  World = ℕ;
  executable = txt "python";
  run = λ command root w.
      (returned (record { returncode = ℤ.pos 0; stdout = print command; stderr = [] }), w + 1);
  resolve = λ path w. (returned path, w);
  resolve_any = λ path w. (path, w);
  read_text = λ path w.
      (returned (if path == evidence_path (txt "/r") then txt "passed" else txt "plan"), w);
  loads = parse;
  is_zero_float = λ t. false;
}

abbrev a_manifest : Manifest
a_manifest = record {
  issue = 7;
  target_branch = txt "main";
  objective = txt "orders";
  relative_path = txt "plan.json";
}

abbrev a_request : Answer (ℤ × Text) × Progress ℕ
a_request =
    create_or_prepare_pr a_publisher (txt "/r") a_manifest (txt "feature/7-orders") some_sha none
      (begin 4)

requested : a_request.0 ≡ answer (ℤ.pos 5, pr_url)
unfolding create_or_prepare_pr print parse int_eq text_eq strip texts_eq txt nat_eq contains
    mathlib.Core.Option.bind coffee_order_system.Paths.remove_prefix
    coffee_order_system.Paths.positive_decimal all coffee_order_system.Prelude.decimal
requested = refl

create_or_prepare_pr-IsRequested_example :
    Requested a_publisher
      (txt "/r")
      a_manifest
      (txt "feature/7-orders")
      some_sha
      none
      (begin 4)
      (ℤ.pos 5, pr_url)
      a_request.1
create_or_prepare_pr-IsRequested_example =
    create_or_prepare_pr-IsRequested a_publisher (txt "/r") a_manifest (txt "feature/7-orders")
      some_sha none (begin 4) (ap (λ a. (a, a_request.1)) requested)

abbrev a_candidate : Candidate
a_candidate = record { manifest = a_manifest; branch = txt "feature/7-orders"; head = some_sha }

abbrev a_result : FinalizationResult
a_result = completed a_publisher (txt "/r") (txt "plan.json") a_candidate (ℤ.pos 5, pr_url)

abbrev a_run : Answer FinalizationResult × Progress ℕ
a_run = finalize a_publisher (txt "/r") (txt "plan.json") true none (begin 0)

finished : a_run.0 ≡ answer a_result
unfolding finalize create_or_prepare_pr print parse int_eq text_eq strip texts_eq txt nat_eq
    contains mathlib.Core.Option.bind coffee_order_system.Paths.remove_prefix
    coffee_order_system.Paths.positive_decimal all coffee_order_system.Prelude.decimal
    coffee_order_system.System.relative_to starts_with coffee_order_system.System.join_path
    coffee_order_system.Paths.is_sha
finished = refl

finalize-IsFinalized_example :
    Finalized a_publisher (txt "/r") (txt "plan.json") none (begin 0) a_result a_run.1
finalize-IsFinalized_example =
    finalize-IsFinalized a_publisher (txt "/r") (txt "plan.json") none (begin 0)
      (ap (λ a. (a, a_run.1)) finished)

finalize-IsUnmerging_example :
    All IsUnmerging
      (finalize a_publisher (txt "/r") (txt "plan.json") false none (begin 0)).1.issued
finalize-IsUnmerging_example = finalize-IsUnmerging a_publisher (txt "/r") (txt "plan.json") none 0

finalize-IsVerified_example :
    All (IsVerifying a_publisher (txt "/r") (txt "plan.json")) a_run.1.issued
    ⊎ ((c : Candidate) × (q : Progress ℕ) × Verified a_publisher
          (txt "/r")
          (txt "plan.json")
          (begin 0)
          c
          q
        × (a_run ≡ publish a_publisher (txt "/r") true none c q))
finalize-IsVerified_example =
    finalize-IsVerified a_publisher (txt "/r") (txt "plan.json") true none 0

created_number-number_text_example :
    created_number (txt "https://github.com/o/pull" ++ (txt "/pull/" ++ number_text 12))
    ≡ answer (ℤ.pos 12, txt "https://github.com/o/pull" ++ (txt "/pull/" ++ number_text 12))
created_number-number_text_example =
    created_number-number_text (txt "https://github.com/o/pull") 12 (omega arith)

assert_issue_branch-number_text_example :
    All
      (λ (kind : Text).
        (assert_issue_branch (kind ++ (txt "/" ++ (number_text 12 ++ (b'-' ∷ txt "orders")))) 1
          ≡ answer tt)
        ↔ ◌≡◌ {A = ℕ} 12 1)
      branch_kinds
assert_issue_branch-number_text_example =
    assert_issue_branch-number_text 12 1 (txt "orders") (omega arith)

link_issue_lem_example :
    (link_issue a_publisher (txt "/r") 7 (ℤ.pos 5) (str (pr_body a_manifest some_sha)) (begin 4)
      ≡ (answer tt, begin 4))
    × (link_issue a_publisher
          (txt "/r")
          7
          (ℤ.pos 5)
          (str (linked_body (txt "Closes #8") 7))
          (begin 4)
        ≡ (answer tt, begin 4))
link_issue_lem_example =
    link_issue_lem a_publisher (txt "/r") a_manifest (ℤ.pos 5) some_sha (txt "Closes #8") (begin 4)
