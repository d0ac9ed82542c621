-- ===== src/Witnesses/Places.antt =====
-- The paths of the evidence files and the changed paths in the repository of the runs of `evaluate`.
use coffee_order_system.Prelude.{
  ◌≡◌, refl, int_eq, remove_suffix, split, any, contains, starts_with, sorted_set,
  decode_surrogateescape, [], ◌∷◌, texts_eq, txt, text_eq, nat_eq,
}
use coffee_order_system.Outcome.{ok}
use coffee_order_system.Paths.{remove_prefix}
use coffee_order_system.System.{attempt}
use coffee_order_system.Evidence.{safe_evidence_path}
use coffee_order_system.Diff.{parse_name_status, parse_nul_paths}
use coffee_order_system.Git.{collect_local_changed_paths}
use coffee_order_system.Git.Changes.{IsCollected, collect_local_changed_paths-IsCollected}
use coffee_order_system.Witnesses.{order_file, some_sha}
use coffee_order_system.Evidence.SafePath.{IsSafePath, safe_evidence_path-IsSafePath}
use coffee_order_system.Witnesses.Evaluations.{a_system, evaluation_file}

a_place :
    safe_evidence_path a_system (txt "/r") (txt "evaluation.json") tt ≡ (ok evaluation_file, tt)
unfolding safe_evidence_path attempt txt text_eq nat_eq remove_prefix
a_place = refl

safe_evidence_path-IsSafePath_example :
    IsSafePath a_system (txt "/r") (txt "evaluation.json") evaluation_file
safe_evidence_path-IsSafePath_example =
    safe_evidence_path-IsSafePath a_system (txt "/r") (txt "evaluation.json") tt a_place

a_collection :
    collect_local_changed_paths a_system (txt "/r") some_sha tt ≡ (ok (order_file ∷ []), tt)
unfolding collect_local_changed_paths txt text_eq texts_eq nat_eq int_eq parse_name_status
    remove_suffix split any contains starts_with parse_nul_paths sorted_set decode_surrogateescape
a_collection = refl

collect_local_changed_paths-IsCollected_example :
    IsCollected a_system (txt "/r") some_sha (order_file ∷ [])
collect_local_changed_paths-IsCollected_example =
    collect_local_changed_paths-IsCollected a_system (txt "/r") some_sha tt a_collection
