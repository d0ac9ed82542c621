-- ===== src/Witnesses/Documents.antt =====
-- A run of the check of the documents on a small repository.
use coffee_order_system.Prelude.{
  ◌≡◌, refl, true, some, [], ◌∷◌, ◌==◌, text_eq, texts_eq, nat_eq, if◌then◌else◌, txt, All, any,
  contains, keep, strip, starts_with,
}
use coffee_order_system.System.{returned}
use coffee_order_system.Documents.{TreePath, Repository, check_documents}
use coffee_order_system.Documents.Covered.{IsLinked, HasContextIfSource, check_documents-IsLinked}
use coffee_order_system.Documents.Targets.{IsInside}

abbrev readme : TreePath
readme = txt "README.md" ∷ txt "docs" ∷ []

abbrev a_source : TreePath
a_source = txt "A.java" ∷ txt "src" ∷ []

abbrev a_repository : Repository
a_repository = record {
  sorted_rglob = λ directory pattern. if directory == [] then readme ∷ [] else a_source ∷ [];
  exists = λ path. true;
  is_file = λ path. path == txt "AGENTS.md" ∷ [];
  link_exists = λ directory target. target == txt "api.md";
  read_text = λ path. returned (txt "[api](api.md)");
  finditer = λ pattern text. txt "api.md" ∷ [];
  urlsplit = λ target. some ([], target);
  unquote = λ t. t;
}

all_fine : check_documents a_repository ≡ returned 0
unfolding check_documents keep texts_eq any contains text_eq txt strip nat_eq starts_with
all_fine = refl

check_documents-IsLinked_example :
    All
      (λ path. IsInside path → IsLinked a_repository path)
      (a_repository.sorted_rglob [] (txt "*.md"))
    × (a_repository.exists (txt "src" ∷ []) ≡ true)
    × All (HasContextIfSource a_repository) (a_repository.sorted_rglob (txt "src" ∷ []) (txt "*"))
check_documents-IsLinked_example = check_documents-IsLinked a_repository all_fine
