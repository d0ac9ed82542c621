-- ===== src/Documents.antt =====
-- scripts/check-doc-context.py. The script only reads, so the repository does not change while it runs.
pub mod Targets
pub mod Covered
use coffee_order_system.Prelude.{
  ℕ, ◌+◌, Bool, true, false, not, ◌&&◌, ◌||◌, Option, none, some, List, [], ◌∷◌, ◌++◌, ◌==◌,
  text_eq, nat_eq, if◌then◌else◌, Text, txt, strip, is_space, starts_with, contains, any, keep,
}
use coffee_order_system.System.{Raised, value_error, other_exception, Try, returned, raised}

-- A path below `ROOT`, its last part first.
abbrev pub TreePath : Type 0
TreePath = List Text

-- The calls of Python's library. `sorted_rglob` gives the paths below a directory that match a pattern, sorted;
-- `finditer` the groups of the matches of a pattern; `urlsplit` the scheme and the path, and `none` for its
-- `ValueError`; `link_exists` tells whether a target resolves to a path that exists, seen from a directory.
pub record Repository : Type 0 where
  pub sorted_rglob : TreePath → Text → List TreePath
  pub exists : TreePath → Bool
  pub is_file : TreePath → Bool
  pub link_exists : TreePath → Text → Bool
  pub read_text : TreePath → Try Text
  pub finditer : Text → Text → List Text
  pub urlsplit : Text → Option (Text × Text)
  pub unquote : Text → Text

abbrev pub ignored_parts : List Text
ignored_parts = txt ".git" ∷ txt ".gradle" ∷ txt ".idea" ∷ txt "build" ∷ []

abbrev pub source_suffixes : List Text
source_suffixes = txt ".java" ∷ txt ".sql" ∷ txt ".yaml" ∷ txt ".yml" ∷ []

abbrev pub link_pattern : Text
link_pattern = txt "!?\\[[^\\]]*]\\(([^)]+)\\)"

-- What stands before the first of these characters.
unfoldable pub text_before : (ℕ → Bool) → Text → Text
text_before p [] = []
text_before p (c ∷ s) = let rest = text_before p s in if p c then [] else c ∷ rest

-- `target[1 : target.index(">")]`, or the first word, of which there is none in an empty text.
unfoldable pub bare_target : Text → Try Text
unfolding text_before
bare_target [] = raised (other_exception (txt "IndexError"))
bare_target (c ∷ s) =
    if c == b'<' && contains (c ∷ s) b'>'
    then returned (text_before (λ d. d == b'>') s)
    else returned (text_before is_space (c ∷ s))

-- A path of the same tree, or `None`.
abbrev pub unless_remote : (Text → Text) → Text → Text × Text → Option Text
unless_remote unquote target parsed =
    if not (parsed.0 == []) || starts_with target (txt "#") || starts_with target (txt "//")
    then none
    else some (unquote parsed.1)

-- From the last dot on.
unfoldable pub from_last_dot : Text → Option Text
from_last_dot [] = none
from_last_dot (c ∷ s) = elim (from_last_dot s) [
  | some t ↦ some t
  | none ↦ if c == b'.' then some (c ∷ s) else none
]

-- `path.suffix` of a name: from its last dot on, unless this is its first or its last character.
unfoldable pub suffix_of : Text → Text
unfolding from_last_dot
suffix_of [] = []
suffix_of (c ∷ s) = elim (from_last_dot s) [ none ↦ [] | some t ↦ if t == txt "." then [] else t ]

unfoldable pub is_source : TreePath → Bool
unfolding suffix_of
is_source [] = contains source_suffixes []
is_source (name ∷ parent) = contains source_suffixes (suffix_of name)

unfoldable pub directory_of : TreePath → TreePath
directory_of [] = []
directory_of (name ∷ parent) = parent

-- A Markdown file and a target in it that is missing.
pub record Broken : Type 0 where
  pub markdown : TreePath
  pub target : Text

module _ (repository : Repository) where
  open repository use {
    sorted_rglob, exists, is_file, link_exists, read_text, finditer, urlsplit, unquote,
  }

  unfoldable pub files_with_suffix : Text → List TreePath
  files_with_suffix suffix =
      keep (λ path. not (any (λ part. contains ignored_parts part) path))
        (sorted_rglob [] (txt "*" ++ suffix))

  unfoldable pub local_link_target : Text → Try (Option Text)
  unfolding bare_target
  local_link_target raw_target = elim (bare_target (strip raw_target)) [
    | raised e ↦ raised e
    | returned target ↦ elim (urlsplit target) [
      | none ↦ raised (value_error target)
      | some parsed ↦ returned (unless_remote unquote target parsed)
    ]
  ]

  -- Whether nothing stands at a target; `not target` holds of `None` and of the empty text.
  unfoldable pub is_missing : TreePath → Option Text → Bool
  is_missing markdown none = false
  is_missing markdown (some []) = false
  is_missing markdown (some (c ∷ s)) = not (link_exists (directory_of markdown) (c ∷ s))

  -- The loop over the links of a file.
  unfoldable pub broken_in : TreePath → List Text → Try (List Broken)
  unfolding local_link_target is_missing directory_of
  broken_in markdown [] = returned []
  broken_in markdown (raw ∷ more) = elim (local_link_target raw) [
    | raised e ↦ raised e
    | returned target ↦ elim (broken_in markdown more) [
      | raised e ↦ raised e
      | returned errors ↦ returned (
          if is_missing markdown target
          then record { markdown = markdown; target = raw } ∷ errors
          else errors)
    ]
  ]

  -- The loop over the files.
  unfoldable pub broken_among : List TreePath → Try (List Broken)
  unfolding broken_in
  broken_among [] = returned []
  broken_among (markdown ∷ more) = elim (read_text markdown) [
    | raised e ↦ raised e
    | returned content ↦ elim (broken_in markdown (finditer link_pattern content)) [
      | raised e ↦ raised e
      | returned errors ↦ elim (broken_among more) [
        | raised e ↦ raised e
        | returned others ↦ returned (errors ++ others)
      ]
    ]
  ]

  unfoldable pub broken_markdown_links : Try (List Broken)
  unfolding files_with_suffix broken_among
  broken_markdown_links = broken_among (files_with_suffix (txt ".md"))

  -- The loop from a directory up to `ROOT`.
  unfoldable pub is_covered : TreePath → Bool
  is_covered [] = is_file (txt "AGENTS.md" ∷ [])
  is_covered (name ∷ parent) = is_file (txt "AGENTS.md" ∷ name ∷ parent) || is_covered parent

  -- `none` where there is no `src`.
  unfoldable pub source_files_without_context : Option (List TreePath)
  unfolding is_source is_covered directory_of
  source_files_without_context =
      if exists (txt "src" ∷ [])
      then some (
          keep (λ source. not (is_covered (directory_of source)))
            (keep is_source (sorted_rglob (txt "src" ∷ []) (txt "*"))))
      else none

  abbrev is_clean : List Broken → Option (List TreePath) → Bool
  is_clean [] (some []) = true
  is_clean errors uncovered = false

  -- The exit code.
  unfoldable pub check_documents : Try ℕ
  unfolding broken_markdown_links source_files_without_context
  check_documents = elim broken_markdown_links [
    | raised e ↦ raised e
    | returned errors ↦ returned (if is_clean errors source_files_without_context then 0 else 1)
  ]
