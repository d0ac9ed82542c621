-- ===== src/Documents/Covered.antt =====
-- scripts/check-doc-context.py: what the exit code 0 says.
use coffee_order_system.Prelude.{
  ◌≡◌, ◌≢◌, any, contains, strip, sym, starts_with, Option-cases, ◌==◌, ==_iff, refl, ap, ◌∙◌, ◌⊎◌,
  inl, inr, true, false, not, Option, none, some, List, [], ◌∷◌, ◌++◌, text_eq, Text, txt, All,
  keep, arith, Bool-cases,
}
use coffee_order_system.System.{Try, returned, raised}
use coffee_order_system.Documents.Targets.{
  starts_with-rest, kept_of, IsTarget, bare_target-IsTarget, IsSourceName, named-is_source,
  IsInside, inside-not_ignored,
}
use coffee_order_system.Documents.{
  ignored_parts, unless_remote, bare_target, TreePath, Repository, link_pattern, is_source,
  directory_of, Broken, files_with_suffix, local_link_target, is_missing, broken_in, broken_among,
  broken_markdown_links, is_covered, source_files_without_context, is_clean, check_documents,
}

Try-cases : {A : Type 0} (t : Try A) → ((e : _) × (t ≡ raised e)) ⊎ ((a : A) × (t ≡ returned a))
Try-cases (returned a) = inr (a, refl)
Try-cases (raised e) = inl (e, refl)

returned_injective : {A : Type 0} {a b : A} → returned a ≡ returned b → a ≡ b
returned_injective h = cc

nil_parts : {A : Type 0} (xs ys : List A) → xs ++ ys ≡ [] → (xs ≡ []) × (ys ≡ [])
nil_parts [] ys h = (refl, h)
nil_parts (x ∷ xs) ys h = absurd (ground (arith, h))

module _ (repository : Repository) where
  open repository use {is_file, read_text, finditer, sorted_rglob, urlsplit, unquote, link_exists}

  -- The target of the link, split as a URL, leads elsewhere, names no path, or is there, seen from the directory of the
  -- file.
  abbrev pub IsWhole : TreePath → Text → Type 0
  IsWhole directory raw =
      (target : Text) × (scheme : Text) × (path : Text) × IsTarget (strip raw) target
      × (urlsplit target ≡ some (scheme, path))
      × ((scheme ≢ [])
          ⊎ (((rest : Text) × (target ≡ txt "#" ++ rest))
              ⊎ (((rest : Text) × (target ≡ txt "//" ++ rest))
                  ⊎ ((unquote path ≡ []) ⊎ (link_exists directory (unquote path) ≡ true)))))

  -- The target that is found is not missing.
  abbrev WasWhole : TreePath → Text → Type 0
  WasWhole markdown raw =
      (target : Option Text) × (local_link_target repository raw ≡ returned target)
      × (is_missing repository markdown target ≡ false)

  -- The file was read, and its links are whole.
  abbrev pub IsLinked : TreePath → Type 0
  IsLinked markdown =
      (content : Text) × (read_text markdown ≡ returned content)
      × All (IsWhole (directory_of markdown)) (finditer (txt "!?\\[[^\\]]*]\\(([^)]+)\\)") content)

  -- No link in the file is found broken.
  abbrev WasLinked : TreePath → Type 0
  WasLinked markdown =
      (content : Text) × (read_text markdown ≡ returned content)
      × All (WasWhole markdown) (finditer link_pattern content)

  -- In the directory or in one above it there is a file AGENTS.md.
  abbrev pub HasContext : TreePath → Type 0
  HasContext directory =
      (below : TreePath) × (above : TreePath) × (directory ≡ below ++ above)
      × (is_file (txt "AGENTS.md" ∷ above) ≡ true)

  -- A file with the name of a source.
  abbrev pub HasContextIfSource : TreePath → Type 0
  HasContextIfSource [] = Unit
  HasContextIfSource (name ∷ parent) = IsSourceName name → HasContext parent

  is_covered-HasContext :
      (directory : TreePath) → is_covered repository directory ≡ true → HasContext directory
  unfolding is_covered
  is_covered-HasContext [] h = ([], [], refl, h)
  is_covered-HasContext (name ∷ parent) h =
      elim (Bool-cases (is_file (txt "AGENTS.md" ∷ name ∷ parent))) [
        | inl here ↦ ([], name ∷ parent, refl, here)
        | inr above ↦
            let (b, a, e, f) = is_covered-HasContext parent (ground (arith, h, above)) in
            (name ∷ b, a, ap (λ p. name ∷ p) e, f)
      ]

  one_link :
      (markdown : TreePath) (raw : Text) (more : List Text)
      → broken_in repository markdown (raw ∷ more) ≡ returned []
      → WasWhole markdown raw × (broken_in repository markdown more ≡ returned [])
  unfolding broken_in
  one_link markdown raw more h = elim (Try-cases (local_link_target repository raw)) [
    | inl (x, e) ↦ absurd (ground (arith, h, e))
    | inr (target, e) ↦ elim (Try-cases (broken_in repository markdown more)) [
      | inl (x, f) ↦ absurd (ground (arith, h, e, f))
      | inr (errors, f) ↦ elim (Bool-cases (is_missing repository markdown target)) [
        | inl missing ↦ absurd (ground (arith, h, e, f, missing))
        | inr there ↦ ((target, e, there), ground (arith, h, e, f, there))
      ]
    ]
  ]

  links_lem :
      (markdown : TreePath) (raws : List Text)
      → broken_in repository markdown raws ≡ returned []
      → All (WasWhole markdown) raws
  links_lem markdown [] h = tt
  links_lem markdown (raw ∷ more) h =
      let (whole, rest) = one_link markdown raw more h in (whole, links_lem markdown more rest)

  one_file :
      (markdown : TreePath) (more : List TreePath)
      → broken_among repository (markdown ∷ more) ≡ returned []
      → WasLinked markdown × (broken_among repository more ≡ returned [])
  unfolding broken_among
  one_file markdown more h = elim (Try-cases (read_text markdown)) [
    | inl (x, e) ↦ absurd (ground (arith, h, e))
    | inr (content, e) ↦
        elim (Try-cases (broken_in repository markdown (finditer link_pattern content))) [
          | inl (x, f) ↦ absurd (ground (arith, h, e, f))
          | inr (errors, f) ↦ elim (Try-cases (broken_among repository more)) [
            | inl (x, k) ↦ absurd (ground (arith, h, e, f, k))
            | inr (others, k) ↦
                let joined : errors ++ others ≡ [] =
                  returned_injective (ground (arith, h, e, f, k)) in
                let (none_here, none_there) = nil_parts errors others joined in
                (
                  (content, e, links_lem markdown _ (f ∙ ap returned none_here)),
                  k ∙ ap returned none_there,
                )
          ]
        ]
  ]

  files_lem :
      (files : List TreePath) → broken_among repository files ≡ returned [] → All WasLinked files
  files_lem [] h = tt
  files_lem (markdown ∷ more) h =
      let (linked, rest) = one_file markdown more h in (linked, files_lem more rest)

  there_or_empty :
      (markdown : TreePath) (path : Text)
      → is_missing repository markdown (some path) ≡ false
      → (path ≡ []) ⊎ (link_exists (directory_of markdown) path ≡ true)
  unfolding is_missing
  there_or_empty markdown [] h = inl refl
  there_or_empty markdown (c ∷ s) h = inr (ground (arith, h))

  way_out :
      (target scheme path : Text) (markdown : TreePath)
      → is_missing repository markdown (unless_remote unquote target (scheme, path)) ≡ false
      → (scheme ≢ [])
        ⊎ (((rest : Text) × (target ≡ txt "#" ++ rest))
            ⊎ (((rest : Text) × (target ≡ txt "//" ++ rest))
                ⊎ ((unquote path ≡ [])
                    ⊎ (link_exists (directory_of markdown) (unquote path) ≡ true))))
  way_out target scheme path markdown h = elim (Bool-cases (scheme == [])) [
    | inr n ↦ inl (λ e. let t = (==_iff scheme []).1 e in ground (arith, n, t))
    | inl e ↦ elim (Bool-cases (starts_with target (txt "#"))) [
      | inl hash ↦ inr (inl (starts_with-rest target (txt "#") hash))
      | inr m ↦ elim (Bool-cases (starts_with target (txt "//"))) [
        | inl slashes ↦ inr (inr (inl (starts_with-rest target (txt "//") slashes)))
        | inr k ↦
            let local : unless_remote unquote target (scheme, path) ≡ some (unquote path) =
              ground (arith, e, m, k) in
            inr (
              inr (
                inr (
                  there_or_empty markdown (unquote path)
                    (ap (is_missing repository markdown) (sym local) ∙ h))))
      ]
    ]
  ]

  whole_lem :
      (markdown : TreePath) (raw : Text)
      → WasWhole markdown raw
      → IsWhole (directory_of markdown) raw
  unfolding local_link_target
  whole_lem markdown raw (target, found, there) = elim (Try-cases (bare_target (strip raw))) [
    | inl (x, e) ↦ absurd (ground (arith, found, e))
    | inr (word, e) ↦ elim (Option-cases (urlsplit word)) [
      | inl f ↦ absurd (ground (arith, found, e, f))
      | inr (parsed, f) ↦
          let same : unless_remote unquote word parsed ≡ target =
            returned_injective (ground (arith, found, e, f)) in
          (
            word,
            parsed.0,
            parsed.1,
            bare_target-IsTarget (strip raw) e,
            f,
            way_out word parsed.0 parsed.1 markdown
                (ap (is_missing repository markdown) same ∙ there),
          )
    ]
  ]

  wholes_lem :
      (markdown : TreePath) (raws : List Text)
      → All (WasWhole markdown) raws
      → All (IsWhole (directory_of markdown)) raws
  wholes_lem markdown [] h = tt
  wholes_lem markdown (raw ∷ raws) h = (whole_lem markdown raw h.0, wholes_lem markdown raws h.1)

  -- A file outside the directories that are left out is linked.
  inside_lem :
      (paths : List TreePath)
      → All
          (λ path. not (any (λ part. contains ignored_parts part) path) ≡ true → WasLinked path)
          paths
      → All (λ path. IsInside path → IsLinked path) paths
  inside_lem [] h = tt
  inside_lem (path ∷ paths) h = (
    (λ inside.
        let (content, was_read, wholes) = h.0 (inside-not_ignored path inside) in
        (content, was_read, wholes_lem path _ wholes)),
    inside_lem paths h.1,
  )

  -- A source file has a context.
  contexts_lem :
      (paths : List TreePath)
      → All (λ path. is_source path ≡ true → HasContext (directory_of path)) paths
      → All HasContextIfSource paths
  unfolding directory_of
  contexts_lem [] h = tt
  contexts_lem ([] ∷ paths) h = (tt, contexts_lem paths h.1)
  contexts_lem ((name ∷ parent) ∷ paths) h =
      ((λ named. h.0 (named-is_source name parent named)), contexts_lem paths h.1)

  kept_none :
      (sources : List TreePath)
      → keep (λ source. not (is_covered repository (directory_of source))) sources ≡ []
      → All (λ source. HasContext (directory_of source)) sources
  unfolding keep
  kept_none [] h = tt
  kept_none (source ∷ sources) h = elim (Bool-cases (is_covered repository (directory_of source))) [
    | inl covered ↦ (
      is_covered-HasContext (directory_of source) covered,
      kept_none sources (ground (arith, h, covered)),
    )
    | inr bare ↦ absurd (ground (arith, h, bare))
  ]

  clean_parts :
      (errors : List Broken) (uncovered : Option (List TreePath))
      → is_clean repository errors uncovered ≡ true
      → (errors ≡ []) × (uncovered ≡ some [])
  clean_parts [] (some []) h = (refl, refl)
  clean_parts [] none h = absurd (ground (arith, h))
  clean_parts [] (some (s ∷ ss)) h = absurd (ground (arith, h))
  clean_parts (b ∷ bs) u h = absurd (ground (arith, h))

  some_injective : {A : Type 0} {a b : A} → some a ≡ some b → a ≡ b
  some_injective h = cc

  sources_lem :
      source_files_without_context repository ≡ some []
      → (repository.exists (txt "src" ∷ []) ≡ true)
        × All
            (λ source. HasContext (directory_of source))
            (keep is_source (sorted_rglob (txt "src" ∷ []) (txt "*")))
  unfolding source_files_without_context
  sources_lem h = elim (Bool-cases (repository.exists (txt "src" ∷ []))) [
    | inl there ↦ (there, kept_none _ (some_injective (ground (arith, h, there))))
    | inr gone ↦ absurd (ground (arith, h, gone))
  ]

  -- When the exit code is 0, each Markdown file with no part of its path among `.git`, `.gradle`, `.idea` and `build` was
  -- read, and the target of each link in it, what stands in its angle brackets or else its first word, has a scheme,
  -- starts with `#` or `//`, names no path, or is there, seen from the directory of the file; there is a directory src,
  -- and each path below it whose name ends in `.java`, `.sql`, `.yaml` or `.yml`, behind something else, has an
  -- AGENTS.md in its directory or in one above, up to the root.
  pub check_documents-IsLinked :
      check_documents repository ≡ returned 0
      → All (λ path. IsInside path → IsLinked path) (sorted_rglob [] (txt "*.md"))
        × (repository.exists (txt "src" ∷ []) ≡ true)
        × All HasContextIfSource (sorted_rglob (txt "src" ∷ []) (txt "*"))
  unfolding check_documents broken_markdown_links files_with_suffix txt
  check_documents-IsLinked h =
      elim (Try-cases (broken_among repository (files_with_suffix repository (txt ".md")))) [
        | inl (x, e) ↦ absurd (ground (arith, h, e))
        | inr (errors, e) ↦
            elim (Bool-cases
              (is_clean repository errors (source_files_without_context repository))) [
                | inl clean ↦
                    let (no_errors, no_sources) =
                      clean_parts errors (source_files_without_context repository) clean in
                    let (src, covered) = sources_lem no_sources in
                    (
                      inside_lem (sorted_rglob [] (txt "*.md")) (
                          kept_of WasLinked _ (sorted_rglob [] (txt "*.md")) (
                            files_lem (files_with_suffix repository (txt ".md"))
                              (e ∙ ap returned no_errors))),
                      src,
                      contexts_lem (sorted_rglob (txt "src" ∷ []) (txt "*")) (
                          kept_of (λ path. HasContext (directory_of path)) is_source
                            (sorted_rglob (txt "src" ∷ []) (txt "*")) covered),
                    )
                | inr bad ↦ absurd (ground (arith, h, e, bad))
              ]
      ]
