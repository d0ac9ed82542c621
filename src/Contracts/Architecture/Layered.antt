-- ===== src/Contracts/Architecture/Layered.antt =====
-- scripts/harness-oracles.py: what a reply of `validate_architecture` says.
use coffee_order_system.Prelude.{
  ℕ, ◌≡◌, refl, ap, ◌∙◌, subst, true, false, not, Option, none, some, Option-cases, inl, inr, List,
  [], ◌∷◌, ◌==◌, text_eq, texts_eq, Text, txt, length, map, All, arith,
}
use coffee_order_system.Outcome.{about}
use coffee_order_system.Publish.{get_or_null, is_text}
use coffee_order_system.Json.{arr, Items, Fields}
use coffee_order_system.Contracts.Values.{filled_items-arr, AreRules, rules_of-AreRules}
use coffee_order_system.System.{returned, join_path}
use coffee_order_system.Oracles.Cycles.{Visit, found, done, exhausted, find_cycle}
use coffee_order_system.Oracles.Cycles.Edges.{HasPair}
use coffee_order_system.Oracles.Cycles.Acyclic.{Walk, Decides, find_cycle-Decides}
use coffee_order_system.Contracts.{
  replied, Host, or_fail, fail_if, is_one, filled_items, or_raised, load_json, reply_injective,
  or_fail-eq-replied, carry_on-eq-replied, bind-eq-replied, fail_if-eq-replied,
  or_raised-eq-replied,
}
use coffee_order_system.Contracts.Architecture.Names.{IsLayer, layer-IsLayer}
use coffee_order_system.Contracts.Architecture.Imports.{IsAllowed, Extends, imports_lem}
use coffee_order_system.Contracts.Architecture.{
  package_pattern, layer, rules_of, no_cycle, Violation, Dependencies, no_dependencies, imports_of,
  import_pattern, first_of, package_of, read_sources, check_dependencies, validate_architecture,
}

module _ (host : Host) (rules edges : List (Text × Text)) where
  open host use {World, read_text, findall}

  -- A file that was read, whose imports are allowed.
  pub record IsLayered (file : Text) : Type 0 where
    pub before : World
    pub after : World
    pub text : Text
    pub was_read : read_text file before ≡ (returned text, after)
    pub name : Text
    pub others : List (Option Text)
    pub found_name : host.search true package_pattern text ≡ some (some name ∷ others)
    pub source : Text
    pub source_layer : IsLayer name source
    pub allowed :
        All
          (λ imported.
            (target : Text) × IsLayer imported target × IsAllowed rules edges source target)
          (map first_of (findall true import_pattern text))

module _ (host : Host) (rules : List (Text × Text)) where
  open host use {World, read_text, findall}

  package_of-found :
      (file text : Text) {name : Text}
      → package_of host file text ≡ replied name
      → (others : List (Option Text)) × (host.search true package_pattern text
          ≡ some (some name ∷ others))
  unfolding package_of
  package_of-found file text {name} h =
      elim (Option-cases (host.search true package_pattern text)) [
        | inl e ↦ absurd (ground (arith, h, e))
        | inr ([], e) ↦ absurd (ground (arith, h, e))
        | inr (none ∷ others, e) ↦ absurd (ground (arith, h, e))
        | inr (some group ∷ others, e) ↦
            let same : group ≡ name = reply_injective (ground (arith, h, e)) in
            (others, e ∙ ap (λ g. some (some g ∷ others)) same)
      ]

  sources_lem :
      (files : List Text) (d after : Dependencies) (w : World) {w' : World}
      → read_sources host rules files d w ≡ (replied after, w')
      → after.violations ≡ []
      → Extends d after × All (IsLayered host rules after.edges) files
  unfolding read_sources
  sources_lem [] d after w h clean =
      let same : d ≡ after = reply_injective (ap (λ r. r.0) h) in
      (
        record {
          edges = λ a b m. subst (λ x. HasPair x.edges a b) same m;
          violations = λ e. ap (λ x. x.violations) same ∙ clean;
        },
        tt,
      )
  sources_lem (file ∷ files) d after w h clean =
      let (read, u) = read_text file w in
      let (text, was_read, h2) = carry_on-eq-replied (or_raised read) _ u h in
      let (name, found_name, h3) = carry_on-eq-replied (package_of host file text) _ u h2 in
      let imported = map first_of (findall true import_pattern text) in
      let (mid, rest) =
        sources_lem files (imports_of file rules (layer name) imported d) after u h3 clean in
      let (first, allowed) = imports_lem file rules (layer name) imported d after mid clean in
      (
        first,
        (
          record {
            before = w;
            after = u;
            text = text;
            was_read = ap (λ t. (t, u)) (or_raised-eq-replied read was_read);
            name = name;
            others = (package_of-found file text found_name).0;
            found_name = (package_of-found file text found_name).1;
            source = layer name;
            source_layer = layer-IsLayer name;
            allowed = allowed;
          },
          rest,
        ),
      )

-- The sources that the rules of the contract and the order of the layers allow.
pub record Layers (host : Host) (root : Text) (n : ℕ) : Type 0 where
  pub contract : Fields
  pub start : host.World
  pub loaded :
      (load_json host root (txt "harness/contracts/architecture.json") start).0 ≡ replied contract
  pub raw_rules : Items
  pub has_rules : get_or_null (txt "forbiddenImports") contract ≡ arr raw_rules
  pub rules : List (Text × Text)
  pub read_rules : AreRules raw_rules rules
  pub files : List Text
  pub before : host.World
  pub after : host.World
  pub globbed :
      host.sorted_glob (join_path root (txt "src/main/java")) (txt "**/*.java") before
      ≡ (files, after)
  pub counted : length files ≡ n
  pub not_none : (files == []) ≡ false
  pub edges : List (Text × Text)
  pub layered : All (IsLayered host rules edges) files
  pub acyclic : (a : Text) → Walk edges a a → ⊥

no_cycle-eq-replied :
    (edges : List (Text × Text)) (v : Visit)
    → Decides edges v
    → no_cycle v ≡ replied tt
    → (a : Text) → Walk edges a a
    → ⊥
no_cycle-eq-replied edges (found cycle) d h = absurd (ground (arith, h))
no_cycle-eq-replied edges (done s) d h = d
no_cycle-eq-replied edges exhausted d h = absurd d

accepted :
    (edges : List (Text × Text)) (violations : List Violation)
    → check_dependencies (record { edges = edges; violations = violations }) ≡ replied tt
    → (violations ≡ []) × ((a : Text) → Walk edges a a → ⊥)
unfolding check_dependencies
accepted edges [] h =
    (refl, no_cycle-eq-replied edges (find_cycle edges) (find_cycle-Decides edges) h)
accepted edges (violation ∷ more) h = absurd (ground (arith, h))

module _ (host : Host) (root : Text) where
  open host use {World, sorted_glob}

  -- When `validate_architecture` replies, the contract was read with its rules, each with its two layers, there was a source file, and on some
  -- world each file was read with a package; the layers of the package and of each import are those that their
  -- segments name; and each import is external, or there is no rule whose first layer is that of the package or above it
  -- and whose second is that of the import or above it, and the two layers are an edge. No walk over the edges leads
  -- from a layer to itself.
  pub validate_architecture-IsLayered :
      (w : World) {n : ℕ} {w' : World}
      → validate_architecture host root w ≡ (replied n, w')
      → Layers host root n
  unfolding validate_architecture
  validate_architecture-IsLayered w h =
      let (contract, w1, loaded, h1) =
        bind-eq-replied (load_json host root (txt "harness/contracts/architecture.json")) _ w h in
      let (u1, version, h2) =
        carry_on-eq-replied
          (fail_if (not (is_one host.is_one_float (get_or_null (txt "schemaVersion") contract)))
            (about (txt "schemaVersion")))
          _ w1 h1 in
      let (u2, source_root, h3) =
        carry_on-eq-replied
          (fail_if (not (is_text (get_or_null (txt "sourceRoot") contract) (txt "src/main/java")))
            (about (txt "sourceRoot")))
          _ w1 h2 in
      let (raw_rules, has_rules, h4) =
        carry_on-eq-replied
          (or_fail (about (txt "forbiddenImports"))
            (filled_items (get_or_null (txt "forbiddenImports") contract)))
          _ w1 h3 in
      let (rules, read_rules, h5) = carry_on-eq-replied (rules_of raw_rules) _ w1 h4 in
      let (files, w2) = sorted_glob (join_path root (txt "src/main/java")) (txt "**/*.java") w1 in
      let (u3, some_file, h7) =
        carry_on-eq-replied (fail_if (files == []) (about (txt "no Java source"))) _ w2 h5 in
      let (d, w3, sources, h8) =
        bind-eq-replied (read_sources host rules files no_dependencies) _ w2 h7 in
      let (u4, checked, h9) = carry_on-eq-replied (check_dependencies d) _ w3 h8 in
      let (clean, acyclic) = accepted d.edges d.violations checked in
      record {
        contract = contract;
        start = w;
        loaded = ap (λ r. r.0) loaded;
        raw_rules = raw_rules;
        has_rules =
            filled_items-arr (get_or_null (txt "forbiddenImports") contract)
              (or_fail-eq-replied (about (txt "forbiddenImports")) _ has_rules);
        rules = rules;
        read_rules = rules_of-AreRules raw_rules read_rules;
        files = files;
        before = w1;
        after = w2;
        globbed = refl;
        counted = reply_injective (ap (λ r. r.0) h9);
        not_none = fail_if-eq-replied (files == []) (about (txt "no Java source")) some_file;
        edges = d.edges;
        layered = (sources_lem host rules files no_dependencies d w2 sources clean).1;
        acyclic = acyclic;
      }
