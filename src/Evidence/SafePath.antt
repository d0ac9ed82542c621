-- ===== src/Evidence/SafePath.antt =====
-- scripts/agent-harness.py, `_safe_evidence_path`: what is known of a path that it returns.
use coffee_order_system.Prelude.{
  ◌≡◌, refl, ap, sym, ◌∙◌, ◌⊎◌, inl, inr, some, Text, txt, arith, Option-cases,
}
use coffee_order_system.Outcome.{ok, ok-injective}
use coffee_order_system.Effect.{Returns, bind-eq-ok, proceed-eq-ok, lift-eq-ok}
use coffee_order_system.System.{
  System, Try, returned, raised, file_not_found, file_exists, other_os_error, value_error,
  other_exception, attempt, act, Kind, directory, regular, symlink, special, join_path, relative_to,
}
use coffee_order_system.Evidence.{
  require_directory, require_regular, require_inside, directory_kind,
  ensure_safe_evidence_directory, accept_path, strict_repository_root, safe_evidence_path,
}

require_directory-ok :
    (path : Text) (kind : Kind) → require_directory path kind ≡ ok tt → kind ≡ directory
unfolding require_directory
require_directory-ok path directory h = refl
require_directory-ok path regular h = absurd (ground (arith, h))
require_directory-ok path symlink h = absurd (ground (arith, h))
require_directory-ok path special h = absurd (ground (arith, h))

module _ (sys : System) where
  open sys use {machine, resolve, lstat}
  open machine use {World}

  -- The directory is one, no symlink, and it resolves to a place below the root.
  pub record IsSafeDirectory (root path : Text) : Type 0 where
    pub kind_found : Returns (directory_kind sys path) directory
    pub resolved : Text
    pub resolved_to : Returns (act (resolve path)) (returned resolved)
    pub inside : Text
    pub below : relative_to resolved root ≡ some inside

  require_inside-ok :
      (root path : Text) (tried : Try Text)
      → require_inside sys root path tried ≡ ok tt
      → (resolved : Text) × (tried ≡ returned resolved)
        × (inside : Text) × (relative_to resolved root ≡ some inside)
  unfolding require_inside attempt
  require_inside-ok root path (returned resolved) h =
      elim (Option-cases (relative_to resolved root)) [
        | inl e ↦ absurd (ground (arith, h, e))
        | inr (inside, e) ↦ (resolved, refl, inside, e)
      ]
  require_inside-ok root path (raised (file_not_found e)) h = absurd (ground (arith, h))
  require_inside-ok root path (raised (file_exists e)) h = absurd (ground (arith, h))
  require_inside-ok root path (raised (other_os_error e)) h = absurd (ground (arith, h))
  require_inside-ok root path (raised (value_error e)) h = absurd (ground (arith, h))
  require_inside-ok root path (raised (other_exception e)) h = absurd (ground (arith, h))

  ensure-IsSafeDirectory :
      (root path : Text) (w : World) {t : World}
      → ensure_safe_evidence_directory sys root path w ≡ (ok tt, t)
      → IsSafeDirectory root path
  unfolding ensure_safe_evidence_directory
  ensure-IsSafeDirectory root path w h =
      let (kind, w1, found, h1) = bind-eq-ok (directory_kind sys path) _ w h in
      let (u, plain, h2) = proceed-eq-ok (require_directory path kind) _ w1 h1 in
      let (tried, w2) = resolve path w1 in
      let (place, came, inside, below) =
        require_inside-ok root path tried
          (lift-eq-ok (require_inside sys root path tried) w2 h2).0 in
      record {
        kind_found = (w, w1, found ∙ ap (λ k. (ok k, w1)) (require_directory-ok path kind plain));
        resolved = place;
        resolved_to = (w1, w2, ap (λ x. (ok x, w2)) came);
        inside = inside;
        below = below;
      }

  -- There is no file, or a regular one.
  abbrev pub IsPlain : Try Kind → Type 0
  IsPlain status = (status ≡ returned regular) ⊎ ((e : Text) × (status ≡ raised (file_not_found e)))

  accept_path-ok :
      (path : Text) (status : Try Kind) {p : Text}
      → accept_path sys path status ≡ ok p
      → (p ≡ path) × IsPlain status
  unfolding accept_path attempt require_regular
  accept_path-ok path (returned regular) h = (sym (ok-injective _ _ h), inl refl)
  accept_path-ok path (returned directory) h = absurd (ground (arith, h))
  accept_path-ok path (returned symlink) h = absurd (ground (arith, h))
  accept_path-ok path (returned special) h = absurd (ground (arith, h))
  accept_path-ok path (raised (file_not_found e)) h = (sym (ok-injective _ _ h), inr (e, refl))
  accept_path-ok path (raised (file_exists e)) h = absurd (ground (arith, h))
  accept_path-ok path (raised (other_os_error e)) h = absurd (ground (arith, h))
  accept_path-ok path (raised (value_error e)) h = absurd (ground (arith, h))
  accept_path-ok path (raised (other_exception e)) h = absurd (ground (arith, h))

  pub record IsSafePath (root filename path : Text) : Type 0 where
    pub resolved_root : Text
    pub root_found : Returns (strict_repository_root sys root) resolved_root
    pub build : IsSafeDirectory resolved_root (join_path resolved_root (txt "build"))
    pub harness :
        IsSafeDirectory resolved_root
          (join_path (join_path resolved_root (txt "build")) (txt "harness"))
    pub place :
        path
        ≡ join_path (join_path (join_path resolved_root (txt "build")) (txt "harness")) filename
    pub status : Try Kind
    pub looked_up : Returns (act (lstat path)) status
    pub plain : IsPlain status

  pub safe_evidence_path-IsSafePath :
      (root filename : Text) (w : World) {path : Text} {t : World}
      → safe_evidence_path sys root filename w ≡ (ok path, t)
      → IsSafePath root filename path
  unfolding safe_evidence_path
  safe_evidence_path-IsSafePath root filename w {path} {t} h =
      let (at_root, w1, found, h1) = bind-eq-ok (strict_repository_root sys root) _ w h in
      let build = join_path at_root (txt "build") in
      let harness = join_path build (txt "harness") in
      let (u, w2, first, h2) =
        bind-eq-ok (ensure_safe_evidence_directory sys at_root build) _ w1 h1 in
      let (v, w3, second, h3) =
        bind-eq-ok (ensure_safe_evidence_directory sys at_root harness) _ w2 h2 in
      let (status, w4) = lstat (join_path harness filename) w3 in
      let (same, plain) =
        accept_path-ok (join_path harness filename) status
          (lift-eq-ok (accept_path sys (join_path harness filename) status) w4 h3).0 in
      record {
        resolved_root = at_root;
        root_found = (w, w1, found);
        build = ensure-IsSafeDirectory at_root build w1 first;
        harness = ensure-IsSafeDirectory at_root harness w2 second;
        place = same;
        status = status;
        looked_up = (w3, w4, ap (λ p. act (lstat p) w3) same);
        plain = plain;
      }
