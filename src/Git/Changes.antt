-- ===== src/Git/Changes.antt =====
-- scripts/agent-harness.py, `collect_local_changed_paths`: which paths it reports.
use coffee_order_system.Prelude.{
  ◌≡◌, ap, sym, ◌∙◌, ◌||◌, List, [], ◌∷◌, ◌++◌, Text, txt, text_eq, contains, contains-sorted_set,
  contains-append, sorted_set, arith,
}
use coffee_order_system.Outcome.{ok, ok-injective}
use coffee_order_system.Effect.{Returns, bind-eq-ok, lift-eq-ok}
use coffee_order_system.System.{System}
use coffee_order_system.Git.{
  name_status, nul_paths, untracked_command, harder, collect_local_changed_paths,
}

four_lists :
    (ws xs ys zs : List Text) (a : Text)
    → contains (sorted_set (ws ++ xs ++ ys ++ zs)) a
      ≡ (contains ws a || contains xs a || contains ys a || contains zs a)
four_lists ws xs ys zs a = ground (
  arith,
  contains-sorted_set (ws ++ xs ++ ys ++ zs) a,
  contains-append (ws ++ xs ++ ys) zs a,
  contains-append (ws ++ xs) ys a,
  contains-append ws xs a,
)

module _ (sys : System) where
  open sys use {machine}
  open machine use {World}

  -- The four lists of git, and the paths that are in one of them.
  pub record IsCollected (root base : Text) (paths : List Text) : Type 0 where
    pub committed : List Text
    pub cached : List Text
    pub unstaged : List Text
    pub untracked : List Text
    pub committed_read :
        Returns
          (name_status sys root (txt "diff" ∷ harder sys (base ∷ txt "HEAD" ∷ txt "--" ∷ [])))
          committed
    pub cached_read :
        Returns
          (name_status sys root (txt "diff" ∷ txt "--cached" ∷ harder sys (txt "--" ∷ [])))
          cached
    pub unstaged_read :
        Returns (name_status sys root (txt "diff" ∷ harder sys (txt "--" ∷ []))) unstaged
    pub untracked_read : Returns (nul_paths sys root (untracked_command sys)) untracked
    pub members :
        (a : Text)
        → contains paths a ≡ (
            contains committed a
            || contains cached a
            || contains unstaged a
            || contains untracked a)

  pub collect_local_changed_paths-IsCollected :
      (root base : Text) (w : World) {paths : List Text} {t : World}
      → collect_local_changed_paths sys root base w ≡ (ok paths, t)
      → IsCollected root base paths
  unfolding collect_local_changed_paths
  collect_local_changed_paths-IsCollected root base w {paths} {t} h =
      let (committed, w1, e1, h1) =
        bind-eq-ok
          (name_status sys root (txt "diff" ∷ harder sys (base ∷ txt "HEAD" ∷ txt "--" ∷ []))) _ w
          h in
      let (cached, w2, e2, h2) =
        bind-eq-ok (name_status sys root (txt "diff" ∷ txt "--cached" ∷ harder sys (txt "--" ∷ [])))
          _ w1 h1 in
      let (unstaged, w3, e3, h3) =
        bind-eq-ok (name_status sys root (txt "diff" ∷ harder sys (txt "--" ∷ []))) _ w2 h2 in
      let (untracked, w4, e4, h4) =
        bind-eq-ok (nul_paths sys root (untracked_command sys)) _ w3 h3 in
      let found = ok-injective _ _ (lift-eq-ok (ok _) w4 h4).0 in
      record {
        committed = committed;
        cached = cached;
        unstaged = unstaged;
        untracked = untracked;
        committed_read = (w, w1, e1);
        cached_read = (w1, w2, e2);
        unstaged_read = (w2, w3, e3);
        untracked_read = (w3, w4, e4);
        members = λ a.
            ap (λ ps. contains ps a) (sym found) ∙ four_lists committed cached unstaged untracked a;
      }
