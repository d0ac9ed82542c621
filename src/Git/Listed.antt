-- ===== src/Git/Listed.antt =====
-- scripts/agent-harness.py: `collect_worktree_paths` and the test of a clean worktree.
use coffee_order_system.Prelude.{
  ◌≡◌, ap, sym, ◌∙◌, subst, ◌||◌, not, List, [], ◌∷◌, ◌++◌, ◌==◌, texts_eq, Text, txt, text_eq,
  contains, contains-sorted_set, contains-append, sorted_set, arith,
}
use coffee_order_system.Outcome.{ok, ok-injective, reject_if-eq-ok, reject_if}
use coffee_order_system.Effect.{bind-eq-ok, lift-eq-ok}
use coffee_order_system.Gate.Contract.{nil-of_test}
use coffee_order_system.System.{System}
use coffee_order_system.Git.{name_status, nul_paths, untracked_command, collect_worktree_paths}
use coffee_order_system.Loading.{validate_evaluate_clean_state}

three_lists :
    (xs ys zs : List Text) (a : Text)
    → contains (sorted_set (xs ++ ys ++ zs)) a ≡ (contains xs a || contains ys a || contains zs a)
three_lists xs ys zs a = ground (
  arith,
  contains-sorted_set (xs ++ ys ++ zs) a,
  contains-append (xs ++ ys) zs a,
  contains-append xs ys a,
)

module _ (sys : System) (root : Text) where
  open sys use {machine}
  open machine use {World}

  -- The three commands of git that tell from `w` to `w'` which paths of the worktree and of the index differ from HEAD
  -- or are untracked, and these paths.
  pub record Listed (paths : List Text) (w w' : World) : Type 0 where
    pub cached : List Text
    pub unstaged : List Text
    pub untracked : List Text
    pub w1 : World
    pub w2 : World
    pub cached_read :
        name_status sys root
          (txt "diff" ∷ txt "--cached" ∷ txt "--name-status" ∷ txt "-z" ∷ txt "--find-renames" ∷ [])
          w
        ≡ (ok cached, w1)
    pub unstaged_read :
        name_status sys root
          (txt "diff" ∷ txt "--name-status" ∷ txt "-z" ∷ txt "--find-renames" ∷ [])
          w1
        ≡ (ok unstaged, w2)
    pub untracked_read :
        nul_paths sys root
          (txt "ls-files" ∷ txt "--others" ∷ txt "--exclude-standard" ∷ txt "-z" ∷ [])
          w2
        ≡ (ok untracked, w')
    pub members :
        (a : Text)
        → contains paths a ≡ (contains cached a || contains unstaged a || contains untracked a)

  pub collect_worktree_paths-Listed :
      (w : World) {paths : List Text} {t : World}
      → collect_worktree_paths sys root w ≡ (ok paths, t)
      → Listed paths w t
  unfolding collect_worktree_paths
  collect_worktree_paths-Listed w h =
      let (cached, w1, e1, h1) = bind-eq-ok (name_status sys root _) _ w h in
      let (unstaged, w2, e2, h2) = bind-eq-ok (name_status sys root _) _ w1 h1 in
      let (untracked, w3, e3, h3) =
        bind-eq-ok (nul_paths sys root (untracked_command sys)) _ w2 h2 in
      let (given, same) = lift-eq-ok (ok _) w3 h3 in
      record {
        cached = cached;
        unstaged = unstaged;
        untracked = untracked;
        w1 = w1;
        w2 = w2;
        cached_read = e1;
        unstaged_read = e2;
        untracked_read = e3 ∙ ap (λ t. (ok untracked, t)) same;
        members = λ a.
            ap (λ ps. contains ps a) (sym (ok-injective _ _ given))
            ∙ three_lists cached unstaged untracked a;
      }

  pub validate_evaluate_clean_state-Listed :
      (phase : Text) (w : World) {t : World}
      → validate_evaluate_clean_state sys root phase w ≡ (ok tt, t)
      → Listed [] w t
  unfolding validate_evaluate_clean_state
  validate_evaluate_clean_state-Listed phase w {t} h =
      let (dirty, w1, e, h1) = bind-eq-ok (collect_worktree_paths sys root) _ w h in
      let (test, same) = lift-eq-ok (reject_if (not (dirty == [])) _) w1 h1 in
      let clean = nil-of_test dirty (reject_if-eq-ok _ _ test) in
      subst (Listed [] w) same
        (subst (λ ps. Listed ps w w1) clean (collect_worktree_paths-Listed w e))
