-- ===== src/Prepare/Files.antt =====
-- scripts/agent-harness.py: what `prepare` does to files and reads, call by call: `_remove_stale_evidence`,
-- `write_json_atomic`, `validate_prepare_clean_state` and its two readings of the plan.
use coffee_order_system.Prelude.{
  ℕ, ◌≡◌, refl, ap, ◌∙◌, ◌⊎◌, inl, inr, subst, Bool, true, false, not, none, some, List, [], ◌∷◌,
  ◌++◌, ◌==◌, ==_iff, text_eq, texts_eq, Text, txt, All, keep, arith, Bool-cases, Option-cases,
}
use coffee_order_system.Outcome.{
  Result, ok, violation, exception, about, HarnessViolation, reject_if-eq-ok, reject_if,
  ok-injective,
}
use coffee_order_system.Model.{RiskPolicy, Plan, GitContext}
use coffee_order_system.Json.{Json}
use coffee_order_system.Gate.Contract.{nil-of_test}
use coffee_order_system.Effect.{
  Exec, ◌>>◌, finish, finally, repair, bind-eq-ok, lift-eq-ok, proceed-eq-ok,
}
use coffee_order_system.System.{
  System, Raised, Try, returned, raised, file_not_found, file_exists, value_error, other_os_error,
  other_exception, is_os_error, Call, attempt, guarded, Kind, directory, regular, symlink, special,
}
use coffee_order_system.Git.{resolve_local_git_context, collect_worktree_paths}
use coffee_order_system.Git.Listed.{Listed, collect_worktree_paths-Listed}
use coffee_order_system.Loading.{
  load_risk_policy, load_plan, policy_path, validate_prepare_clean_state,
}
use coffee_order_system.Evidence.{
  evidence_path_error, stale_error, remove_found, remove_stale_evidence, remove_stale_plan_lock,
  safe_evidence_lock_path, unguarded, encode_payload, parent_of, write_json_atomic,
}
use coffee_order_system.Prepare.{read_identity}

attempt-returned :
    {A : Type 0} (catches : Raised → Bool) (error : Text → HarnessViolation) (tried : Try A) {a : A}
    → attempt catches error tried ≡ ok a
    → tried ≡ returned a
unfolding attempt
attempt-returned catches error (returned a) h = ap returned (ok-injective _ _ h)
attempt-returned catches error (raised e) h = elim (Bool-cases (catches e)) [
  | inl caught ↦ absurd (ground (arith, h, caught))
  | inr missed ↦ absurd (ground (arith, h, missed))
]

no_return :
    {A : Type 0} (catches : Raised → Bool) (error : Text → HarnessViolation) (e : Raised) {a : A}
    → attempt catches error (raised e) ≡ ok a
    → ⊥
no_return catches error e h =
    let same = attempt-returned catches error (raised e) h in ground (arith, same)

guarded-returned :
    {W A : Type 0} (catches : Raised → Bool) (error : Text → HarnessViolation)
    (call : Call W (Try A)) (w : W) {a : A} {w' : W}
    → guarded catches error call w ≡ (ok a, w')
    → call w ≡ (returned a, w')
guarded-returned catches error call w {a} h =
    let (tried, w1) = call w in
    let (result, same) = lift-eq-ok (attempt catches error tried) w1 h in
    ap (λ t. (t, w1)) (attempt-returned catches error tried result) ∙ ap (λ u. (returned a, u)) same

finish-ok :
    {A : Type 0} (q : Result (Unit {0})) (r : Result A) {a : A}
    → finish q r ≡ ok a
    → (q ≡ ok tt) × (r ≡ ok a)
finish-ok (ok u) r h = (refl, h)
finish-ok (violation v) r h = absurd (ground (arith, h))
finish-ok (exception e) r h = absurd (ground (arith, h))

finish_not_ok :
    {A : Type 0} (q : Result (Unit {0})) (r : Result A) {a : A} → finish q r ≡ ok a → r ≡ ok a
finish_not_ok q r h = (finish-ok q r h).1

repair-ok :
    {S A : Type 0} (r : Result A) (last : Exec S (Unit {0})) (s : S) {a : A} {t : S}
    → repair r last s ≡ (ok a, t)
    → (r ≡ ok a) × (s ≡ t)
repair-ok (ok b) last s h = (ap (λ p. p.0) h, ap (λ p. p.1) h)
repair-ok (violation v) last s h =
    absurd (ground (arith, finish_not_ok (last s).0 (violation v) (ap (λ p. p.0) h)))
repair-ok (exception e) last s h =
    absurd (ground (arith, finish_not_ok (last s).0 (exception e) (ap (λ p. p.0) h)))

module _ (sys : System) where
  open sys use {
    machine, lstat, unlink, make_temporary, write, flush, fsync, close, replace, dumps, encode_utf8,
  }
  open machine use {World}

  -- The bytes are the UTF-8 of the payload with a newline; of the escaped payload, if it has none.
  abbrev pub AreBytes : Json → List ℕ → Type 0
  AreBytes payload encoded =
      (encode_utf8 (dumps false payload ++ (10 ∷ [])) ≡ some encoded)
      ⊎ ((encode_utf8 (dumps false payload ++ (10 ∷ [])) ≡ none)
          × (encode_utf8 (dumps true payload ++ (10 ∷ [])) ≡ some encoded))

  -- The payload was written to a temporary file, which was flushed, synced and closed, and then took the place of
  -- the path.
  pub record Written (path : Text) (payload : Json) (w w' : World) : Type 0 where
    pub encoded : List ℕ
    pub bytes : AreBytes payload encoded
    pub temporary : Text
    pub w1 : World
    pub made : make_temporary (parent_of sys path) w ≡ (returned temporary, w1)
    pub w2 : World
    pub was_written : write temporary encoded w1 ≡ (returned tt, w2)
    pub w3 : World
    pub flushed : flush temporary w2 ≡ (returned tt, w3)
    pub w4 : World
    pub synced : fsync temporary w3 ≡ (returned tt, w4)
    pub w5 : World
    pub closed : close temporary w4 ≡ (returned tt, w5)
    pub replaced : replace temporary path w5 ≡ (returned tt, w')

  encode_payload-AreBytes :
      (payload : Json) {encoded : List ℕ}
      → encode_payload sys payload ≡ ok encoded
      → AreBytes payload encoded
  unfolding encode_payload
  encode_payload-AreBytes payload h =
      elim (Option-cases (encode_utf8 (dumps false payload ++ (10 ∷ [])))) [
        | inr (plain, e) ↦ inl (e ∙ ap some (ok-injective _ _ (ground (arith, h, e))))
        | inl e ↦ elim (Option-cases (encode_utf8 (dumps true payload ++ (10 ∷ [])))) [
          | inr (escaped, f) ↦ inr (e, f ∙ ap some (ok-injective _ _ (ground (arith, h, e, f))))
          | inl f ↦ absurd (ground (arith, h, e, f))
        ]
      ]

  unguarded-returned :
      {A : Type 0} (call : Call World (Try A)) (w : World) {a : A} {w' : World}
      → unguarded sys call w ≡ (ok a, w')
      → call w ≡ (returned a, w')
  unguarded-returned call w h =
      guarded-returned (λ e. false) (λ e. evidence_path_error (about e)) call w h

  pub write_json_atomic-Written :
      (path : Text) (payload : Json) (w : World) {w' : World}
      → write_json_atomic sys path payload w ≡ (ok tt, w')
      → Written path payload w w'
  unfolding write_json_atomic
  write_json_atomic-Written path payload w {w'} h =
      let (encoded, e1, h1) = proceed-eq-ok (encode_payload sys payload) _ w h in
      let (temporary, w1, made, h2) =
        bind-eq-ok (unguarded sys (make_temporary (parent_of sys path))) _ w h1 in
      let block : Exec World Unit =
        unguarded sys (write temporary encoded)
        >> (unguarded sys (flush temporary) >> unguarded sys (fsync temporary)) in
      let last : Exec World Unit = unguarded sys (close temporary) in
      let body : Exec World Unit = finally block last >> unguarded sys (replace temporary path) in
      let (done, ended) = repair-ok (body w1).0 _ (body w1).1 h2 in
      let (u, w5, e4, h4) =
        bind-eq-ok (finally block last) (λ x. unguarded sys (replace temporary path)) w1
          (ap (λ q. (q, (body w1).1)) done ∙ ap (λ t. (ok tt, t)) ended) in
      let s1 = (block w1).1 in
      let (closed, blocked) = finish-ok (last s1).0 (block w1).0 (ap (λ r. r.0) e4) in
      let (v, w2, wrote, h5) =
        bind-eq-ok (unguarded sys (write temporary encoded)) _ w1 (ap (λ q. (q, s1)) blocked) in
      let (x, w3, flushed, h6) = bind-eq-ok (unguarded sys (flush temporary)) _ w2 h5 in
      record {
        encoded = encoded;
        bytes = encode_payload-AreBytes payload e1;
        temporary = temporary;
        w1 = w1;
        made = unguarded-returned (make_temporary (parent_of sys path)) w made;
        w2 = w2;
        was_written = unguarded-returned (write temporary encoded) w1 wrote;
        w3 = w3;
        flushed = unguarded-returned (flush temporary) w2 flushed;
        w4 = s1;
        synced = unguarded-returned (fsync temporary) w3 h6;
        w5 = w5;
        closed =
            unguarded-returned (close temporary) s1
              (ap (λ q. (q, (last s1).1)) closed ∙ ap (λ r. (ok tt, r.1)) e4);
        replaced = unguarded-returned (replace temporary path) w5 h4;
      }

  -- The path was a regular file that was removed, or there was nothing.
  abbrev pub Removed : Text → World → World → Type 0
  Removed path w w' =
      ((w1 : World) × (lstat path w ≡ (returned regular, w1))
        × (unlink path w1 ≡ (returned tt, w')))
      ⊎ ((e : Text) × (lstat path w ≡ (raised (file_not_found e), w')))

  unlink_go :
      (path label : Text) (tried : Try Kind) (w w1 : World) {found : Text} {w' : World}
      → lstat path w ≡ (tried, w1)
      → remove_found sys path label tried w1 ≡ (ok found, w')
      → (path ≡ found) × Removed path w w'
  unfolding remove_found attempt
  unlink_go path label (returned regular) w w1 e h =
      let (u, w2, gone, h1) =
        bind-eq-ok (guarded is_os_error (stale_error sys label) (unlink path)) _ w1 h in
      let (given, same) = lift-eq-ok (ok path) w2 h1 in
      (
        ok-injective _ _ given,
        inl (
          w1,
          e,
          guarded-returned is_os_error (stale_error sys label) (unlink path) w1 gone
              ∙ ap (λ t. (returned tt, t)) same,
        ),
      )
  unlink_go path label (raised (file_not_found x)) w w1 e h =
      let (given, same) = lift-eq-ok (ok path) w1 h in
      (ok-injective _ _ given, inr (x, e ∙ ap (λ t. (raised (file_not_found x), t)) same))
  unlink_go path label (returned directory) w w1 e h = absurd (ground (arith, ap (λ r. r.0) h))
  unlink_go path label (returned symlink) w w1 e h = absurd (ground (arith, ap (λ r. r.0) h))
  unlink_go path label (returned special) w w1 e h = absurd (ground (arith, ap (λ r. r.0) h))
  unlink_go path label (raised (file_exists x)) w w1 e h =
      absurd (no_return is_os_error (stale_error sys label) (file_exists x) (ap (λ r. r.0) h))
  unlink_go path label (raised (other_os_error x)) w w1 e h =
      absurd (no_return is_os_error (stale_error sys label) (other_os_error x) (ap (λ r. r.0) h))
  unlink_go path label (raised (value_error x)) w w1 e h =
      absurd (no_return is_os_error (stale_error sys label) (value_error x) (ap (λ r. r.0) h))
  unlink_go path label (raised (other_exception x)) w w1 e h =
      absurd (no_return is_os_error (stale_error sys label) (other_exception x) (ap (λ r. r.0) h))

  pub remove_stale_plan_lock-Removed :
      (root : Text) (w : World) {path : Text} {w' : World}
      → remove_stale_plan_lock sys root w ≡ (ok path, w')
      → (w1 : World) × (safe_evidence_lock_path sys root w ≡ (ok path, w1)) × Removed path w1 w'
  unfolding remove_stale_plan_lock remove_stale_evidence
  remove_stale_plan_lock-Removed root w {w' = w'} h =
      let (path, w1, found, h1) = bind-eq-ok (safe_evidence_lock_path sys root) _ w h in
      let (tried, w2) = lstat path w1 in
      let (same, removed) = unlink_go path (txt "plan lock") tried w1 w2 refl h1 in
      (w1, found ∙ ap (λ p. (ok p, w1)) same, subst (λ p. Removed p w1 w') same removed)

  -- Only the plan differs from HEAD or is untracked.
  abbrev pub IsCleanBut : Text → Plan → World → World → Type 0
  IsCleanBut root plan w w' =
      (dirty : List Text) × Listed sys root dirty w w'
      × All (λ path. path ≡ plan.relative_path) dirty

  none_else :
      (plan : Plan) (paths : List Text)
      → keep (λ path. not (path == plan.relative_path)) paths ≡ []
      → All (λ path. path ≡ plan.relative_path) paths
  unfolding keep
  none_else plan [] h = tt
  none_else plan (path ∷ paths) h = elim (Bool-cases (path == plan.relative_path)) [
    | inl same ↦
        ((==_iff path plan.relative_path).0 same, none_else plan paths (ground (arith, h, same)))
    | inr other ↦ absurd (ground (arith, h, other))
  ]

  pub validate_prepare_clean_state-IsCleanBut :
      (root : Text) (plan : Plan) (w : World) {w' : World}
      → validate_prepare_clean_state sys root plan w ≡ (ok tt, w')
      → IsCleanBut root plan w w'
  unfolding validate_prepare_clean_state
  validate_prepare_clean_state-IsCleanBut root plan w {w'} h =
      let (dirty, w1, e, h1) = bind-eq-ok (collect_worktree_paths sys root) _ w h in
      let others = keep (λ path. not (path == plan.relative_path)) dirty in
      let (test, same) = lift-eq-ok (reject_if (not (others == [])) _) w1 h1 in
      (
        dirty,
        subst (Listed sys root dirty w) same (collect_worktree_paths-Listed sys root w e),
        none_else plan dirty (nil-of_test others (reject_if-eq-ok _ _ test)),
      )

  -- The policy, the plan under it and the context of the plan, read one after the other.
  pub record Read (root plan_path : Text) (plan : Plan) (context : GitContext) (w w' : World)
      : Type 0 where
    pub policy : RiskPolicy
    pub w1 : World
    pub policy_read : load_risk_policy sys (policy_path sys root) w ≡ (ok policy, w1)
    pub w2 : World
    pub plan_read : load_plan sys root plan_path policy w1 ≡ (ok plan, w2)
    pub context_read : resolve_local_git_context sys root plan w2 ≡ (ok context, w')

  pub read_identity-Read :
      (root plan_path : Text) (w : World) {found : Plan × GitContext} {w' : World}
      → read_identity sys root plan_path w ≡ (ok found, w')
      → Read root plan_path found.0 found.1 w w'
  unfolding read_identity
  read_identity-Read root plan_path w {found} {w'} h =
      let (policy, w1, policy_read, h1) =
        bind-eq-ok (load_risk_policy sys (policy_path sys root)) _ w h in
      let (plan, w2, plan_read, h2) = bind-eq-ok (load_plan sys root plan_path policy) _ w1 h1 in
      let (context, w3, context_read, h3) =
        bind-eq-ok (resolve_local_git_context sys root plan) _ w2 h2 in
      let (given, same) = lift-eq-ok (ok _) w3 h3 in
      let read : Read root plan_path plan context w w3 = record {
        policy = policy;
        w1 = w1;
        policy_read = policy_read;
        w2 = w2;
        plan_read = plan_read;
        context_read = context_read;
      } in
      subst (λ (f : Plan × GitContext). Read root plan_path f.0 f.1 w w') (ok-injective _ _ given)
        (subst (Read root plan_path plan context w) same read)
