-- ===== src/Contracts/Api/Kept.antt =====
-- scripts/harness-oracles.py: what a reply of `validate_api_contract` says.
use coffee_order_system.Prelude.{
  ℕ, ℤ, ◌≡◌, sym, ap, ◌∙◌, refl, ◌⊎◌, keep, cond, subst, inl, inr, Bool, true, false, not, ◌||◌,
  Option, none, some, List, [], ◌∷◌, ◌++◌, ◌==◌, ==_iff, text_eq, int_eq, Text, txt, All, length,
  has_part, arith, Bool-cases, Option-cases,
}
use coffee_order_system.Outcome.{about}
use coffee_order_system.Json.{Json, null, bool, int, float, str, arr, obj, Items, Fields, end}
use coffee_order_system.Contracts.Values.{filled_items-arr, as_text-str}
use coffee_order_system.Publish.{get_or_null, lookup}
use coffee_order_system.Contracts.{
  replied, Host, fail_if, or_fail, is_one, filled_items, as_text, load_json, reply_injective,
  carry_on-eq-replied, bind-eq-replied, fail_if-eq-replied, or_fail-eq-replied,
}
use coffee_order_system.Contracts.Routes.{Route, group_one, read_endpoints, check_routes}
use coffee_order_system.Contracts.Routes.Same.{
  IsDistinct, IsDocumented, AreEndpoints, endpoints_lem, Same, check_routes-Same,
}
use coffee_order_system.Contracts.Api.{
  wrapper_pattern, dict_items, filled_dict, as_int, status_pattern, check_error, check_errors,
  java_path, read_required, check_sources, validate_api_contract,
}

some_injective : {A : Type 0} {a b : A} → some a ≡ some b → a ≡ b
some_injective h = cc

-- `isinstance(status, int)`, for which a Boolean is 0 or 1.
abbrev pub IsNumber : Json → ℕ → Type 0
IsNumber status n =
    (status ≡ int (ℤ.pos n)) ⊎ ((status ≡ bool true) × (n ≡ 1)) ⊎ ((status ≡ bool false) × (n ≡ 0))

as_int-IsNumber : (status : Json) {n : ℕ} → as_int status ≡ some (ℤ.pos n) → IsNumber status n
unfolding as_int
as_int-IsNumber (int i) h = inl (ap int (some_injective h))
as_int-IsNumber (bool true) h = inr (inl (refl, ground (arith, h)))
as_int-IsNumber (bool false) h = inr (inr (refl, ground (arith, h)))
as_int-IsNumber null h = absurd (ground (arith, h))
as_int-IsNumber (float x) h = absurd (ground (arith, h))
as_int-IsNumber (str s) h = absurd (ground (arith, h))
as_int-IsNumber (arr items) h = absurd (ground (arith, h))
as_int-IsNumber (obj fs) h = absurd (ground (arith, h))

group_one-eq-some :
    (groups : List (Option Text)) {name : Text}
    → group_one (some groups) ≡ some name
    → (others : List (Option Text)) × (groups ≡ some name ∷ others)
group_one-eq-some [] h = absurd (ground (arith, h))
group_one-eq-some (group ∷ others) h = (others, ap (λ g. g ∷ others) h)

kept_of :
    {A : Type 0} (P : A → Type 0) (q : A → Bool) (xs : List A)
    → All P (keep q xs)
    → All (λ x. q x ≡ true → P x) xs
unfolding keep
kept_of P q [] h = tt
kept_of P q (x ∷ xs) h = elim (Bool-cases (q x)) [
  | inl yes_kept ↦
      let both : P x × All P (keep q xs) =
        subst (λ b. All P (cond b (x ∷ keep q xs) (keep q xs))) yes_kept h in
      ((λ e. both.0), kept_of P q xs both.1)
  | inr dropped ↦ (
    (λ e. absurd (ground (arith, e, dropped))),
    kept_of P q xs (subst (λ b. All P (cond b (x ∷ keep q xs) (keep q xs))) dropped h),
  )
]

later_value :
    (k : Text) (j : Text) (x : Json) (fs : Fields) (v : Json)
    → (k == j) ≡ false
    → lookup k (Fields.field j x fs) ≡ some v
    → lookup k fs ≡ some v
unfolding lookup
later_value k j x fs v other e = elim (Option-cases (lookup k fs)) [
  | inr (later, f) ↦ f ∙ ground (arith, e, f)
  | inl f ↦ elim (Bool-cases (j == k)) [
    | inl t ↦
        let back = (==_iff k j).1 (sym ((==_iff j k).0 t)) in absurd (ground (arith, back, other))
    | inr n ↦ absurd (ground (arith, e, f, n))
  ]
]

own_value :
    (j : Text) (x : Json) (fs : Fields) (v : Json)
    → lookup j (Fields.field j x fs) ≡ some v
    → elim (lookup j fs) as (λ o. Json) [ none ↦ x | some later ↦ later ] ≡ v
unfolding lookup
own_value j x fs v e =
    let mine = (==_iff j j).1 refl in
    elim (Option-cases (lookup j fs)) [
      | inr (later, f) ↦ ground (arith, e, f)
      | inl f ↦ ground (arith, e, f, mine)
    ]

-- What holds of all items of a dict holds of each key with its value.
all_items :
    (P : Text → Json → Type 0) (fs : Fields)
    → All (λ item. P item.0 item.1) (dict_items fs)
    → (k : Text) (v : Json) → lookup k fs ≡ some v
    → P k v
unfolding dict_items lookup
all_items P end h k v e = absurd (ground (arith, e))
all_items P (Fields.field j x fs) h k v e = elim (Bool-cases (k == j)) [
  | inl same ↦
      let k_is_j = (==_iff k j).0 same in
      subst (λ t. P t v) (sym k_is_j)
        (subst (P j)
          (own_value j x fs v (ap (λ t. lookup t (Fields.field j x fs)) (sym k_is_j) ∙ e)) h.0)
  | inr other ↦
      all_items (λ k' v'. not (k' == j) ≡ true → P k' v') fs
        (kept_of (λ item. P item.0 item.1) (λ item. not (item.0 == j)) (dict_items fs) h.1) k v
        (later_value k j x fs v other e) (ap not other)
]

module _ (host : Host) where
  open host use {World, search, http_status}

  -- The code is in the source of the errors with the status of the contract, and documented.
  pub record IsKept (documentation error_text code : Text) (status : Json) : Type 0 where
    pub number : ℕ
    pub declared : IsNumber status number
    pub name : Text
    pub others : List (Option Text)
    pub found :
        search false (txt "\\b" ++ (host.escape code ++ txt "\\(HttpStatus\\.([A-Z_]+)")) error_text
        ≡ some (some name ∷ others)
    pub has_status : http_status name ≡ some number
    pub documented : has_part documentation (txt "`" ++ (code ++ txt "`")) ≡ true

  error_lem :
      (documentation error_text code : Text) (status : Json)
      → check_error host documentation error_text code status ≡ replied tt
      → IsKept documentation error_text code status
  unfolding check_error
  error_lem documentation error_text code status h = elim (Option-cases (as_int status)) [
    | inl e ↦ absurd (ground (arith, h, e))
    | inr (i, e) ↦ elim (Option-cases (search false (status_pattern host code) error_text)) [
      | inl f ↦ absurd (ground (arith, h, e, f))
      | inr (groups, f) ↦ elim (Option-cases (group_one (some groups))) [
        | inl k ↦ absurd (ground (arith, h, e, f, k))
        | inr (name, k) ↦ elim (Option-cases (http_status name)) [
          | inl m ↦ absurd (ground (arith, h, e, f, k, m))
          | inr (number, m) ↦ elim (Bool-cases (ℤ.pos number == i)) [
            | inl same ↦ record {
              number = number;
              declared =
                  as_int-IsNumber status (e ∙ ap some (sym ((==_iff (ℤ.pos number) i).0 same)));
              name = name;
              others = (group_one-eq-some groups k).0;
              found = f ∙ ap some (group_one-eq-some groups k).1;
              has_status = m;
              documented = ground (arith, h, e, f, k, m, same);
            }
            | inr other ↦ absurd (ground (arith, h, e, f, k, m, other))
          ]
        ]
      ]
    ]
  ]

  errors_lem :
      (documentation error_text : Text) (items : List (Text × Json)) (w : World) {w' : World}
      → check_errors host documentation error_text items w ≡ (replied tt, w')
      → All (λ item. IsKept documentation error_text item.0 item.1) items
  unfolding check_errors
  errors_lem documentation error_text [] w h = tt
  errors_lem documentation error_text (item ∷ items) w h =
      let (u, e, h1) =
        carry_on-eq-replied (check_error host documentation error_text item.0 item.1) _ w h in
      (
        error_lem documentation error_text item.0 item.1 e,
        errors_lem documentation error_text items w h1,
      )

  -- The sources of the response and of the errors.
  pub record Sources (documentation : Text) (raw_errors : Json) (root : Text) (n : ℕ) : Type 0 where
    pub w1 : World
    pub w2 : World
    pub w3 : World
    pub response : Text
    pub handler : Text
    pub error_text : Text
    pub response_read :
        (read_required host root (java_path host (txt "response/ApiResponse.java")) w1).0
        ≡ replied response
    pub groups : List (Option Text)
    pub wrapped : search false wrapper_pattern response ≡ some groups
    pub handler_read :
        (read_required host root (java_path host (txt "error/GlobalExceptionHandler.java")) w2).0
        ≡ replied handler
    pub advised : has_part handler (txt "@RestControllerAdvice") ≡ true
    pub fails : has_part handler (txt "ApiResponse.failure") ≡ true
    pub error_read :
        (read_required host root (java_path host (txt "error/ErrorCode.java")) w3).0
        ≡ replied error_text
    pub errors : Fields
    pub has_errors : raw_errors ≡ obj errors
    pub counted : length (dict_items errors) ≡ n
    pub kept :
        (code : Text) (status : Json)
        → lookup code errors ≡ some status
        → IsKept documentation error_text code status

  both_parts : (a b : Bool) → not a || not b ≡ false → (a ≡ true) × (b ≡ true)
  both_parts a b h = ground (arith, h)

  filled_dict-obj :
      (raw : Json) {items : List (Text × Json)}
      → filled_dict raw ≡ some items
      → (fs : Fields) × (raw ≡ obj fs) × (dict_items fs ≡ items)
  unfolding filled_dict
  filled_dict-obj (obj (Fields.field k v fs)) h = (Fields.field k v fs, refl, some_injective h)
  filled_dict-obj (obj end) h = absurd (ground (arith, h))
  filled_dict-obj null h = absurd (ground (arith, h))
  filled_dict-obj (bool b) h = absurd (ground (arith, h))
  filled_dict-obj (int i) h = absurd (ground (arith, h))
  filled_dict-obj (float x) h = absurd (ground (arith, h))
  filled_dict-obj (str s) h = absurd (ground (arith, h))
  filled_dict-obj (arr items) h = absurd (ground (arith, h))

  check_sources-Sources :
      (root documentation : Text) (raw_errors : Json) (w : World) {n : ℕ} {w' : World}
      → check_sources host root documentation raw_errors w ≡ (replied n, w')
      → Sources documentation raw_errors root n
  unfolding check_sources
  check_sources-Sources root documentation raw_errors w h =
      let (response, w1, e1, h1) =
        bind-eq-replied (read_required host root (java_path host (txt "response/ApiResponse.java")))
          _ w h in
      let (groups, e2, h2) =
        carry_on-eq-replied
          (or_fail (about (txt "ApiResponse")) (search false wrapper_pattern response)) _ w1 h1 in
      let (handler, w3, e3, h3) =
        bind-eq-replied
          (read_required host root (java_path host (txt "error/GlobalExceptionHandler.java"))) _ w1
          h2 in
      let (u, e4, h4) =
        carry_on-eq-replied
          (fail_if
            (not (has_part handler (txt "@RestControllerAdvice"))
              || not (has_part handler (txt "ApiResponse.failure")))
            (about (txt "GlobalExceptionHandler")))
          _ w3 h3 in
      let (error_text, w5, e5, h5) =
        bind-eq-replied (read_required host root (java_path host (txt "error/ErrorCode.java"))) _ w3
          h4 in
      let (errors, e6, h6) =
        carry_on-eq-replied (or_fail (about (txt "errorCodes")) (filled_dict raw_errors)) _ w5 h5 in
      let (v, w7, e7, h7) =
        bind-eq-replied (check_errors host documentation error_text errors) _ w5 h6 in
      let (fs, raw, items) =
        filled_dict-obj raw_errors (or_fail-eq-replied (about (txt "errorCodes")) _ e6) in
      record {
        w1 = w;
        w2 = w1;
        w3 = w3;
        response = response;
        handler = handler;
        error_text = error_text;
        response_read = ap (λ r. r.0) e1;
        groups = groups;
        wrapped = or_fail-eq-replied (about (txt "ApiResponse")) _ e2;
        handler_read = ap (λ r. r.0) e3;
        advised = (both_parts _ _ (fail_if-eq-replied _ _ e4)).0;
        fails = (both_parts _ _ (fail_if-eq-replied _ _ e4)).1;
        error_read = ap (λ r. r.0) e5;
        errors = fs;
        has_errors = raw;
        counted = ap length items ∙ reply_injective (ap (λ r. r.0) h7);
        kept = all_items (IsKept documentation error_text) fs (
            subst (All (λ item. IsKept documentation error_text item.0 item.1)) (sym items)
              (errors_lem documentation error_text errors w5 e7));
      }

  -- What the contract, the documentation and the sources agree on.
  pub record Agreed (root : Text) (endpoints codes : ℕ) : Type 0 where
    pub start : World
    pub read_at : World
    pub contract : Fields
    pub loaded :
        (load_json host root (txt "harness/contracts/api-contract.json") start).0 ≡ replied contract
    pub path : Text
    pub documentation : Text
    pub located : get_or_null (txt "documentation") contract ≡ str path
    pub documentation_read : (read_required host root path read_at).0 ≡ replied documentation
    pub raw : Items
    pub raw_endpoints : get_or_null (txt "endpoints") contract ≡ arr raw
    pub expected : List Route
    pub read : AreEndpoints host raw expected
    pub counted : length expected ≡ endpoints
    pub distinct : IsDistinct expected
    pub documented : All (IsDocumented host documentation) expected
    pub same : Same host root expected
    pub sources : Sources documentation (get_or_null (txt "errorCodes") contract) root codes

  pub validate_api_contract-Agreed :
      (root : Text) (w : World) {counts : ℕ × ℕ} {w' : World}
      → validate_api_contract host root w ≡ (replied counts, w')
      → Agreed root counts.0 counts.1
  unfolding validate_api_contract
  validate_api_contract-Agreed root w {counts} h =
      let (contract, w1, e1, h1) =
        bind-eq-replied (load_json host root (txt "harness/contracts/api-contract.json")) _ w h in
      let (u2, e2, h2) =
        carry_on-eq-replied
          (fail_if (not (is_one host.is_one_float (get_or_null (txt "schemaVersion") contract)))
            (about (txt "schemaVersion")))
          _ w1 h1 in
      let (path, e3, h3) =
        carry_on-eq-replied
          (or_fail (about (txt "documentation"))
            (as_text (get_or_null (txt "documentation") contract)))
          _ w1 h2 in
      let (documentation, w4, e4, h4) = bind-eq-replied (read_required host root path) _ w1 h3 in
      let (raw, e5, h5) =
        carry_on-eq-replied
          (or_fail (about (txt "endpoints"))
            (filled_items (get_or_null (txt "endpoints") contract)))
          _ w4 h4 in
      let (expected, w6, e6, h6) =
        bind-eq-replied (read_endpoints host documentation raw []) _ w4 h5 in
      let (u7, w7, e7, h7) = bind-eq-replied (check_routes host root expected) _ w6 h6 in
      let (codes, w8, e8, h8) =
        bind-eq-replied
          (check_sources host root documentation (get_or_null (txt "errorCodes") contract)) _ w7
          h7 in
      let (read, distinct, documented) = endpoints_lem host documentation raw w4 e6 in
      let said : (length expected, codes) ≡ counts = reply_injective (ap (λ r. r.0) h8) in
      record {
        start = w;
        read_at = w1;
        contract = contract;
        loaded = ap (λ r. r.0) e1;
        path = path;
        documentation = documentation;
        located =
            as_text-str (get_or_null (txt "documentation") contract)
              (or_fail-eq-replied (about (txt "documentation")) _ e3);
        documentation_read = ap (λ r. r.0) e4;
        raw = raw;
        raw_endpoints =
            filled_items-arr (get_or_null (txt "endpoints") contract)
              (or_fail-eq-replied (about (txt "endpoints")) _ e5);
        expected = expected;
        read = read;
        counted = ap (λ c. c.0) said;
        distinct = distinct;
        documented = documented;
        same = check_routes-Same host root expected w6 e7;
        sources =
            subst (Sources documentation (get_or_null (txt "errorCodes") contract) root)
              (ap (λ (c : ℕ × ℕ). c.1) said)
              (check_sources-Sources root documentation (get_or_null (txt "errorCodes") contract) w7
                e8);
      }
