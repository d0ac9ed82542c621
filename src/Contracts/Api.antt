-- ===== src/Contracts/Api.antt =====
-- scripts/harness-oracles.py: the errors of `validate_api_contract`, and the whole of it.
pub mod Kept
use coffee_order_system.Prelude.{
  ℕ, ℤ, Bool, true, false, not, ◌&&◌, ◌||◌, Option, none, some, List, [], ◌∷◌, ◌++◌, ◌==◌, text_eq,
  texts_eq, nat_eq, int_eq, if◌then◌else◌, Text, txt, rstrip, lstrip, length, keep, map, any, all,
  has_part,
}
use coffee_order_system.Outcome.{Reason, about, value, field}
use coffee_order_system.Json.{Json, bool, int, str, arr, obj, Items, nil, cons, Fields, end}
use coffee_order_system.Json
use coffee_order_system.System.{join_path}
use coffee_order_system.Publish.{get_or_null, lookup}
use coffee_order_system.Contracts.{
  Reply, replied, oracle_failure, os_error, escaped, Host, Task, ◌>>=◌, ◌>>◌, reply, fail_if,
  or_fail, call, or_raised, is_one, filled_items, as_text, require_file, load_json,
}
use coffee_order_system.Contracts.Routes.{group_one, read_endpoints, check_routes}

abbrev pub wrapper_pattern : Text
wrapper_pattern =
    txt
      "record\\s+ApiResponse<[^>]+>\\s*\\(\\s*boolean\\s+success\\s*,\\s*T\\s+data\\s*,\\s*ApiError\\s+error"

-- `raw_errors.items()`: each key once, with its last value.
unfoldable pub dict_items : Fields → List (Text × Json)
dict_items end = []
dict_items (Fields.field k v fs) =
    let rest = dict_items fs in
    let last : Json = elim (lookup k fs) [ none ↦ v | some later ↦ later ] in
    (k, last) ∷ keep (λ item. not (item.0 == k)) rest

unfoldable pub filled_dict : Json → Option (List (Text × Json))
unfolding dict_items
filled_dict (obj (Fields.field k v fs)) = some (dict_items (Fields.field k v fs))
filled_dict other = none

-- `isinstance(status, int)`, for which a Boolean is 0 or 1.
unfoldable pub as_int : Json → Option ℤ
as_int (int i) = some i
as_int (bool true) = some (ℤ.pos 1)
as_int (bool false) = some (ℤ.pos 0)
as_int other = none

module _ (host : Host) where
  open host use {World, read_text, is_one_float, search, escape, http_status}

  abbrev pub status_pattern : Text → Text
  status_pattern code = txt "\\b" ++ (escape code ++ txt "\\(HttpStatus\\.([A-Z_]+)")

  -- The tests on one code.
  unfoldable pub check_error : Text → Text → Text → Json → Reply (Unit {0})
  unfolding as_int
  check_error documentation error_text code status = elim (as_int status) [
    | none ↦ oracle_failure (about (txt "errorCodes"))
    | some expected ↦ elim (search false (status_pattern code) error_text) [
      | none ↦ oracle_failure (value (txt "no ErrorCode") code)
      | some groups ↦ elim (group_one (some groups)) [
        | none ↦ oracle_failure (value (txt "ErrorCode status") code)
        | some name ↦ elim (http_status name) [
          | none ↦ oracle_failure (value (txt "ErrorCode status") code)
          | some number ↦
              if not (ℤ.pos number == expected)
              then oracle_failure (value (txt "ErrorCode status") code)
              else fail_if (not (has_part documentation (txt "`" ++ (code ++ txt "`"))))
                  (value (txt "error code not documented") code)
        ]
      ]
    ]
  ]

  unfoldable pub check_errors : Text → Text → List (Text × Json) → Task World (Unit {0})
  unfolding check_error
  check_errors documentation error_text [] = reply (replied tt)
  check_errors documentation error_text (item ∷ items) = do
    reply (check_error documentation error_text item.0 item.1)
    check_errors documentation error_text items

  abbrev pub java_path : Text → Text
  java_path file = txt "src/main/java/com/example/coffee/global/" ++ file

  -- `_require_file(root, …).read_text(encoding="utf-8")`
  unfoldable pub read_required : Text → Text → Task World Text
  unfolding require_file
  read_required root relative_path = do
    path ← require_file host root relative_path
    read ← call (read_text path)
    reply (or_raised read)

  -- The tests on the sources of the response and of the errors.
  unfoldable pub check_sources : Text → Text → Json → Task World ℕ
  unfolding read_required check_errors filled_dict
  check_sources root documentation raw_errors = do
    response_text ← read_required root (java_path (txt "response/ApiResponse.java"))
    _ ← reply (or_fail (about (txt "ApiResponse")) (search false wrapper_pattern response_text))
    handler_text ← read_required root (java_path (txt "error/GlobalExceptionHandler.java"))
    reply (
        fail_if
          (not (has_part handler_text (txt "@RestControllerAdvice"))
            || not (has_part handler_text (txt "ApiResponse.failure")))
          (about (txt "GlobalExceptionHandler")))
    error_text ← read_required root (java_path (txt "error/ErrorCode.java"))
    errors ← reply (or_fail (about (txt "errorCodes")) (filled_dict raw_errors))
    check_errors documentation error_text errors
    reply (replied (length errors))

  -- The numbers of endpoints and of codes for the message.
  unfoldable pub validate_api_contract : Text → Task World (ℕ × ℕ)
  unfolding load_json is_one get_or_null as_text filled_items read_required read_endpoints
      check_routes check_sources
  validate_api_contract root = do
    contract ← load_json host root (txt "harness/contracts/api-contract.json")
    reply (
        fail_if (not (is_one is_one_float (get_or_null (txt "schemaVersion") contract)))
          (about (txt "schemaVersion")))
    documentation ← reply (
        or_fail (about (txt "documentation"))
          (as_text (get_or_null (txt "documentation") contract)))
    documentation_text ← read_required root documentation
    raw_endpoints ←
        reply (
          or_fail (about (txt "endpoints")) (filled_items (get_or_null (txt "endpoints") contract)))
    expected ← read_endpoints host documentation_text raw_endpoints []
    check_routes host root expected
    errors ← check_sources root documentation_text (get_or_null (txt "errorCodes") contract)
    reply (replied (length expected, errors))
