-- ===== src/Contracts/Routes.antt =====
-- scripts/harness-oracles.py: `_join_paths`, `_controller_routes` and the loops of `validate_api_contract` over the routes.
pub mod Same
use coffee_order_system.Prelude.{
  ℕ, ℤ, Bool, true, false, not, ◌&&◌, ◌||◌, Option, none, some, List, [], ◌∷◌, ◌++◌, ◌==◌, text_eq,
  texts_eq, nat_eq, int_eq, if◌then◌else◌, Text, txt, rstrip, lstrip, length, keep, map, any, all,
  has_part,
}
use coffee_order_system.Outcome.{Reason, about, value, field}
use coffee_order_system.Json.{Json, bool, int, str, arr, obj, Items, nil, cons, Fields, end}
use coffee_order_system.Json
use coffee_order_system.System.{join_path}
use coffee_order_system.Publish.{get_or_null, lookup}
use coffee_order_system.Contracts.{
  Reply, replied, oracle_failure, os_error, escaped, Host, Task, ◌>>=◌, ◌>>◌, reply, fail_if,
  or_fail, call, or_raised, is_one, filled_items, as_text, require_file, load_json,
}

abbrev is_slash : ℕ → Bool
is_slash c = c == b'/'

-- `_join_paths`; `None` and the empty text are both false.
unfoldable pub join_paths : Option Text → Text → Text
join_paths none [] = txt "/"
join_paths (some []) [] = txt "/"
join_paths (some base) [] = base
join_paths none suffix = txt "/" ++ lstrip is_slash suffix
join_paths (some []) suffix = txt "/" ++ lstrip is_slash suffix
join_paths (some base) suffix = rstrip is_slash base ++ (txt "/" ++ lstrip is_slash suffix)

pub record Route : Type 0 where
  pub method : Text
  pub path : Text
  pub controller : Text

abbrev pub is_same_route : Route → Route → Bool
is_same_route r s = r.method == s.method && r.path == s.path

-- `(method, path) in …`
unfoldable pub has_route : List Route → Route → Bool
has_route routes route = any (is_same_route route) routes

abbrev pub class_pattern : Text
class_pattern = txt "\\bclass\\s+(\\w+)"

abbrev pub base_mapping_pattern : Text
base_mapping_pattern = txt "@RequestMapping(?:\\(\\s*(?:path\\s*=\\s*)?[\"']([^\"']*)[\"']\\s*\\))?"

abbrev http_mapping_pattern : Text
http_mapping_pattern =
    txt
      "@(Get|Post|Put|Delete|Patch)Mapping(?:\\(\\s*(?:path\\s*=\\s*)?[\"']([^\"']*)[\"']\\s*\\))?"

abbrev pub group_one : Option (List (Option Text)) → Option Text
group_one (some (group ∷ more)) = group
group_one other = none

-- `base_match.group(1) if base_match is not None else ""`
unfoldable pub base_of_match : Option (List (Option Text)) → Option Text
base_of_match none = some []
base_of_match (some []) = none
base_of_match (some (group ∷ more)) = group

abbrev pub filled_value : Json → Option Text
filled_value (str []) = none
filled_value (str (c ∷ s)) = some (c ∷ s)
filled_value other = none

module _ (host : Host) where
  open host use {
    World, read_text, sorted_glob, is_one_float, search, findall, escape, upper, http_status,
  }

  unfoldable pub route_of : Option Text → Text → List Text → Route
  unfolding join_paths
  route_of base controller [] = record {
    method = [];
    path = join_paths base [];
    controller = controller;
  }
  route_of base controller (method ∷ []) = record {
    method = upper method;
    path = join_paths base [];
    controller = controller;
  }
  route_of base controller (method ∷ suffix ∷ more) = record {
    method = upper method;
    path = join_paths base suffix;
    controller = controller;
  }

  -- The routes of one controller.
  unfoldable pub routes_of : Text → Text → Reply (List Route)
  unfolding route_of base_of_match
  routes_of file text = elim (search false class_pattern text) [
    | none ↦ oracle_failure (value (txt "controller class") file)
    | some groups ↦ elim (group_one (some groups)) [
      | none ↦ escaped (txt "AttributeError")
      | some controller ↦ replied (
          map (route_of (base_of_match (search false base_mapping_pattern text)) controller)
            (findall false http_mapping_pattern text))
    ]
  ]

  unfoldable pub read_controllers : List Text → List Route → Task World (List Route)
  unfolding routes_of
  read_controllers [] routes = reply (replied routes)
  read_controllers (file ∷ files) routes = do
    read ← call (read_text file)
    text ← reply (or_raised read)
    more ← reply (routes_of file text)
    read_controllers files (routes ++ more)

  -- `_controller_routes`
  unfoldable pub controller_routes : Text → Task World (List Route)
  unfolding read_controllers
  controller_routes root = do
    files ←
        call (
          sorted_glob (join_path root (txt "src/main/java")) (txt "**/controller/*Controller.java"))
    read_controllers files []

  unfoldable pub endpoint_of : Json → Reply Route
  unfolding get_or_null
  endpoint_of (obj fs) = elim (filled_value (get_or_null (txt "method") fs)) [
    | none ↦ oracle_failure (about (txt "endpoint fields"))
    | some method ↦ elim (filled_value (get_or_null (txt "path") fs)) [
      | none ↦ oracle_failure (about (txt "endpoint fields"))
      | some path ↦ elim (filled_value (get_or_null (txt "controller") fs)) [
        | none ↦ oracle_failure (about (txt "endpoint fields"))
        | some controller ↦
            replied (record { method = upper method; path = path; controller = controller })
      ]
    ]
  ]
  endpoint_of other = oracle_failure (about (txt "endpoint"))

  abbrev pub shown_route : Route → Text
  shown_route route = route.method ++ (txt " " ++ route.path)

  abbrev pub add_endpoint : Text → List Route → Route → Reply (List Route)
  add_endpoint documentation expected route =
      if has_route expected route
      then oracle_failure (value (txt "endpoint twice") (shown_route route))
      else if has_part documentation (shown_route route)
      then replied (expected ++ (route ∷ []))
      else oracle_failure (value (txt "endpoint not documented") (shown_route route))

  -- The loop over the endpoints of the contract.
  unfoldable pub read_endpoints : Text → Items → List Route → Task World (List Route)
  unfolding endpoint_of has_route
  read_endpoints documentation nil expected = reply (replied expected)
  read_endpoints documentation (cons raw more) expected = do
    route ← reply (endpoint_of raw)
    grown ← reply (add_endpoint documentation expected route)
    read_endpoints documentation more grown

  -- `expected_controllers[(method, path)]`
  unfoldable pub controller_for : List Route → Route → Option Text
  controller_for [] route = none
  controller_for (e ∷ expected) route = elim (controller_for expected route) [
    | some later ↦ some later
    | none ↦ if is_same_route route e then some e.controller else none
  ]

  -- The loop over the routes, after the comparison of the two sets.
  unfoldable pub check_controllers : List Route → List Route → Reply (Unit {0})
  unfolding controller_for
  check_controllers expected [] = replied tt
  check_controllers expected (route ∷ routes) = elim (controller_for expected route) [
    | none ↦ escaped (txt "KeyError")
    | some controller ↦ elim (controller == route.controller) [
      | true ↦ check_controllers expected routes
      | false ↦ oracle_failure (value (txt "endpoint controller") (shown_route route))
    ]
  ]

  unfoldable pub same_routes : List Route → List Route → Bool
  unfolding has_route
  same_routes actual expected = all (has_route expected) actual && all (has_route actual) expected

  -- The comparison of the controllers with the endpoints.
  unfoldable pub check_routes : Text → List Route → Task World (Unit {0})
  unfolding controller_routes same_routes check_controllers
  check_routes root expected = do
    actual ← controller_routes root
    reply (fail_if (not (same_routes actual expected)) (about (txt "endpoints differ")))
    reply (check_controllers expected actual)
