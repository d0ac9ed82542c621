-- ===== src/Witnesses/Contracts.antt =====
-- Runs of the oracles on a small repository.
use coffee_order_system.Prelude.{
  ℕ, ℤ, ◌≡◌, refl, ap, Bool, true, false, Option, some, List, [], ◌∷◌, ◌+◌, ◌==◌, text_eq, texts_eq,
  nat_eq, int_eq, if◌then◌else◌, Text, txt, any, all, contains, split, starts_with, has_part,
  lstrip, rstrip, keep, sorted_set,
}
use coffee_order_system.Json.{Json, int, str, arr, obj, nil, cons, Fields, field, end}
use coffee_order_system.System.{Try, returned}
use coffee_order_system.Contracts.{Host, Ended, ended, Reply, replied}
use coffee_order_system.Contracts.Architecture.{validate_architecture}
use coffee_order_system.Contracts.Architecture.Layered.{Layers, validate_architecture-IsLayered}
use coffee_order_system.Contracts.Routes.{class_pattern, base_mapping_pattern}
use coffee_order_system.Contracts.Api.{validate_api_contract}
use coffee_order_system.Contracts.Api.Kept.{Agreed, validate_api_contract-Agreed}
use coffee_order_system.Contracts.Entry.{run_main}
use coffee_order_system.Contracts.Entry.Stands.{Stands, run_main-Stands}
use coffee_order_system.Contracts.Instances.{run_multi_instance_oracle}
use coffee_order_system.Contracts.Instances.Cleanup.{Instances, run_multi_instance_oracle-Instances}

abbrev one_rule : Json
one_rule = obj (field (txt "from") (str (txt "infra")) (field (txt "to") (str (txt "domain")) end))

abbrev architecture : Fields
architecture = field (txt "schemaVersion") (int (ℤ.pos 1)) (
    field (txt "sourceRoot") (str (txt "src/main/java"))
      (field (txt "forbiddenImports") (arr (cons one_rule nil)) end))

abbrev one_endpoint : Json
one_endpoint = obj (
    field (txt "method") (str (txt "Get")) (
      field (txt "path") (str (txt "/api/menus"))
        (field (txt "controller") (str (txt "MenuController")) end)))

abbrev api_contract : Fields
api_contract = field (txt "schemaVersion") (int (ℤ.pos 1)) (
    field (txt "documentation") (str (txt "docs.md")) (
      field (txt "endpoints") (arr (cons one_endpoint nil))
        (field (txt "errorCodes") (obj (field (txt "NO_MENU") (int (ℤ.pos 404)) end)) end)))

abbrev parse : Text → Option Json
parse text =
    if text == txt "/r/harness/contracts/architecture.json"
    then some (obj architecture)
    else some (obj api_contract)

abbrev contents : Text → Text
contents path =
    if path == txt "/r/docs.md"
    then txt "Get /api/menus, `NO_MENU`"
    else if path
        == txt "/r/src/main/java/com/example/coffee/global/error/GlobalExceptionHandler.java"
    then txt "@RestControllerAdvice ApiResponse.failure"
    else path

abbrev find_first : Bool → Text → Text → Option (List (Option Text))
find_first true pattern text = some (some (txt "com.example.coffee.domain.menu") ∷ [])
find_first false pattern text =
    if pattern == class_pattern
    then some (some (txt "MenuController") ∷ [])
    else if pattern == base_mapping_pattern
    then some (some (txt "/api") ∷ [])
    else some (some (txt "NOT_FOUND") ∷ [])

abbrev find_all : Bool → Text → Text → List (List Text)
find_all true pattern text = (txt "com.example.coffee.infra.kafka.Producer" ∷ []) ∷ []
find_all false pattern text = (txt "Get" ∷ txt "/menus" ∷ []) ∷ []

abbrev a_host : Host
a_host = record {
  World = ℕ;
  resolve = λ path w. (returned path, w);
  is_file = λ path w. (true, w);
  is_executable = λ path w. (true, w);
  read_text = λ path w. (returned (contents path), w);
  sorted_glob = λ directory pattern w. (txt "/r/src/main/java/M.java" ∷ [], w);
  loads = parse;
  is_one_float = λ t. false;
  search = find_first;
  findall = find_all;
  escape = λ t. t;
  upper = λ t. t;
  http_status = λ name. some 404;
  process_id = λ w. (1, w);
  seconds = λ w. (2, w);
  free_port = λ w. (returned 8080, w);
  run = λ root command environment timeout w. (ended (ℤ.pos 0) [] [], w + 1);
  print = λ text w. (tt, w);
}

abbrev layered_run : Reply ℕ × ℕ
layered_run = validate_architecture a_host (txt "/r") 0

layered_reply : layered_run.0 ≡ replied 1
unfolding validate_architecture text_eq starts_with txt nat_eq coffee_order_system.System.join_path
    int_eq coffee_order_system.Contracts.as_text texts_eq coffee_order_system.Paths.remove_prefix
    split sorted_set contains keep
layered_reply = refl

validate_architecture-IsLayered_example : Layers a_host (txt "/r") 1
validate_architecture-IsLayered_example =
    validate_architecture-IsLayered a_host (txt "/r") 0 (ap (λ r. (r, layered_run.1)) layered_reply)

abbrev api_run : Reply (ℕ × ℕ) × ℕ
api_run = validate_api_contract a_host (txt "/r") 0

api_reply : api_run.0 ≡ replied (1, 1)
unfolding validate_api_contract text_eq starts_with txt nat_eq coffee_order_system.System.join_path
    int_eq any has_part all rstrip lstrip keep
api_reply = refl

validate_api_contract-Agreed_example : Agreed a_host (txt "/r") 1 1
validate_api_contract-Agreed_example =
    validate_api_contract-Agreed a_host (txt "/r") 0 (ap (λ r. (r, api_run.1)) api_reply)

abbrev instances_run : Reply ℤ × ℕ
instances_run = run_multi_instance_oracle a_host (txt "/r") 0

instances_reply : instances_run.0 ≡ replied (ℤ.pos 0)
unfolding run_multi_instance_oracle int_eq
instances_reply = refl

run_multi_instance_oracle-Instances_example : Instances a_host (txt "/r") (ℤ.pos 0) instances_run.1
run_multi_instance_oracle-Instances_example =
    run_multi_instance_oracle-Instances a_host (txt "/r") 0
      (ap (λ r. (r, instances_run.1)) instances_reply)

abbrev main_run : Reply ℤ × ℕ
main_run = run_main a_host (txt "/r") (txt "oracle.multi-instance") 0

main_reply : main_run.0 ≡ replied (ℤ.pos 0)
unfolding run_main run_multi_instance_oracle int_eq text_eq txt nat_eq
main_reply = refl

run_main-Stands_example :
    (resolved : Text) × (u : ℕ) × (a_host.resolve (txt "/r") 0 ≡ (returned resolved, u))
    × Stands a_host resolved (txt "oracle.multi-instance") main_run.1
run_main-Stands_example =
    run_main-Stands a_host (txt "/r") (txt "oracle.multi-instance") 0
      (ap (λ r. (r, main_run.1)) main_reply)
