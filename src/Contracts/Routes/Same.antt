-- ===== src/Contracts/Routes/Same.antt =====
-- scripts/harness-oracles.py: the routes that `validate_api_contract` accepts.
use coffee_order_system.Prelude.{
  ◌≡◌, refl, sym, ap, ◌∙◌, subst, ◌≢◌, ◌↔◌, ◌⊎◌, inl, inr, Bool, true, false, not, ◌||◌, some, List,
  [], ◌∷◌, ◌++◌, ◌==◌, ==_iff, text_eq, Text, txt, any, all, All, All-append, has_part, arith,
  Bool-cases, Option-cases,
}
use mathlib.Core.List.{append-nil, append_assoc}
use coffee_order_system.Outcome.{about}
use coffee_order_system.Json.{Json, null, bool, int, float, str, arr, obj, Items, nil, cons, Fields}
use coffee_order_system.Publish.{get_or_null}
use coffee_order_system.Contracts.Values.{filled_value-str}
use coffee_order_system.Contracts.{
  replied, Host, fail_if, reply_injective, carry_on-eq-replied, bind-eq-replied, fail_if-eq-replied,
}
use coffee_order_system.Contracts.Routes.{
  filled_value, Route, is_same_route, has_route, endpoint_of, shown_route, add_endpoint,
  read_endpoints, controller_for, check_controllers, same_routes, controller_routes, check_routes,
}

-- The same method at the same path.
abbrev pub AreSame : Route → Route → Type 0
AreSame r s = (r.method ≡ s.method) × (r.path ≡ s.path)

abbrev pub HasRoute : List Route → Route → Type 0
HasRoute [] route = ⊥
HasRoute (r ∷ routes) route = AreSame route r ⊎ HasRoute routes route

-- Among the endpoints is the route, with this controller.
abbrev pub HasEndpoint : List Route → Route → Text → Type 0
HasEndpoint [] route controller = ⊥
HasEndpoint (e ∷ expected) route controller =
    (AreSame route e × (e.controller ≡ controller)) ⊎ HasEndpoint expected route controller

-- No endpoint stands twice.
abbrev pub IsDistinct : List Route → Type 0
IsDistinct [] = Unit
IsDistinct (route ∷ routes) = (HasRoute routes route → ⊥) × IsDistinct routes

-- No endpoint is found twice.
abbrev NoneTwice : List Route → Type 0
NoneTwice [] = Unit
NoneTwice (route ∷ routes) = (has_route routes route ≡ false) × NoneTwice routes

is_same_route-AreSame : (r s : Route) → (is_same_route r s ≡ true) ↔ AreSame r s
is_same_route-AreSame r s = (
  λ h. (
    (==_iff r.method s.method).0 (ground (arith, h)),
    (==_iff r.path s.path).0 (ground (arith, h)),
  ),
  λ h.
      let method = (==_iff r.method s.method).1 h.0 in
      let path = (==_iff r.path s.path).1 h.1 in ground (arith, method, path),
)

has_route-HasRoute :
    (routes : List Route) (route : Route) → has_route routes route ≡ true → HasRoute routes route
unfolding has_route any
has_route-HasRoute [] route h = absurd (ground (arith, h))
has_route-HasRoute (r ∷ routes) route h = elim (Bool-cases (is_same_route route r)) [
  | inl same ↦ inl ((is_same_route-AreSame route r).0 same)
  | inr other ↦ inr (has_route-HasRoute routes route (ground (arith, h, other)))
]

HasRoute-has_route :
    (routes : List Route) (route : Route) → HasRoute routes route → has_route routes route ≡ true
unfolding has_route any
HasRoute-has_route [] route there = absurd there
HasRoute-has_route (r ∷ routes) route (inl same) =
    let found = (is_same_route-AreSame route r).1 same in ground (arith, found)
HasRoute-has_route (r ∷ routes) route (inr there) =
    let found = HasRoute-has_route routes route there in ground (arith, found)

NoneTwice-IsDistinct : (routes : List Route) → NoneTwice routes → IsDistinct routes
NoneTwice-IsDistinct [] h = tt
NoneTwice-IsDistinct (route ∷ routes) h = (
  (λ there.
      let found = HasRoute-has_route routes route there in
      let twice = h.0 in absurd (ground (arith, found, twice))),
  NoneTwice-IsDistinct routes h.1,
)

all-All : {A : Type 0} (p : A → Bool) (xs : List A) → all p xs ≡ true → All (λ x. p x ≡ true) xs
unfolding all
all-All p [] h = tt
all-All p (x ∷ xs) h = (ground (arith, h), all-All p xs (ground (arith, h)))

has_route-append :
    (routes : List Route) (added route : Route)
    → has_route (routes ++ (added ∷ [])) route
      ≡ (has_route routes route || is_same_route route added)
unfolding has_route any
has_route-append [] added route = ground arith
has_route-append (r ∷ routes) added route =
    let rest = has_route-append routes added route in ground (arith, rest)

same_route_comm : (r s : Route) → is_same_route r s ≡ false → is_same_route s r ≡ false
same_route_comm r s h = ground (arith, h)

not_first :
    (r : Route) (routes : List Route) (route : Route)
    → has_route (r ∷ routes) route ≡ false
    → (is_same_route route r ≡ false) × (has_route routes route ≡ false)
unfolding has_route any
not_first r routes route h = ground (arith, h)

NoneTwice-append :
    (routes : List Route) (route : Route)
    → NoneTwice routes
    → has_route routes route ≡ false
    → NoneTwice (routes ++ (route ∷ []))
unfolding has_route any
NoneTwice-append [] route d h = (refl, tt)
NoneTwice-append (r ∷ routes) route d h =
    let (other, later) = not_first r routes route h in
    let new = same_route_comm route r other in
    let split = has_route-append routes route r in
    let old = d.0 in (ground (arith, split, new, old), NoneTwice-append routes route d.1 later)

module _ (host : Host) where
  open host use {World}

  abbrev pub IsDocumented : Text → Route → Type 0
  IsDocumented documentation route =
      has_part documentation (route.method ++ (txt " " ++ route.path)) ≡ true

  -- The raw endpoint names the method, the path and the controller, none of them empty.
  abbrev pub IsEndpoint : Json → Route → Type 0
  IsEndpoint raw route =
      (fs : Fields) × (method : Text) × (raw ≡ obj fs)
      × ((get_or_null (txt "method") fs ≡ str method) × (method ≢ []))
      × (route.method ≡ host.upper method)
      × ((get_or_null (txt "path") fs ≡ str route.path) × (route.path ≢ []))
      × ((get_or_null (txt "controller") fs ≡ str route.controller) × (route.controller ≢ []))

  -- One endpoint for each raw one, in their order.
  abbrev pub AreEndpoints : Items → List Route → Type 0
  AreEndpoints nil [] = Unit
  AreEndpoints nil (route ∷ routes) = ⊥
  AreEndpoints (cons raw more) [] = ⊥
  AreEndpoints (cons raw more) (route ∷ routes) = IsEndpoint raw route × AreEndpoints more routes

  endpoint_of-IsEndpoint :
      (raw : Json) {route : Route} → endpoint_of host raw ≡ replied route → IsEndpoint raw route
  unfolding endpoint_of
  endpoint_of-IsEndpoint (obj fs) {route} h =
      elim (Option-cases (filled_value (get_or_null (txt "method") fs))) [
        | inl e ↦ absurd (ground (arith, h, e))
        | inr (method, e) ↦ elim (Option-cases (filled_value (get_or_null (txt "path") fs))) [
          | inl f ↦ absurd (ground (arith, h, e, f))
          | inr (path, f) ↦ elim (Option-cases (filled_value (get_or_null (txt "controller") fs))) [
            | inl g ↦ absurd (ground (arith, h, e, f, g))
            | inr (controller, g) ↦
                subst (IsEndpoint (obj fs))
                  (reply_injective
                    {a = record {
                      method = host.upper method;
                      path = path;
                      controller = controller;
                    }}
                    (ground (arith, h, e, f, g)))
                  (
                    fs,
                    method,
                    refl,
                    filled_value-str (get_or_null (txt "method") fs) e,
                    refl,
                    filled_value-str (get_or_null (txt "path") fs) f,
                    filled_value-str (get_or_null (txt "controller") fs) g,
                  )
          ]
        ]
      ]
  endpoint_of-IsEndpoint null h = absurd (ground (arith, h))
  endpoint_of-IsEndpoint (bool b) h = absurd (ground (arith, h))
  endpoint_of-IsEndpoint (int i) h = absurd (ground (arith, h))
  endpoint_of-IsEndpoint (float x) h = absurd (ground (arith, h))
  endpoint_of-IsEndpoint (str s) h = absurd (ground (arith, h))
  endpoint_of-IsEndpoint (arr items) h = absurd (ground (arith, h))

  added :
      (documentation : Text) (expected : List Route) (route : Route) {grown : List Route}
      → add_endpoint host documentation expected route ≡ replied grown
      → (has_route expected route ≡ false)
        × (has_part documentation (shown_route host route) ≡ true)
        × (grown ≡ expected ++ (route ∷ []))
  added documentation expected route h = elim (Bool-cases (has_route expected route)) [
    | inl twice ↦ absurd (ground (arith, h, twice))
    | inr once ↦ elim (Bool-cases (has_part documentation (shown_route host route))) [
      | inl documented ↦
          let appended : add_endpoint host documentation expected route
              ≡ replied (expected ++ (route ∷ [])) =
            ground (arith, once, documented) in
          (once, documented, reply_injective (sym h ∙ appended))
      | inr missing ↦ absurd (ground (arith, h, once, missing))
    ]
  ]

  once_lem :
      (documentation : Text) (raw : Items) (expected : List Route) (w : World) {final : List Route}
      {w' : World}
      → read_endpoints host documentation raw expected w ≡ (replied final, w')
      → NoneTwice expected
      → All (IsDocumented documentation) expected
      → NoneTwice final × All (IsDocumented documentation) final
  unfolding read_endpoints
  once_lem documentation nil expected w h d documented =
      let same = reply_injective (ap (λ r. r.0) h) in
      (subst NoneTwice same d, subst (All (IsDocumented documentation)) same documented)
  once_lem documentation (cons raw more) expected w h d documented =
      let (route, e, h1) = carry_on-eq-replied (endpoint_of host raw) _ w h in
      let (grown, f, h2) =
        carry_on-eq-replied (add_endpoint host documentation expected route) _ w h1 in
      let (once, shown, appended) = added documentation expected route f in
      once_lem documentation more grown w h2
        (subst NoneTwice (sym appended) (NoneTwice-append expected route d once))
        (subst (All (IsDocumented documentation)) (sym appended)
          (All-append (IsDocumented documentation) expected (route ∷ []) documented (shown, tt)))

  grown_lem :
      (documentation : Text) (raw : Items) (expected : List Route) (w : World) {final : List Route}
      {w' : World}
      → read_endpoints host documentation raw expected w ≡ (replied final, w')
      → (new : List Route) × (final ≡ expected ++ new) × AreEndpoints raw new
  unfolding read_endpoints
  grown_lem documentation nil expected w h =
      ([], sym (reply_injective (ap (λ r. r.0) h)) ∙ sym (append-nil expected), tt)
  grown_lem documentation (cons raw more) expected w h =
      let (route, e, h1) = carry_on-eq-replied (endpoint_of host raw) _ w h in
      let (grown, f, h2) =
        carry_on-eq-replied (add_endpoint host documentation expected route) _ w h1 in
      let (once, shown, appended) = added documentation expected route f in
      let (new, same, found) = grown_lem documentation more grown w h2 in
      (
        route ∷ new,
        same ∙ ap (λ rs. rs ++ new) appended ∙ append_assoc expected (route ∷ []) new,
        (endpoint_of-IsEndpoint raw e, found),
      )

  pub endpoints_lem :
      (documentation : Text) (raw : Items) (w : World) {final : List Route} {w' : World}
      → read_endpoints host documentation raw [] w ≡ (replied final, w')
      → AreEndpoints raw final × IsDistinct final × All (IsDocumented documentation) final
  endpoints_lem documentation raw w {final} h =
      let (new, same, found) = grown_lem documentation raw [] w h in
      let (once, documented) = once_lem documentation raw [] w h tt tt in
      (subst (AreEndpoints raw) (sym same) found, NoneTwice-IsDistinct final once, documented)

  -- The endpoint that is found for the route names the same controller.
  abbrev IsExpected : List Route → Route → Type 0
  IsExpected expected route = controller_for host expected route ≡ some route.controller

  controller_for-HasEndpoint :
      (expected : List Route) (route : Route) (controller : Text)
      → controller_for host expected route ≡ some controller
      → HasEndpoint expected route controller
  unfolding controller_for
  controller_for-HasEndpoint [] route controller h = absurd (ground (arith, h))
  controller_for-HasEndpoint (e ∷ expected) route controller h =
      elim (Option-cases (controller_for host expected route)) [
        | inr (later, f) ↦
            inr (controller_for-HasEndpoint expected route controller (f ∙ ground (arith, h, f)))
        | inl f ↦ elim (Bool-cases (is_same_route route e)) [
          | inl same ↦ inl ((is_same_route-AreSame route e).0 same, ground (arith, h, f, same))
          | inr other ↦ absurd (ground (arith, h, f, other))
        ]
      ]

  expected-HasEndpoint :
      (expected routes : List Route)
      → All (IsExpected expected) routes
      → All (λ route. HasEndpoint expected route route.controller) routes
  expected-HasEndpoint expected [] h = tt
  expected-HasEndpoint expected (route ∷ routes) h = (
    controller_for-HasEndpoint expected route route.controller h.0,
    expected-HasEndpoint expected routes h.1,
  )

  found-HasRoute :
      (actual routes : List Route)
      → All (λ endpoint. has_route actual endpoint ≡ true) routes
      → All (HasRoute actual) routes
  found-HasRoute actual [] h = tt
  found-HasRoute actual (route ∷ routes) h =
      (has_route-HasRoute actual route h.0, found-HasRoute actual routes h.1)

  one_controller :
      (expected routes : List Route) (route : Route)
      → check_controllers host expected (route ∷ routes) ≡ replied tt
      → IsExpected expected route × (check_controllers host expected routes ≡ replied tt)
  unfolding check_controllers
  one_controller expected routes route h =
      elim (Option-cases (controller_for host expected route)) [
        | inl e ↦ absurd (ground (arith, h, e))
        | inr (c, e) ↦ elim (Bool-cases (c == route.controller)) [
          | inl same ↦
              (e ∙ ap some ((==_iff c route.controller).0 same), ground (arith, h, e, same))
          | inr other ↦ absurd (ground (arith, h, e, other))
        ]
      ]

  controllers_lem :
      (expected routes : List Route)
      → check_controllers host expected routes ≡ replied tt
      → All (IsExpected expected) routes
  controllers_lem expected [] h = tt
  controllers_lem expected (route ∷ routes) h =
      let (first, rest) = one_controller expected routes route h in
      (first, controllers_lem expected routes rest)

  -- Each endpoint is a route of a controller, and each route of a controller is an endpoint with this controller.
  pub record Same (root : Text) (expected : List Route) : Type 0 where
    pub w : World
    pub actual : List Route
    pub found_routes : (controller_routes host root w).0 ≡ replied actual
    pub implemented : All (HasRoute actual) expected
    pub controlled : All (λ route. HasEndpoint expected route route.controller) actual

  both_ways :
      (actual expected : List Route)
      → not (same_routes host actual expected) ≡ false
      → all (has_route actual) expected ≡ true
  unfolding same_routes
  both_ways actual expected h = ground (arith, h)

  pub check_routes-Same :
      (root : Text) (expected : List Route) (w : World) {w' : World}
      → check_routes host root expected w ≡ (replied tt, w')
      → Same root expected
  unfolding check_routes
  check_routes-Same root expected w h =
      let (actual, w1, e, h1) = bind-eq-replied (controller_routes host root) _ w h in
      let (u, same, h2) =
        carry_on-eq-replied
          (fail_if (not (same_routes host actual expected)) (about (txt "endpoints differ"))) _ w1
          h1 in
      record {
        w = w;
        actual = actual;
        found_routes = ap (λ r. r.0) e;
        implemented = found-HasRoute actual expected (
            all-All (has_route actual) expected
              (both_ways actual expected (fail_if-eq-replied _ _ same)));
        controlled =
            expected-HasEndpoint expected actual
              (controllers_lem expected actual (ap (λ r. r.0) h2));
      }
