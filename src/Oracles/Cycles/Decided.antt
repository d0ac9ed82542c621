-- ===== src/Oracles/Cycles/Decided.antt =====
-- scripts/harness-oracles.py: how a visit of `_find_cycle` ends.
use coffee_order_system.Prelude.{
  ℕ, zero, suc, ◌<◌, ◌≡◌, refl, sym, ap, ◌∙◌, subst, inl, inr, true, false, not, List, [], ◌∷◌,
  ◌++◌, ◌==◌, text_eq, contains, keep, Bool-cases, Text, length, arith, sorted_set,
  contains-sorted_set,
}
use coffee_order_system.Oracles.Cycles.{
  Graph, Search, Visit, found, done, exhausted, enter, leave, then_visit, visit_each, visit,
  from_first, pop, no_search,
}
use coffee_order_system.Oracles.Cycles.Walks.{
  Follows, IsChain, IsChain-append, IsCycle, from_first-IsCycle, IsOrdered, pop-append, keep-fresh,
}
use coffee_order_system.Oracles.Cycles.Members.{
  contains-cons, nowhere, in_one, unequal, at_end, still_apart, apart_rest, in_cons,
}
use coffee_order_system.Oracles.Cycles.Bounded.{others, length-others, length-keep}

twice_lem :
    (g : Graph) (fuel : ℕ) (n : Text) (s : Search)
    → contains s.visiting n ≡ true
    → visit g (suc fuel) n s ≡ found (from_first n s.path ++ (n ∷ []))
unfolding visit
twice_lem g fuel n s h = ground (arith, h)

visited_lem :
    (g : Graph) (fuel : ℕ) (n : Text) (s : Search)
    → contains s.visiting n ≡ false
    → contains s.visited n ≡ true
    → visit g (suc fuel) n s ≡ done s
unfolding visit
visited_lem g fuel n s h k = ground (arith, h, k)

fresh_lem :
    (g : Graph) (fuel : ℕ) (n : Text) (s : Search)
    → contains s.visiting n ≡ false
    → contains s.visited n ≡ false
    → visit g (suc fuel) n s
      ≡ then_visit
          (visit_each (visit g fuel) (sorted_set (g.targets n)) (enter n s))
          (λ s'. done (leave n s'))
unfolding visit
fresh_lem g fuel n s h k = ground (arith, h, k)

module _ (g : Graph) where
  pub record Good (s : Search) : Type 0 where
    pub ordered : IsOrdered g s.visited
    pub apart : (n : Text) → contains s.visited n ≡ true → contains s.visiting n ≡ false
    pub on_path : (n : Text) → contains s.visiting n ≡ true → contains s.path n ≡ true

  -- From `s` to `s'`, these were visited, and nothing is being visited that was not before.
  pub record Visited (s : Search) (ns : List Text) (s' : Search) : Type 0 where
    pub good : Good s'
    pub same_visiting : s'.visiting ≡ s.visiting
    pub same_path : s'.path ≡ s.path
    pub kept : (n : Text) → contains s.visited n ≡ true → contains s'.visited n ≡ true
    pub new : (n : Text) → contains ns n ≡ true → contains s'.visited n ≡ true

  abbrev pub Ends : Search → List Text → Visit → Type 0
  Ends s ns (found cycle) = IsCycle g cycle
  Ends s ns (done s') = Visited s ns s'
  Ends s ns exhausted = ⊥

  Ends-trans :
      (s : Search) (n : Text) (ns : List Text) (s' : Search) (v : Visit)
      → Visited s (n ∷ []) s'
      → Ends s' ns v
      → Ends s (n ∷ ns) v
  Ends-trans s n ns s' (found cycle) first rest = rest
  Ends-trans s n ns s' exhausted first rest = rest
  Ends-trans s n ns s' (done s'') first rest = record {
    good = rest.good;
    same_visiting = rest.same_visiting ∙ first.same_visiting;
    same_path = rest.same_path ∙ first.same_path;
    kept = λ k m. rest.kept k (first.kept k m);
    new = λ k m. elim (contains-cons n ns k m) [
      | inl here ↦
          rest.kept k (first.new k (subst (λ x. contains (n ∷ []) x ≡ true) (sym here) (in_one n)))
      | inr there ↦ rest.new k there
    ];
  }

  visit_next :
      (s : Search) (n : Text) (ns : List Text) (v : Visit) (next : Search → Visit)
      → Ends s (n ∷ []) v
      → ((s' : Search) → Visited s (n ∷ []) s' → Ends s' ns (next s'))
      → Ends s (n ∷ ns) (then_visit v next)
  visit_next s n ns (found cycle) next h k = h
  visit_next s n ns exhausted next h k = h
  visit_next s n ns (done s') next h k = Ends-trans s n ns s' (next s') h (k s' h)

  visit_each-Ends :
      (f : Text → Search → Visit) (ns : List Text) (s : Search)
      → ((n : Text)
          → contains ns n ≡ true
          → (s' : Search) → Good s'
          → s'.visiting ≡ s.visiting
          → s'.path ≡ s.path
          → Ends s' (n ∷ []) (f n s'))
      → Good s
      → Ends s ns (visit_each f ns s)
  unfolding visit_each contains
  visit_each-Ends f [] s h good = record {
    good = good;
    same_visiting = refl;
    same_path = refl;
    kept = λ n m. m;
    new = λ n m. absurd (ground (arith, m));
  }
  visit_each-Ends f (n ∷ ns) s h good =
      visit_next s n ns (f n s) (visit_each f ns) (h n (ground arith) s good refl refl) (λ s' v.
        visit_each-Ends f ns s'
          (λ k m s'' better e p.
            h k (ground (arith, m)) s'' better (e ∙ v.same_visiting) (p ∙ v.same_path))
          v.good)

  entered :
      (n : Text) (s : Search)
      → contains s.visiting n ≡ false
      → contains s.visited n ≡ false
      → Good s
      → Good (enter n s)
  entered n s fresh unvisited good = record {
    ordered = good.ordered;
    apart = λ k m. still_apart s.visiting s.visited n k m unvisited (good.apart k m);
    on_path = λ k m. elim (contains-cons n s.visiting k m) [
      | inl here ↦ at_end s.path n k (inl here)
      | inr there ↦ at_end s.path n k (inr (good.on_path k there))
    ];
  }

  left :
      (n : Text) (s s' : Search)
      → contains s.visiting n ≡ false
      → Good s
      → Visited (enter n s) (sorted_set (g.targets n)) s'
      → Visited s (n ∷ []) (leave n s')
  unfolding leave
  left n s s' fresh good v =
      let visiting : keep (λ k. not (k == n)) s'.visiting ≡ s.visiting =
        ap (keep (λ k. not (k == n))) v.same_visiting ∙ keep-fresh s.visiting n fresh in
      let path : pop s'.path ≡ s.path = ap pop v.same_path ∙ pop-append s.path n in
      let unvisited : contains s'.visited n ≡ false = elim (Bool-cases (contains s'.visited n)) [
        | inl m ↦ absurd (
            unequal _ _
              (ap (λ vs. contains vs n) v.same_visiting ∙ in_cons s.visiting n n (inl refl))
              (v.good.apart n m) refl)
        | inr h ↦ h
      ] in
      record {
        good = record {
          ordered =
              (λ t f. v.new t (contains-sorted_set (g.targets n) t ∙ f), unvisited, v.good.ordered);
          apart = λ k m. ap (λ vs. contains vs k) visiting ∙ elim (contains-cons n s'.visited k m) [
            | inl here ↦ ap (contains s.visiting) here ∙ fresh
            | inr there ↦
                apart_rest s.visiting n k
                  (sym (ap (λ vs. contains vs k) v.same_visiting) ∙ v.good.apart k there)
          ];
          on_path = λ k m.
              ap (λ vs. contains vs k) path
              ∙ good.on_path k (sym (ap (λ vs. contains vs k) visiting) ∙ m);
        };
        same_visiting = visiting;
        same_path = path;
        kept = λ k m. in_cons s'.visited n k (inr (v.kept k m));
        new = λ k m. elim (contains-cons n [] k m) [
          | inl here ↦ in_cons s'.visited n k (inl here)
          | inr there ↦ absurd (nowhere k there)
        ];
      }

  leave-Ends :
      (n : Text) (s : Search) (v : Visit)
      → contains s.visiting n ≡ false
      → Good s
      → Ends (enter n s) (sorted_set (g.targets n)) v
      → Ends s (n ∷ []) (then_visit v (λ s'. done (leave n s')))
  leave-Ends n s (found cycle) fresh good h = h
  leave-Ends n s exhausted fresh good h = h
  leave-Ends n s (done s') fresh good h = left n s s' fresh good h

  visit-Ends :
      ((a b : Text) → Follows g a b → contains g.nodes b ≡ true)
      → (fuel : ℕ) (n : Text) (s : Search) → contains g.nodes n ≡ true
      → length (others g.nodes s.visiting) < fuel
      → Good s
      → IsChain g (s.path ++ (n ∷ []))
      → Ends s (n ∷ []) (visit g fuel n s)
  visit-Ends known zero n s m h good chain = absurd (omega (arith, h))
  visit-Ends known (suc fuel) n s m h good chain = elim (Bool-cases (contains s.visiting n)) [
    | inl twice ↦
        subst (Ends s (n ∷ [])) (sym (twice_lem g fuel n s twice))
          (from_first-IsCycle g n s.path (good.on_path n twice) chain)
    | inr fresh ↦ elim (Bool-cases (contains s.visited n)) [
      | inl before ↦ subst (Ends s (n ∷ [])) (sym (visited_lem g fuel n s fresh before)) (record {
        good = good;
        same_visiting = refl;
        same_path = refl;
        kept = λ k m. m;
        new = λ k m. elim (contains-cons n [] k m) [
          | inl here ↦ ap (contains s.visited) here ∙ before
          | inr there ↦ absurd (nowhere k there)
        ];
      })
      | inr unvisited ↦ subst (Ends s (n ∷ [])) (sym (fresh_lem g fuel n s fresh unvisited)) (
          leave-Ends n s _ fresh good (
            visit_each-Ends (visit g fuel) (sorted_set (g.targets n)) (enter n s)
              (λ t m' s' better visiting path.
                let follows = sym (contains-sorted_set (g.targets n) t) ∙ m' in
                visit-Ends known fuel t s' (known n t follows)
                  (subst (λ vs. length (others g.nodes vs) < fuel) (sym visiting)
                    (omega (arith, length-others g.nodes s.visiting n m fresh, h)))
                  better
                  (subst (λ p. IsChain g (p ++ (t ∷ []))) (sym path)
                    (IsChain-append g s.path n t chain follows)))
              (entered n s fresh unvisited good)))
    ]
  ]

  -- The search over all the nodes.
  pub nodes-Ends :
      ((a b : Text) → Follows g a b → contains g.nodes b ≡ true)
      → Ends no_search
          (sorted_set g.nodes)
          (visit_each (visit g (suc (length g.nodes))) (sorted_set g.nodes) no_search)
  nodes-Ends known =
      visit_each-Ends (visit g (suc (length g.nodes))) (sorted_set g.nodes) no_search
        (λ n m s better visiting path.
          visit-Ends known (suc (length g.nodes)) n s (sym (contains-sorted_set g.nodes n) ∙ m)
            (omega (arith, length-keep (λ k. not (contains s.visiting k)) g.nodes)) better
            (subst (λ p. IsChain g (p ++ (n ∷ []))) (sym path) tt))
        (record {
          ordered = tt;
          apart = λ n m. absurd (nowhere n m);
          on_path = λ n m. absurd (nowhere n m);
        })
