-- ===== src/Contracts/Architecture/Names.antt =====
-- scripts/harness-oracles.py: what `_layer` and `_layer_matches` make of names, said of their segments.
use coffee_order_system.Prelude.{
  ℕ, ◌≡◌, ◌≢◌, refl, ap, sym, ◌∙◌, ◌⊎◌, inl, inr, subst, true, false, none, some, List, [], ◌∷◌,
  ◌++◌, ◌==◌, ==_iff, nat_eq, text_eq, Text, txt, All, contains, split, join, extend_head,
  join-split, split-ne-nil, starts_with, starts_with-append, arith, Bool-cases, Option-cases, Bool,
  if◌then◌else◌,
}
use coffee_order_system.Paths.{remove_prefix}
use coffee_order_system.Publish.Urls.{remove_prefix-append}
use coffee_order_system.Contracts.Architecture.{layer_of, layer, layer_matches}

-- The layer is the one that is declared, or one below it.
abbrev pub IsUnder : Text → Text → Type 0
IsUnder actual declared =
    (actual ≡ declared) ⊎ ((rest : Text) × (actual ≡ declared ++ txt "." ++ rest))

pub layer_matches-true :
    (actual declared : Text) → IsUnder actual declared → layer_matches actual declared ≡ true
unfolding layer_matches
layer_matches-true actual declared (inl e) =
    let same = (==_iff actual declared).1 e in ground (arith, same)
layer_matches-true actual declared (inr (rest, e)) =
    let below =
      ap (λ t. starts_with t (declared ++ txt ".")) e
      ∙ starts_with-append (declared ++ txt ".") rest in
    ground (arith, below)

-- The layer that the segments behind the prefix name: below domain and infra the first two of them.
abbrev pub IsNamed : List Text → Text → Type 0
IsNamed [] name = ⊥
IsNamed (head ∷ []) name = name ≡ head
IsNamed (head ∷ next ∷ more) name =
    (((head ≡ txt "domain") ⊎ (head ≡ txt "infra")) × (name ≡ head ++ txt "." ++ next))
    ⊎ ((head ≢ txt "domain") × (head ≢ txt "infra") × (name ≡ head))

-- The layer of a package or of a class: external outside the prefix, else named by the segments behind it.
abbrev pub IsLayer : Text → Text → Type 0
IsLayer package_name name =
    (((tail : Text) → package_name ≢ txt "com.example.coffee." ++ tail) × (name ≡ txt "external"))
    ⊎ ((segments : List Text) × (package_name ≡ txt "com.example.coffee." ++ join b'.' segments)
        × All (λ segment. contains segment b'.' ≡ false) segments
        × IsNamed segments name)

extend-segments :
    (c : ℕ) (xs : List Text)
    → (c == b'.') ≡ false
    → All (λ segment. contains segment b'.' ≡ false) xs
    → All (λ segment. contains segment b'.' ≡ false) (extend_head c xs)
unfolding extend_head contains
extend-segments c [] n h = (ground (arith, n), tt)
extend-segments c (x ∷ xs) n h = (ground (arith, n, h.0), h.1)

split-segments : (s : Text) → All (λ segment. contains segment b'.' ≡ false) (split b'.' s)
unfolding split contains
split-segments [] = (refl, tt)
split-segments (c ∷ s) = elim (Bool-cases (c == b'.')) [
  | inl e ↦
      subst
        (λ b.
          All (λ segment. contains segment b'.' ≡ false)
            (if b then ([] ∷ split b'.' s) else extend_head c (split b'.' s)))
        (sym e) (refl, split-segments s)
  | inr n ↦
      subst
        (λ b.
          All (λ segment. contains segment b'.' ≡ false)
            (if b then ([] ∷ split b'.' s) else extend_head c (split b'.' s)))
        (sym n) (extend-segments c (split b'.' s) n (split-segments s))
]

layer_of-IsNamed : (parts : List Text) → parts ≢ [] → IsNamed parts (layer_of parts)
unfolding layer_of txt
layer_of-IsNamed [] h = absurd (h refl)
layer_of-IsNamed (head ∷ []) h = refl
layer_of-IsNamed (head ∷ next ∷ more) h =
    let below = λ (b : Bool).
      if b
      then txt "domain." ++ next
      else (if head == txt "infra" then txt "infra." ++ next else head) in
    elim (Bool-cases (head == txt "domain")) [
      | inl e ↦
          let same = (==_iff head (txt "domain")).0 e in
          inl (inl same, ap below e ∙ ap (λ t. t ++ txt "." ++ next) (sym same))
      | inr n ↦
          let inside = λ (b : Bool). if b then txt "infra." ++ next else head in
          elim (Bool-cases (head == txt "infra")) [
            | inl e ↦
                let same = (==_iff head (txt "infra")).0 e in
                inl (inr same, ap below n ∙ ap inside e ∙ ap (λ t. t ++ txt "." ++ next) (sym same))
            | inr m ↦ inr (
              (λ e. let t = (==_iff head (txt "domain")).1 e in ground (arith, n, t)),
              (λ e. let t = (==_iff head (txt "infra")).1 e in ground (arith, m, t)),
              ap below n ∙ ap inside m,
            )
          ]
    ]

remove_prefix-eq-some : (s p t : Text) → remove_prefix s p ≡ some t → s ≡ p ++ t
unfolding remove_prefix
remove_prefix-eq-some s [] t h = cc
remove_prefix-eq-some [] (c ∷ p) t h = absurd (ground (arith, h))
remove_prefix-eq-some (d ∷ s) (c ∷ p) t h = ground (arith, h, remove_prefix-eq-some s p t)

pub layer-IsLayer : (package_name : Text) → IsLayer package_name (layer package_name)
unfolding layer
layer-IsLayer package_name =
    elim (Option-cases (remove_prefix package_name (txt "com.example.coffee."))) [
      | inl e ↦ inl (
        (λ tail same.
            let found =
              ap (λ s. remove_prefix s (txt "com.example.coffee.")) same
              ∙ remove_prefix-append (txt "com.example.coffee.") tail in
            ground (arith, sym e ∙ found)),
        ground (arith, e),
      )
      | inr (tail, e) ↦ inr (
        split b'.' tail,
        remove_prefix-eq-some package_name (txt "com.example.coffee.") tail e
            ∙ ap (λ t. txt "com.example.coffee." ++ t) (sym (join-split b'.' tail)),
        split-segments tail,
        subst (IsNamed (split b'.' tail))
            (ap (λ o. elim o [ none ↦ txt "external" | some t ↦ layer_of (split b'.' t) ]) (sym e))
            (layer_of-IsNamed (split b'.' tail) (split-ne-nil b'.' tail)),
      )
    ]
