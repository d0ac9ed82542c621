-- ===== src/Publish/Links.antt =====
-- scripts/agent-publish.py: the bodies that link a request to its issue.
use coffee_order_system.Prelude.{
  ℕ, ℤ, ◌≡◌, refl, sym, ap, ◌∙◌, true, [], ◌∷◌, ◌++◌, Text, txt, has_part, starts_with-append, join,
  arith,
}
use mathlib.Core.List.{append_assoc}
use coffee_order_system.Json.{Json, str}
use coffee_order_system.Publish.{answer, Publisher, Progress}
use coffee_order_system.Publish.Readings.{Manifest}
use coffee_order_system.Publish.Requests.{
  closes, linked_body, pr_body, body_has, link_unless, link_issue,
}

has_part-append : (p t : Text) → has_part (p ++ t) p ≡ true
unfolding has_part
has_part-append [] [] = refl
has_part-append [] (c ∷ t) = refl
has_part-append (c ∷ p) t = let first = starts_with-append (c ∷ p) t in ground (arith, first)

has_part-behind : (xs s p : Text) → has_part s p ≡ true → has_part (xs ++ s) p ≡ true
unfolding has_part
has_part-behind [] s p h = h
has_part-behind (x ∷ xs) s p h = let rest = has_part-behind xs s p h in ground (arith, rest)

names_issue :
    (xs ys : Text) (issue : ℕ) → body_has (str (xs ++ (closes issue ++ ys))) (closes issue) ≡ true
unfolding body_has
names_issue xs ys issue =
    has_part-behind xs (closes issue ++ ys) (closes issue) (has_part-append (closes issue) ys)

linked_body_lem :
    (kept : Text) (issue : ℕ) → body_has (str (linked_body kept issue)) (closes issue) ≡ true
linked_body_lem kept issue =
    ap (λ s. body_has (str s) (closes issue))
      (sym (append_assoc kept (10 ∷ 10 ∷ []) (closes issue ++ 10 ∷ [])))
    ∙ names_issue (kept ++ (10 ∷ 10 ∷ [])) (10 ∷ []) issue

has_part-line :
    (xs ys label line : Text) → has_part (xs ++ 10 ∷ (10 ∷ ((label ++ line) ++ ys))) line ≡ true
has_part-line xs ys label line =
    let labelled = has_part-behind label (line ++ ys) line (has_part-append line ys) in
    let whole = ap (λ s. has_part s line) (append_assoc label line ys) ∙ labelled in
    has_part-behind xs (10 ∷ (10 ∷ ((label ++ line) ++ ys))) line
      (has_part-behind (10 ∷ 10 ∷ []) ((label ++ line) ++ ys) line whole)

pr_body_lem : (m : Manifest) (head : Text) → body_has (str (pr_body m head)) (closes m.issue) ≡ true
unfolding pr_body body_has join
pr_body_lem m head = has_part-line (txt "## 변경 목적") _ (txt "- 연결 이슈: ") (closes m.issue)

module _ (sys : Publisher) (root : Text) where
  open sys use {World}

  left_alone :
      (issue : ℕ) (number : ℤ) (body : Json) (p : Progress World)
      → body_has body (closes issue) ≡ true
      → link_issue sys root issue number body p ≡ (answer tt, p)
  unfolding link_issue link_unless
  left_alone issue number body p h = ap (λ b. link_unless sys b root issue number body p) h

  -- A body that a run gave to a request, whether it created the request or edited its body, is left alone by a later
  -- run: no command is issued for it.
  pub link_issue_lem :
      (m : Manifest) (number : ℤ) (head kept : Text) (p : Progress World)
      → (link_issue sys root m.issue number (str (pr_body m head)) p ≡ (answer tt, p))
        × (link_issue sys root m.issue number (str (linked_body kept m.issue)) p ≡ (answer tt, p))
  link_issue_lem m number head kept p = (
    left_alone m.issue number _ p (pr_body_lem m head),
    left_alone m.issue number _ p (linked_body_lem kept m.issue),
  )
