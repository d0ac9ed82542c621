-- ===== src/Outcome/Aggregate.antt =====
-- `aggregate_state` of scripts/agent-harness.py: the worst state of the checks.
use coffee_order_system.Prelude.{
  ◌≤◌, ◌≡◌, refl, ◌⊎◌, inl, inr, true, List, [], ◌∷◌, map, arith, ltb, if◌then◌else◌, Bool-cases,
  All, contains, ==_refl,
}
use coffee_order_system.Outcome.Base.{State, state_priority, state_eq, CheckResult}

-- `max` with a key keeps the first of the greatest.
unfoldable pub max_state : State → List State → State
max_state best [] = best
max_state best (s ∷ ss) =
    max_state (if ltb (state_priority best) (state_priority s) then s else best) ss

unfoldable pub aggregate_state : List CheckResult → State
unfolding max_state state_priority
aggregate_state [] = State.pass
aggregate_state (c ∷ cs) = max_state c.state (map (λ (d : CheckResult). d.state) cs)

-- The states of the checks, none of which is worse than `worst`.
abbrev pub AtMost : State → List CheckResult → Type 0
AtMost worst = All (λ (c : CheckResult). state_priority c.state ≤ state_priority worst)

max_state-AtMost :
    (best worst : State) (cs : List CheckResult)
    → max_state best (map (λ (d : CheckResult). d.state) cs) ≡ worst
    → (state_priority best ≤ state_priority worst) × AtMost worst cs
unfolding max_state
max_state-AtMost best worst [] e = (rw e (omega arith), tt)
max_state-AtMost best worst (c ∷ cs) e =
    elim (Bool-cases (ltb (state_priority best) (state_priority c.state))) [
      | inl worse ↦
          let ih = max_state-AtMost c.state worst cs (ground arith) in (ground (arith, ih.0), ih)
      | inr mild ↦
          let ih = max_state-AtMost best worst cs (ground arith) in
          (ih.0, (ground (arith, ih.0), ih.1))
    ]

max_state-contains :
    (best : State) (ss : List State) → contains (best ∷ ss) (max_state best ss) ≡ true
unfolding max_state contains
max_state-contains best [] = ground (arith, ==_refl best)
max_state-contains best (s ∷ ss) =
    ground (arith, max_state-contains s ss, max_state-contains best ss)

-- `aggregate_state` is the worst state among the checks by `STATE_PRIORITY`: no check has a worse
-- one, and it is the state of one of the checks, or PASS when there is none.
pub aggregate_state-worst :
    (checks : List CheckResult)
    → AtMost (aggregate_state checks) checks
      × ((checks ≡ []) × (aggregate_state checks ≡ State.pass)
          ⊎ (contains (map (λ (c : CheckResult). c.state) checks) (aggregate_state checks) ≡ true))
unfolding aggregate_state
aggregate_state-worst [] = (tt, inl (refl, refl))
aggregate_state-worst (c ∷ cs) = (
  (max_state-AtMost c.state _ cs refl),
  inr (max_state-contains c.state (map (λ (d : CheckResult). d.state) cs)),
)

priority_zero : (s : State) → state_priority s ≤ 0 → s ≡ State.pass
unfolding state_priority
priority_zero s h = ground arith

AtMost-pass : (cs : List CheckResult) → AtMost State.pass cs → All (λ c. c.state ≡ State.pass) cs
unfolding state_priority
AtMost-pass [] h = tt
AtMost-pass (c ∷ cs) h = (priority_zero c.state h.0, AtMost-pass cs h.1)

-- A PASS of `aggregate_state` means that every single check passed.
pub aggregate_state-pass :
    (checks : List CheckResult)
    → aggregate_state checks ≡ State.pass
    → All (λ c. c.state ≡ State.pass) checks
aggregate_state-pass checks h = AtMost-pass checks (rw h at (aggregate_state-worst checks).0)
