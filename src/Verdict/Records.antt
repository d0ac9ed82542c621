-- ===== src/Verdict/Records.antt =====
-- scripts/agent-harness.py, `evaluate`: what the evaluation names of the local variables.
use coffee_order_system.Prelude.{◌≡◌, refl, ap, Option, none, some, List, [], Text}
use coffee_order_system.Outcome.{CheckResult}
use coffee_order_system.Model.{Plan, GitContext, RiskClassification}
use coffee_order_system.Evaluate.{
  Evaluation, Locals, add_check, add_error, from, either, Subject, evaluation_from_values,
}
use coffee_order_system.Conclude.{identity_of}

-- The evaluation names the plan, the commits, the paths, the digest and the risks.
pub record Records (s : Subject) (changed_paths : List Text) (diff_hash : Text)
    (c : RiskClassification) (e : Evaluation) : Type 0 where
  pub base_tip_sha : e.base_tip_sha ≡ some s.context.base_tip_sha
  pub merge_base_sha : e.merge_base_sha ≡ some s.context.merge_base_sha
  pub candidate_head_sha : e.candidate_head_sha ≡ some s.context.candidate_head_sha
  pub tested_revision_sha : e.tested_revision_sha ≡ some s.context.tested_revision_sha
  pub plan_path : e.plan_path ≡ s.plan.relative_path
  pub plan_hash : e.plan_hash ≡ some s.plan.plan_hash
  pub declared_risks : e.declared_risks ≡ s.plan.declared_risks
  pub detected_risks : e.detected_risks ≡ c.detected_risks
  pub changed : e.changed_paths ≡ changed_paths
  pub digest : e.diff_hash ≡ some diff_hash

-- What the evaluation takes from the local variables beside the checks.
abbrev pub facts :
    Locals → Option Plan × Option GitContext × Option RiskClassification × List Text × Option Text
facts l = (l.plan, l.context, l.classification, l.changed_paths, l.diff_hash)

pub facts-add_error :
    (error : Option CheckResult) (l : Locals) → facts (add_error error l) ≡ facts l
facts-add_error none l = refl
facts-add_error (some e) l = refl

pub known_identity :
    (l : Locals) {plan : Plan} {context : GitContext} {c : Option RiskClassification}
    {paths : List Text} {digest : Text}
    → facts l ≡ (some plan, some context, c, paths, some digest)
    → identity_of l
      ≡ some (record { plan = plan; context = context; changed_paths = paths; diff_hash = digest })
unfolding identity_of
known_identity l h =
    ap
      (λ f. identity_of (record {
        checks = [];
        lock = none;
        plan = f.0;
        context = f.1;
        classification = f.2;
        changed_paths = f.3;
        diff_hash = f.4;
      }))
      h

pub known-Records :
    (plan_path : Text) (check : CheckResult) (l : Locals) (s : Subject) (paths : List Text)
    (digest : Text) (c : RiskClassification)
    → facts l ≡ (some s.plan, some s.context, some c, paths, some digest)
    → Records s paths digest c (evaluation_from_values plan_path (add_check check l))
unfolding evaluation_from_values
known-Records plan_path check l s paths digest c h = record {
  base_tip_sha = ap (λ f. from f.1 (λ x. x.base_tip_sha)) h;
  merge_base_sha = ap (λ f. from f.1 (λ x. x.merge_base_sha)) h;
  candidate_head_sha = ap (λ f. from f.1 (λ x. x.candidate_head_sha)) h;
  tested_revision_sha = ap (λ f. from f.1 (λ x. x.tested_revision_sha)) h;
  plan_path = ap (λ f. either f.0 plan_path (λ x. x.relative_path)) h;
  plan_hash = ap (λ f. from f.0 (λ x. x.plan_hash)) h;
  declared_risks = ap (λ f. either f.0 [] (λ x. x.declared_risks)) h;
  detected_risks = ap (λ f. either f.2 [] (λ x. x.detected_risks)) h;
  changed = ap (λ f. f.3) h;
  digest = ap (λ f. f.4) h;
}
