-- ===== src/Publish/Ended.antt =====
-- scripts/agent-publish.py: `finalize` with `merge`, that answered.
use coffee_order_system.Prelude.{◌≡◌, ap, sym, subst, true, Option, some, Text, txt, ℤ}
use coffee_order_system.Publish.{answer, Publisher, Progress, bind-eq-answer}
use coffee_order_system.Publish.Requests.{create_or_prepare_pr}
use coffee_order_system.Publish.Merging.{merge_and_verify}
use coffee_order_system.Publish.Finalize.{
  Candidate, FinalizationResult, verify_candidate, finish, publish, finalize,
}
use coffee_order_system.Publish.Stages.{answer-injective}
use coffee_order_system.Publish.Verified.{Verified, verify_candidate-Verified}
use coffee_order_system.Publish.Requested.{Requested, create_or_prepare_pr-IsRequested}
use coffee_order_system.Publish.Completion.{Merged, Closed, merge_and_verify-Merged}

module _ (sys : Publisher) (root plan_path : Text) where
  open sys use {World}

  -- What `finalize` answers when the request was merged.
  abbrev pub completed : Candidate → ℤ × Text → FinalizationResult
  completed c pr = record {
    state = txt "COMPLETED";
    issue = c.manifest.issue;
    branch = c.branch;
    pr_number = pr.0;
    pr_url = pr.1;
    merged = true;
    issue_closed = some true;
  }

  -- The way from `p` to `q`, on which a candidate was verified, its request published and merged, and its issue closed.
  pub record Finalized (title : Option Text) (p : Progress World) (r : FinalizationResult)
      (q : Progress World) : Type 0 where
    pub candidate : Candidate
    pub pr : ℤ × Text
    pub p1 : Progress World
    pub verified : Verified sys root plan_path p candidate p1
    pub p2 : Progress World
    pub requested :
        Requested sys root candidate.manifest candidate.branch candidate.head title p1 pr p2
    pub p3 : Progress World
    pub merged : Merged sys root pr.0 p2 p3
    pub closed : Closed sys root candidate.manifest.issue pr.0 p3 q
    pub result : r ≡ completed candidate pr

  -- When `finalize` answers with `merge`, it says COMPLETED, merged and closed, and it went the whole way: the candidate was verified, its
  -- request published, the checks of the request waited for, the request merged and shown MERGED with the time of the
  -- merge, and last the issue of the manifest shown CLOSED, each by commands that ended with 0, one after the other.
  pub finalize-IsFinalized :
      (title : Option Text) (p : Progress World) {r : FinalizationResult} {q : Progress World}
      → finalize sys root plan_path true title p ≡ (answer r, q)
      → Finalized title p r q
  unfolding finalize publish finish
  finalize-IsFinalized title p {r} {q} h =
      let (c, p1, verified, h1) = bind-eq-answer (verify_candidate sys root plan_path) _ p h in
      let (pr, p2, requested, h2) =
        bind-eq-answer (create_or_prepare_pr sys root c.manifest c.branch c.head title) _ p1 h1 in
      let (b, p4, merging, h3) =
        bind-eq-answer (merge_and_verify sys root c.manifest.issue pr.0) _ p2 h2 in
      let (said, p3, merged, closed) =
        merge_and_verify-Merged sys root c.manifest.issue pr.0 p2 merging in
      record {
        candidate = c;
        pr = pr;
        p1 = p1;
        verified = verify_candidate-Verified sys root plan_path p verified;
        p2 = p2;
        requested =
            create_or_prepare_pr-IsRequested sys root c.manifest c.branch c.head title p1 requested;
        p3 = p3;
        merged = merged;
        closed = subst (Closed sys root c.manifest.issue pr.0 p3) (ap (λ r. r.1) h3) closed;
        result = sym (
            answer-injective _ _ (
              subst (λ b. answer (record (completed c pr) { issue_closed = some b }) ≡ answer r)
                said (ap (λ r. r.0) h3)));
      }
