-- ===== src/Policy/Tests.antt =====
-- Runs of the policy engine, and its theorems at concrete inputs.
use local_mind.Base.{
  ℕ, ◌≡◌, ◌⊎◌, refl, true, false, List, [], ◌∷◌, none, some, arith, All, fetchone, Text, codes,
}
use local_mind.Policy.Rules.{
  Std, Arg, Context, Condition, one_of, egress_tools, extract_path, extract_url, is_ssrf_url,
  rate_limited, bulk_delete, egress_blocked, ssrf_blocked, write_blocked, check_builtin_policies,
  evaluate_condition,
}
use local_mind.Policy.Approvals.{
  Approval, ApprovalStatus, NewApproval, new_approval, with_approval_id, create_approval,
  mark_expired, check_approval, decide_approval, expire_stale_approvals,
}
use local_mind.Policy.Approvals.Final
use local_mind.Policy.Approvals.Final.{Call, run}
use local_mind.Policy.Approvals.Timely
use local_mind.Policy.Approvals.Timely.{Timely}
use local_mind.Policy.{
  Policy, PolicyResult, decision, Action, ToolCall, load_workspace_policies, matches,
  evaluate_policies, evaluate,
}
use local_mind.Policy.Choice
use local_mind.Policy.Enforced.{Decided}
use local_mind.Policy.Writes

program : Unit {0}
unfolding extract_path extract_url is_ssrf_url rate_limited bulk_delete egress_blocked ssrf_blocked
    write_blocked check_builtin_policies evaluate_condition create_approval mark_expired
    check_approval decide_approval expire_stale_approvals run load_workspace_policies matches
    evaluate_policies evaluate
program = tt

-- A library that reads every URL as one of the local host.
abbrev std : Std
std = record {
  urlparse = λ url. some (record { scheme = codes "http"; netloc = codes "localhost:80" });
  fnmatch = λ name pattern. true;
  basename = λ path. path;
  lower = λ text. text;
}

abbrev context : Context
context = record {
  workspace_id = 1;
  deployment_mode = codes "strict-local";
  job_id = codes "7";
  node_id = 2;
  job_classification = none;
  tool_call_count = 0;
  delete_count = 0;
}

abbrev call : (tool_name : Text) → ToolCall
call tool_name = record {
  tool_name = tool_name;
  tool_args = [];
  context = context;
  tool_call_json = 3;
  now = 100;
  approval_id = 9;
}

abbrev policy : (id priority : ℕ) → Action → Policy
policy id priority action = record {
  id = id;
  workspace_id = 1;
  name = 4;
  description = 5;
  conditions = some (Condition.tool (codes "terminal" ∷ []) ∷ []);
  actions = some action;
  priority = priority;
  enabled = true;
  created_at = 10;
}

abbrev policies : List Policy
policies = policy 20 1 Action.allow ∷ policy 21 5 (Action.require_approval 30) ∷ []

the_higher_priority_decides :
    (evaluate std (call (codes "terminal")) policies []).0
    ≡ some (decision PolicyResult.require_approval (some 21) (some 9))
unfolding program
the_higher_priority_decides = refl

evaluate-strict_local_example :
    let elsewhere : Context = record context { deployment_mode = codes "cloud" } in
    ((one_of (codes "gmail") egress_tools ≡ true)
      × (evaluate std (call (codes "gmail")) policies []
          ≡ (some (decision PolicyResult.deny none none), [])))
    ⊎ ((one_of (codes "gmail") egress_tools ≡ false)
        × (check_builtin_policies std (codes "gmail") [] elsewhere
            ≡ check_builtin_policies std (codes "gmail") [] context))
evaluate-strict_local_example =
    Choice.evaluate-strict_local std (call (codes "gmail")) policies [] (codes "cloud") refl

-- A tool that calls a service elsewhere, in strict-local mode.
google_drive_is_allowed :
    (evaluate std (call (codes "google_drive")) [] []).0
    ≡ some (decision PolicyResult.allow none none)
unfolding program
google_drive_is_allowed = refl

evaluate-exact_example :
    Decided std
      (call (codes "terminal"))
      policies
      []
      (evaluate std (call (codes "terminal")) policies [])
evaluate-exact_example = Choice.evaluate-exact std (call (codes "terminal")) policies []

check_builtin_policies-traversal_example :
    check_builtin_policies std
      (codes "write_file")
      ((codes "path", Arg.text (codes "/jobs/7/../../../secrets")) ∷ [])
      context
    ≡ false
check_builtin_policies-traversal_example =
    Writes.check_builtin_policies-traversal std context (codes "../../secrets") refl (omega arith)

abbrev asked : NewApproval
asked = record {
  policy_id = some 21;
  job_id = codes "7";
  node_id = 2;
  tool_call_json = 3;
  expires_minutes = 1;
}

abbrev given : Approval
given = record (new_approval asked 9 100) {
  status = ApprovalStatus.approved;
  decided_by = some 6;
  decided_at = some 210;
  reason = some 0;
}

-- It is decided at once, and then again.
abbrev calls : List (ℕ × Call)
calls =
    (100, Call.creates asked 9)
    ∷ (200, Call.decides 9 6 true 0 210)
    ∷ (300, Call.decides 9 8 false 0 310)
    ∷ (90000000, Call.expires)
    ∷ []

the_first_decision_stands : run calls [] ≡ given ∷ []
unfolding program
the_first_decision_stands = refl

run-Stands_example :
    fetchone (with_approval_id 9) (run ((300, Call.decides 9 8 false 0 310) ∷ []) (given ∷ []))
    ≡ some given
run-Stands_example =
    Final.run-Stands ((300, Call.decides 9 8 false 0 310) ∷ []) (given ∷ []) given refl refl

run-Timely_example : All (Timely 10) (run calls [])
run-Timely_example = Timely.run-Timely 10 calls (tt, (omega arith, (omega arith, (tt, tt))))

-- The check is in time, and the write is not.
decided_too_late :
    run ((100, Call.creates asked 9) ∷ (60000099, Call.decides 9 6 true 0 60000200) ∷ []) []
    ≡ record given { decided_at = some 60000200 } ∷ []
unfolding program
decided_too_late = refl
