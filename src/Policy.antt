-- ===== src/Policy.antt =====
-- backend/core/policy.py: whether a tool may be called. Rules has the built-in rules and the conditions
-- of a workspace's policies, Approvals the requests that a human decides.
pub mod Rules
pub mod Approvals
pub mod Enforced
pub mod Choice
pub mod Writes
mod Tests
use local_mind.Base.{
  ℕ, ◌+◌, Bool, true, false, not, ◌&&◌, ◌||◌, List, [], ◌∷◌, Option, none, some, ◌==◌,
  if◌then◌else◌, select, update, delete, insert, exists, sort_by, sort_desc_by,
}
use local_mind.Base.{Text}
use local_mind.Policy.Rules.{
  Std, Arg, Context, Condition, check_builtin_policies, evaluate_conditions,
}
use local_mind.Policy.Approvals.{Approval, NewApproval, create_approval}

-- The actions of a policy; a type that is none of the three others allows.
pub data Action : Type 0 where
  deny dry_run allow : Action
  require_approval : (expires_minutes : ℕ) → Action

-- `conditions` and `actions` are the dicts that the JSON stands for, none where it is no JSON.
pub record Policy : Type 0 where
  pub id : ℕ
  pub workspace_id : ℕ
  pub name : ℕ
  pub description : ℕ
  pub conditions : Option (List Condition)
  pub actions : Option Action
  pub priority : ℕ
  pub enabled : Bool
  pub created_at : ℕ

pub data PolicyResult : Type 0 where
  allow deny require_approval dry_run : PolicyResult

pub record PolicyDecision : Type 0 where
  pub result : PolicyResult
  pub policy_id : Option ℕ
  pub approval_id : Option ℕ

abbrev pub decision : PolicyResult → (policy_id approval_id : Option ℕ) → PolicyDecision
decision result policy_id approval_id = record {
  result = result;
  policy_id = policy_id;
  approval_id = approval_id;
}

abbrev pub is_of : (workspace_id : ℕ) → Policy → Bool
is_of workspace_id p = p.workspace_id == workspace_id

-- `ORDER BY priority DESC, created_at ASC`: both sorts are stable.
abbrev pub in_order : List Policy → List Policy
in_order policies = sort_desc_by (λ p. p.priority) (sort_by (λ p. p.created_at) policies)

unfoldable pub load_workspace_policies : (workspace_id : ℕ) → List Policy → List Policy
load_workspace_policies workspace_id policies =
    in_order (select (λ p. is_of workspace_id p && p.enabled) policies)

unfoldable pub list_policies : (workspace_id : ℕ) → List Policy → List Policy
list_policies workspace_id policies = in_order (select (is_of workspace_id) policies)

-- The arguments of create_policy, with the uuid and the clock's reading.
pub record NewPolicy : Type 0 where
  pub workspace_id : ℕ
  pub name : ℕ
  pub description : ℕ
  pub conditions : List Condition
  pub actions : Action
  pub priority : ℕ
  pub policy_id : ℕ
  pub now : ℕ

-- `known` says whether the workspace exists; `none` is the IntegrityError.
unfoldable pub create_policy : NewPolicy → (known : Bool) → List Policy → Option ℕ × List Policy
create_policy a known policies =
    if exists (λ p. p.id == a.policy_id) policies || not known then (none, policies) else (
      some a.policy_id,
      insert
          (record {
            id = a.policy_id;
            workspace_id = a.workspace_id;
            name = a.name;
            description = a.description;
            conditions = some a.conditions;
            actions = some a.actions;
            priority = a.priority;
            enabled = true;
            created_at = a.now;
          })
          policies,
    )

unfoldable pub update_policy : (policy_id : ℕ) → (enabled : Bool) → List Policy → List Policy
update_policy policy_id enabled policies =
    update (λ p. p.id == policy_id) (λ p. record p { enabled = enabled }) policies

unfoldable pub delete_policy : (policy_id : ℕ) → List Policy → List Policy
delete_policy policy_id policies = delete (λ p. p.id == policy_id) policies

-- A tool call as it is judged, with the clock's reading and the uuid of an approval.
pub record ToolCall : Type 0 where
  pub tool_name : Text
  pub tool_args : List (Text × Arg)
  pub context : Context
  pub tool_call_json : ℕ
  pub now : ℕ
  pub approval_id : ℕ

-- Whether a policy is readable and all of its conditions hold.
unfoldable pub matches : Std → ToolCall → Policy → Bool
matches std call p = elim p.conditions [
  | none ↦ false
  | some conditions ↦ elim p.actions [
    | none ↦ false
    | some _ ↦ evaluate_conditions std conditions call.tool_name call.tool_args call.context
  ]
]

abbrev pub request : ToolCall → Policy → (expires_minutes : ℕ) → NewApproval
request call p expires_minutes = record {
  policy_id = some p.id;
  job_id = call.context.job_id;
  node_id = call.context.node_id;
  tool_call_json = call.tool_call_json;
  expires_minutes = expires_minutes;
}

-- What a policy that matches decides; `none` is an exception of create_approval.
abbrev pub decide :
    ToolCall → Policy → Action → List Approval → Option PolicyDecision × List Approval
decide call p Action.deny approvals =
    (some (decision PolicyResult.deny (some p.id) none), approvals)
decide call p Action.dry_run approvals =
    (some (decision PolicyResult.dry_run (some p.id) none), approvals)
decide call p Action.allow approvals =
    (some (decision PolicyResult.allow (some p.id) none), approvals)
decide call p (Action.require_approval expires_minutes) approvals =
    let (created, approvals') =
      create_approval (request call p expires_minutes) call.approval_id call.now approvals in
    elim created [
      | none ↦ (none, approvals')
      | some approval_id ↦
          (some (decision PolicyResult.require_approval (some p.id) (some approval_id)), approvals')
    ]

abbrev pub decide_by :
    ToolCall → Policy → Option Action → List Approval → Option PolicyDecision × List Approval
decide_by call p none approvals = (some (decision PolicyResult.allow none none), approvals)
decide_by call p (some action) approvals = decide call p action approvals

-- The loop over the policies: the first that matches decides.
unfoldable pub evaluate_policies :
    Std → ToolCall → List Policy → List Approval → Option PolicyDecision × List Approval
evaluate_policies std call [] approvals = (some (decision PolicyResult.allow none none), approvals)
evaluate_policies std call (p ∷ policies) approvals =
    let rest = evaluate_policies std call policies approvals in
    if matches std call p then decide_by call p p.actions approvals else rest

unfoldable pub evaluate :
    Std → ToolCall → List Policy → List Approval → Option PolicyDecision × List Approval
unfolding evaluate_policies load_workspace_policies
evaluate std call policies approvals =
    if check_builtin_policies std call.tool_name call.tool_args call.context
    then (some (decision PolicyResult.deny none none), approvals)
    else evaluate_policies std call (load_workspace_policies call.context.workspace_id policies)
        approvals
