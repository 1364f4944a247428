-- ===== src/Policy/Enforced.antt =====
-- What the answer to a tool call is to be, by the action of the policy that decides it.
use local_mind.Base.{
  ℕ, ◌+◌, ◌*◌, ◌≤◌, ◌≡◌, ◌⊎◌, refl, ap, Bool, true, false, ◌&&◌, ◌==◌, List, [], ◌∷◌, Option, none,
  some, inl, inr, arith, insert, exists, All, Memᴰ, Bool-cases, Option-cases,
}
use local_mind.Policy.Rules.{
  Std, Condition, evaluate_condition, evaluate_conditions, check_builtin_policies,
}
use local_mind.Policy.Approvals.{
  Approval, ApprovalStatus, with_approval_id, new_approval, create_approval,
}
use local_mind.Policy.{
  Policy, PolicyResult, PolicyDecision, decision, Action, ToolCall, matches, request, decide,
}

-- All of the conditions hold.
abbrev pub hold : Std → ToolCall → List Condition → Bool
hold std call [] = true
hold std call (c ∷ conditions) =
    evaluate_condition std c call.tool_name call.tool_args call.context && hold std call conditions

-- A policy whose conditions and actions can be read, and whose conditions hold.
abbrev pub is_readable_and_holds : Std → ToolCall → Option (List Condition) → Option Action → Bool
is_readable_and_holds std call (some conditions) (some _) = hold std call conditions
is_readable_and_holds std call (some _) none = false
is_readable_and_holds std call none _ = false

-- An enabled policy of the workspace that is readable and whose conditions hold.
abbrev pub applies : Std → ToolCall → Policy → Bool
applies std call p =
    (p.workspace_id == call.context.workspace_id && p.enabled)
    && is_readable_and_holds std call p.conditions p.actions

evaluate_conditions-hold :
    (std : Std) (call : ToolCall) (conditions : List Condition)
    → evaluate_conditions std conditions call.tool_name call.tool_args call.context
      ≡ hold std call conditions
evaluate_conditions-hold std call [] = refl
evaluate_conditions-hold std call (c ∷ conditions) =
    let b = evaluate_condition std c call.tool_name call.tool_args call.context in
    let rest = evaluate_conditions-hold std call conditions in
    elim (Bool-cases b) [ inl t ↦ rw t rest | inr f ↦ rw f refl ]

pub matches-applies :
    (std : Std) (call : ToolCall) (p : Policy)
    → matches std call p ≡ is_readable_and_holds std call p.conditions p.actions
unfolding matches
matches-applies std call p = elim (Option-cases p.conditions) [
  | inl n ↦ rw n refl
  | inr (conditions, c) ↦ elim (Option-cases p.actions) [
    | inl n ↦ rw (c, n) refl
    | inr (action, a) ↦ rw (c, a) (evaluate_conditions-hold std call conditions)
  ]
]

-- The outcome of a call by the action of the policy that decides. An approval that is required is a new
-- row, which waits until its minutes are over; an id that is taken raises.
abbrev pub Enforces :
    ToolCall → Policy → Action → List Approval → Option PolicyDecision × List Approval → Type 0
Enforces call p Action.deny approvals r =
    r ≡ (some (decision PolicyResult.deny (some p.id) none), approvals)
Enforces call p Action.dry_run approvals r =
    r ≡ (some (decision PolicyResult.dry_run (some p.id) none), approvals)
Enforces call p Action.allow approvals r =
    r ≡ (some (decision PolicyResult.allow (some p.id) none), approvals)
Enforces call p (Action.require_approval minutes) approvals r =
    ((exists (with_approval_id call.approval_id) approvals ≡ true) × (r ≡ (none, approvals)))
    ⊎ ((exists (with_approval_id call.approval_id) approvals ≡ false)
        × (r.0 ≡ some (decision PolicyResult.require_approval (some p.id) (some call.approval_id)))
        × ((a : Approval) × (r.1 ≡ insert a approvals)
            × (a.id ≡ call.approval_id)
            × (a.status ≡ ApprovalStatus.pending)
            × (a.policy_id ≡ some p.id)
            × (a.job_id ≡ call.context.job_id)
            × (a.tool_call_json ≡ call.tool_call_json)
            × (a.expires_at ≡ call.now + minutes * 60000000)))

abbrev answer_of : Policy → Option ℕ × List Approval → Option PolicyDecision × List Approval
answer_of p (created, after) = elim created [
  | none ↦ (none, after)
  | some approval_id ↦
      (some (decision PolicyResult.require_approval (some p.id) (some approval_id)), after)
]

pub decide-Enforces :
    (call : ToolCall) (p : Policy) (action : Action) (approvals : List Approval)
    → Enforces call p action approvals (decide call p action approvals)
unfolding create_approval
decide-Enforces call p Action.deny approvals = refl
decide-Enforces call p Action.dry_run approvals = refl
decide-Enforces call p Action.allow approvals = refl
decide-Enforces call p (Action.require_approval minutes) approvals =
    let id : ℕ = call.approval_id in
    let a : Approval = new_approval (request call p minutes) id call.now in
    elim (Bool-cases (exists (with_approval_id id) approvals)) [
      | inl t ↦
          let kept : create_approval (request call p minutes) id call.now approvals
              ≡ (none, approvals) =
            rw (t, create_approval) refl in
          inl (t, ap (answer_of p) kept)
      | inr f ↦
          let made : create_approval (request call p minutes) id call.now approvals
              ≡ (some id, insert a approvals) =
            rw (f, create_approval) refl in
          let given = ap (answer_of p) made in
          inr (f, ap (λ r. r.0) given, (a, ap (λ r. r.1) given, refl, refl, refl, refl, refl, refl))
    ]

pub matches-actions :
    (std : Std) (call : ToolCall) (p : Policy)
    → matches std call p ≡ true
    → (action : Action) × (p.actions ≡ some action)
unfolding matches
matches-actions std call p h = elim (Option-cases p.actions) [
  | inr known ↦ known
  | inl n ↦ elim (Option-cases p.conditions) [
    | inl m ↦ absurd (ground arith)
    | inr (c, m) ↦ absurd (ground arith)
  ]
]

-- What evaluate returns: a built-in rule denies; else a policy of the table that applies, of the highest
-- priority of those that do, is enforced; and where none applies the tool is allowed.
abbrev pub Decided :
    Std → ToolCall → List Policy → List Approval → Option PolicyDecision × List Approval → Type 0
Decided std call policies approvals r =
    let fires = check_builtin_policies std call.tool_name call.tool_args call.context in
    ((fires ≡ true) × (r ≡ (some (decision PolicyResult.deny none none), approvals)))
    ⊎ ((fires ≡ false)
        × ((All (λ q. applies std call q ≡ false) policies
              × (r ≡ (some (decision PolicyResult.allow none none), approvals)))
            ⊎ ((p : Policy) × Memᴰ p policies
                × (applies std call p ≡ true)
                × All (λ q. (applies std call q ≡ false) ⊎ (q.priority ≤ p.priority)) policies
                × ((action : Action) × (p.actions ≡ some action)
                    × Enforces call p action approvals r))))
