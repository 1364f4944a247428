-- ===== src/Policy/Approvals.antt =====
-- The table approvals of backend/core/schema.py and the calls of backend/core/policy.py on it. Times
-- are in a unit of which a minute has 60000000.
pub mod Final
pub mod Timely
use local_mind.Base.{
  ℕ, ◌+◌, ◌*◌, Bool, true, false, not, ◌&&◌, List, [], ◌∷◌, Option, none, some, ltb, leb, ◌==◌,
  if◌then◌else◌, fetchone, rowcount, update, insert, exists,
}

pub data ApprovalStatus : Type 0 where
  pending approved denied expired : ApprovalStatus

abbrev pub is_pending : ApprovalStatus → Bool
is_pending pending = true
is_pending _ = false

pub record Approval : Type 0 where
  pub id : ℕ
  pub policy_id : Option ℕ
  pub job_id : List ℕ
  pub node_id : ℕ
  pub tool_call_json : ℕ
  pub status : ApprovalStatus
  pub requested_at : ℕ
  pub decided_by : Option ℕ
  pub decided_at : Option ℕ
  pub expires_at : ℕ
  pub reason : Option ℕ

pub record NewApproval : Type 0 where
  pub policy_id : Option ℕ
  pub job_id : List ℕ
  pub node_id : ℕ
  pub tool_call_json : ℕ
  pub expires_minutes : ℕ

abbrev pub minute : ℕ
minute = 60000000

abbrev pub with_approval_id : ℕ → Approval → Bool
with_approval_id approval_id a = a.id == approval_id

abbrev pub new_approval : NewApproval → (approval_id now : ℕ) → Approval
new_approval a approval_id now = record {
  id = approval_id;
  policy_id = a.policy_id;
  job_id = a.job_id;
  node_id = a.node_id;
  tool_call_json = a.tool_call_json;
  status = pending;
  requested_at = now;
  decided_by = none;
  decided_at = none;
  expires_at = now + a.expires_minutes * minute;
  reason = none;
}

-- `none` is the IntegrityError of an id that is taken.
unfoldable pub create_approval :
    NewApproval → (approval_id now : ℕ) → List Approval → Option ℕ × List Approval
create_approval a approval_id now approvals =
    if exists (with_approval_id approval_id) approvals
    then (none, approvals)
    else (some approval_id, insert (new_approval a approval_id now) approvals)

unfoldable pub mark_expired : (approval_id : ℕ) → List Approval → List Approval
mark_expired approval_id approvals =
    update (with_approval_id approval_id) (λ a. record a { status = expired }) approvals

-- `none` is the ValueError of an unknown id.
unfoldable pub check_approval :
    (approval_id now : ℕ) → List Approval → Option ApprovalStatus × List Approval
unfolding mark_expired
check_approval approval_id now approvals =
    elim (fetchone (with_approval_id approval_id) approvals) [
      | none ↦ (none, approvals)
      | some a ↦
          if is_pending a.status && leb a.expires_at now
          then (some expired, mark_expired approval_id approvals)
          else (some a.status, approvals)
    ]

abbrev pub verdict : (approved : Bool) → ApprovalStatus
verdict true = approved
verdict false = denied

-- The UPDATE looks at the id only.
abbrev pub write_decision :
    (approval_id decided_by : ℕ)
    → (approves : Bool) → (reason now : ℕ) → List Approval
    → List Approval
write_decision approval_id decided_by approves reason now approvals =
    update (with_approval_id approval_id)
      (λ a. record a {
        status = verdict approves;
        decided_by = some decided_by;
        decided_at = some now;
        reason = some reason;
      })
      approvals

abbrev pub decide_if :
    Option ApprovalStatus
    → (approval_id decided_by : ℕ) → (approves : Bool) → (reason now : ℕ) → List Approval
    → Bool × List Approval
decide_if (some pending) approval_id decided_by approves reason now approvals =
    (true, write_decision approval_id decided_by approves reason now approvals)
decide_if _ approval_id decided_by approves reason now approvals = (false, approvals)

-- `now` is the clock's reading in check_approval, and `later` the one that is written. `false` is the
-- ValueError.
unfoldable pub decide_approval :
    (approval_id decided_by : ℕ)
    → (approves : Bool) → (reason now later : ℕ) → List Approval
    → Bool × List Approval
unfolding check_approval
decide_approval approval_id decided_by approves reason now later approvals =
    let (status, approvals') = check_approval approval_id now approvals in
    decide_if status approval_id decided_by approves reason later approvals'

unfoldable pub expire_stale_approvals : (now : ℕ) → List Approval → ℕ × List Approval
expire_stale_approvals now approvals = (
  rowcount (λ a. is_pending a.status && leb a.expires_at now) approvals,
  update (λ a. is_pending a.status && leb a.expires_at now) (λ a. record a { status = expired })
      approvals,
)
