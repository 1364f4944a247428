-- ===== src/Delegation/Subtree.antt =====
-- The recursions of backend/swarm/delegation.py down a delegation tree: cancel_subtree and
-- is_tree_complete, on fuel, a unit for each level.
pub mod Reach
pub mod Enough
use local_mind.Base.{
  ℕ, zero, suc, Bool, true, false, not, ◌&&◌, List, [], ◌∷◌, map, Option, none, some, ◌==◌, select,
  fetchone, update, if◌then◌else◌,
}
use local_mind.Jobs.{JobStatus, completed, failed, cancelled}
use local_mind.Delegation.{
  Delegation, DelegationStatus, is_active, JobRow, has_id, child_of, max_delegation_depth,
}

-- ('completed', 'failed', 'cancelled')
abbrev pub is_terminal : JobStatus → Bool
is_terminal completed = true
is_terminal failed = true
is_terminal cancelled = true
is_terminal _ = false

abbrev pub cancel_job : (job_id : ℕ) → List JobRow → List JobRow
cancel_job job_id jobs =
    update (λ j. j.id == job_id && not (is_terminal j.status))
      (λ j. record j { status = cancelled }) jobs

abbrev pub cancel_delegation : (job_id now : ℕ) → List Delegation → List Delegation
cancel_delegation job_id now rows =
    update (λ r. r.child_job_id == job_id && is_active r.status)
      (λ r. record r { status = DelegationStatus.cancelled; completed_at = some now }) rows

-- `SELECT child_job_id FROM job_delegation WHERE parent_job_id = ?`
abbrev pub child_ids : (job_id : ℕ) → List Delegation → List ℕ
child_ids job_id rows = map (λ r. r.child_job_id) (select (child_of job_id) rows)

-- A `for` loop over ids that changes a state.
abbrev pub each {ℓ} : {S : Type ℓ} → (ℕ → S → S) → List ℕ → S → S
each body [] state = state
each body (c ∷ cs) state = each body cs (body c state)

-- `_cancel_recursive`, with one reading of the clock for all levels. Without fuel it stops.
unfoldable pub cancel_recursive :
    (fuel now job_id : ℕ) → List JobRow × List Delegation → List JobRow × List Delegation
cancel_recursive zero now job_id state = state
cancel_recursive (suc fuel) now job_id (jobs, rows) =
    each (cancel_recursive fuel now) (child_ids job_id rows)
      (cancel_job job_id jobs, cancel_delegation job_id now rows)

-- A tree has at most `max_delegation_depth` levels.
unfoldable pub cancel_subtree :
    (now job_id : ℕ) → List JobRow × List Delegation → List JobRow × List Delegation
unfolding cancel_recursive
cancel_subtree now job_id state = cancel_recursive max_delegation_depth now job_id state

abbrev pub all_of : (ℕ → Bool) → List ℕ → Bool
all_of p [] = true
all_of p (c ∷ cs) = p c && all_of p cs

-- `_check_complete`. Without fuel it answers False.
unfoldable pub check_complete : (fuel job_id : ℕ) → List JobRow → List Delegation → Bool
check_complete zero job_id jobs rows = false
check_complete (suc fuel) job_id jobs rows = elim (fetchone (has_id job_id) jobs) [
  | none ↦ true
  | some j ↦
      is_terminal j.status && all_of (λ c. check_complete fuel c jobs rows) (child_ids job_id rows)
]

unfoldable pub is_tree_complete : (root_job_id : ℕ) → List JobRow → List Delegation → Bool
unfolding check_complete
is_tree_complete root_job_id jobs rows = check_complete max_delegation_depth root_job_id jobs rows
