-- ===== src/JobTree/Tests.antt =====
-- Runs on a tree of jobs, and its theorem at a concrete input.
use local_mind.Base.{
  ℕ, ◌+◌, ◌≡◌, refl, true, List, [], ◌∷◌, none, some, arith, map, All, ◌==◌, ◌⊎◌, false, Memᴰ,
  sort_by,
}
use local_mind.Jobs.{Job, JobStatus, done, executing, cancelling, update_job_status}
use local_mind.Delegation.{
  Delegation, JobRow, active, Spawn, get_depth, walk, walk_up, child_job, delegation, insert_child,
  spawn_child_job,
}
use local_mind.Delegation.Limits.{Call, spawns, run, step}
use local_mind.JobTree.{
  set_cancelling, cascade_cancel, cancel_job, get_child_jobs, tree_ids, jobs_of, get_job_tree,
}
use local_mind.Delegation.Subtree.Reach.{here, under}
use local_mind.JobTree.Cascade
use local_mind.JobTree.Cascade.{is_being_cancelled}

program : Unit {0}
unfolding get_depth walk walk_up spawn_child_job insert_child child_job delegation step run
    update_job_status cascade_cancel cancel_job get_child_jobs tree_ids get_job_tree
program = tt

abbrev row : (parent_job_id child_job_id : ℕ) → Delegation
row parent_job_id child_job_id = record {
  id = child_job_id;
  parent_job_id = parent_job_id;
  child_job_id = child_job_id;
  delegation_type = 0;
  context_json = none;
  status = active;
  created_at = 0;
  completed_at = none;
}

abbrev job : (id : ℕ) → JobStatus → Job
job id status = record {
  id = id;
  workspace_id = 7;
  title = 0;
  description = none;
  source = 0;
  source_ref = none;
  status = status;
  priority = 0;
  requester = none;
  mode = 0;
  template_id = none;
  result_summary = some 5;
  review_count = 0;
  max_reviews = 3;
  error = none;
  cost_cents = 0;
  created_at = id;
  updated_at = 0;
  parent_job_id = none;
  tree_root_id = none;
}

-- Job 1 with the children 2 and 3, of which 3 has the child 4; 2 is done.
abbrev rows : List Delegation
rows = row 1 2 ∷ row 1 3 ∷ row 3 4 ∷ []

abbrev jobs : List Job
jobs = job 1 executing ∷ job 2 done ∷ job 3 executing ∷ job 4 executing ∷ job 9 done ∷ []

tree_of_one :
    (map (λ j. j.id) (get_job_tree 1 rows jobs) ≡ 1 ∷ 2 ∷ 3 ∷ 4 ∷ [])
    × (map (λ j. j.id) (get_child_jobs 1 rows jobs) ≡ 2 ∷ 3 ∷ [])
    × (map (λ j. j.status) (cancel_job 1 true 8 rows jobs)
        ≡ cancelling ∷ cancelling ∷ cancelling ∷ cancelling ∷ done ∷ [])
unfolding program
tree_of_one = (refl, refl, refl)

abbrev spawn : (parent child : ℕ) → Spawn
spawn parent child = record {
  parent_job_id = parent;
  title = 1;
  description = 2;
  delegation_type = 3;
  context_json = none;
  priority = 5;
  now = 10 + child;
  child_job_id = child;
  delegation_id = 100 + child;
}

abbrev root : JobRow
root = record {
  id = 1;
  title = 1;
  description = 2;
  status = executing;
  priority = 5;
  created_at = 1;
}

abbrev calls : List Call
calls = spawns (spawn 1 2) true ∷ spawns (spawn 2 3) true ∷ []

cancel_job-get_job_tree_example :
    let built = (run calls (root ∷ [], [])).1 in
    let after = cancel_job 1 true 8 built jobs in
    let tree = get_job_tree 1 built after in
    All (λ j. is_being_cancelled j ≡ true) tree
    × All (λ j. ((j.id == 3) ≡ false) ⊎ Memᴰ j tree) after
    × (cascade_cancel 6 8 1 built (set_cancelling 1 8 jobs) ≡ after)
    × (sort_by (λ j. j.created_at) (jobs_of (tree_ids 6 (1 ∷ []) built) after) ≡ tree)
unfolding program
cancel_job-get_job_tree_example =
    Cascade.cancel_job-get_job_tree calls (root ∷ []) jobs 8 1 6 3 2 (omega arith)
      (under 2 (Memᴰ.head refl) (under 3 (Memᴰ.tail (Memᴰ.head refl)) here))
