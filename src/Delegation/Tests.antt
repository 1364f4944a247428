-- ===== src/Delegation/Tests.antt =====
-- Runs of the delegation engine, and its theorems at concrete inputs.
use local_mind.Base.{map, Memᴰ, arith}
use local_mind.Base.{
  ℕ, ◌+◌, ◌≤◌, ◌<◌, ◌≡◌, refl, true, false, List, [], ◌∷◌, none, some, err, is_none, rowcount,
}
use local_mind.Jobs.{executing}
use local_mind.Delegation.{
  Delegation, JobRow, child_of, get_depth, get_tree_root, get_parent, walk, walk_up, Spawn,
  too_deep, spawn_child_job, insert_child, child_job, delegation, completed, mark_completed,
  max_child_jobs_per_parent, max_delegation_depth,
}
use local_mind.Delegation.Depth
use local_mind.Delegation.Subtree.{
  is_terminal, cancel_recursive, cancel_subtree, check_complete, is_tree_complete,
}
use local_mind.Delegation.Subtree.Reach.{Below, here, under, edges, IsEnded}
use local_mind.Delegation.Subtree.Enough
use local_mind.Delegation.Limits
use local_mind.Delegation.Limits.{Call, spawns, completes, step, run}

program : Unit {0}
unfolding get_depth get_tree_root get_parent walk walk_up spawn_child_job insert_child child_job
    delegation mark_completed step run
program = tt

abbrev spawn : (parent child : ℕ) → Spawn
spawn parent child = record {
  parent_job_id = parent;
  title = 1;
  description = 2;
  delegation_type = 3;
  context_json = none;
  priority = 5;
  now = 10 + child;
  child_job_id = child;
  delegation_id = 100 + child;
}

abbrev top : JobRow
top = record {
  id = 0;
  title = 1;
  description = 2;
  status = executing;
  priority = 5;
  created_at = 1;
}

abbrev calls : List Call
calls =
    spawns (spawn 0 1) true
    ∷ spawns (spawn 1 2) true
    ∷ spawns (spawn 2 3) true
    ∷ spawns (spawn 3 4) true
    ∷ completes 4 completed 50
    ∷ []

-- The fifth level is refused.
fifth_level_refused :
    (get_depth 4 (run calls (top ∷ [], [])).1 ≡ some 4)
    × ((spawn_child_job (spawn 4 5) true (run calls (top ∷ [], []))).0 ≡ err (too_deep 5))
unfolding program
fifth_level_refused = (refl, refl)

run_within_limits_example :
    ((d : ℕ) × (get_depth 4 (run calls (top ∷ [], [])).1 ≡ some d) × (d < max_delegation_depth))
    × ((t : ℕ) × (get_tree_root 4 (run calls (top ∷ [], [])).1 ≡ some t)
        × (get_parent t (run calls (top ∷ [], [])).1 ≡ none))
    × (rowcount (child_of 4) (run calls (top ∷ [], [])).1 ≤ max_child_jobs_per_parent)
run_within_limits_example = Limits.run_within_limits calls (top ∷ []) 4

-- Two jobs that are each other's children.
abbrev cycle : List Delegation
cycle = delegation (spawn 1 2) ∷ delegation (spawn 2 1) ∷ []

walks_end_example :
    (is_none (get_depth 1 cycle) ≡ false) × (is_none (get_tree_root 1 cycle) ≡ false)
walks_end_example = Depth.walks_end 1 cycle

-- The tree of `calls` under job 1, which is cancelled with its descendants.
cancelled_tree :
    (is_tree_complete 1 (run calls (top ∷ [], [])).0 (run calls (top ∷ [], [])).1 ≡ false)
    × (map (λ j. is_terminal j.status) (cancel_subtree 60 1 (run calls (top ∷ [], []))).0
        ≡ false ∷ true ∷ true ∷ true ∷ true ∷ [])
unfolding program cancel_subtree cancel_recursive is_tree_complete check_complete
cancelled_tree = (refl, refl)

three-Below : Below (edges (run calls (top ∷ [], [])).1) 3 2 1
unfolding program
three-Below =
    under 2 (Memᴰ.tail (Memᴰ.head refl)) (under 3 (Memᴰ.tail (Memᴰ.tail (Memᴰ.head refl))) here)

cancel_subtree-is_tree_complete_example :
    IsEnded 3 (cancel_subtree 60 1 (run calls (top ∷ [], []))).0
    × (is_tree_complete 1
          (cancel_subtree 60 1 (run calls (top ∷ [], []))).0
          (cancel_subtree 60 1 (run calls (top ∷ [], []))).1
        ≡ true)
    × (cancel_recursive 9 60 1 (run calls (top ∷ [], []))
        ≡ cancel_subtree 60 1 (run calls (top ∷ [], [])))
cancel_subtree-is_tree_complete_example =
    Enough.cancel_subtree-is_tree_complete calls (top ∷ []) 60 1 3 2 9 three-Below (omega arith)
