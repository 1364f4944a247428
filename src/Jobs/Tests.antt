-- ===== src/Jobs/Tests.antt =====
-- Runs of the job queue, and its theorems at concrete inputs.
use local_mind.Base.{
  ℕ, ◌+◌, ◌≤◌, ◌≡◌, ◌⊎◌, refl, true, false, List, [], ◌∷◌, map, none, some, arith, ◌==◌, ◌&&◌,
  exists, is_none, select, rowcount, length, All, Pairwise, Memᴰ,
}
use local_mind.Jobs.{
  Job, pending, executing, done, has_status, NewJob, new_job, create_job, get_job,
  update_job_status, increment_review_count, get_interrupted_jobs,
}
use local_mind.Jobs.Queries
use local_mind.Jobs.Nodes.{
  Node, NodeDef, NodeStatus, is_completed, is_eligible, title_to_id, new_node, insert_nodes,
  create_nodes, get_nodes, get_next_pending_node, update_node,
}
use local_mind.Jobs.Nodes.Next
use local_mind.Jobs.Nodes.Next.{IsInOrder, is_settled}
use local_mind.Jobs.Nodes.Creation
use local_mind.Jobs.Nodes.Creation.{Stands}
use local_mind.Jobs.Nodes.Progress
use local_mind.Jobs.Nodes.Progress.{run_nodes}

program : Unit {0}
unfolding create_job new_job get_job update_job_status increment_review_count title_to_id new_node
    insert_nodes create_nodes get_nodes get_next_pending_node update_node run_nodes
program = tt

abbrev order : NewJob
order = record {
  workspace_id = 1;
  title = 2;
  description = none;
  source = 3;
  requester = none;
  mode = 4;
  template_id = none;
  priority = 0;
  source_ref = none;
  parent_job_id = none;
  tree_root_id = none;
}

abbrev jobs : List Job
jobs = (create_job order 10 100 true []).1

a_new_job_is_read_back :
    (get_job 11 (create_job order 12 200 true jobs).1 ≡ get_job 11 jobs)
    × ((create_job order 12 200 true jobs ≡ (none, jobs))
        ⊎ (get_job 12 jobs ≡ none)
          × ((j : Job) × ((create_job order 12 200 true jobs).0 ≡ some j)
              × (get_job 12 (create_job order 12 200 true jobs).1 ≡ some j)
              × (j.status ≡ pending)
              × (j.review_count ≡ 0)))
a_new_job_is_read_back = Queries.create_job-get_job order 12 200 11 true jobs (omega arith)

status_is_read_back :
    (get_job 10 (update_job_status 10 done none (some 7) 300 jobs)
      ≡ some (record (new_job order 10 100) {
        status = done;
        error = none;
        result_summary = some 7;
        updated_at = 300;
      }))
    × (get_job 11 (update_job_status 10 done none (some 7) 300 jobs) ≡ get_job 11 jobs)
unfolding program
status_is_read_back =
    Queries.update_job_status-get_job 10 11 300 done none (some 7) jobs (new_job order 10 100) refl
      (omega arith)

review_count_grows :
    ((increment_review_count 10 300 jobs).0 ≡ (new_job order 10 100).review_count + 1)
    × (get_job 10 (increment_review_count 10 300 jobs).1
        ≡ some (record (new_job order 10 100) {
          review_count = (increment_review_count 10 300 jobs).0;
          updated_at = 300;
        }))
unfolding program
review_count_grows = Queries.increment_review_count-get_job 10 300 jobs (new_job order 10 100) refl

interrupted_jobs_in_order :
    All (λ j. has_status j.status executing ≡ true) (get_interrupted_jobs jobs)
    × Pairwise (λ a b. a.created_at ≤ b.created_at) (get_interrupted_jobs jobs)
    × (length (get_interrupted_jobs jobs) ≡ rowcount (λ j. has_status j.status executing) jobs)
interrupted_jobs_in_order = Queries.get_interrupted_jobs-exact jobs

abbrev part : (title : ℕ) → (depends_on : List ℕ) → NodeDef
part title depends_on = record {
  title = some title;
  stripped_title = some title;
  instructions = none;
  tools_allowed = 0;
  expected_output = none;
  input_schema_json = none;
  output_schema_json = none;
  retry_policy = 0;
  timeout_sec = none;
  depends_on = depends_on;
}

-- Read, then write, which depends on the reading by its title.
abbrev plan : List NodeDef
plan = part 70 [] ∷ part 71 (70 ∷ []) ∷ []

abbrev rows : List Node
rows = (create_nodes 10 100 (501 ∷ 502 ∷ []) plan true []).1

titles_are_resolved : map (λ n. n.depends_on) (get_nodes 10 rows) ≡ [] ∷ (501 ∷ []) ∷ []
unfolding program
titles_are_resolved = refl

create_nodes-get_nodes_example :
    (create_nodes 10 100 (501 ∷ 502 ∷ []) plan true [] ≡ (none, []))
    ⊎ ((created : List Node) × ((create_nodes 10 100 (501 ∷ 502 ∷ []) plan true []).0
          ≡ some created)
        × Stands (title_to_id (501 ∷ 502 ∷ []) plan) 10 1 (501 ∷ 502 ∷ []) plan created
        × (get_nodes 10 rows ≡ created))
create_nodes-get_nodes_example =
    Creation.create_nodes-get_nodes 10 100 (501 ∷ 502 ∷ []) plan true [] tt

get_next_pending_node-exact_example :
    (get_next_pending_node 10 rows ≡ none)
      × (select (is_eligible (get_nodes 10 rows)) (get_nodes 10 rows) ≡ [])
    ⊎ ((n : Node) × (get_next_pending_node 10 rows ≡ some n)
        × (n.job_id == 10 ≡ true)
        × (n.status ≡ NodeStatus.pending)
        × All
            (λ dep. exists (λ r. r.id == dep && is_completed r.status) (get_nodes 10 rows) ≡ true)
            n.depends_on
        × All
            (λ m. n.sequence ≤ m.sequence)
            (select (is_eligible (get_nodes 10 rows)) (get_nodes 10 rows)))
get_next_pending_node-exact_example = Next.get_next_pending_node-exact 10 rows

rows-IsInOrder : IsInOrder (get_nodes 10 rows)
unfolding program
rows-IsInOrder = (tt, ((refl, tt), tt))

rows-settled : All (λ m. is_settled m ≡ true) (get_nodes 10 rows)
unfolding program
rows-settled = (refl, (refl, tt))

abbrev first_node : Node
first_node = new_node (title_to_id (501 ∷ 502 ∷ []) plan) 10 1 501 100 (part 70 [])

a_ready_node_is_found : is_none (get_next_pending_node 10 rows) ≡ false
unfolding program
a_ready_node_is_found =
    Next.get_next_pending_node-progress 10 rows first_node rows-IsInOrder rows-settled
      (Memᴰ.head refl) refl

run_nodes-completes_example :
    All
      (λ n. is_completed n.status ≡ true)
      (get_nodes 10 (run_nodes 10 ((none, 200) ∷ (some 9, 300) ∷ []) rows))
unfolding program
run_nodes-completes_example =
    Progress.run_nodes-completes 10 ((none, 200) ∷ (some 9, 300) ∷ []) rows rows-IsInOrder
      rows-settled (omega arith)
