-- ===== src/JobRecords/Tests.antt =====
-- A run of delete_job, and its theorem at a concrete input.
use local_mind.Base.{ℕ, ◌≡◌, refl, true, [], ◌∷◌, none, some, arith}
use local_mind.Jobs.{Job, done, get_job}
use local_mind.Jobs.Nodes.{get_nodes}
use local_mind.Delegation.{get_parent, get_children}
use local_mind.JobRecords.{
  NewFile, job_file, get_files, get_audit_log, add_audit, Tables, delete_job,
}
use local_mind.JobRecords.Deletion

abbrev finished : (id : ℕ) → Job
finished id = record {
  id = id;
  workspace_id = 1;
  title = 2;
  description = none;
  source = 3;
  source_ref = none;
  status = done;
  priority = 0;
  requester = none;
  mode = 4;
  template_id = none;
  result_summary = none;
  review_count = 1;
  max_reviews = 3;
  error = none;
  cost_cents = 0;
  created_at = 10;
  updated_at = 20;
  parent_job_id = none;
  tree_root_id = none;
}

abbrev report : (job_id file_id : ℕ) → NewFile
report job_id file_id = record {
  job_id = job_id;
  filename = 7;
  file_path = 8;
  file_type = 9;
  mime_type = none;
  size_bytes = some 100;
  node_id = none;
  file_id = file_id;
}

abbrev tables : Tables
tables = record {
  jobs = finished 1 ∷ finished 2 ∷ [];
  nodes = [];
  files = job_file (report 1 50) ∷ job_file (report 2 51) ∷ [];
  audit = (add_audit 60 1 5 none none none 15 []).1;
  delegations = [];
}

program : Unit {0}
unfolding delete_job get_job get_files job_file get_audit_log add_audit
program = tt

one_file_left : (delete_job 1 tables).1.files ≡ job_file (report 2 51) ∷ []
unfolding program
one_file_left = refl

delete_job-removes_example :
    let r = delete_job 1 tables in
    (r.0 ≡ true)
    × (get_job 1 r.1.jobs ≡ none)
    × (get_nodes 1 r.1.nodes ≡ [])
    × (get_files 1 none r.1.files ≡ [])
    × (get_audit_log 1 100 r.1.audit ≡ [])
    × (get_parent 1 r.1.delegations ≡ none)
    × (get_children 1 r.1.delegations ≡ [])
    × (get_job 2 r.1.jobs ≡ get_job 2 tables.jobs)
    × (get_nodes 2 r.1.nodes ≡ get_nodes 2 tables.nodes)
    × (get_files 2 none r.1.files ≡ get_files 2 none tables.files)
    × (get_audit_log 2 100 r.1.audit ≡ get_audit_log 2 100 tables.audit)
unfolding get_job
delete_job-removes_example =
    Deletion.delete_job-removes 1 2 100 none tables (finished 1) refl (omega arith)
