-- ===== src/JobRecords.antt =====
-- The rest of backend/jobs/queue.py that belongs to a job: its files and its audit log, with the
-- JobFile and the AuditEntry of backend/jobs/models.py, and delete_job, which goes over five tables.
pub mod Deletion
mod Tests
use local_mind.Base.{
  ℕ, zero, suc, Bool, true, false, not, ◌&&◌, ◌||◌, List, [], ◌∷◌, Option, none, some, ◌==◌,
  is_some_of, if◌then◌else◌, select, fetchone, delete, insert, exists, sort_desc_by,
}
use local_mind.Jobs.{Job, with_id}
use local_mind.Jobs.Nodes.{Node}
use local_mind.Delegation.{Delegation}

pub record JobFile : Type 0 where
  pub id : ℕ
  pub job_id : ℕ
  pub node_id : Option ℕ
  pub filename : ℕ
  pub file_path : ℕ
  pub file_type : ℕ
  pub mime_type : Option ℕ
  pub size_bytes : Option ℕ

-- The column `job_id` may be NULL: other parts of the program write entries without a job.
pub record AuditEntry : Type 0 where
  pub id : ℕ
  pub job_id : Option ℕ
  pub node_id : Option ℕ
  pub action : ℕ
  pub detail : Option ℕ
  pub actor : Option ℕ
  pub timestamp : ℕ

-- The arguments of add_file, with the uuid.
pub record NewFile : Type 0 where
  pub job_id : ℕ
  pub filename : ℕ
  pub file_path : ℕ
  pub file_type : ℕ
  pub mime_type : Option ℕ
  pub size_bytes : Option ℕ
  pub node_id : Option ℕ
  pub file_id : ℕ

unfoldable pub job_file : NewFile → JobFile
job_file a = record {
  id = a.file_id;
  job_id = a.job_id;
  node_id = a.node_id;
  filename = a.filename;
  file_path = a.file_path;
  file_type = a.file_type;
  mime_type = a.mime_type;
  size_bytes = a.size_bytes;
}

-- `known_job` says whether the job exists, which the foreign key asks for; `none` is the
-- IntegrityError.
unfoldable pub add_file :
    NewFile → (known_job : Bool) → List JobFile → Option JobFile × List JobFile
unfolding job_file
add_file a known_job files =
    if exists (λ f. f.id == a.file_id) files || not known_job
    then (none, files)
    else (some (job_file a), insert (job_file a) files)

abbrev pub of_type : Option ℕ → JobFile → Bool
of_type none f = true
of_type (some file_type) f = f.file_type == file_type

unfoldable pub get_files : (job_id : ℕ) → (file_type : Option ℕ) → List JobFile → List JobFile
get_files job_id file_type files = select (λ f. f.job_id == job_id && of_type file_type f) files

-- `false` is the IntegrityError of an id that is taken.
unfoldable pub add_audit :
    (entry_id job_id action : ℕ)
    → (detail actor node_id : Option ℕ) → (now : ℕ) → List AuditEntry
    → Bool × List AuditEntry
add_audit entry_id job_id action detail actor node_id now entries =
    if exists (λ e. e.id == entry_id) entries then (false, entries) else (
      true,
      insert
          (record {
            id = entry_id;
            job_id = some job_id;
            node_id = node_id;
            action = action;
            detail = detail;
            actor = actor;
            timestamp = now;
          })
          entries,
    )

-- `LIMIT n`
abbrev pub first_rows {ℓ} : {R : Type ℓ} → ℕ → List R → List R
first_rows zero rows = []
first_rows (suc n) [] = []
first_rows (suc n) (r ∷ rows) = r ∷ first_rows n rows

unfoldable pub get_audit_log : (job_id limit : ℕ) → List AuditEntry → List AuditEntry
get_audit_log job_id limit entries =
    first_rows limit
      (sort_desc_by (λ e. e.timestamp) (select (λ e. is_some_of e.job_id job_id) entries))

-- The tables that delete_job goes over.
pub record Tables : Type 0 where
  pub jobs : List Job
  pub nodes : List Node
  pub files : List JobFile
  pub audit : List AuditEntry
  pub delegations : List Delegation

unfoldable pub delete_job : (job_id : ℕ) → Tables → Bool × Tables
delete_job job_id db = elim (fetchone (with_id job_id) db.jobs) [
  | none ↦ (false, db)
  | some j ↦ (
    true,
    record {
      audit = delete (λ e. is_some_of e.job_id job_id) db.audit;
      files = delete (λ f. f.job_id == job_id) db.files;
      nodes = delete (λ n. n.job_id == job_id) db.nodes;
      delegations =
          delete (λ d. d.parent_job_id == job_id || d.child_job_id == job_id) db.delegations;
      jobs = delete (with_id job_id) db.jobs;
    },
  )
]
