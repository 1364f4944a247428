-- ===== src/JobRecords/Deletion.antt =====
-- What delete_job removes, and what it leaves.
use local_mind.Base.{
  ℕ, zero, suc, ◌≡◌, ◌≢◌, refl, ◌∙◌, ap, Bool, true, false, ◌&&◌, ◌||◌, List, [], ◌∷◌, Option, none,
  some, arith, ◌==◌, is_some_of, select, fetchone, delete, sort_by, sort_desc_by,
  fetchone-delete_self, fetchone-delete_other,
}
use local_mind.Jobs.{Job, with_id, get_job}
use local_mind.Jobs.Nodes.{get_nodes}
use local_mind.Delegation.{get_parent, get_children, is_child, child_of}
use local_mind.JobRecords.{
  AuditEntry, of_type, get_files, first_rows, get_audit_log, Tables, delete_job,
}

module _ {R : Type 0} where
  select-delete_within :
      (p q : R → Bool) (rows : List R)
      → ((r : R) → q r ≡ true → p r ≡ true)
      → select q (delete p rows) ≡ []
  select-delete_within p q [] h = refl
  select-delete_within p q (r ∷ rows) h = ground (arith, h r, select-delete_within p q rows h)

  select-delete_apart :
      (p q : R → Bool) (rows : List R)
      → ((r : R) → q r ≡ true → p r ≡ false)
      → select q (delete p rows) ≡ select q rows
  select-delete_apart p q [] h = refl
  select-delete_apart p q (r ∷ rows) h = ground (arith, h r, select-delete_apart p q rows h)

  fetchone-select-none :
      (q : R → Bool) (rows : List R) → select q rows ≡ [] → fetchone q rows ≡ none
  fetchone-select-none q [] h = refl
  fetchone-select-none q (r ∷ rows) h = ground (arith, fetchone-select-none q rows)

first_rows-nil : (limit : ℕ) → first_rows {R = AuditEntry} limit [] ≡ []
first_rows-nil zero = refl
first_rows-nil (suc limit) = refl

-- Deleting a job that exists returns True and leaves nothing of it: no row, no node, no file, no audit
-- entry, no parent and no child. The row, the nodes, the files and the audit log of another job are
-- as they were.
pub delete_job-removes :
    (job_id other limit : ℕ) (file_type : Option ℕ) (db : Tables) (j : Job)
    → get_job job_id db.jobs ≡ some j
    → other ≢ job_id
    → let r = delete_job job_id db in
      (r.0 ≡ true)
      × (get_job job_id r.1.jobs ≡ none)
      × (get_nodes job_id r.1.nodes ≡ [])
      × (get_files job_id file_type r.1.files ≡ [])
      × (get_audit_log job_id limit r.1.audit ≡ [])
      × (get_parent job_id r.1.delegations ≡ none)
      × (get_children job_id r.1.delegations ≡ [])
      × (get_job other r.1.jobs ≡ get_job other db.jobs)
      × (get_nodes other r.1.nodes ≡ get_nodes other db.nodes)
      × (get_files other file_type r.1.files ≡ get_files other file_type db.files)
      × (get_audit_log other limit r.1.audit ≡ get_audit_log other limit db.audit)
unfolding delete_job get_job get_nodes get_files get_audit_log get_parent get_children
delete_job-removes job_id other limit file_type db j h ne =
    let found : fetchone (with_id job_id) db.jobs ≡ some j = h in
    rw (found, delete_job)
      (
        refl,
        fetchone-delete_self (with_id job_id) db.jobs,
        ap (sort_by (λ n. n.sequence)) (
            select-delete_within (λ n. n.job_id == job_id) (λ n. n.job_id == job_id) db.nodes
              (λ n e. e)),
        select-delete_within (λ f. f.job_id == job_id)
            (λ f. f.job_id == job_id && of_type file_type f) db.files (λ f e. ground arith),
        ap (λ es. first_rows limit (sort_desc_by (λ e. e.timestamp) es))
              (select-delete_within (λ e. is_some_of e.job_id job_id)
                (λ e. is_some_of e.job_id job_id) db.audit (λ x e. e))
            ∙ first_rows-nil limit,
        fetchone-select-none (is_child job_id) _ (
            select-delete_within (λ d. d.parent_job_id == job_id || d.child_job_id == job_id)
              (is_child job_id) db.delegations (λ d e. ground arith)),
        ap (sort_by (λ d. d.created_at)) (
            select-delete_within (λ d. d.parent_job_id == job_id || d.child_job_id == job_id)
              (child_of job_id) db.delegations (λ d e. ground arith)),
        fetchone-delete_other (with_id job_id) (with_id other) db.jobs (λ x e. ground arith),
        ap (sort_by (λ n. n.sequence)) (
            select-delete_apart (λ n. n.job_id == job_id) (λ n. n.job_id == other) db.nodes
              (λ n e. ground arith)),
        select-delete_apart (λ f. f.job_id == job_id)
            (λ f. f.job_id == other && of_type file_type f) db.files (λ f e. ground arith),
        ap (λ es. first_rows limit (sort_desc_by (λ e. e.timestamp) es))
            (select-delete_apart (λ e. is_some_of e.job_id job_id) (λ e. is_some_of e.job_id other)
              db.audit (λ x e. ground arith)),
      )
