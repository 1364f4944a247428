-- ===== src/Jobs/Queries.antt =====
-- What the statements on the jobs table store, and what later reads make of it.
use local_mind.Base.{
  ℕ, ◌+◌, ◌≤◌, ◌≡◌, ◌≢◌, ◌⊎◌, refl, sym, ◌∙◌, ap, Bool, true, not, ◌||◌, List, [], ◌∷◌, Option,
  none, some, inl, inr, arith, ==_refl, is_none, select, rowcount, exists, fetchone-insert,
  fetchone-insert_miss, fetchone-update_hit, fetchone-update_other, All, Pairwise, All-sort_by,
  All-select_sat, sort_by-IsOrdered, length, length-sort_by, length-select, Option-cases,
  Bool-cases,
}
use local_mind.Jobs.{
  Job, JobStatus, pending, executing, has_status, with_id, NewJob, new_job, create_job, get_job,
  update_job_status, increment_review_count, get_interrupted_jobs,
}

exists-get_job :
    (job_id : ℕ) (jobs : List Job)
    → exists (with_id job_id) jobs ≡ not (is_none (get_job job_id jobs))
unfolding get_job
exists-get_job job_id [] = refl
exists-get_job job_id (j ∷ jobs) = ground (arith, exists-get_job job_id jobs)

-- create_job either raises and leaves the table as it was, or the id was free, and the job that it
-- returns, pending and with no review, is what get_job reads under the id from then on. No other job
-- changes.
pub create_job-get_job :
    (a : NewJob) (job_id now other : ℕ) (known : Bool) (jobs : List Job)
    → other ≢ job_id
    → let r = create_job a job_id now known jobs in
      (get_job other r.1 ≡ get_job other jobs)
      × ((r ≡ (none, jobs))
          ⊎ (get_job job_id jobs ≡ none)
            × ((j : Job) × (r.0 ≡ some j)
                × (get_job job_id r.1 ≡ some j)
                × (j.status ≡ pending)
                × (j.review_count ≡ 0)))
unfolding create_job get_job new_job
create_job-get_job a job_id now other known jobs ne =
    elim (Bool-cases (exists (with_id job_id) jobs || not known)) [
      | inl t ↦ rw t (refl, inl refl)
      | inr f ↦
          let free : get_job job_id jobs ≡ none = elim (Option-cases (get_job job_id jobs)) [
            | inl n ↦ n
            | inr (j, e) ↦
                let taken = exists-get_job job_id jobs ∙ ap (λ o. not (is_none o)) e in
                absurd (ground arith)
          ] in
          rw f (
            fetchone-insert_miss (with_id other) (new_job a job_id now) jobs (ground arith),
            inr (
              free,
              (
                new_job a job_id now,
                refl,
                fetchone-insert (with_id job_id) (new_job a job_id now) jobs free (==_refl job_id),
                refl,
                refl,
              ),
            ),
          )
    ]

-- A new status, with the error and the summary that come with it, is what get_job reads of the job
-- afterwards; an error or a summary of before is gone where none is given. Other jobs do not change.
pub update_job_status-get_job :
    (job_id other now : ℕ) (status : JobStatus) (error summary : Option ℕ) (jobs : List Job)
    (j : Job)
    → get_job job_id jobs ≡ some j
    → other ≢ job_id
    → let jobs' = update_job_status job_id status error summary now jobs in
      (get_job job_id jobs'
        ≡ some (record j {
          status = status;
          error = error;
          result_summary = summary;
          updated_at = now;
        }))
      × (get_job other jobs' ≡ get_job other jobs)
unfolding update_job_status get_job
update_job_status-get_job job_id other now status error summary jobs j h ne =
    let f : Job → Job = λ x. record x {
      status = status;
      error = error;
      result_summary = summary;
      updated_at = now;
    } in
    (
      fetchone-update_hit (with_id job_id) f jobs j (λ x. refl) h,
      fetchone-update_other (with_id job_id) (with_id other) f jobs (λ x e. ground arith),
    )

-- increment_review_count returns the count that the job then has, one more than before, so that the
-- reviews of a job are counted without a gap.
pub increment_review_count-get_job :
    (job_id now : ℕ) (jobs : List Job) (j : Job)
    → get_job job_id jobs ≡ some j
    → let r = increment_review_count job_id now jobs in
      (r.0 ≡ j.review_count + 1)
      × (get_job job_id r.1 ≡ some (record j { review_count = r.0; updated_at = now }))
unfolding increment_review_count get_job
increment_review_count-get_job job_id now jobs j h =
    let f : Job → Job = λ x. record x { review_count = x.review_count + 1; updated_at = now } in
    let e = fetchone-update_hit (with_id job_id) f jobs j (λ x. refl) h in
    let count =
      ap (λ (o : Option Job). elim o as (λ x. ℕ) [ none ↦ 0 | some x ↦ x.review_count ]) e in
    (count, e ∙ ap (λ c. some (record j { review_count = c; updated_at = now })) (sym count))

-- get_interrupted_jobs lists the jobs left executing, all of them and no others, oldest first.
pub get_interrupted_jobs-exact :
    (jobs : List Job)
    → All (λ j. has_status j.status executing ≡ true) (get_interrupted_jobs jobs)
      × Pairwise (λ a b. a.created_at ≤ b.created_at) (get_interrupted_jobs jobs)
      × (length (get_interrupted_jobs jobs) ≡ rowcount (λ j. has_status j.status executing) jobs)
unfolding get_interrupted_jobs
get_interrupted_jobs-exact jobs =
    let rows = select (λ j. has_status j.status executing) jobs in
    (
      All-sort_by (λ j. j.created_at) _ rows
          (All-select_sat (λ j. has_status j.status executing) jobs),
      sort_by-IsOrdered (λ j. j.created_at) rows,
      length-sort_by (λ j. j.created_at) rows
          ∙ length-select (λ j. has_status j.status executing) jobs,
    )
