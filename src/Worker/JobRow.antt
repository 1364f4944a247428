-- ===== src/Worker/JobRow.antt =====
-- What the worker, and those that act where it awaits, leave of the job's row.
use local_mind.Base.{
  ℕ, suc, ◌+◌, ◌≡◌, ◌⊎◌, refl, sym, ◌∙◌, subst, Bool, true, ◌||◌, List, Option, none, some, inl,
  inr, arith, Bool-cases, fetchone-update_hit, leb,
}
use local_mind.Jobs.{
  Job, JobStatus, has_status, with_id, get_job, update_job_status, increment_review_count,
}
use local_mind.Jobs.Queries.{increment_review_count-get_job}
use local_mind.Worker.{
  Services, World, DelegateSpec, await, is_cancel, open_circuit, record_failure, handle_failure,
  circuit_breaker_threshold, circuit_open_pause_sec,
}

-- The job's row stays, with its count of reviews, and its status only changes to a cancelled one.
abbrev pub Keeps : (job_id : ℕ) → List Job → List Job → Type 0
Keeps job_id jobs jobs' =
    (j : Job)
    → get_job job_id jobs ≡ some j
    → (j' : Job) × (get_job job_id jobs' ≡ some j')
      × (j'.review_count ≡ j.review_count)
      × ((j'.status ≡ j.status) ⊎ (is_cancel j'.status ≡ true))

-- Others may cancel the job while the worker waits, or change other jobs, and a spawn of a child may do
-- no more.
abbrev pub IsFair : Services → (job_id : ℕ) → Type 0
IsFair s job_id =
    ((t : ℕ) (jobs : List Job) → Keeps job_id jobs (s.outside t jobs))
    × ((t : ℕ) (job : Job) (spec : DelegateSpec) (jobs : List Job)
        → Keeps job_id jobs (s.spawn t job spec jobs).1)

-- `done`, `failed`, `cancelled`, or `cancelling` where the request came last.
abbrev pub is_settled : JobStatus → Bool
is_settled status =
    has_status status JobStatus.done || (has_status status JobStatus.failed || is_cancel status)

module _ (job_id : ℕ) where
  -- The row is there, with a number of reviews.
  abbrev pub At : (review_count : ℕ) → List Job → Type 0
  At c jobs = (j : Job) × (get_job job_id jobs ≡ some j) × (j.review_count ≡ c)

  abbrev pub Settled : List Job → Type 0
  Settled jobs = (j : Job) × (get_job job_id jobs ≡ some j) × (is_settled j.status ≡ true)

  pub At-Keeps : (c : ℕ) (jobs jobs' : List Job) → Keeps job_id jobs jobs' → At c jobs → At c jobs'
  At-Keeps c jobs jobs' keep (j, h, e) = let (j', h', e', st) = keep j h in (j', h', e' ∙ e)

  pub Settled-Keeps :
      (jobs jobs' : List Job) → Keeps job_id jobs jobs' → Settled jobs → Settled jobs'
  Settled-Keeps jobs jobs' keep (j, h, e) =
      let (j', h', e', st) = keep j h in
      (
        j',
        h',
        elim st [
          | inl same ↦ subst (λ x. is_settled x ≡ true) (sym same) e
          | inr c ↦ ground (arith, c)
        ],
      )

  module _ (status : JobStatus) (error summary : Option ℕ) (now : ℕ) where
    pub At-update_job_status :
        (c : ℕ) (jobs : List Job)
        → At c jobs
        → At c (update_job_status job_id status error summary now jobs)
    unfolding update_job_status get_job
    At-update_job_status c jobs (j, h, e) =
        (_, fetchone-update_hit (with_id job_id) _ jobs j (λ x. refl) h, e)

    pub Settled-update_job_status :
        (c : ℕ) (jobs : List Job)
        → is_settled status ≡ true
        → At c jobs
        → Settled (update_job_status job_id status error summary now jobs)
    unfolding update_job_status get_job
    Settled-update_job_status c jobs settled (j, h, e) =
        (_, fetchone-update_hit (with_id job_id) _ jobs j (λ x. refl) h, settled)

  -- The count that is returned is the one that the row then has.
  pub At-increment_review_count :
      (c now : ℕ) (jobs : List Job)
      → At c jobs
      → ((increment_review_count job_id now jobs).0 ≡ suc c)
        × At (suc c) (increment_review_count job_id now jobs).1
  At-increment_review_count c now jobs (j, h, e) =
      let (count, row) = increment_review_count-get_job job_id now jobs j h in
      (omega arith, (_, row, omega arith))

module _ (s : Services) (job_id : ℕ) (fair : IsFair s job_id) where
  pub At-await : (c : ℕ) (w : World) → At job_id c w.jobs → At job_id c (await s w).jobs
  At-await c w h = At-Keeps job_id c w.jobs (s.outside w.tick w.jobs) (fair.0 w.tick w.jobs) h

  pub Settled-await : (w : World) → Settled job_id w.jobs → Settled job_id (await s w).jobs
  Settled-await w h = Settled-Keeps job_id w.jobs (s.outside w.tick w.jobs) (fair.0 w.tick w.jobs) h

  Settled-open_circuit :
      (w : World) → Settled job_id w.jobs → Settled job_id (open_circuit s w).jobs
  Settled-open_circuit w h =
      elim (Bool-cases (leb circuit_breaker_threshold w.consecutive_failures)) [
        | inl t ↦
            let pause = s.monotonic w.tick + circuit_open_pause_sec in
            rw (t, open_circuit) (Settled-await (record w { circuit_open_until = pause }) h)
        | inr f ↦ rw (f, open_circuit) h
      ]

  -- However a job fails, its row says so, unless it is cancelled at that moment.
  pub handle_failure-Settled :
      (c error : ℕ) (w : World)
      → At job_id c w.jobs
      → Settled job_id (handle_failure s job_id error w).jobs
  unfolding handle_failure
  handle_failure-Settled c error w h =
      let failed = record_failure s job_id error w in
      Settled-await (open_circuit s failed) (
        Settled-open_circuit failed (
          Settled-update_job_status job_id JobStatus.failed (some error) none (s.now w.tick) c
            w.jobs refl h))
