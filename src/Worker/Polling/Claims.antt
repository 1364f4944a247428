-- ===== src/Worker/Polling/Claims.antt =====
-- Workers of several processes that poll the same table: their statements in any order.
use local_mind.Base.{
  ℕ, ◌≡◌, ◌≢◌, refl, ap, sym, subst, true, false, List, [], ◌∷◌, Option, some, arith, Memᴰ, All,
  All-mono, Pairwise, rowcount,
}
use local_mind.Jobs.{Job, JobStatus, pending, has_status, update_job_status}
use local_mind.Worker.Polling.{select_pending, claim, is_claimable}

-- The table, the job that each worker has read and not tried to take yet, and those that were taken,
-- the last first, with the worker.
pub record Pool : Type 0 where
  pub jobs : List Job
  pub held : List (ℕ × ℕ)
  pub taken : List (ℕ × ℕ)

pub data Step (p : Pool) : Pool → Type 0 where
  reads :
      (worker : ℕ) (j : Job)
      → select_pending p.jobs ≡ some j
      → Step p (record p { held = (worker, j.id) ∷ p.held })
  takes :
      (worker job_id now : ℕ)
      → Memᴰ (worker, job_id) p.held
      → (claim job_id now p.jobs).0 ≡ true
      → Step p (record p { jobs = (claim job_id now p.jobs).1; taken = (worker, job_id) ∷ p.taken })
  misses :
      (worker job_id now : ℕ)
      → Memᴰ (worker, job_id) p.held
      → (claim job_id now p.jobs).0 ≡ false
      → Step p (record p { jobs = (claim job_id now p.jobs).1 })
  -- a later status, of a worker or of a request to cancel
  moves :
      (job_id now : ℕ) (status : JobStatus) (error summary : Option ℕ)
      → has_status status pending ≡ false
      → Step p (record p { jobs = update_job_status job_id status error summary now p.jobs })

pub data Steps (p : Pool) : Pool → Type 0 where
  start : Steps p p
  next : (q r : Pool) → Steps p q → Step q r → Steps p r

-- No row of the job is pending.
abbrev IsTaken : List Job → ℕ → Type 0
IsTaken jobs job_id = rowcount (is_claimable job_id) jobs ≡ 0

claim-IsTaken : (job_id now : ℕ) (jobs : List Job) → IsTaken (claim job_id now jobs).1 job_id
unfolding claim
claim-IsTaken job_id now [] = refl
claim-IsTaken job_id now (j ∷ jobs) = ground (arith, claim-IsTaken job_id now jobs)

claim-keeps-IsTaken :
    (job_id now other : ℕ) (jobs : List Job)
    → IsTaken jobs other
    → IsTaken (claim job_id now jobs).1 other
unfolding claim
claim-keeps-IsTaken job_id now other [] h = refl
claim-keeps-IsTaken job_id now other (j ∷ jobs) h =
    ground (arith, claim-keeps-IsTaken job_id now other jobs)

update_job_status-IsTaken :
    (job_id now other : ℕ) (status : JobStatus) (error summary : Option ℕ) (jobs : List Job)
    → has_status status pending ≡ false
    → IsTaken jobs other
    → IsTaken (update_job_status job_id status error summary now jobs) other
unfolding update_job_status
update_job_status-IsTaken job_id now other status error summary [] e h = refl
update_job_status-IsTaken job_id now other status error summary (j ∷ jobs) e h =
    ground (arith, update_job_status-IsTaken job_id now other status error summary jobs e)

abbrev Distinct : List (ℕ × ℕ) → Type 0
Distinct taken = Pairwise (λ a b. a.1 ≢ b.1) taken

abbrev Inv : Pool → Type 0
Inv p = All (λ a. IsTaken p.jobs a.1) p.taken × Distinct p.taken

-- A claim that succeeds is not of a job that was taken.
claim-fresh :
    (job_id now other : ℕ) (jobs : List Job)
    → (claim job_id now jobs).0 ≡ true
    → IsTaken jobs other
    → job_id ≢ other
unfolding claim
claim-fresh job_id now other jobs t h e =
    let same = ap (λ i. rowcount (is_claimable i) jobs) e in ground arith

Step-Inv : (p q : Pool) → Step p q → Inv p → Inv q
Step-Inv p q (Step.reads worker j h) inv = inv
Step-Inv p q (Step.takes worker job_id now m h) inv = (
  (
    claim-IsTaken job_id now p.jobs,
    All-mono _ _ p.taken (λ a k. claim-keeps-IsTaken job_id now a.1 p.jobs k) inv.0,
  ),
  (All-mono _ _ p.taken (λ a k. claim-fresh job_id now a.1 p.jobs h k) inv.0, inv.1),
)
Step-Inv p q (Step.misses worker job_id now m h) inv =
    (All-mono _ _ p.taken (λ a k. claim-keeps-IsTaken job_id now a.1 p.jobs k) inv.0, inv.1)
Step-Inv p q (Step.moves job_id now status error summary e) inv = (
  All-mono _ _ p.taken
      (λ a k. update_job_status-IsTaken job_id now a.1 status error summary p.jobs e k) inv.0,
  inv.1,
)

Steps-Inv : (p q : Pool) → Steps p q → Inv p → Inv q
Steps-Inv p q Steps.start inv = inv
Steps-Inv p q (Steps.next r q' steps step) inv = Step-Inv r q step (Steps-Inv p r steps inv)

-- However the statements of the workers come between each other, and whatever becomes of the jobs, as
-- long as none is put back to pending, no job is taken twice, by one worker or by two.
pub Steps-Distinct : (p q : Pool) → Steps p q → p.taken ≡ [] → Pairwise (λ a b. a.1 ≢ b.1) q.taken
Steps-Distinct p q steps none_yet =
    (Steps-Inv p q steps
      (subst (All (λ a. IsTaken p.jobs a.1)) (sym none_yet) tt, subst Distinct (sym none_yet) tt)).1
