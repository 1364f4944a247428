-- ===== src/Execution/Leases/Reclaim.antt =====
-- Which workers count as dead, and what reclaiming their jobs does to the two tables.
use local_mind.Base.{
  ℕ, ◌+◌, ◌*◌, ◌≤◌, ◌≡◌, refl, ◌∙◌, ap, Bool, false, not, ◌&&◌, List, [], ◌∷◌, map, Option, none,
  some, inl, inr, arith, ◌==◌, exists, if◌then◌else◌, Option-cases, Bool-cases, All, All-of_mem,
  exists_of_mem,
}
use local_mind.Jobs.{Job, executing, running, has_status, get_job}
use local_mind.Execution.Leases.{
  WorkerLease, dead, is_dead, heartbeat, find_dead_workers, mark_dead, reset_job, job_of,
  claim_orphaned_jobs,
}

-- `worker_id in workers`
abbrev pub contains : ℕ → List ℕ → Bool
contains worker_id workers = exists (λ w. w == worker_id) workers

find_dead_workers-contains :
    (worker_id timeout_sec now : ℕ) (leases : List WorkerLease)
    → contains worker_id (find_dead_workers timeout_sec now leases)
      ≡ exists (λ l. l.worker_id == worker_id && is_dead timeout_sec now l) leases
unfolding find_dead_workers
find_dead_workers-contains worker_id timeout_sec now [] = refl
find_dead_workers-contains worker_id timeout_sec now (l ∷ leases) =
    ground (arith, find_dead_workers-contains worker_id timeout_sec now leases)

heartbeat-alive :
    (worker_id timeout_sec at now : ℕ) (job task : Option ℕ) (leases : List WorkerLease)
    → now ≤ at + timeout_sec * 1000000
    → exists
        (λ l. l.worker_id == worker_id && is_dead timeout_sec now l)
        (heartbeat worker_id job task at leases)
      ≡ false
unfolding heartbeat
heartbeat-alive worker_id timeout_sec at now job task [] h = refl
heartbeat-alive worker_id timeout_sec at now job task (l ∷ leases) h =
    ground (arith, heartbeat-alive worker_id timeout_sec at now job task leases)

-- A worker that has sent a heartbeat is not found dead until the timeout is over.
pub heartbeat-find_dead_workers :
    (worker_id timeout_sec at now : ℕ) (job task : Option ℕ) (leases : List WorkerLease)
    → now ≤ at + timeout_sec * 1000000
    → contains worker_id
        (find_dead_workers timeout_sec now (heartbeat worker_id job task at leases))
      ≡ false
heartbeat-find_dead_workers worker_id timeout_sec at now job task leases h =
    find_dead_workers-contains worker_id timeout_sec now _
    ∙ heartbeat-alive worker_id timeout_sec at now job task leases h

-- What `claim_orphaned_jobs` makes of a lease, given whether its worker is one of the dead.
abbrev pub ended : Bool → WorkerLease → WorkerLease
ended d l =
    if d then record l { status = dead; current_job_id = none; current_node_id = none } else l

mark_dead-map :
    (w : ℕ) (leases : List WorkerLease)
    → mark_dead w leases ≡ map (λ l. ended (w == l.worker_id) l) leases
unfolding mark_dead
mark_dead-map w [] = refl
mark_dead-map w (l ∷ leases) = ground (arith, mark_dead-map w leases)

map-ended_none : (leases : List WorkerLease) → leases ≡ map (λ l. ended false l) leases
map-ended_none [] = refl
map-ended_none (l ∷ leases) = ap (λ ls. l ∷ ls) (map-ended_none leases)

map-ended_twice :
    (w : ℕ) (ws : List ℕ) (leases : List WorkerLease)
    → map (λ l. ended (contains l.worker_id ws) l) (map (λ l. ended (w == l.worker_id) l) leases)
      ≡ map (λ l. ended (contains l.worker_id (w ∷ ws)) l) leases
map-ended_twice w ws [] = refl
map-ended_twice w ws (l ∷ leases) = ground (arith, map-ended_twice w ws leases)

-- Afterwards the lease of every worker in the list is dead and names no job, and the lease of every
-- other worker is as it was.
pub claim_orphaned_jobs-map :
    (workers : List ℕ) (now : ℕ) (leases : List WorkerLease) (jobs : List Job)
    → (claim_orphaned_jobs workers now leases jobs).1
      ≡ map (λ l. ended (contains l.worker_id workers) l) leases
unfolding claim_orphaned_jobs
claim_orphaned_jobs-map [] now leases jobs = map-ended_none leases
claim_orphaned_jobs-map (w ∷ ws) now leases jobs =
    let step =
      ap (map (λ l. ended (contains l.worker_id ws) l)) (mark_dead-map w leases)
      ∙ map-ended_twice w ws leases in
    elim (Option-cases (job_of w leases)) [
      | inl n ↦
          rw (n, claim_orphaned_jobs)
            (claim_orphaned_jobs-map ws now (mark_dead w leases) jobs ∙ step)
      | inr (j, e) ↦
          rw (e, claim_orphaned_jobs)
            (claim_orphaned_jobs-map ws now (mark_dead w leases) (reset_job j now jobs) ∙ step)
    ]

none_dead :
    (timeout_sec now : ℕ) (workers : List ℕ) (leases : List WorkerLease)
    → All (λ l. is_dead timeout_sec now l && not (contains l.worker_id workers) ≡ false) leases
    → find_dead_workers timeout_sec now (map (λ l. ended (contains l.worker_id workers) l) leases)
      ≡ []
unfolding find_dead_workers
none_dead timeout_sec now workers [] h = refl
none_dead timeout_sec now workers (l ∷ leases) h =
    ground (arith, h.0, none_dead timeout_sec now workers leases h.1)

-- A sweep is complete: once the workers that are found dead are reclaimed, with one reading of the
-- clock, none is found dead. Their leases are dead and name no job, and the leases of all other
-- workers are as they were.
pub sweep_complete :
    (timeout_sec now : ℕ) (leases : List WorkerLease) (jobs : List Job)
    → let workers = find_dead_workers timeout_sec now leases in
      let leases' = (claim_orphaned_jobs workers now leases jobs).1 in
      (find_dead_workers timeout_sec now leases' ≡ [])
      × (leases' ≡ map (λ l. ended (contains l.worker_id workers) l) leases)
sweep_complete timeout_sec now leases jobs =
    let workers = find_dead_workers timeout_sec now leases in
    let same = claim_orphaned_jobs-map workers now leases jobs in
    (
      ap (find_dead_workers timeout_sec now) same
          ∙ none_dead timeout_sec now workers leases (
              All-of_mem _ leases (λ l m. elim (Bool-cases (is_dead timeout_sec now l)) [
                | inl t ↦
                    let found =
                      find_dead_workers-contains l.worker_id timeout_sec now leases
                      ∙ exists_of_mem (λ x. x.worker_id == l.worker_id && is_dead timeout_sec now x)
                          leases l m (ground arith) in
                    ground (arith, found)
                | inr f ↦ ground arith
              ])),
      same,
    )

reset_job-get_job :
    (job_id id now : ℕ) (jobs : List Job) (j : Job)
    → get_job id jobs ≡ some j
    → has_status j.status running ≡ false
    → get_job id (reset_job job_id now jobs) ≡ some j
unfolding get_job reset_job
reset_job-get_job job_id id now [] j h e = h
reset_job-get_job job_id id now (k ∷ jobs) j h e =
    ground (arith, reset_job-get_job job_id id now jobs j)

claim_orphaned_jobs-get_job :
    (workers : List ℕ) (now id : ℕ) (leases : List WorkerLease) (jobs : List Job) (j : Job)
    → get_job id jobs ≡ some j
    → has_status j.status running ≡ false
    → get_job id (claim_orphaned_jobs workers now leases jobs).2 ≡ some j
unfolding claim_orphaned_jobs
claim_orphaned_jobs-get_job [] now id leases jobs j h e = h
claim_orphaned_jobs-get_job (w ∷ ws) now id leases jobs j h e =
    elim (Option-cases (job_of w leases)) [
      | inl n ↦
          rw (n, claim_orphaned_jobs)
            (claim_orphaned_jobs-get_job ws now id (mark_dead w leases) jobs j h e)
      | inr (k, f) ↦
          rw (f, claim_orphaned_jobs)
            (claim_orphaned_jobs-get_job ws now id (mark_dead w leases) (reset_job k now jobs) j
              (reset_job-get_job k id now jobs j h e) e)
    ]

claim_orphaned_jobs-reported :
    (worker : ℕ) (workers : List ℕ) (now id : ℕ) (leases : List WorkerLease) (jobs : List Job)
    → job_of worker leases ≡ some id
    → (rest : List ℕ) × ((claim_orphaned_jobs (worker ∷ workers) now leases jobs).0 ≡ id ∷ rest)
unfolding claim_orphaned_jobs
claim_orphaned_jobs-reported worker workers now id leases jobs h =
    rw (h, claim_orphaned_jobs) (_, refl)

-- A job that the dead worker was executing, with the status 'executing' of JobStatus, is reported
-- as reclaimed, and stays as it is: it does not become pending, and no lease names it any more.
pub executing_stays :
    (worker : ℕ) (workers : List ℕ) (now id : ℕ) (leases : List WorkerLease) (jobs : List Job)
    (j : Job)
    → job_of worker leases ≡ some id
    → get_job id jobs ≡ some j
    → j.status ≡ executing
    → ((rest : List ℕ) × ((claim_orphaned_jobs (worker ∷ workers) now leases jobs).0 ≡ id ∷ rest))
      × (get_job id (claim_orphaned_jobs (worker ∷ workers) now leases jobs).2 ≡ some j)
executing_stays worker workers now id leases jobs j h g e = (
  claim_orphaned_jobs-reported worker workers now id leases jobs h,
  claim_orphaned_jobs-get_job (worker ∷ workers) now id leases jobs j g (rw e refl),
)
