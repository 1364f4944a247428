-- ===== src/Execution/Leases.antt =====
-- WorkerLeaseManager of backend/core/execution.py, over worker_leases and jobs. Times are in
-- microseconds.
pub mod Reclaim
use local_mind.Base.{
  ℕ, ◌-◌, ◌*◌, Bool, true, false, not, ◌&&◌, List, [], ◌∷◌, map, Option, none, some, ltb, ◌==◌,
  is_none, if◌then◌else◌, select, fetchone, update, insert, exists,
}
use local_mind.Jobs.{Job, JobStatus, pending, running, has_status}

pub data LeaseStatus : Type 0 where
  active released dead : LeaseStatus

abbrev pub is_active : LeaseStatus → Bool
is_active active = true
is_active _ = false

pub record WorkerLease : Type 0 where
  pub worker_id : ℕ
  pub hostname : ℕ
  pub pid : ℕ
  pub started_at : ℕ
  pub last_heartbeat : ℕ
  pub current_job_id : Option ℕ
  pub current_node_id : Option ℕ
  pub status : LeaseStatus
  pub capabilities_json : Option ℕ

abbrev pub of_worker : ℕ → WorkerLease → Bool
of_worker worker_id l = l.worker_id == worker_id

abbrev pub new_lease :
    (worker_id hostname pid : ℕ) → (capabilities_json : Option ℕ) → (now : ℕ) → WorkerLease
new_lease worker_id hostname pid capabilities_json now = record {
  worker_id = worker_id;
  hostname = hostname;
  pid = pid;
  started_at = now;
  last_heartbeat = now;
  current_job_id = none;
  current_node_id = none;
  status = active;
  capabilities_json = capabilities_json;
}

-- INSERT … ON CONFLICT(worker_id) DO UPDATE, which sets every other column. It returns True.
unfoldable pub acquire_lease :
    (worker_id hostname pid : ℕ)
    → (capabilities_json : Option ℕ) → (now : ℕ) → List WorkerLease
    → Bool × List WorkerLease
acquire_lease worker_id hostname pid capabilities_json now leases = (
  true,
  if exists (of_worker worker_id) leases
      then update (of_worker worker_id)
          (λ l. record l {
            hostname = hostname;
            pid = pid;
            started_at = now;
            last_heartbeat = now;
            status = active;
            capabilities_json = capabilities_json;
            current_job_id = none;
            current_node_id = none;
          })
          leases
      else insert (new_lease worker_id hostname pid capabilities_json now) leases,
)

-- Only an active lease is renewed.
unfoldable pub heartbeat :
    (worker_id : ℕ)
    → (current_job_id current_node_id : Option ℕ) → (now : ℕ) → List WorkerLease
    → List WorkerLease
heartbeat worker_id current_job_id current_node_id now leases =
    update (λ l. l.worker_id == worker_id && is_active l.status)
      (λ l. record l {
        last_heartbeat = now;
        current_job_id = current_job_id;
        current_node_id = current_node_id;
      })
      leases

unfoldable pub release_lease : (worker_id now : ℕ) → List WorkerLease → List WorkerLease
release_lease worker_id now leases =
    update (of_worker worker_id)
      (λ l. record l {
        status = released;
        current_job_id = none;
        current_node_id = none;
        last_heartbeat = now;
      })
      leases

-- Active, and not heard of since `timeout_sec` seconds before `now`.
abbrev pub is_dead : (timeout_sec now : ℕ) → WorkerLease → Bool
is_dead timeout_sec now l = is_active l.status && ltb l.last_heartbeat (now - timeout_sec * 1000000)

unfoldable pub find_dead_workers : (timeout_sec now : ℕ) → List WorkerLease → List ℕ
find_dead_workers timeout_sec now leases =
    map (λ l. l.worker_id) (select (is_dead timeout_sec now) leases)

-- The UPDATE of `jobs`: only a job whose status is the text 'running'.
unfoldable pub reset_job : (job_id now : ℕ) → List Job → List Job
reset_job job_id now jobs =
    update (λ j. j.id == job_id && has_status j.status running)
      (λ j. record j { status = pending; updated_at = now }) jobs

-- The UPDATE that ends a worker's lease.
unfoldable pub mark_dead : (worker_id : ℕ) → List WorkerLease → List WorkerLease
mark_dead worker_id leases =
    update (of_worker worker_id)
      (λ l. record l { status = dead; current_job_id = none; current_node_id = none }) leases

abbrev pub working : ℕ → WorkerLease → Bool
working worker_id l = l.worker_id == worker_id && not (is_none l.current_job_id)

-- The job that a worker's lease names; an empty id, which is false too, is no uuid.
unfoldable pub job_of : (worker_id : ℕ) → List WorkerLease → Option ℕ
job_of worker_id leases = elim (fetchone (working worker_id) leases) [
  | none ↦ none
  | some l ↦ l.current_job_id
]

-- The loop over the workers: the jobs reported as reclaimed, and both tables after it. All the
-- turns are one transaction, under one reading of the clock.
unfoldable pub claim_orphaned_jobs :
    (dead_worker_ids : List ℕ)
    → (now : ℕ) → List WorkerLease
    → List Job
    → List ℕ × List WorkerLease × List Job
unfolding reset_job mark_dead job_of
claim_orphaned_jobs [] now leases jobs = ([], leases, jobs)
claim_orphaned_jobs (wid ∷ wids) now leases jobs = elim (job_of wid leases) [
  | none ↦ claim_orphaned_jobs wids now (mark_dead wid leases) jobs
  | some job_id ↦
      let (reclaimed, leases', jobs') =
        claim_orphaned_jobs wids now (mark_dead wid leases) (reset_job job_id now jobs) in
      (job_id ∷ reclaimed, leases', jobs')
]
