-- ===== src/Worker/Polling/Outcomes.antt =====
-- What a poll of the worker comes to.
use local_mind.Base.{ℕ, ◌⊎◌, ◌≡◌, true, Memᴰ}
use local_mind.Worker.{Moment, Services, World}
use local_mind.Worker.JobRow.{Settled}
use local_mind.Worker.Polling.{PollExit, done, cancelled_error}

-- The poll ends with the job settled, or a CancelledError reached the worker's task at an await, and is
-- passed on with the jobs as they were there.
abbrev pub SeenThrough : Services → (job_id : ℕ) → PollExit × World → Type 0
SeenThrough s job_id (exit, w) =
    ((exit ≡ done) × Settled job_id w.jobs)
    ⊎ ((m : Moment) × (exit ≡ cancelled_error)
        × (s.task_cancelled m.tick ≡ true)
        × Memᴰ m w.awaits
        × (w.jobs ≡ m.jobs))
