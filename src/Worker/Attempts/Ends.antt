-- ===== src/Worker/Attempts/Ends.antt =====
-- Every run of a job ends, and leaves the job settled.
use local_mind.Base.{
  ℕ, zero, suc, ◌+◌, ◌≤◌, ◌<◌, ◌≡◌, refl, not, List, [], ◌∷◌, Option, none, some, arith, is_none,
}
use local_mind.Jobs.{Job, planning, get_job}
use local_mind.Jobs.Nodes.{Node, NodeDef, create_nodes}
use local_mind.JobRecords.{get_files}
use local_mind.Worker.{
  Reason, Action, Services, World, add_audit, await, set_status, absolute_max_reviews,
}
use local_mind.Worker.JobRow.{At, IsFair, At-await}
use local_mind.Worker.Attempts.{
  Exit, Outcome, ended, again, min, proceed, attempt, attempts, run_plan, after_creation,
  start_with, run_job,
}
use local_mind.Worker.Attempts.Steps.{Goes, Left, fail_job-Settled, announce-At}
use local_mind.Worker.Attempts.Turns.{attempt-Goes}

module _ (s : Services) (job : Job) (fair : IsFair s job.id) where
  module _ (job_start max_reviews : ℕ) where
    proceed-Left :
        (rest : World → Exit × World) (c : ℕ)
        → ((w : World) → At job.id (suc c) w.jobs → Left job.id (rest w).0 (rest w).1)
        → (outcome : Outcome) (w : World) → Goes job.id c max_reviews outcome w
        → Left job.id (proceed rest outcome w).0 (proceed rest outcome w).1
    proceed-Left rest c next (ended exit) w h = h
    proceed-Left rest c next again w h = next w h.0

    attempts-Left :
        (left c : ℕ) (w : World)
        → At job.id c w.jobs
        → Left job.id
            (attempts s left job_start max_reviews job w).0
            (attempts s left job_start max_reviews job w).1
    unfolding attempts
    attempts-Left zero c w h = fail_job-Settled s job fair c Reason.exceeded_cycles w h
    attempts-Left (suc left) c w h =
        let r = attempt s job_start max_reviews job w in
        proceed-Left (attempts s left job_start max_reviews job) c (attempts-Left left (suc c)) r.0
          r.1 (attempt-Goes s job fair max_reviews c job_start w h)

    proceed-same :
        (rest rest' : World → Exit × World) (c : ℕ)
        → ((w : World) → At job.id (suc c) w.jobs → suc c < max_reviews → rest w ≡ rest' w)
        → (outcome : Outcome) (w : World) → Goes job.id c max_reviews outcome w
        → proceed rest outcome w ≡ proceed rest' outcome w
    proceed-same rest rest' c next (ended exit) w h = refl
    proceed-same rest rest' c next again w h = next w h.0 h.1

    -- Two loops that do the same after a first attempt do the same.
    attempts-next :
        (left more c : ℕ) (w : World)
        → At job.id c w.jobs
        → ((w' : World)
            → At job.id (suc c) w'.jobs
            → suc c < max_reviews
            → attempts s left job_start max_reviews job w'
              ≡ attempts s more job_start max_reviews job w')
        → attempts s (suc left) job_start max_reviews job w
          ≡ attempts s (suc more) job_start max_reviews job w
    unfolding attempts
    attempts-next left more c w h next =
        let r = attempt s job_start max_reviews job w in
        proceed-same (attempts s left job_start max_reviews job)
          (attempts s more job_start max_reviews job) c next r.0 r.1
          (attempt-Goes s job fair max_reviews c job_start w h)

    -- A job that has been reviewed `c` times is attempted at most `max_reviews - c` times more, and
    -- once at least: two loops that both allow for as many do the same, so neither is ever left by
    -- running out of attempts.
    pub attempts_enough :
        (left more c : ℕ) (w : World)
        → At job.id c w.jobs
        → max_reviews ≤ c + suc left
        → max_reviews ≤ c + suc more
        → attempts s (suc left) job_start max_reviews job w
          ≡ attempts s (suc more) job_start max_reviews job w
    attempts_enough zero zero c w h le le' = refl
    attempts_enough zero (suc more) c w h le le' =
        attempts-next zero (suc more) c w h (λ w' h' lt. absurd (omega arith))
    attempts_enough (suc left) zero c w h le le' =
        attempts-next (suc left) zero c w h (λ w' h' lt. absurd (omega arith))
    attempts_enough (suc left) (suc more) c w h le le' =
        attempts-next (suc left) (suc more) c w h
          (λ w' h' lt. attempts_enough left more (suc c) w' h' (omega arith) (omega arith))

  after_creation-Left :
      (job_start c : ℕ) (created : Option (List Node)) (w : World)
      → At job.id c w.jobs
      → Left job.id
          (after_creation s job_start job created w).0
          (after_creation s job_start job created w).1
  after_creation-Left job_start c none w h =
      fail_job-Settled s job fair c Reason.node_creation_error w h
  after_creation-Left job_start c (some nodes) w h =
      let max_reviews = min job.max_reviews absolute_max_reviews in
      attempts-Left job_start max_reviews (suc max_reviews) c (await s w)
        (At-await s job.id fair c w h)

  run_plan-Left :
      (job_start c : ℕ) (defs : List NodeDef) (w : World)
      → At job.id c w.jobs
      → Left job.id (run_plan s job_start job defs w).0 (run_plan s job_start job defs w).1
  unfolding run_plan
  run_plan-Left job_start c defs w h =
      let max_reviews = min job.max_reviews absolute_max_reviews in
      let r =
        create_nodes job.id (s.now w.tick) (s.node_ids w.tick) defs
          (not (is_none (get_job job.id w.jobs))) w.nodes in
      let stored = record w { nodes = r.1 } in after_creation-Left job_start c r.0 stored h

  start_with-Left :
      (job_start c : ℕ) (plan : Option (List NodeDef)) (w : World)
      → At job.id c w.jobs
      → Left job.id (start_with s job_start job plan w).0 (start_with s job_start job plan w).1
  start_with-Left job_start c none w h = fail_job-Settled s job fair c Reason.planning_error w h
  start_with-Left job_start c (some []) w h = fail_job-Settled s job fair c Reason.no_nodes w h
  start_with-Left job_start c (some (d ∷ defs)) w h = run_plan-Left job_start c (d ∷ defs) w h

  pub run_job-Left :
      (c : ℕ) (w : World) → At job.id c w.jobs → Left job.id (run_job s job w).0 (run_job s job w).1
  unfolding run_job
  run_job-Left c w h =
      let w' =
        await s (add_audit job.id Action.planning (set_status s job.id planning none none w)) in
      start_with-Left (s.monotonic w.tick) c
        (s.plan w'.tick job none (get_files job.id (some s.input_type) w'.files)) (await s w')
        (At-await s job.id fair c w' (announce-At s job fair c planning Action.planning w h))
