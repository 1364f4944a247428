-- ===== src/Worker/Attempts/Steps.antt =====
-- What the last steps of an attempt leave of the job: the review, and what follows it.
use local_mind.Base.{
  ℕ, suc, ◌<◌, ◌≡◌, refl, sym, ◌∙◌, subst, Bool, true, false, List, [], ◌∷◌, Option, none, some,
  inl, inr, arith, Bool-cases, leb,
}
use local_mind.Jobs.{Job, JobStatus, reviewing, done, increment_review_count}
use local_mind.Jobs.Nodes.{Node, NodeDef, get_nodes}
use local_mind.JobRecords.{get_files}
use local_mind.Worker.{
  Reason, Review, Action, Services, World, add_audit, await, set_status, fail_job,
}
use local_mind.Worker.JobRow.{
  At, Settled, IsFair, At-await, At-update_job_status, Settled-await, Settled-update_job_status,
  At-increment_review_count, handle_failure-Settled,
}
use local_mind.Worker.Attempts.{
  Exit, returned, uncaught, unfinished, Outcome, ended, again, is_cancelled_node, cancel_node,
  cancel_nodes, reset_nodes_for_retry, retry_with, verdict, judge, re_plan, review_rejected,
  review_passed, run_review,
}

module _ (job_id : ℕ) where
  -- What holds after a run: a settled job if it returns, and a row that is there if an exception
  -- leaves it. It is never unfinished.
  abbrev pub Left : Exit → World → Type 0
  Left returned w = Settled job_id w.jobs
  Left uncaught w = (c : ℕ) × At job_id c w.jobs
  Left unfinished w = ⊥

  -- What holds after an attempt, the reviews before it being `c`.
  abbrev pub Goes : (c max_reviews : ℕ) → Outcome → World → Type 0
  Goes c max_reviews (ended exit) w = Left exit w
  Goes c max_reviews again w = At job_id (suc c) w.jobs × (suc c < max_reviews)

module _ (s : Services) (job : Job) (fair : IsFair s job.id) where
  pub fail_job-Settled :
      (c : ℕ) (reason : Reason) (w : World)
      → At job.id c w.jobs
      → Settled job.id (fail_job s job.id reason w).jobs
  fail_job-Settled c reason w h = handle_failure-Settled s job.id fair c (s.text reason) w h

  -- A new status, an entry, and the wait of the event.
  pub announce-At :
      (c : ℕ) (status : JobStatus) (action : Action) (w : World)
      → At job.id c w.jobs
      → At job.id c
          (await s (add_audit job.id action (set_status s job.id status none none w))).jobs
  announce-At c status action w h =
      At-await s job.id fair c (add_audit job.id action (set_status s job.id status none none w))
        (At-update_job_status job.id status none none (s.now w.tick) c w.jobs h)

  cancel_node-jobs : (n : Node) (w : World) → (cancel_node s n w).jobs ≡ w.jobs
  cancel_node-jobs n w = elim (Bool-cases (is_cancelled_node n.status)) [
    | inl t ↦ rw (t, cancel_node) refl
    | inr f ↦ rw (f, cancel_node) refl
  ]

  cancel_nodes-jobs : (nodes : List Node) (w : World) → (cancel_nodes s nodes w).jobs ≡ w.jobs
  cancel_nodes-jobs [] w = refl
  cancel_nodes-jobs (n ∷ nodes) w =
      cancel_nodes-jobs nodes (cancel_node s n w) ∙ cancel_node-jobs n w

  reset_nodes_for_retry-jobs :
      (defs : List NodeDef) (w : World) → (reset_nodes_for_retry s job defs w).1.jobs ≡ w.jobs
  unfolding reset_nodes_for_retry
  reset_nodes_for_retry-jobs defs w = cancel_nodes-jobs (get_nodes job.id w.nodes) w

  module _ (max_reviews c : ℕ) where
    retry_with-Goes :
        (plan : Option (List NodeDef)) (w : World)
        → At job.id (suc c) w.jobs
        → suc c < max_reviews
        → Goes job.id c max_reviews (retry_with s job plan w).0 (retry_with s job plan w).1
    retry_with-Goes none w h lt = fail_job-Settled (suc c) Reason.re_planning_error w h
    retry_with-Goes (some defs) w h lt =
        let r = reset_nodes_for_retry s job defs w in
        let row = subst (At job.id (suc c)) (sym (reset_nodes_for_retry-jobs defs w)) h in
        elim (Bool-cases r.0) [
          | inl t ↦ rw (t, retry_with) (row, lt)
          | inr f ↦ rw (f, retry_with) (fail_job-Settled (suc c) Reason.re_planning_error r.1 row)
        ]

    re_plan-Goes :
        (feedback : ℕ) (w : World)
        → At job.id (suc c) w.jobs
        → suc c < max_reviews
        → Goes job.id c max_reviews (re_plan s job feedback w).0 (re_plan s job feedback w).1
    unfolding re_plan
    re_plan-Goes feedback w h lt =
        retry_with-Goes
          (s.plan w.tick job (some feedback) (get_files job.id (some s.input_type) w.files))
          (await s w) (At-await s job.id fair (suc c) w h) lt

    review_rejected-Goes :
        (feedback : ℕ) (w : World)
        → At job.id c w.jobs
        → Goes job.id c max_reviews
            (review_rejected s max_reviews job feedback w).0
            (review_rejected s max_reviews job feedback w).1
    unfolding review_rejected
    review_rejected-Goes feedback w h =
        let r = increment_review_count job.id (s.now w.tick) w.jobs in
        let (count, row) = At-increment_review_count job.id c (s.now w.tick) w.jobs h in
        let w' = await s (record w { jobs = r.1 }) in
        let row' = At-await s job.id fair (suc c) (record w { jobs = r.1 }) row in
        elim (Bool-cases (leb max_reviews r.0)) [
          | inl t ↦ elim (Bool-cases (s.analysis_raises w.tick)) [
            | inl u ↦ rw (t, u) (suc c, row')
            | inr v ↦
                rw (t, v) (fail_job-Settled (suc c) (Reason.review_failed r.0 feedback) w' row')
          ]
          | inr f ↦ rw f (re_plan-Goes feedback w' row' (ground arith))
        ]

    review_passed-Settled :
        (feedback : ℕ) (w : World)
        → At job.id c w.jobs
        → Settled job.id (review_passed s job feedback w).jobs
    unfolding review_passed
    review_passed-Settled feedback w h =
        Settled-await s job.id fair
          (add_audit job.id Action.done
            (set_status s job.id done none (some feedback) (record w { consecutive_failures = 0 })))
          (Settled-update_job_status job.id done none (some feedback) (s.now w.tick) c w.jobs refl
            h)

    verdict-Goes :
        (passed : Bool) (feedback : ℕ) (w : World)
        → At job.id c w.jobs
        → Goes job.id c max_reviews
            (verdict s max_reviews job passed feedback w).0
            (verdict s max_reviews job passed feedback w).1
    verdict-Goes true feedback w h = review_passed-Settled feedback w h
    verdict-Goes false feedback w h = review_rejected-Goes feedback w h

    judge-Goes :
        (review : Option Review) (w : World)
        → At job.id c w.jobs
        → Goes job.id c max_reviews
            (judge s max_reviews job review w).0
            (judge s max_reviews job review w).1
    judge-Goes none w h = fail_job-Settled c Reason.review_error w h
    judge-Goes (some review) w h =
        let noted = add_audit job.id (Action.review_result review.passed) w in
        verdict-Goes review.passed review.feedback (await s noted)
          (At-await s job.id fair c noted h)

    pub run_review-Goes :
        (nodes : List Node) (w : World)
        → At job.id c w.jobs
        → Goes job.id c max_reviews
            (run_review s max_reviews job nodes w).0
            (run_review s max_reviews job nodes w).1
    unfolding run_review
    run_review-Goes nodes w h =
        let w' =
          await s (add_audit job.id Action.reviewing (set_status s job.id reviewing none none w)) in
        judge-Goes (s.review w'.tick job nodes (get_files job.id (some s.output_type) w'.files))
          (await s w') (At-await s job.id fair c w' (announce-At c reviewing Action.reviewing w h))
