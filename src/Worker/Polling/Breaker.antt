-- ===== src/Worker/Polling/Breaker.antt =====
-- What a failure leaves: the count of `_handle_failure`, its circuit breaker, and the row of the job.
use local_mind.Base.{
  ℕ, suc, ◌⊎◌, ◌+◌, ◌≤◌, ◌<◌, ◌≡◌, refl, sym, subst, true, List, [], ◌∷◌, some, inl, inr, arith,
  ltb, leb, Bool-cases, Option-cases, fetchone-update_hit, ◌++◌, false,
}
use local_mind.Jobs.{Job, JobStatus, get_job, with_id, update_job_status}
use local_mind.Worker.{
  Services, World, Action, await, record_failure, open_circuit, handle_failure, is_cancel,
  is_cancelled, circuit_breaker_threshold, circuit_open_pause_sec,
}
use local_mind.Worker.JobRow.{IsFair}
use local_mind.Worker.Polling.{done, poll_and_execute}

module _ (s : Services) where
  poll_and_execute-open :
      (w : World)
      → ltb (s.monotonic w.tick) w.circuit_open_until ≡ true
      → poll_and_execute s w ≡ (done, w)
  unfolding poll_and_execute
  poll_and_execute-open w h = rw (h, poll_and_execute) refl

  -- One more failure than in `w`: from the third in a row on the circuit is open for 300 seconds, in
  -- which a poll does nothing, and before that it is as it was.
  abbrev pub Counted : World → World → Type 0
  Counted w w' =
      (w'.consecutive_failures ≡ suc w.consecutive_failures)
      × (((3 ≤ w'.consecutive_failures)
            × ((s.monotonic w.tick + 300 ≤ s.monotonic w'.tick)
                ⊎ (poll_and_execute s w' ≡ (done, w'))))
          ⊎ ((w'.consecutive_failures < 3) × (w'.circuit_open_until ≡ w.circuit_open_until)))

  -- A failure is counted; from the third in a row on it opens the circuit for 300 seconds, in which a
  -- poll does nothing, and before that it leaves the circuit as it is.
  pub handle_failure-Counted :
      (job_id error : ℕ) (w : World) → Counted w (handle_failure s job_id error w)
  unfolding handle_failure
  handle_failure-Counted job_id error w =
      let counted = record_failure s job_id error w in
      let until = s.monotonic w.tick + circuit_open_pause_sec in
      elim (Bool-cases (leb circuit_breaker_threshold counted.consecutive_failures)) [
        | inl t ↦
            let w' = await s (await s (record counted { circuit_open_until = until })) in
            subst (Counted w) (rw (t, open_circuit) refl) (
              refl,
              inl (
                ground arith,
                elim (Bool-cases (ltb (s.monotonic w'.tick) until)) [
                  | inl early ↦ inr (poll_and_execute-open w' early)
                  | inr late ↦ inl (ground arith)
                ],
              ),
            )
        | inr f ↦
            subst (Counted w) {x = await s counted} (rw (f, open_circuit) refl)
              (refl, inr (ground arith, refl))
      ]

  pub handle_failure-counts :
      (job_id error : ℕ) (w : World)
      → ((handle_failure s job_id error w).consecutive_failures ≡ suc w.consecutive_failures)
        × ((handle_failure s job_id error w).audit ≡ w.audit ++ (job_id, Action.failed) ∷ [])
  unfolding handle_failure
  handle_failure-counts job_id error w =
      let failures = (record_failure s job_id error w).consecutive_failures in
      elim (Bool-cases (leb circuit_breaker_threshold failures)) [
        | inl t ↦ rw (t, handle_failure, open_circuit) (refl, refl)
        | inr f ↦ rw (f, handle_failure, open_circuit) (refl, refl)
      ]

-- The row of the job says failed, unless others ask for its cancellation while the failure is announced.
abbrev pub SaysFailed : (job_id : ℕ) → List Job → Type 0
SaysFailed job_id jobs =
    (j : Job) × (get_job job_id jobs ≡ some j)
    × ((j.status ≡ JobStatus.failed) ⊎ (is_cancel j.status ≡ true))

pub is_cancelled-row :
    (job_id : ℕ) (jobs : List Job)
    → is_cancelled job_id jobs ≡ true
    → (j : Job) × (get_job job_id jobs ≡ some j)
unfolding is_cancelled
is_cancelled-row job_id jobs h = elim (Option-cases (get_job job_id jobs)) [
  | inl n ↦ let no_row : is_cancelled job_id jobs ≡ false = rw (n, is_cancelled) refl in absurd (cc)
  | inr (j, e) ↦ (j, e)
]

module _ (s : Services) (job : Job) (fair : IsFair s job.id) where
  await-SaysFailed : (w : World) → SaysFailed job.id w.jobs → SaysFailed job.id (await s w).jobs
  await-SaysFailed w (j, h, said) =
      let (j', h', count, kept) = fair.0 w.tick w.jobs j h in
      (
        j',
        h',
        elim kept [
          | inr c ↦ inr c
          | inl same ↦ subst (λ x. (x ≡ JobStatus.failed) ⊎ (is_cancel x ≡ true)) (sym same) said
        ],
      )

  open_circuit-SaysFailed :
      (w : World) → SaysFailed job.id w.jobs → SaysFailed job.id (open_circuit s w).jobs
  open_circuit-SaysFailed w h =
      elim (Bool-cases (leb circuit_breaker_threshold w.consecutive_failures)) [
        | inl t ↦
            let pause = s.monotonic w.tick + circuit_open_pause_sec in
            rw (t, open_circuit) (await-SaysFailed (record w { circuit_open_until = pause }) h)
        | inr f ↦ rw (f, open_circuit) h
      ]

  pub handle_failure-SaysFailed :
      (error : ℕ) (w : World) (j : Job)
      → get_job job.id w.jobs ≡ some j
      → SaysFailed job.id (handle_failure s job.id error w).jobs
  unfolding handle_failure update_job_status get_job
  handle_failure-SaysFailed error w j h =
      let failed = record_failure s job.id error w in
      await-SaysFailed (open_circuit s failed) (
        open_circuit-SaysFailed failed
          (_, fetchone-update_hit (with_id job.id) _ w.jobs j (λ x. refl) h, inl refl))
