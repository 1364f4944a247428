-- ===== src/TaskQueue/Conserves.antt =====
-- No task is lost, and none is handed out twice.
use local_mind.Base.{
  ℕ, suc, ◌+◌, ◌≤◌, ◌≡◌, refl, sym, subst, ◌∙◌, Bool, true, false, List, [], ◌∷◌, Option, none,
  some, inl, inr, arith, leb, length, get_elem?, rowcount, Bool-cases, Option-cases,
}
use mathlib.Core.Option.{some-injective}
use local_mind.TaskQueue.{
  SwarmTask, TaskQueue, heappush, heapify, take_out, first_matching, new_queue, submit,
  pop_matching, pop_cpu, pop_gpu, pop_io,
}
use local_mind.TaskQueue.Heap.{heapify-count, heappush-count, take_out-count}

-- The calls of the program; a batch is a sequence of submits.
pub data Call : Type 0 where
  submits : SwarmTask → Call
  pops_cpu pops_gpu pops_io : Call

-- The queue, with the tasks that it accepted and those that it handed out.
pub record History : Type 0 where
  pub accepted : List SwarmTask
  pub popped : List SwarmTask
  pub queue : TaskQueue

abbrev pub after_submit : SwarmTask → History → Bool × TaskQueue → History
after_submit task h (true, q) = record {
  accepted = task ∷ h.accepted;
  popped = h.popped;
  queue = q;
}
after_submit task h (false, q) = record { accepted = h.accepted; popped = h.popped; queue = q }

abbrev pub after_pop : History → Option SwarmTask × TaskQueue → History
after_pop h (none, q) = record { accepted = h.accepted; popped = h.popped; queue = q }
after_pop h (some task, q) = record { accepted = h.accepted; popped = task ∷ h.popped; queue = q }

abbrev pub perform : Call → History → History
perform (submits task) h = after_submit task h (submit task h.queue)
perform pops_cpu h = after_pop h (pop_cpu h.queue)
perform pops_gpu h = after_pop h (pop_gpu h.queue)
perform pops_io h = after_pop h (pop_io h.queue)

unfoldable pub run : List Call → History → History
run [] h = h
run (call ∷ calls) h = run calls (perform call h)

abbrev pub start : (max_size : ℕ) → History
start max_size = record { accepted = []; popped = []; queue = new_queue max_size }

-- The tasks of each kind that were handed out and that are queued are those that were accepted; the
-- counters count them, and the queue keeps its limit.
abbrev pub IsConserved : (SwarmTask → Bool) → (max_size : ℕ) → History → Type 0
IsConserved p max_size h =
    (rowcount p h.popped + rowcount p h.queue.heap ≡ rowcount p h.accepted)
    × (h.queue.total_submitted ≡ length h.accepted)
    × (h.queue.total_completed ≡ length h.popped)
    × (length h.queue.heap ≤ max_size)
    × (h.queue.max_size ≡ max_size)

rowcount-length : (xs : List SwarmTask) → rowcount (λ t. true) xs ≡ length xs
rowcount-length [] = refl
rowcount-length (x ∷ xs) = ground (arith, rowcount-length xs)

first_matching-get_elem? :
    (predicate : SwarmTask → Bool) (heap : List SwarmTask) (i : ℕ) (task : SwarmTask)
    → first_matching predicate heap ≡ some (i, task)
    → get_elem? heap i ≡ some task
unfolding first_matching
first_matching-get_elem? predicate [] i task h = cc
first_matching-get_elem? predicate (t ∷ ts) i task h = elim (Bool-cases (predicate t)) [
  | inl hit ↦
      let same : (0, t) ≡ (i, task) =
        some-injective _ _ (sym (rw (hit, first_matching) refl) ∙ h) in
      subst (λ r. get_elem? (t ∷ ts) r.0 ≡ some r.1) same refl
  | inr f ↦ elim (Option-cases (first_matching predicate ts)) [
    | inl n ↦
        let never : none ≡ some (i, task) = sym (rw (f, n, first_matching) refl) ∙ h in absurd (cc)
    | inr ((j, u), e) ↦
        let same : (suc j, u) ≡ (i, task) =
          some-injective _ _ (sym (rw (f, e, first_matching) refl) ∙ h) in
        subst (λ r. get_elem? (t ∷ ts) r.0 ≡ some r.1) same
          (first_matching-get_elem? predicate ts j u e)
  ]
]

module _ (p : SwarmTask → Bool) (max_size : ℕ) where
  submit-IsConserved :
      (task : SwarmTask) (h : History)
      → IsConserved p max_size h
      → IsConserved p max_size (after_submit task h (submit task h.queue))
  unfolding submit
  submit-IsConserved task h (count, submitted, completed, room, same) =
      elim (Bool-cases (leb h.queue.max_size (length h.queue.heap))) [
        | inl full ↦ rw (full, submit) (count, submitted, completed, room, same)
        | inr free ↦
            let more = heappush-count p h.queue.heap task in
            let longer = heappush-count (λ t. true) h.queue.heap task in
            let len = rowcount-length h.queue.heap in
            let len' = rowcount-length (heappush h.queue.heap task) in
            rw (free, submit)
              (
                ground (arith, more, count),
                omega (arith, submitted),
                completed,
                ground (arith, longer, len, len', free, same),
                same,
              )
      ]

  pop_matching-IsConserved :
      (predicate : SwarmTask → Bool) (h : History)
      → IsConserved p max_size h
      → IsConserved p max_size (after_pop h (pop_matching predicate h.queue))
  unfolding pop_matching
  pop_matching-IsConserved predicate h (count, submitted, completed, room, same) =
      elim (Option-cases (first_matching predicate h.queue.heap)) [
        | inl n ↦ rw (n, pop_matching) (count, submitted, completed, room, same)
        | inr ((i, task), e) ↦
            let at = first_matching-get_elem? predicate h.queue.heap i task e in
            let out = take_out-count p i task h.queue.heap at in
            let kept = heapify-count p (take_out i h.queue.heap) in
            let out' = take_out-count (λ t. true) i task h.queue.heap at in
            let kept' = heapify-count (λ t. true) (take_out i h.queue.heap) in
            let len = rowcount-length h.queue.heap in
            let len' = rowcount-length (heapify (take_out i h.queue.heap)) in
            rw (e, pop_matching)
              (
                ground (arith, out, kept, count),
                submitted,
                omega (arith, completed),
                ground (arith, out', kept', len, len', room),
                same,
              )
      ]

  perform-IsConserved :
      (call : Call) (h : History)
      → IsConserved p max_size h
      → IsConserved p max_size (perform call h)
  unfolding pop_cpu pop_gpu pop_io
  perform-IsConserved (submits task) h c = submit-IsConserved task h c
  perform-IsConserved pops_cpu h c = pop_matching-IsConserved _ h c
  perform-IsConserved pops_gpu h c = pop_matching-IsConserved _ h c
  perform-IsConserved pops_io h c = pop_matching-IsConserved _ h c

  run-IsConserved_from :
      (calls : List Call) (h : History)
      → IsConserved p max_size h
      → IsConserved p max_size (run calls h)
  unfolding run
  run-IsConserved_from [] h c = c
  run-IsConserved_from (call ∷ calls) h c =
      run-IsConserved_from calls (perform call h) (perform-IsConserved call h c)

-- Whatever is submitted to a new queue and popped from it, in any order: of the tasks of any kind, as
-- many are handed out and queued as were accepted, so none is lost or handed out twice; the two counters
-- count the tasks that were accepted and handed out; and no more than max_size tasks are queued.
pub run-IsConserved :
    (p : SwarmTask → Bool) (max_size : ℕ) (calls : List Call)
    → IsConserved p max_size (run calls (start max_size))
unfolding new_queue
run-IsConserved p max_size calls =
    run-IsConserved_from p max_size calls (start max_size)
      (omega arith, refl, refl, omega arith, refl)
