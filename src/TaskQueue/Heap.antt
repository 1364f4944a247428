-- ===== src/TaskQueue/Heap.antt =====
-- The operations of the heap keep the tasks: how often each kind of task stands in it.
use local_mind.Base.{
  ℕ, zero, suc, ◌+◌, ◌-◌, ◌*◌, ◌/◌, ◌<◌, ◌≡◌, refl, subst, ◌∙◌, Bool, false, List, [], ◌∷◌, ◌++◌,
  some, inl, inr, arith, ltb, if◌then◌else◌, length, get_elem?, set, rowcount, rowcount-insert,
  ◌==◌, Bool-cases, Option-cases,
}
use mathlib.Core.Option.{some-injective}
use local_mind.TaskQueue.{
  SwarmTask, lt, siftdown_loop, siftdown, smaller_child, siftup_loop, siftup, siftup_down_from,
  heapify, heappush, without_last, last, take_out,
}

get_elem?-set_other :
    (xs : List SwarmTask) (i j : ℕ) (v w : SwarmTask)
    → (i == j) ≡ false
    → get_elem? xs i ≡ some w
    → get_elem? (set xs j v) i ≡ some w
get_elem?-set_other [] i j v w ne h = cc
get_elem?-set_other (x ∷ xs) zero zero v w ne h = absurd (ground arith)
get_elem?-set_other (x ∷ xs) zero (suc j) v w ne h = h
get_elem?-set_other (x ∷ xs) (suc i) zero v w ne h = h
get_elem?-set_other (x ∷ xs) (suc i) (suc j) v w ne h =
    get_elem?-set_other xs i j v w (ground arith) h

module _ (p : SwarmTask → Bool) where
  abbrev pub weight : SwarmTask → ℕ
  weight t = if p t then 1 else 0

  rowcount-set :
      (xs : List SwarmTask) (i : ℕ) (v w : SwarmTask)
      → get_elem? xs i ≡ some w
      → rowcount p (set xs i v) + weight w ≡ rowcount p xs + weight v
  rowcount-set [] i v w h = cc
  rowcount-set (x ∷ xs) zero v w h =
      let same : x ≡ w = some-injective _ _ h in
      subst (λ w. rowcount p (v ∷ xs) + weight w ≡ rowcount p (x ∷ xs) + weight v) same
        (ground arith)
  rowcount-set (x ∷ xs) (suc i) v w h = ground (arith, rowcount-set xs i v w h)

  siftdown_loop-count :
      (fuel startpos pos : ℕ) (newitem old : SwarmTask) (heap : List SwarmTask)
      → get_elem? heap pos ≡ some old
      → rowcount p (siftdown_loop fuel startpos pos newitem heap) + weight old
        ≡ rowcount p heap + weight newitem
  unfolding siftdown_loop
  siftdown_loop-count zero startpos pos newitem old heap h = rowcount-set heap pos newitem old h
  siftdown_loop-count (suc fuel) startpos pos newitem old heap h =
      let stays = rowcount-set heap pos newitem old h in
      elim (Bool-cases (ltb startpos pos)) [
        | inr f ↦ rw (f, siftdown_loop) stays
        | inl t ↦ elim (Option-cases (get_elem? heap ((pos - 1) / 2))) [
          | inl n ↦ rw (t, n, siftdown_loop) stays
          | inr (parent, e) ↦ elim (Bool-cases (lt newitem parent)) [
            | inr f ↦ rw (t, e, f, siftdown_loop) stays
            | inl less ↦
                let above =
                  get_elem?-set_other heap ((pos - 1) / 2) pos parent parent (ground arith) e in
                let moved = rowcount-set heap pos parent old h in
                let rest =
                  siftdown_loop-count fuel startpos ((pos - 1) / 2) newitem parent
                    (set heap pos parent) above in
                rw (t, e, less, siftdown_loop) (omega (arith, moved, rest))
          ]
        ]
      ]

  siftdown-count :
      (startpos pos : ℕ) (heap : List SwarmTask)
      → rowcount p (siftdown startpos pos heap) ≡ rowcount p heap
  unfolding siftdown
  siftdown-count startpos pos heap = elim (Option-cases (get_elem? heap pos)) [
    | inl n ↦ rw (n, siftdown) refl
    | inr (newitem, e) ↦
        let same = siftdown_loop-count pos startpos pos newitem newitem heap e in
        rw (e, siftdown) (omega (arith, same))
  ]

  pub smaller_child_lt : (pos : ℕ) (heap : List SwarmTask) → pos < smaller_child (2 * pos + 1) heap
  unfolding smaller_child
  smaller_child_lt pos heap = elim (Option-cases (get_elem? heap (2 * pos + 1))) [
    | inl n ↦ rw (n, smaller_child) (omega arith)
    | inr (left, e) ↦ elim (Option-cases (get_elem? heap (2 * pos + 1 + 1))) [
      | inl n ↦ rw (e, n, smaller_child) (omega arith)
      | inr (right, k) ↦ elim (Bool-cases (lt left right)) [
        | inl t ↦ rw (e, k, t, smaller_child) (omega arith)
        | inr f ↦ rw (e, k, f, smaller_child) (omega arith)
      ]
    ]
  ]

  siftup_loop-count :
      (fuel startpos pos : ℕ) (newitem old : SwarmTask) (heap : List SwarmTask)
      → get_elem? heap pos ≡ some old
      → rowcount p (siftup_loop fuel startpos pos newitem heap) + weight old
        ≡ rowcount p heap + weight newitem
  unfolding siftup_loop
  siftup_loop-count zero startpos pos newitem old heap h =
      let put = rowcount-set heap pos newitem old h in
      let down = siftdown-count startpos pos (set heap pos newitem) in omega (arith, put, down)
  siftup_loop-count (suc fuel) startpos pos newitem old heap h =
      let childpos : ℕ = smaller_child (2 * pos + 1) heap in
      elim (Option-cases (get_elem? heap childpos)) [
        | inl n ↦
            let put = rowcount-set heap pos newitem old h in
            let down = siftdown-count startpos pos (set heap pos newitem) in
            rw (n, siftup_loop) (omega (arith, put, down))
        | inr (child, e) ↦
            let lower = smaller_child_lt pos heap in
            let still = get_elem?-set_other heap childpos pos child child (ground arith) e in
            let moved = rowcount-set heap pos child old h in
            let rest =
              siftup_loop-count fuel startpos childpos newitem child (set heap pos child) still in
            rw (e, siftup_loop) (omega (arith, moved, rest))
      ]

  siftup-count : (pos : ℕ) (heap : List SwarmTask) → rowcount p (siftup pos heap) ≡ rowcount p heap
  unfolding siftup
  siftup-count pos heap = elim (Option-cases (get_elem? heap pos)) [
    | inl n ↦ rw (n, siftup) refl
    | inr (newitem, e) ↦
        let same = siftup_loop-count (length heap) pos pos newitem newitem heap e in
        rw (e, siftup) (omega (arith, same))
  ]

  siftup_down_from-count :
      (n : ℕ) (heap : List SwarmTask) → rowcount p (siftup_down_from n heap) ≡ rowcount p heap
  unfolding siftup_down_from
  siftup_down_from-count zero heap = refl
  siftup_down_from-count (suc i) heap =
      siftup_down_from-count i (siftup i heap) ∙ siftup-count i heap

  pub heapify-count : (heap : List SwarmTask) → rowcount p (heapify heap) ≡ rowcount p heap
  unfolding heapify
  heapify-count heap = siftup_down_from-count (length heap / 2) heap

  pub heappush-count :
      (heap : List SwarmTask) (item : SwarmTask)
      → rowcount p (heappush heap item) ≡ rowcount p heap + weight item
  unfolding heappush
  heappush-count heap item =
      siftdown-count 0 (length heap) (heap ++ item ∷ []) ∙ rowcount-insert p item heap

  without_last-count :
      (t : SwarmTask) (ts : List SwarmTask)
      → rowcount p (without_last (t ∷ ts)) + weight (last t ts) ≡ rowcount p (t ∷ ts)
  without_last-count t [] = ground arith
  without_last-count t (u ∷ us) = ground (arith, without_last-count u us)

  without_last-cons :
      (t u : SwarmTask) (us : List SwarmTask) (i : ℕ) (v : SwarmTask)
      → without_last (t ∷ set (u ∷ us) i v) ≡ t ∷ without_last (set (u ∷ us) i v)
  without_last-cons t u us zero v = refl
  without_last-cons t u us (suc i) v = refl

  without_last-set :
      (t : SwarmTask) (ts : List SwarmTask) (i : ℕ)
      → rowcount p (without_last (set (t ∷ ts) i (last t ts))) + weight (last t ts)
        ≡ rowcount p (set (t ∷ ts) i (last t ts))
  without_last-set t [] zero = ground arith
  without_last-set t [] (suc i) = ground arith
  without_last-set t (u ∷ us) zero = ground (arith, without_last-count u us)
  without_last-set t (u ∷ us) (suc i) =
      let rest = without_last-set u us i in
      rw (without_last-cons t u us i (last u us)) (ground (arith, rest))

  pub take_out-count :
      (i : ℕ) (task : SwarmTask) (heap : List SwarmTask)
      → get_elem? heap i ≡ some task
      → rowcount p (take_out i heap) + weight task ≡ rowcount p heap
  unfolding take_out
  take_out-count i task [] h = cc
  take_out-count i task (t ∷ ts) h =
      let put = rowcount-set (t ∷ ts) i (last t ts) task h in
      let less = without_last-set t ts i in omega (arith, put, less)
