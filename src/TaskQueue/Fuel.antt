-- ===== src/TaskQueue/Fuel.antt =====
-- The steps that the loops of the heap are given are enough: with one more the outcome is the same.
use local_mind.Base.{
  ℕ, zero, suc, ◌+◌, ◌-◌, ◌*◌, ◌/◌, ◌≤◌, ◌≡◌, refl, true, false, List, [], ◌∷◌, none, inl, inr,
  arith, ltb, length, get_elem?, set, Bool-cases, Option-cases,
}
use local_mind.TaskQueue.{SwarmTask, lt, siftdown_loop, smaller_child, siftup_loop}
use local_mind.TaskQueue.Heap.{smaller_child_lt}

siftdown_loop-enough :
    (fuel startpos pos : ℕ) (newitem : SwarmTask) (heap : List SwarmTask)
    → pos ≤ fuel
    → siftdown_loop (suc fuel) startpos pos newitem heap
      ≡ siftdown_loop fuel startpos pos newitem heap
unfolding siftdown_loop
siftdown_loop-enough zero startpos pos newitem heap le =
    let ends : ltb startpos pos ≡ false = ground arith in rw (ends, siftdown_loop) refl
siftdown_loop-enough (suc fuel) startpos pos newitem heap le =
    elim (Bool-cases (ltb startpos pos)) [
      | inr f ↦ rw (f, siftdown_loop) refl
      | inl t ↦ elim (Option-cases (get_elem? heap ((pos - 1) / 2))) [
        | inl n ↦ rw (t, n, siftdown_loop) refl
        | inr (parent, e) ↦ elim (Bool-cases (lt newitem parent)) [
          | inr f ↦ rw (t, e, f, siftdown_loop) refl
          | inl less ↦
              rw (t, e, less, siftdown_loop)
                (siftdown_loop-enough fuel startpos ((pos - 1) / 2) newitem (set heap pos parent)
                  (ground arith))
        ]
      ]
    ]

length-set : (xs : List SwarmTask) (i : ℕ) (v : SwarmTask) → length (set xs i v) ≡ length xs
length-set [] i v = refl
length-set (x ∷ xs) zero v = refl
length-set (x ∷ xs) (suc i) v = ground (arith, length-set xs i v)

get_elem?-beyond : (xs : List SwarmTask) (i : ℕ) → length xs ≤ i → get_elem? xs i ≡ none
get_elem?-beyond [] i le = refl
get_elem?-beyond (x ∷ xs) zero le = absurd (omega arith)
get_elem?-beyond (x ∷ xs) (suc i) le = get_elem?-beyond xs i (omega arith)

siftup_loop-enough :
    (fuel startpos pos : ℕ) (newitem : SwarmTask) (heap : List SwarmTask)
    → length heap ≤ fuel + pos
    → siftup_loop (suc fuel) startpos pos newitem heap ≡ siftup_loop fuel startpos pos newitem heap
unfolding siftup_loop
siftup_loop-enough zero startpos pos newitem heap le =
    let lower = smaller_child_lt (λ t. true) pos heap in
    let ends = get_elem?-beyond heap (smaller_child (2 * pos + 1) heap) (omega (arith, lower)) in
    rw (ends, siftup_loop) refl
siftup_loop-enough (suc fuel) startpos pos newitem heap le =
    elim (Option-cases (get_elem? heap (smaller_child (2 * pos + 1) heap))) [
      | inl n ↦ rw (n, siftup_loop) refl
      | inr (child, e) ↦
          let lower = smaller_child_lt (λ t. true) pos heap in
          let same = length-set heap pos child in
          rw (e, siftup_loop)
            (siftup_loop-enough fuel startpos (smaller_child (2 * pos + 1) heap) newitem
              (set heap pos child) (omega (arith, lower, same)))
    ]
