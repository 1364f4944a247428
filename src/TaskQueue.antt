-- ===== src/TaskQueue.antt =====
-- backend/swarm/task_queue.py: the priority queue of the swarm's tasks, on the binary heap of Python's
-- heapq, whose loops run on fuel.
pub mod Heap
pub mod Fuel
pub mod Conserves
mod Tests
use local_mind.Base.{
  ℕ, zero, suc, ◌+◌, ◌-◌, ◌*◌, ◌/◌, Bool, true, false, not, ◌&&◌, List, [], ◌∷◌, ◌++◌, Option, none,
  some, ltb, leb, ◌==◌, if◌then◌else◌, length, get_elem?, set, rowcount,
}

pub data TaskType : Type 0 where
  scan_files scan_smells test_validate test_syntax research_web research_academic : TaskType
  index_rag index_hash git_branch git_diff llm_reflect llm_edit llm_target : TaskType
  delegated_job : TaskType

-- GPU_TASKS
abbrev pub is_gpu_task : TaskType → Bool
is_gpu_task llm_reflect = true
is_gpu_task llm_edit = true
is_gpu_task llm_target = true
is_gpu_task _ = false

-- IO_TASKS
abbrev pub is_io_task : TaskType → Bool
is_io_task research_web = true
is_io_task research_academic = true
is_io_task _ = false

-- What the queue reads of a task, and its id. The time is in a unit small enough to be whole.
pub record SwarmTask : Type 0 where
  pub id : ℕ
  pub task_type : TaskType
  pub priority : ℕ
  pub created_at : ℕ

abbrev pub requires_gpu : SwarmTask → Bool
requires_gpu t = is_gpu_task t.task_type

abbrev pub is_io_bound : SwarmTask → Bool
is_io_bound t = is_io_task t.task_type

abbrev pub is_cpu_bound : SwarmTask → Bool
is_cpu_bound t = not (requires_gpu t) && not (is_io_bound t)

-- `__lt__`
abbrev pub lt : SwarmTask → SwarmTask → Bool
lt a b =
    if not (a.priority == b.priority)
    then ltb a.priority b.priority
    else ltb a.created_at b.created_at

-- The loop of heapq._siftdown: the item moves up from `pos`.
unfoldable pub siftdown_loop :
    (fuel startpos pos : ℕ) → (newitem : SwarmTask) → List SwarmTask → List SwarmTask
siftdown_loop zero startpos pos newitem heap = set heap pos newitem
siftdown_loop (suc fuel) startpos pos newitem heap =
    if ltb startpos pos
    then elim (get_elem? heap ((pos - 1) / 2)) [
      | none ↦ set heap pos newitem
      | some parent ↦
          if lt newitem parent
          then siftdown_loop fuel startpos ((pos - 1) / 2) newitem (set heap pos parent)
          else set heap pos newitem
    ]
    else set heap pos newitem

-- heapq._siftdown, with a step for each position below `pos`.
unfoldable pub siftdown : (startpos pos : ℕ) → List SwarmTask → List SwarmTask
siftdown startpos pos heap = elim (get_elem? heap pos) [
  | none ↦ heap
  | some newitem ↦ siftdown_loop pos startpos pos newitem heap
]

-- The smaller child.
unfoldable pub smaller_child : (childpos : ℕ) → List SwarmTask → ℕ
smaller_child childpos heap = elim (get_elem? heap childpos) [
  | none ↦ childpos
  | some left ↦ elim (get_elem? heap (childpos + 1)) [
    | none ↦ childpos
    | some right ↦ if lt left right then childpos else childpos + 1
  ]
]

-- The loop of heapq._siftup: the item moves down from `pos` to a leaf, then up to its place.
unfoldable pub siftup_loop :
    (fuel startpos pos : ℕ) → (newitem : SwarmTask) → List SwarmTask → List SwarmTask
siftup_loop zero startpos pos newitem heap = siftdown startpos pos (set heap pos newitem)
siftup_loop (suc fuel) startpos pos newitem heap =
    let childpos = smaller_child (2 * pos + 1) heap in
    elim (get_elem? heap childpos) [
      | none ↦ siftdown startpos pos (set heap pos newitem)
      | some child ↦ siftup_loop fuel startpos childpos newitem (set heap pos child)
    ]

-- heapq._siftup, with a step for each position.
unfoldable pub siftup : (pos : ℕ) → List SwarmTask → List SwarmTask
siftup pos heap = elim (get_elem? heap pos) [
  | none ↦ heap
  | some newitem ↦ siftup_loop (length heap) pos pos newitem heap
]

-- `for i in reversed(range(n)): _siftup(x, i)`
unfoldable pub siftup_down_from : (n : ℕ) → List SwarmTask → List SwarmTask
siftup_down_from zero heap = heap
siftup_down_from (suc i) heap = siftup_down_from i (siftup i heap)

unfoldable pub heapify : List SwarmTask → List SwarmTask
heapify heap = siftup_down_from (length heap / 2) heap

unfoldable pub heappush : List SwarmTask → SwarmTask → List SwarmTask
heappush heap item = siftdown 0 (length heap) (heap ++ item ∷ [])

pub record TaskQueue : Type 0 where
  pub heap : List SwarmTask
  pub max_size : ℕ
  pub total_submitted : ℕ
  pub total_completed : ℕ

unfoldable pub new_queue : (max_size : ℕ) → TaskQueue
new_queue max_size = record {
  heap = [];
  max_size = max_size;
  total_submitted = 0;
  total_completed = 0;
}

unfoldable pub submit : SwarmTask → TaskQueue → Bool × TaskQueue
submit task q =
    if leb q.max_size (length q.heap)
    then (false, q)
    else (true, record q { heap = heappush q.heap task; total_submitted = q.total_submitted + 1 })

unfoldable pub submit_batch : List SwarmTask → TaskQueue → ℕ × TaskQueue
submit_batch [] q = (0, q)
submit_batch (task ∷ tasks) q =
    let (accepted, q') = submit task q in
    let (queued, q'') = submit_batch tasks q' in ((if accepted then queued + 1 else queued), q'')

-- The first task in the order of the list, and its position.
unfoldable pub first_matching : (SwarmTask → Bool) → List SwarmTask → Option (ℕ × SwarmTask)
first_matching predicate [] = none
first_matching predicate (task ∷ tasks) =
    let later = first_matching predicate tasks in
    if predicate task
    then some (0, task)
    else elim later [ none ↦ none | some (i, t) ↦ some (suc i, t) ]

-- `heap.pop()`
abbrev pub without_last : List SwarmTask → List SwarmTask
without_last [] = []
without_last (t ∷ []) = []
without_last (t ∷ u ∷ ts) = t ∷ without_last (u ∷ ts)

-- `heap[-1]`
abbrev pub last : SwarmTask → List SwarmTask → SwarmTask
last t [] = t
last t (u ∷ ts) = last u ts

-- The list without the task at `i`, in whose place the last one stands.
unfoldable pub take_out : (i : ℕ) → List SwarmTask → List SwarmTask
take_out i [] = []
take_out i (t ∷ ts) = without_last (set (t ∷ ts) i (last t ts))

unfoldable pub pop_matching : (SwarmTask → Bool) → TaskQueue → Option SwarmTask × TaskQueue
pop_matching predicate q = elim (first_matching predicate q.heap) [
  | none ↦ (none, q)
  | some (i, task) ↦ (
    some task,
    record q { heap = heapify (take_out i q.heap); total_completed = q.total_completed + 1 },
  )
]

unfoldable pub pop_cpu : TaskQueue → Option SwarmTask × TaskQueue
pop_cpu q = pop_matching is_cpu_bound q

unfoldable pub pop_gpu : TaskQueue → Option SwarmTask × TaskQueue
pop_gpu q = pop_matching requires_gpu q

unfoldable pub pop_io : TaskQueue → Option SwarmTask × TaskQueue
pop_io q = pop_matching is_io_bound q

unfoldable pub depth : TaskQueue → ℕ
depth q = length q.heap

unfoldable pub gpu_depth : TaskQueue → ℕ
gpu_depth q = rowcount requires_gpu q.heap

unfoldable pub cpu_depth : TaskQueue → ℕ
cpu_depth q = rowcount is_cpu_bound q.heap

unfoldable pub io_depth : TaskQueue → ℕ
io_depth q = rowcount is_io_bound q.heap
