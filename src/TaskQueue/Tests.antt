-- ===== src/TaskQueue/Tests.antt =====
-- Runs of the task queue, and its theorem at a concrete input.
use local_mind.Base.{ℕ, ◌+◌, ◌≡◌, refl, false, List, [], ◌∷◌, some}
use mathlib.Core.Option
use local_mind.TaskQueue.{
  SwarmTask, TaskType, scan_files, llm_edit, llm_reflect, research_web, TaskQueue, siftdown_loop,
  siftdown, smaller_child, siftup_loop, siftup, siftup_down_from, heapify, heappush, new_queue,
  submit, submit_batch, first_matching, take_out, pop_matching, pop_cpu, pop_gpu, pop_io, depth,
  gpu_depth, cpu_depth, io_depth, requires_gpu,
}
use local_mind.TaskQueue.Conserves
use local_mind.TaskQueue.Conserves.{Call, submits, pops_cpu, pops_gpu, run, start, IsConserved}

program : Unit {0}
unfolding siftdown_loop siftdown smaller_child siftup_loop siftup siftup_down_from heapify heappush
    new_queue submit submit_batch first_matching take_out pop_matching pop_cpu pop_gpu pop_io depth
    gpu_depth cpu_depth io_depth
program = tt

abbrev task : (id : ℕ) → TaskType → (priority : ℕ) → SwarmTask
task id task_type priority = record {
  id = id;
  task_type = task_type;
  priority = priority;
  created_at = id;
}

-- A scan of priority 0, and two tasks for the GPU, of which the later one is more urgent.
abbrev tasks : List SwarmTask
tasks = task 1 scan_files 0 ∷ task 2 llm_edit 3 ∷ task 3 llm_reflect 1 ∷ []

abbrev filled : TaskQueue
filled = (submit_batch tasks (new_queue 3)).1

less_urgent_first : Option.map (λ t. t.id) (pop_gpu filled).0 ≡ some 2
unfolding program
less_urgent_first = refl

in_order_of_urgency :
    (Option.map (λ t. t.id) (pop_cpu filled).0 ≡ some 1)
    × (Option.map (λ t. t.id) (pop_gpu (pop_cpu filled).1).0 ≡ some 3)
    × ((submit (task 4 research_web 2) filled).0 ≡ false)
    × (gpu_depth filled + cpu_depth filled + io_depth filled ≡ depth filled)
unfolding program
in_order_of_urgency = (refl, refl, refl, refl)

abbrev calls : List Call
calls =
    submits (task 1 scan_files 0)
    ∷ submits (task 2 llm_edit 3)
    ∷ submits (task 3 llm_reflect 1)
    ∷ pops_gpu
    ∷ submits (task 4 research_web 2)
    ∷ pops_cpu
    ∷ []

run-IsConserved_example : IsConserved requires_gpu 3 (run calls (start 3))
run-IsConserved_example = Conserves.run-IsConserved requires_gpu 3 calls
