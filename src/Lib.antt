-- ===== src/Lib.antt =====
-- LocalMind: verification of the job system.
--
-- LocalMind runs jobs for people on a local machine. A job is a row of the SQLite database that a
-- worker process picks up; it is cut into nodes, each of which calls a language model on the GPU and
-- tools, and jobs may delegate to child jobs that share a memory and lock resources against each
-- other. The state of all of this is in the tables of backend/core/schema.py, and the components
-- below are the Python classes that run statements on them.
--
--   Base            tables (SELECT, UPDATE, INSERT, DELETE over lists of rows), sorts, tests, lists
--   ResourceLock    backend/swarm/resource_lock.py, over resource_locks
--   SharedMemory    backend/swarm/shared_memory.py, over swarm_shared_memory
--   GpuManager      backend/core/gpu_manager.py, in memory under an asyncio lock
--   ErrorStrategy   backend/core/error_strategy.py, pure
--   Jobs            backend/jobs/queue.py and the models of backend/jobs/models.py, over jobs and
--                   job_nodes
--   Execution       backend/core/execution.py: Events, Attempts, Invocations, Leases, DeadLetters and
--                   Cancellation model its six classes; the last and Leases work on the rows of Jobs
--   JobRecords      backend/jobs/queue.py again: files, audit log, and delete_job over five tables
--   JobTree         backend/jobs/queue.py once more: cancel_job with its cascade and the job tree, over
--                   jobs and the rows of Delegation
--   Delegation      backend/swarm/delegation.py, over job_delegation and jobs
--   Worker          backend/jobs/worker.py: NodeLoop, Attempts and Polling, the life of a job from its
--                   taking to its end, over Jobs and JobRecords; planner, executor, reviewer and
--                   delegation engine are functions of the record Services
--   Messages        backend/swarm/messaging.py, over agent_messages, with the rows of Delegation
--   TaskQueue       backend/swarm/task_queue.py, in memory, with the operations of Python's heapq
--   Policy          backend/core/policy.py: Rules and Approvals, over approval_policies and approvals;
--                   Enforced says what evaluate is to answer
--   Scheduler       backend/core/scheduler.py, over job_nodes and jobs, with the state of GpuManager
--   SessionCache    backend/memory/session_cache.py, in memory; Ideal is the map that it refines
--
-- A class of the program is a module, its table is a list of records in rowid order, and each method
-- is a function of the method's name from the table to its result and the table. An exception is a
-- value of a result type, or none where the only one is the IntegrityError of a constraint. The
-- clock's readings and the uuids that a method draws are its arguments, and so is whether a row of
-- another table that a foreign key asks for exists. Opaque texts (ids, keys, paths, JSON) are natural
-- numbers, only compared for equality; ISO timestamps are natural numbers of microseconds, whose order
-- is that of the texts. A method runs whole, with no other between its statements, where nothing else is
-- said (below). The loops of the program go over lists. The waiting loop of
-- GpuManager.acquire goes over the list of its waits and needs none of them while the accounts are
-- exact. In Delegation the walk to the root runs on fuel, a step for each row and one more, and the
-- recursions down a tree, there and in JobTree, run on MAX_DELEGATION_DEPTH levels, the query of
-- get_job_tree included; both are proved enough. The worker's loop over the nodes runs on one step
-- more than nodes are pending, and its attempts on what max_reviews leaves; both are proved enough
-- too. The loops of the heap in TaskQueue run on a step for each position, which TaskQueue.Fuel shows
-- to be enough. Where the program reads a text, in GpuManager, Policy, SessionCache and Scheduler, a text is a list of character codes; lower, urlparse,
-- fnmatch and basename of Python, and the order in which it lists a set, are parameters.
--
-- Not modelled: logging, notifications and texts for people, file input and output, the language
-- models and the tools, the HTTP routes, and the failures of SQLite other than its constraints. Where
-- processes come between the statements of one method it is modelled in ResourceLock.Race, a step
-- relation for acquire, in Worker.Polling.Claims, a step relation for the taking of jobs, and in
-- Worker, where others act on the table jobs at each await; a CancelledError that reaches the worker's
-- task at an await ends the poll there. SharedMemory.put_between and Messages.receive_between take what
-- others write between their two statements, and decide_approval of Policy reads the clock twice, before
-- its check and before its UPDATE. In the theorems on sequences of calls of SharedMemory, Messages and
-- Policy the calls follow each other whole; elsewhere a method runs alone.
pub mod Base
pub mod ResourceLock
pub mod ErrorStrategy
pub mod SharedMemory
pub mod GpuManager
pub mod Jobs
pub mod Execution
pub mod Delegation
pub mod JobRecords
pub mod Worker
pub mod SessionCache
pub mod Messages
pub mod Policy
pub mod Scheduler
pub mod JobTree
pub mod TaskQueue
