-- ===== src/Lib.antt =====
-- A verification library of the back end: a scheduler of jobs over a database, a queue and Redis.
--
-- Files and what they model (paths from the repository's root):
--   Models           src/models: jobs, workers and logs of executions as records; JSON as data.
--   PriorityQueue    src/scheduler/PriorityQueue.ts: the heap, its moves as loops on fuel. The fuel is
--                    the length of the array, and a proof that it is enough is part of each result.
--   JobRepository    src/db/repositories/JobRepository.ts: the table of jobs as the list of its rows,
--                    a statement as a function on it. `claim_pending_jobs` is the statement of
--                    `claimPendingJobs`, with the rows that other transactions lock as a parameter. How
--                    the database orders rows that tie in a page is a parameter of `find_many`.
--   DependencyResolver  src/scheduler/DependencyResolver.ts: the graph as a map from ids to nodes. The
--                    searches for a cycle and for an order run on fuel: one more than the nodes is
--                    enough, which is part of their theorems.
--   CronScheduler    src/scheduler/CronScheduler.ts: a tick over the table of schedules; the next time
--                    of an expression is a parameter, and so is whether the trigger throws.
--   LoadBalancer     src/scheduler/LoadBalancer.ts: the four strategies; the random draw is a parameter.
--   Retry            src/utils/helpers.ts, src/services/RetryService.ts and `toBullPriority` of
--                    src/queue/JobQueue.ts; a random number is a fraction, and a
--                    delay is exact, in parts of a millisecond (the source rounds to a double). `chunkArray` runs on fuel:
--                    the length of the array is enough for a size above 0.
--   JobQueue         src/queue/JobQueue.ts: the requests that it makes of BullMQ.
--   JobService       src/services/JobService.ts: what a call returns or throws, and the table.
--   JobScheduler     src/scheduler/JobScheduler.ts: a round of scheduling, the recovery of stalled
--                    jobs, submission and completion, over the table, the graph and the requests;
--                    JobScheduler/Leadership has the leadership as a step relation, whose inputs are
--                    the answers of the lock.
--   JobExecutor      src/workers/JobExecutor.ts: the handlers as runs, which go on with the answers of
--                    axios and of the shell; which side of the race with the timer wins is an input.
--   WorkerProcess    src/workers/WorkerNode.ts: what a worker makes of a job, with the logs of
--                    executions and the dead letters; WorkerProcess/Refusal joins it with the executor, and
--                    WorkerProcess/Life has its registration, heartbeat and shutdown.
--   DeadLetterQueue  src/queue/DeadLetterQueue.ts, with `manualRetry` and the replays of
--                    src/services/RetryService.ts; the calls of its queue are a record with their
--                    documented laws (DeadLetterQueue/Store).
--   ExecutionRepository  src/db/repositories/ExecutionRepository.ts: the table of logs.
--   WorkerRepository  src/db/repositories/WorkerRepository.ts: the table of workers.
--   WorkerService    src/services/WorkerService.ts and `checkWorkers` of src/monitoring/HealthCheck.ts.
--   WorkerPool       src/workers/WorkerPool.ts: the size of the pool.
--   LeaderElection   src/distributed/LeaderElection.ts: the roles and timers, with the answers of the
--                    lock as inputs of the steps.
--   DistributedLock  src/distributed/DistributedLock.ts: clients of a Redis server, which is a record
--                    of commands with their documented laws (DistributedLock/Server).
--   Auth             src/api/middleware/auth.ts: what the middleware lets pass and what it answers, and
--                    the making of tokens; jsonwebtoken and bcryptjs are parameters.
--   AlertManager     src/monitoring/AlertManager.ts: the rules and which of them fire.
--   Prelude          what the modules share: tests, lists, equality, sorting, keys and maps.
--   Samples          small jobs and workers for the tests.
--
-- The scheduler claims jobs through the repository and hands them to the queue; the service changes
-- them through the repository; completion goes through the graph back to the repository. Times are
-- milliseconds as natural numbers, and the clock that a call reads is its argument. A statement runs
-- alone. Rows and models are the same record, as `toRow` and `fromRow` only rename fields; a field that
-- is `undefined` in an update leaves its column.
--
-- Not modelled: BullMQ, Redis, PostgreSQL and the packages; the routes of the HTTP API, GraphQL, the
-- schemas of validation, the metrics, the logs, the notifications, configuration and start-up, which
-- are input and output or calls of packages; the registry of nodes and the queue manager. Of the helpers
-- only those for delays and `chunkArray` are modelled, and the average of the durations of a worker is
-- left out.
pub mod Prelude
pub mod Models
pub mod PriorityQueue
pub mod JobRepository
pub mod DependencyResolver
pub mod LoadBalancer
pub mod Retry
pub mod JobService
pub mod JobQueue
pub mod JobScheduler
pub mod DistributedLock
pub mod Samples
pub mod ExecutionRepository
pub mod WorkerProcess
pub mod WorkerPool
pub mod WorkerRepository
pub mod LeaderElection
pub mod JobExecutor
pub mod CronScheduler
pub mod Auth
pub mod AlertManager
pub mod WorkerService
pub mod DeadLetterQueue
