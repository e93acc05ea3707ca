-- ===== src/Lib.antt =====
-- The core of the agentic GPU platform: the aggregates and the policies of the package under
-- src/domain, the orchestrator's decisions, the job queue, the worker registry and the event bus of one
-- process, the translation to rows of the database and to the wire, and the process of a GPU machine
-- that prepares the model, as definitions that compute, and the theorems that make them correct.
--
-- The platform takes an objective (a run), lets several coders attempt it (candidates) by means of
-- jobs that GPU workers lease, validates and reviews what they produce, and repairs or replans within
-- budgets. Runs, jobs, workers and candidates are aggregates: each keeps a status and counters, refuses
-- calls that its status does not allow, and buffers events. The orchestrator reads them from the
-- database, decides the next step of a run, stores them and publishes the jobs that it asks for; the
-- retry policy, the schedulers and the selection policy decide for it.
--
-- The parts:
--   Shared        tests, lists, dictionaries, stable sorting, comparisons, text, JSON values
--   Enums         src/domain/enums.py: every enumeration with its predicates
--   Errors        src/domain/exceptions.py: the errors as data, results, and what a method leaves
--   Lease         src/domain/value_objects/lease.py: granted, renewed, is_expired, held_by
--   Requirements  src/domain/value_objects/worker.py: capabilities, load, requirements of a job
--   Job           src/domain/entities/job.py, src/domain/events/job.py: one function per method;
--                 State (the record, events, creation), History (calls as data), Validity,
--                 Leasing, Budget
--   RunMachine    src/domain/services/run_state_machine.py: the table; Graph has the diagram as a step
--                 relation
--   Limits        src/domain/value_objects/limits.py, and TokenUsage of value_objects/llm.py
--   Run           src/domain/entities/run.py, src/domain/events/run.py: one function per method;
--                 History, Lifecycle, Budget, Termination, Stopping
--   Retry         src/domain/services/retry_policy.py: decide, backoff; Policy
--   Worker        src/domain/entities/worker.py, src/domain/events/worker.py: one function per method;
--                 Eligibility, Capacity
--   Scheduling    src/domain/services/scheduling.py: both policies; LeastLoaded, RoundRobin
--   Validation    src/domain/value_objects/validation.py, and the results of value_objects/tools.py;
--                 Evidence
--   Candidate     src/domain/entities/candidate.py, src/domain/value_objects/patch.py and the events of
--                 a candidate: one function per method; History, Lifecycle, Freshness
--   Selection     src/domain/services/candidate_selection.py: the ranking and the winner; Best
--   Queue         src/infrastructure/queue/in_memory.py, InMemoryJobQueue: enqueue, claim, renew,
--                 acknowledge, release; Recovery has reclaim_expired, cancel_run_jobs and depth; Entries,
--                 Claim, Reports, Stopping
--   Registry      src/infrastructure/queue/in_memory.py, InMemoryWorkerRegistry: one function per method;
--                 Consistency has the operations as steps, Silence is about reap_stale
--   Events        src/domain/events: every event with its fields; Payload and Codec have
--                 encode_event and decode_event of src/infrastructure/redis/codecs.py, with Restored;
--                 Bus has InMemoryEventBus and its streams, with Delivery
--   Plan          src/domain/entities/plan.py: the checks of a plan and its layers; Layers, Order, Cycle,
--                 Accepted
--   Project       src/domain/entities/project.py: a project with its toolchain
--   Review        src/domain/entities/review.py: a verdict with its findings, and the brief for a repair
--   Orchestrator  src/application/orchestration/orchestrator.py: _advance as `advance`, with one function
--                 per method it calls; Stages has the state of a decision and its ports, Failures
--                 _handle_failure, _classify and handle_dead_job, Work what a finished job stores;
--                 Opening, Repair, Pushing, Progress, Verdict, Publishing, Drawn, Advance, Handling,
--                 Handover and Unrepaired have the theorems
--   Database      src/infrastructure/database/mappers.py and models.py: a file per aggregate with its row,
--                 both translations and the round trip (Runs, Jobs, Candidates, Results, Plans, Reviews,
--                 Projects, Workers); Codes has the enumerations as texts, Columns the JSON values
--   GpuWorker     gpu-worker/src/worker: Config, Environment and Arguments are config.py; Volume, Marker,
--                 Download and Prepare are model_state.py, with is_quota_error of filesystem.py, down to
--                 prepare_model; Waiting has the lock's loop and wait_until_ready of readiness.py; the
--                 theorems are beside the definitions, and in Verified, Failure and Restart
--
-- How the code is read. A method takes the object and returns it as the method leaves it, with its
-- result or the error it raises, so that a change made before a raise is seen. Identifiers are numbers,
-- times and durations are microseconds. A token drawn at random, a clock's reading and the text of a
-- number are arguments. Sequences of calls are lists, each call of the aggregate a constructor, and a
-- call that raises leaves the object as the method left it. The loop of InMemoryJobQueue.claim runs on
-- fuel, the number of ready entries of the wanted types: each iteration takes one of them out. So does
-- the loop of Plan.execution_layers, on the number of tasks: each round takes a task out, or raises. The
-- download runs on the attempts that are left. The two loops of the GPU worker that wait run on fuel, one
-- more than the time to the deadline: each pause takes some of it. Every
-- other loop is a recursion on a list. Utilization, a quotient of floats in the code, is compared by
-- cross-multiplication; the backoff, a product of floats, is exact arithmetic. A decision of the
-- orchestrator runs under the run's lock in one unit of work: it is a function of what the database
-- holds, an exception leaves the database as it was, and the clock's readings in it are one instant.
-- Workspaces and fresh identifiers come from ports, which are parameters.
--
-- What the GPU worker takes from outside (the hub client, the list of the hub, str.lower, int, float,
-- shlex.split, the time, what other processes do while it waits for the lock) are parameters; fractional
-- settings are whole numbers of hundredths.
--
-- Not modelled: src/infrastructure/redis (but for the score of a job and the events), how the
-- orchestrator asks models and tools, its sweeps over the runs, the other services of src/application,
-- the rows of events and agent executions, task complexity, the clients of language models, tools and
-- workspaces, the interfaces, bootstrap, the worker agent, and of gpu-worker the command line, the
-- creation of directories, the smoke test and the deployer: these parts stand around the modelled rules;
-- and the parse of a diff, which rests on regular expressions.
mod Shared
pub mod Enums
pub mod Errors
pub mod Lease
pub mod Requirements
pub mod Job
pub mod RunMachine
pub mod Limits
pub mod Run
pub mod Retry
pub mod Worker
pub mod Scheduling
pub mod Validation
pub mod Candidate
pub mod Selection
pub mod Queue
pub mod Events
pub mod GpuWorker
pub mod Database
pub mod Orchestrator
pub mod Plan
pub mod Project
pub mod Registry
pub mod Review
