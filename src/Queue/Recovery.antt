-- ===== src/Queue/Recovery.antt =====
-- Recovery and metrics of `InMemoryJobQueue` (src/infrastructure/queue/in_memory.py): what takes back
-- the jobs of silent workers, what cancels the jobs of a run, and the depth of the queue.
use agentic_gpu_platform.Shared.{
  Bool, List, Option, [], by, false, get, if◌then◌else◌, leb, length, lex, map, none, pop, put,
  select, some, sorted, take, true, ℕ, ◌∷◌,
}
use agentic_gpu_platform.Enums.{FailureKind, JobStatus, JobType, job_is_terminal}
use agentic_gpu_platform.Errors.{Outcome, ok, raise}
use agentic_gpu_platform.Job.{Job, expire_lease, requeue}
use agentic_gpu_platform.Queue.{Queue, drop_ready, entries, make_ready, members, rebuild}

-- `job.requeue(...)` on the stored job, which is then entered as ready.
unfoldable pub requeue_stored : Queue → Job → (job_id now : ℕ) → Outcome Queue Bool
unfolding make_ready
requeue_stored q j job_id now =
    let (k, answer) = requeue j now "lease expired" in
    let kept = record q { jobs = put job_id k q.jobs } in
    elim answer [
      | raise error ↦ (kept, raise error)
      | ok _ ↦
          let (p, entered) = make_ready kept k.type job_id in
          elim entered [
            | raise error ↦ (p, raise error)
            | ok _ ↦ (record p { jobs = put job_id (rebuild k) p.jobs }, ok true)
          ]
    ]

-- One lapsed lease of `reclaim_expired`: whether the job counts as reclaimed.
unfoldable pub reclaim_one : Queue → (job_id now : ℕ) → Outcome Queue Bool
unfolding requeue_stored
reclaim_one q job_id now =
    let freed = record q { leases = pop job_id q.leases } in
    elim (get job_id q.jobs) [
      | none ↦ (freed, ok false)
      | some j ↦
          let (k, again) = expire_lease j now in
          if again
          then requeue_stored freed k job_id now
          else (record freed { jobs = put job_id (rebuild k) freed.jobs }, ok true)
    ]

unfoldable pub reclaim_each : Queue → List ℕ → (now : ℕ) → Outcome Queue (List ℕ)
reclaim_each q [] now = (q, ok [])
reclaim_each q (k ∷ ks) now =
    let (p, counted) = reclaim_one q k now in
    let (r, others) = reclaim_each p ks now in
    elim counted [
      | raise error ↦ (p, raise error)
      | ok c ↦ elim others [
        | raise error ↦ (r, raise error)
        | ok rest ↦ (r, ok (if c then k ∷ rest else rest))
      ]
    ]

-- The lapsed leases, the oldest first, ties by id.
unfoldable pub lapsed : Queue → (now : ℕ) → List (ℕ × ℕ)
lapsed q now =
    sorted (lex (by λ (p : ℕ × ℕ). p.1) (by λ (p : ℕ × ℕ). p.0))
      (select (λ (p : ℕ × ℕ). leb p.1 now) q.leases)

unfoldable pub reclaim_expired : Queue → (now limit : ℕ) → Outcome Queue (List ℕ)
unfolding lapsed
reclaim_expired q now limit =
    reclaim_each q (map (λ (p : ℕ × ℕ). p.0) (take limit (lapsed q now))) now

-- The record that the queue keeps of a cancelled job.
abbrev pub cancelled : Job → Job
cancelled j = record (rebuild j) {
  status = JobStatus.cancelled;
  failure_kind = some FailureKind.cancelled;
  lease = none;
  assigned_worker_id = none;
}

-- One job of `cancel_run_jobs`: the queue, and whether the job was cancelled.
unfoldable pub cancel_one : Queue → (job_id : ℕ) → Queue × Bool
cancel_one q job_id = elim (get job_id q.jobs) [
  | none ↦ (q, false)
  | some j ↦ if job_is_terminal j.status then (q, false) else (
    record q {
      ready = drop_ready j.type job_id q.ready;
      leases = pop job_id q.leases;
      jobs = put job_id (cancelled j) q.jobs;
    },
    true,
  )
]

unfoldable pub cancel_each : Queue → List ℕ → Queue × List ℕ
cancel_each q [] = (q, [])
cancel_each q (k ∷ ks) =
    let (p, done) = cancel_one q k in
    let (r, rest) = cancel_each p ks in (r, if done then k ∷ rest else rest)

unfoldable pub cancel_run_jobs : Queue → (run_id : ℕ) → Queue × List ℕ
cancel_run_jobs q run_id = cancel_each q (sorted (by λ k. k) (members run_id q.runs))

abbrev pub all_types : List JobType
all_types =
    JobType.plan ∷ JobType.code ∷ JobType.review ∷ JobType.llm_inference ∷ JobType.build
    ∷ JobType.test ∷ JobType.static_analysis ∷ JobType.patch_apply ∷ []

-- The number of ready jobs of a type, or of all.
unfoldable pub depth : Queue → Option JobType → ℕ
depth q (some t) = length (q.ready t)
depth q none = length (entries all_types q.ready)
