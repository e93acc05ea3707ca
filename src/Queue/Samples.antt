-- ===== src/Queue/Samples.antt =====
-- A queue to try the code on, and the theorems about it at concrete inputs.
use agentic_gpu_platform.Shared.{
  [], any, arith, end, false, get, here, is_some, none, pop, put, refl, select, some, sub_ℕ, true,
  ℕ, ◌∷◌, ◌≡◌, ◌⊎◌,
}
use agentic_gpu_platform.Enums.{JobStatus, JobType, Priority, rank}
use agentic_gpu_platform.Errors.{is_ok, ok}
use agentic_gpu_platform.Queue.{
  Entry, Queue, acknowledge, add_ready, claim, claim_loop, distinct, drop_ready, empty_queue,
  enqueue, entries, entries_of, hand_out, is_redelivery, lowest, next_ready, priority_band,
  queue_score, release, renew, waiting,
}
use agentic_gpu_platform.Queue.Recovery.{cancel_run_jobs, reclaim_one}
use agentic_gpu_platform.Queue.Claim.{IsHandedOut, IsNext, NoneWaits, claim-IsNext}
use agentic_gpu_platform.Queue.Reports.{reclaim_one-recovers, reports_ignored}
use agentic_gpu_platform.Queue.Stopping.{IsOver, cancel_run_jobs-stops}
use agentic_gpu_platform.Lease.{Lease, granted}
use agentic_gpu_platform.Job.{Job, lease_to}

abbrev new_job : (id created_at : ℕ) → Priority → Job
new_job id created_at priority = record {
  id = id;
  run_id = 1;
  project_id = 1;
  type = JobType.test;
  role = none;
  candidate_id = none;
  priority = priority;
  status = JobStatus.pending;
  attempt = 0;
  max_attempts = 2;
  payload = end;
  requirements = none;
  idempotency_key = none;
  lease = none;
  assigned_worker_id = none;
  created_at = created_at;
  started_at = none;
  completed_at = none;
  result = none;
  failure_kind = none;
  failure_reason = none;
  events = [];
}

-- The older job has the lower priority.
abbrev two_jobs : Queue
two_jobs =
    enqueue (enqueue empty_queue (new_job 4 1000 Priority.normal)) (new_job 5 2000 Priority.high)

-- A worker takes a job for 60, at 100.
abbrev one_taken : Queue
one_taken = (claim two_jobs 9 (JobType.test ∷ []) 60 100 77).0

machine : Unit {0}
unfolding enqueue is_redelivery queue_score priority_band rank sub_ℕ add_ready drop_ready claim
    claim_loop next_ready lowest entries entries_of distinct waiting hand_out lease_to granted get
    put pop any select
machine = tt

high_first : is_some (get 5 one_taken.leases) ≡ true
unfolding machine
high_first = refl

claim-IsNext_example :
    ((claim two_jobs 9 (JobType.test ∷ []) 60 100 77).1 ≡ ok none)
      × NoneWaits two_jobs (distinct (JobType.test ∷ []))
      × (one_taken.jobs ≡ two_jobs.jobs)
      × (one_taken.leases ≡ two_jobs.leases)
    ⊎ ((e : Entry) × (stored : Job) × (j : Job) × (l : Lease) × IsNext two_jobs
          (distinct (JobType.test ∷ []))
          e
          stored
        × ((claim two_jobs 9 (JobType.test ∷ []) 60 100 77).1 ≡ ok (some (j, l)))
        × IsHandedOut two_jobs e stored 9 60 100 77 j l one_taken)
claim-IsNext_example = claim-IsNext two_jobs 9 (JobType.test ∷ []) 60 100 77 (omega arith)

-- The job as the queue keeps it while it is taken.
abbrev taken_job : Job
taken_job = record (new_job 5 2000 Priority.high) {
  status = JobStatus.leased;
  attempt = 1;
  assigned_worker_id = some 9;
  started_at = some 100;
  lease = some (record { job_id = 5; holder = 9; token = 77; acquired_at = 100; expires_at = 160 });
}

taken_is_kept : get 5 one_taken.jobs ≡ some taken_job
unfolding machine
taken_is_kept = refl

reports_ignored_example :
    (acknowledge one_taken 5 33 ≡ one_taken)
    × (release one_taken 5 33 true ≡ (one_taken, ok tt))
    × ((renew one_taken 5 33 60 120).0 ≡ one_taken)
    × (is_ok (renew one_taken 5 33 60 120).1 ≡ false)
reports_ignored_example = reports_ignored one_taken taken_job 5 33 60 120 true taken_is_kept refl

reclaim_one-recovers_example : (reclaim_one one_taken 5 200).1 ≡ ok true
unfolding machine
reclaim_one-recovers_example =
    (reclaim_one-recovers one_taken taken_job
      (record { job_id = 5; holder = 9; token = 77; acquired_at = 100; expires_at = 160 }) 5 200
      (queue_score Priority.high 2000) taken_is_kept refl (omega arith) refl).0

cancel_run_jobs-stops_example :
    IsOver (cancel_run_jobs one_taken 1).0 5
    × ((e : Entry) → e.id ≡ 5 → waiting (cancel_run_jobs one_taken 1).0 e ≡ none)
unfolding machine
cancel_run_jobs-stops_example = cancel_run_jobs-stops one_taken 1 5 (here refl)
