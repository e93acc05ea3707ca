-- ===== src/Job/Samples.antt =====
-- Jobs to try the code on, and the theorems about jobs at concrete inputs.
use agentic_gpu_platform.Shared.{
  Bool, List, [], ap, arith, end, false, none, refl, some, ℕ, ◌∷◌, ◌≡◌, ◌≤◌,
}
use agentic_gpu_platform.Enums.{FailureKind, JobStatus, JobType, Priority}
use agentic_gpu_platform.Errors.{ok}
use agentic_gpu_platform.Job.{
  Job, JobSpec, cancel, complete, create, enqueue, expire_lease, fail, lease_to, mark_running,
  renew_lease, requeue,
}
use agentic_gpu_platform.Job.History.{
  Call, after, completes, enqueues, expires, fails, leases, marks_running, requeues, run,
}
use agentic_gpu_platform.Job.Validity.{IsValid, created-IsValid}
use agentic_gpu_platform.Job.Leasing.{expire_lease-recovers, lease_to-stuck, report_rejected}
use agentic_gpu_platform.Job.Budget.{leases-le-max_attempts, leases_in}

abbrev pub build_spec : JobSpec
build_spec = record {
  job_id = 7;
  run_id = 1;
  project_id = 1;
  job_type = JobType.build;
  role = none;
  candidate_id = none;
  priority = Priority.normal;
  payload = none;
  requirements = none;
  max_attempts = 2;
  idempotency_key = none;
}

abbrev pub build_job : Job
build_job = record {
  id = 7;
  run_id = 1;
  project_id = 1;
  type = JobType.build;
  role = none;
  candidate_id = none;
  priority = Priority.normal;
  status = JobStatus.pending;
  attempt = 0;
  max_attempts = 2;
  payload = end;
  requirements = none;
  idempotency_key = none;
  lease = none;
  assigned_worker_id = none;
  created_at = 100;
  started_at = none;
  completed_at = none;
  result = none;
  failure_kind = none;
  failure_reason = none;
  events = [];
}

build_created : create build_spec 100 ≡ ok build_job
unfolding create
build_created = refl

abbrev pub claim_at : ℕ → ℕ → Call
claim_at now token = leases 5 now 60 (some token) 0

abbrev first_try : List Call
first_try = enqueues 110 ∷ claim_at 120 1 ∷ marks_running 1 130 ∷ []

-- The first worker goes silent; the second one fails the job for good.
abbrev whole_life : List Call
whole_life =
    enqueues 110
    ∷ claim_at 120 1
    ∷ expires 200
    ∷ requeues 210 "lease expired"
    ∷ claim_at 220 2
    ∷ completes (some 1) 225 none
    ∷ fails (some 2) 230 FailureKind.infrastructure "gone" none
    ∷ []

machine : Unit {0}
unfolding run after enqueue lease_to mark_running renew_lease complete fail expire_lease requeue
    cancel
machine = tt

whole_life_ends : (run build_job whole_life).status ≡ JobStatus.dead
unfolding machine
whole_life_ends = refl

first_try_runs : (run build_job first_try).status ≡ JobStatus.running
unfolding machine
first_try_runs = refl

leases-le-max_attempts_example : leases_in (run build_job whole_life).events ≤ 2
leases-le-max_attempts_example =
    leases-le-max_attempts build_spec 100 build_job whole_life build_created (omega arith)

report_rejected_example :
    after (run build_job first_try) (completes (some 9) 140 none) ≡ run build_job first_try
unfolding machine
report_rejected_example =
    report_rejected (run build_job first_try) (completes (some 9) 140 none) 9 refl
      (λ h. ground arith)

expire_lease-recovers_example : (expire_lease (run build_job first_try) 300).0.lease ≡ none
unfolding machine
expire_lease-recovers_example =
    (expire_lease-recovers (run build_job first_try) 300 "lease expired"
      (created-IsValid build_spec 100 build_job first_try build_created (omega arith)) refl
      (λ l e. ground arith)).0

whole_life-IsValid : IsValid (run build_job whole_life)
whole_life-IsValid = created-IsValid build_spec 100 build_job whole_life build_created (omega arith)

lease_to-stuck_example :
    (expire_lease (lease_to (run build_job (enqueues 110 ∷ [])) 5 120 0 none 3).0 900).1 ≡ false
unfolding machine
lease_to-stuck_example =
    ap (λ (o : Job × Bool). o.1)
      (lease_to-stuck (run build_job (enqueues 110 ∷ [])) 5 120 3 900 none refl refl).3
