-- ===== src/Job/Validity.antt =====
-- The invariant of a job (src/domain/entities/job.py) and its preservation by every call.
use agentic_gpu_platform.Shared.{
  Bool, List, Option, [], arith, false, is_none, is_some, none, some, true, ℕ, ◌&&◌, ◌<◌, ◌∷◌, ◌≡◌,
  ◌≤◌,
}
use agentic_gpu_platform.Enums.{JobStatus, is_in_flight, requires_inference}
use agentic_gpu_platform.Errors.{ok}
use agentic_gpu_platform.Lease.{Lease}
use agentic_gpu_platform.Job.{
  Job, JobSpec, cancel, complete, create, enqueue, expire_lease, fail, lease_to, mark_running,
  renew_lease, requeue,
}
use agentic_gpu_platform.Job.History.{
  Call, after, cancels, completes, enqueues, expires, fails, leases, marks_running, renews,
  requeues, run,
}

abbrev pub is_waiting : JobStatus → Bool
is_waiting s = elim s [
  | JobStatus.pending ↦ true
  | JobStatus.queued ↦ true
  | JobStatus.failed ↦ true
  | _ ↦ false
]

-- What a lease that a job holds says: it is a lease on this job, with a positive term, and its
-- holder is the worker that the job is assigned to.
abbrev pub Fits : Job → Option Lease → Type 0
Fits j none = Unit
Fits j (some l) =
    (l.job_id ≡ j.id) × (l.acquired_at < l.expires_at) × (j.assigned_worker_id ≡ some l.holder)

pub record IsValid (j : Job) : Type 0 where
  pub has_budget : 1 ≤ j.max_attempts
  pub has_role : (requires_inference j.type && is_none j.role) ≡ false
  pub attempts_capped : j.attempt ≤ j.max_attempts
  pub waiting_may_retry : is_waiting j.status ≡ true → j.attempt < j.max_attempts
  pub leased_in_flight : is_some j.lease ≡ is_in_flight j.status
  pub lease_fits : Fits j j.lease

-- A new job is valid.
pub create-IsValid : (s : JobSpec) (now : ℕ) {j : Job} → create s now ≡ ok j → IsValid j
unfolding create
create-IsValid s now e = ground arith

-- Every lease is asked for a positive time.
abbrev pub IsProper : Call → Type 0
IsProper (leases w now d t g) = 0 < d
IsProper _ = Unit

-- Every call keeps a job valid, provided that a lease is asked for a positive time.
pub after-IsValid : (j : Job) (c : Call) → IsProper c → IsValid j → IsValid (after j c)
unfolding after enqueue lease_to mark_running renew_lease complete fail expire_lease requeue cancel
after-IsValid j (enqueues now) p v = ground arith
after-IsValid j (leases w now d t g) p v = ground arith
after-IsValid j (marks_running t now) p v = ground arith
after-IsValid j (renews t now d) p v = ground arith
after-IsValid j (completes t now r) p v = ground arith
after-IsValid j (fails t now k why retryable) p v = ground arith
after-IsValid j (expires now) p v = ground arith
after-IsValid j (requeues now why) p v = ground arith
after-IsValid j (cancels now) p v = ground arith

abbrev pub AreProper : List Call → Type 0
AreProper [] = Unit
AreProper (c ∷ cs) = IsProper c × AreProper cs

pub run-IsValid : (j : Job) (cs : List Call) → AreProper cs → IsValid j → IsValid (run j cs)
unfolding run
run-IsValid j [] p v = v
run-IsValid j (c ∷ cs) p v = run-IsValid (after j c) cs p.1 (after-IsValid j c p.0 v)

-- A job that was created and then went through any calls is valid, provided that every lease is asked
-- for a positive time.
pub created-IsValid :
    (s : JobSpec) (now : ℕ) (j : Job) (cs : List Call)
    → create s now ≡ ok j
    → AreProper cs
    → IsValid (run j cs)
created-IsValid s now j cs e p = run-IsValid j cs p (create-IsValid s now e)
