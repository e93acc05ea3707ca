-- ===== src/Job/History.antt =====
-- Calls on one job (src/domain/entities/job.py) as data, and sequences of them.
use agentic_gpu_platform.Shared.{Bool, Fields, List, Option, String, [], ℕ, ◌∷◌}
use agentic_gpu_platform.Enums.{FailureKind}
use agentic_gpu_platform.Job.{
  Job, cancel, complete, enqueue, expire_lease, fail, lease_to, mark_running, renew_lease, requeue,
}

pub data Call : Type 0 where
  enqueues : (now : ℕ) → Call
  leases : (worker_id now duration : ℕ) (token : Option ℕ) (generated : ℕ) → Call
  marks_running : (token now : ℕ) → Call
  renews : (token now duration : ℕ) → Call
  completes : (token : Option ℕ) (now : ℕ) (result : Option Fields) → Call
  fails :
      (token : Option ℕ) (now : ℕ) (kind : FailureKind) (reason : String) (retryable : Option Bool)
      → Call
  expires : (now : ℕ) → Call
  requeues : (now : ℕ) (reason : String) → Call
  cancels : (now : ℕ) → Call

-- The job after a call, whether the call returned or raised.
unfoldable pub after : Job → Call → Job
after j (enqueues now) = (enqueue j now).0
after j (leases w now d t g) = (lease_to j w now d t g).0
after j (marks_running t now) = (mark_running j t now).0
after j (renews t now d) = (renew_lease j t now d).0
after j (completes t now r) = (complete j t now r).0
after j (fails t now k why retryable) = (fail j t now k why retryable).0
after j (expires now) = (expire_lease j now).0
after j (requeues now why) = (requeue j now why).0
after j (cancels now) = cancel j now

unfoldable pub run : Job → List Call → Job
run j [] = j
run j (c ∷ cs) = run (after j c) cs
