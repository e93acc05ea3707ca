-- ===== src/Job/Budget.antt =====
-- The retry budget of a job, and what a finished job still allows (src/domain/entities/job.py).
use agentic_gpu_platform.Shared.{
  Bool, Fields, List, Option, String, [], arith, false, if◌then◌else◌, none, refl, some, suc, true,
  ℕ, ◌++◌, ◌+◌, ◌<◌, ◌or◌, ◌↔◌, ◌∷◌, ◌≡◌, ◌≤◌,
}
use agentic_gpu_platform.Enums.{FailureKind, JobStatus, job_is_terminal}
use agentic_gpu_platform.Errors.{ok}
use agentic_gpu_platform.Job.{
  Job, JobEvent, JobSpec, assert_optional, cancel, complete, create, default_retryable, enqueue,
  expire_lease, fail, job_completed, job_enqueued, job_failed, job_lease_expired_event, job_leased,
  job_requeued, lease_to, mark_running, may_retry, renew_lease, requeue,
}
use agentic_gpu_platform.Job.History.{
  Call, after, cancels, completes, enqueues, expires, fails, leases, marks_running, renews,
  requeues, run,
}
use agentic_gpu_platform.Job.Validity.{AreProper, IsValid, created-IsValid}

-- How many leases the recorded events tell of.
abbrev pub leases_in : List JobEvent → ℕ
leases_in [] = 0
leases_in (job_leased _ _ _ _ _ ∷ es) = suc (leases_in es)
leases_in (job_enqueued _ _ _ _ _ ∷ es) = leases_in es
leases_in (job_completed _ _ _ _ _ ∷ es) = leases_in es
leases_in (job_failed _ _ _ _ _ _ _ ∷ es) = leases_in es
leases_in (job_lease_expired_event _ _ _ _ ∷ es) = leases_in es
leases_in (job_requeued _ _ _ _ _ ∷ es) = leases_in es

leases_in-append : (es fs : List JobEvent) → leases_in (es ++ fs) ≡ leases_in es + leases_in fs
leases_in-append [] fs = omega arith
leases_in-append (job_leased _ _ _ _ _ ∷ es) fs = omega (arith, leases_in-append es fs)
leases_in-append (job_enqueued _ _ _ _ _ ∷ es) fs = leases_in-append es fs
leases_in-append (job_completed _ _ _ _ _ ∷ es) fs = leases_in-append es fs
leases_in-append (job_failed _ _ _ _ _ _ _ ∷ es) fs = leases_in-append es fs
leases_in-append (job_lease_expired_event _ _ _ _ ∷ es) fs = leases_in-append es fs
leases_in-append (job_requeued _ _ _ _ _ ∷ es) fs = leases_in-append es fs

-- A call records at most one lease, and counts an attempt with it; the budget stays what it was.
abbrev Counted : Job → Job → Type 0
Counted j k =
    (leases_in k.events + j.attempt ≤ leases_in j.events + k.attempt)
    × (k.max_attempts ≡ j.max_attempts)

after-Counted : (j : Job) (c : Call) → Counted j (after j c)
unfolding after enqueue lease_to mark_running renew_lease complete fail expire_lease requeue cancel
after-Counted j (enqueues now) = grind (arith, leases_in-append)
after-Counted j (leases w now d t g) = grind (arith, leases_in-append)
after-Counted j (marks_running t now) = ground arith
after-Counted j (renews t now d) = ground arith
after-Counted j (completes t now r) = grind (arith, leases_in-append)
after-Counted j (fails t now k why retryable) = grind (arith, leases_in-append)
after-Counted j (expires now) = grind (arith, leases_in-append)
after-Counted j (requeues now why) = grind (arith, leases_in-append)
after-Counted j (cancels now) = ground arith

run-Counted : (j : Job) (cs : List Call) → Counted j (run j cs)
unfolding run
run-Counted j [] = (omega arith, refl)
run-Counted j (c ∷ cs) = omega (arith, after-Counted j c, run-Counted (after j c) cs)

create-unleased :
    (s : JobSpec) (now : ℕ) {j : Job}
    → create s now ≡ ok j
    → (leases_in j.events ≡ 0) × (j.max_attempts ≡ s.max_attempts)
unfolding create
create-unleased s now e = ground arith

-- Over the whole life of a job, whatever calls are made on it, it is leased `max_attempts` times at
-- most, provided that every lease is asked for a positive time.
pub leases-le-max_attempts :
    (s : JobSpec) (now : ℕ) (j : Job) (cs : List Call)
    → create s now ≡ ok j
    → AreProper cs
    → leases_in (run j cs).events ≤ s.max_attempts
leases-le-max_attempts s now j cs e p =
    let v = created-IsValid s now j cs e p in
    omega (arith, v.attempts_capped, run-Counted j cs, create-unleased s now e)

abbrev pub IsUntokenedCompletion : Call → Type 0
IsUntokenedCompletion (completes none now r) = Unit
IsUntokenedCompletion _ = ⊥

-- A finished job (succeeded, dead or cancelled) stays exactly as it is under every call but a
-- `complete` without a token.
pub finished_job_absorbs :
    (j : Job) (c : Call)
    → IsValid j
    → job_is_terminal j.status ≡ true
    → ¬ IsUntokenedCompletion c
    → after j c ≡ j
unfolding after enqueue lease_to mark_running renew_lease complete fail expire_lease requeue cancel
finished_job_absorbs j (completes none now r) v h n = absurd (n tt)
finished_job_absorbs j (completes (some t) now r) v h n = ground (arith, v.leased_in_flight)
finished_job_absorbs j (enqueues now) v h n = ground (arith, v.leased_in_flight)
finished_job_absorbs j (leases w now d t g) v h n = ground (arith, v.leased_in_flight)
finished_job_absorbs j (marks_running t now) v h n = ground (arith, v.leased_in_flight)
finished_job_absorbs j (renews t now d) v h n = ground (arith, v.leased_in_flight)
finished_job_absorbs j (fails t now k why retryable) v h n = ground (arith, v.leased_in_flight)
finished_job_absorbs j (expires now) v h n = ground (arith, v.leased_in_flight)
finished_job_absorbs j (requeues now why) v h n = ground (arith, v.leased_in_flight)
finished_job_absorbs j (cancels now) v h n = ground (arith, v.leased_in_flight)

-- A `complete` without a token turns a job in any state into a succeeded one, a cancelled or dead
-- job included, and never raises.
pub complete-revives :
    (j : Job) (now : ℕ) (r : Option Fields)
    → ((complete j none now r).0.status ≡ JobStatus.succeeded) × ((complete j none now r).1 ≡ ok tt)
unfolding complete
complete-revives j now r = ground arith

-- What `fail` decides. A finished job is left alone. Otherwise, for a caller who owns the lease or
-- shows no token, the job may be tried again exactly when an attempt is left and the failure is
-- retryable, by the caller's word or else by the kind; it is then failed, and otherwise dead.
pub fail_lem :
    (j : Job) (token : Option ℕ) (now : ℕ) (kind : FailureKind) (why : String)
    (retryable : Option Bool)
    → job_is_terminal j.status ≡ false
    → assert_optional j token now ≡ ok tt
    → let (k, answer) = fail j token now kind why retryable in
      (answer ≡ ok (may_retry j kind retryable))
      × (k.status ≡ (if may_retry j kind retryable then JobStatus.failed else JobStatus.dead))
      × (k.lease ≡ none)
      × (k.attempt ≡ j.attempt)
      × ((may_retry j kind retryable ≡ true)
          ↔ ((retryable or default_retryable kind) ≡ true) × (j.attempt < j.max_attempts))
unfolding fail may_retry
fail_lem j token now kind why retryable h e = ground arith
