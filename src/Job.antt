-- ===== src/Job.antt =====
-- src/domain/entities/job.py and src/domain/events/job.py: the job aggregate. A method takes the job
-- and returns it as the method leaves it, with the result or the error raised. `lease_to` takes the
-- fresh token that `LeaseToken.generate` would draw. The time that `JobCompleted` reports in
-- milliseconds is kept as the two instants that `duration_ms` converts.
mod Samples
pub mod History
pub mod Validity
pub mod Leasing
pub mod Budget
mod State
unfoldable pub use State.*
use agentic_gpu_platform.Shared.{
  Bool, Fields, List, Option, String, [], false, if◌then◌else◌, leb, ltb, none, not, some, true, ℕ,
  ◌&&◌, ◌++◌, ◌+◌, ◌-◌, ◌==◌, ◌or◌, ◌||◌, ◌∷◌,
}
use agentic_gpu_platform.Enums.{
  FailureKind, JobStatus, is_infrastructure, is_invalid_structured_output, is_queued,
  job_is_terminal,
}
use agentic_gpu_platform.Errors.{
  Outcome, Result, invalid_job_transition, job_lease_expired, ok, raise, ◌>>=◌,
}
use agentic_gpu_platform.Lease.{Lease, granted, is_expired, renewed}

abbrev pub attempts_remaining : Job → ℕ
attempts_remaining j = j.max_attempts - j.attempt

abbrev pub record_event : JobEvent → Job → Job
record_event e j = record j { events = j.events ++ e ∷ [] }

abbrev pub can_enqueue : JobStatus → Bool
can_enqueue s = elim s [ JobStatus.pending ↦ true | JobStatus.failed ↦ true | _ ↦ false ]

unfoldable pub enqueue : Job → (now : ℕ) → Outcome Job (Unit {0})
enqueue j now =
    if is_queued j.status
    then (j, ok tt)
    else if can_enqueue j.status
    then (
      record_event (job_enqueued now j.id j.run_id j.type j.attempt)
          (record j { status = JobStatus.queued; lease = none; assigned_worker_id = none }),
      ok tt,
    )
    else (j, raise (invalid_job_transition j.status JobStatus.queued))

-- The attempt is counted before the lease is built, so a refused lease leaves it counted.
unfoldable pub lease_to :
    Job → (worker_id now duration : ℕ) (token : Option ℕ) (generated : ℕ) → Outcome Job Lease
unfolding granted
lease_to j worker_id now duration token generated =
    let claimed = record j {
      attempt = j.attempt + 1;
      status = JobStatus.leased;
      assigned_worker_id = some worker_id;
      started_at = some (j.started_at or now);
    } in
    let leased =
      elim (granted j.id worker_id now duration token generated) as (λ _. Outcome Job Lease) [
        | ok l ↦ (
          record_event (job_leased now j.id j.run_id worker_id (j.attempt + 1))
              (record claimed { lease = some l }),
          ok l,
        )
        | raise e ↦ (claimed, raise e)
      ] in
    if is_queued j.status
    then leased
    else (j, raise (invalid_job_transition j.status JobStatus.leased))

unfoldable pub assert_lease : Job → (token now : ℕ) → Result Lease
assert_lease j token now = elim j.lease [
  | none ↦ raise (job_lease_expired j.id j.assigned_worker_id)
  | some l ↦
      if l.token == token
      then (if is_expired l now then raise (job_lease_expired j.id (some l.holder)) else ok l)
      else raise (job_lease_expired j.id j.assigned_worker_id)
]

abbrev is_running : JobStatus → Bool
is_running s = elim s [ JobStatus.running ↦ true | _ ↦ false ]

unfoldable pub mark_running : Job → (token now : ℕ) → Outcome Job (Unit {0})
unfolding assert_lease
mark_running j token now = elim (assert_lease j token now) [
  | raise e ↦ (j, raise e)
  | ok l ↦
      if is_running j.status
      then (j, ok tt)
      else (record j { status = JobStatus.running; started_at = some (j.started_at or now) }, ok tt)
]

unfoldable pub renew_lease : Job → (token now duration : ℕ) → Outcome Job Lease
unfolding assert_lease renewed
renew_lease j token now duration = elim (assert_lease j token now >>= λ l. renewed l now duration) [
  | raise e ↦ (j, raise e)
  | ok l ↦ (record j { lease = some l }, ok l)
]

-- `if token is not None: self._assert_lease(token, now)`
unfoldable pub assert_optional : Job → (token : Option ℕ) (now : ℕ) → Result (Unit {0})
unfolding assert_lease
assert_optional j none now = ok tt
assert_optional j (some t) now = assert_lease j t now >>= λ _. ok tt

abbrev is_succeeded : JobStatus → Bool
is_succeeded s = elim s [ JobStatus.succeeded ↦ true | _ ↦ false ]

-- The two instants between which `duration_ms` counts; it is 0 where one is missing.
abbrev span_of : Option ℕ → Option ℕ → Option (ℕ × ℕ)
span_of none c = none
span_of (some s) none = none
span_of (some s) (some c) = some (s, c)

unfoldable pub complete :
    Job → (token : Option ℕ) (now : ℕ) (result : Option Fields) → Outcome Job (Unit {0})
unfolding assert_optional
complete j token now result =
    let done = elim (assert_optional j token now) as (λ _. Outcome Job (Unit {0})) [
      | raise e ↦ (j, raise e)
      | ok _ ↦ (
        record_event (job_completed now j.id j.run_id j.type (span_of j.started_at (some now)))
            (record j {
              status = JobStatus.succeeded;
              completed_at = some now;
              result = result;
              lease = none;
            }),
        ok tt,
      )
    ] in
    if is_succeeded j.status then (j, ok tt) else done

-- The domain rule where the caller does not say whether the failure is retryable.
abbrev pub default_retryable : FailureKind → Bool
default_retryable kind = is_infrastructure kind || is_invalid_structured_output kind

unfoldable pub may_retry : Job → FailureKind → Option Bool → Bool
may_retry j kind retryable = (retryable or default_retryable kind) && ltb 0 (attempts_remaining j)

unfoldable pub fail :
    Job
    → (token : Option ℕ) (now : ℕ) (kind : FailureKind) (reason : String) (retryable : Option Bool)
    → Outcome Job Bool
unfolding assert_optional may_retry
fail j token now kind reason retryable =
    let again = may_retry j kind retryable in
    let failed = elim (assert_optional j token now) as (λ _. Outcome Job Bool) [
      | raise e ↦ (j, raise e)
      | ok _ ↦ (
        record_event (job_failed now j.id j.run_id kind reason j.attempt again) (record j {
          status = if again then JobStatus.failed else JobStatus.dead;
          failure_kind = some kind;
          failure_reason = some reason;
          completed_at = some now;
          lease = none;
          assigned_worker_id = none;
        }),
        ok again,
      )
    ] in
    if job_is_terminal j.status then (j, ok false) else failed

unfoldable pub expire_lease : Job → (now : ℕ) → Job × Bool
expire_lease j now = elim j.lease [
  | none ↦ (j, false)
  | some l ↦
      let freed =
        record_event (job_lease_expired_event now j.id j.run_id l.holder)
          (record j { lease = none; assigned_worker_id = none }) in
      if not (is_expired l now)
      then (j, false)
      else if ltb 0 (attempts_remaining j)
      then (record freed { status = JobStatus.failed }, true)
      else (
        record freed {
          status = JobStatus.dead;
          failure_kind = some FailureKind.infrastructure;
          failure_reason = some "lease expired and retry budget exhausted";
          completed_at = some now;
        },
        false,
      )
]

abbrev is_failed : JobStatus → Bool
is_failed s = elim s [ JobStatus.failed ↦ true | _ ↦ false ]

unfoldable pub requeue : Job → (now : ℕ) (reason : String) → Outcome Job (Unit {0})
requeue j now reason =
    if not (is_failed j.status) || leb (attempts_remaining j) 0
    then (j, raise (invalid_job_transition j.status JobStatus.queued))
    else (
      record_event (job_requeued now j.id j.run_id j.attempt reason) (record j {
        status = JobStatus.queued;
        completed_at = none;
        lease = none;
        assigned_worker_id = none;
      }),
      ok tt,
    )

unfoldable pub cancel : Job → (now : ℕ) → Job
cancel j now = if job_is_terminal j.status then j else record j {
  status = JobStatus.cancelled;
  completed_at = some now;
  lease = none;
  assigned_worker_id = none;
  failure_kind = some FailureKind.cancelled;
}

-- `Entity.pull_events`: the buffer, drained.
unfoldable pub pull_events : Job → Job × List JobEvent
pull_events j = (record j { events = [] }, j.events)
