-- ===== src/Orchestrator/Handling.antt =====
-- What `_handle_failure` of src/application/orchestration/orchestrator.py settles: a failed job is
-- tried again, or its run is over.
use agentic_gpu_platform.Shared.{
  Bool, Bool-cases, String, [], arith, false, get, inl, inr, none, refl, some, subst, sym, true, ℕ,
  ℤ, ◌<◌, ◌||◌, ◌∙◌, ◌≡◌, ◌≤◌,
}
use agentic_gpu_platform.Enums.{
  FailureKind, JobStatus, RunStatus, is_code_defect, job_is_terminal, run_is_terminal,
}
use agentic_gpu_platform.Errors.{DomainError, Outcome, Yields-value, ok, settled}
use agentic_gpu_platform.Retry.{RetryDecision, RetryPolicy, decide, should_retry_job}
use agentic_gpu_platform.Job.{Job}
use agentic_gpu_platform.Job
use agentic_gpu_platform.Run.{Run}
use agentic_gpu_platform.Run
use agentic_gpu_platform.Queue.{Queue}
use agentic_gpu_platform.Queue
use agentic_gpu_platform.Queue.Reports.{enqueue_lem, put_here}
use agentic_gpu_platform.Orchestrator.Opening.{fail-IsMoved}
use agentic_gpu_platform.Orchestrator.Failures.{
  Handled, classify, fail_run, handle_failure, publish_again, settle_failure,
}

-- No failure of a job counts as a defect of the code: that is what validation and review are for.
classify-is_code_defect : (e : DomainError) → is_code_defect (classify e) ≡ false
unfolding classify
classify-is_code_defect e = ground arith

decide-bounded :
    (p : RetryPolicy) (kind : FailureKind) (n limit : ℕ)
    → p.max_attempts ≤ limit
    → p.max_structured_output_repairs ≤ limit
    → should_retry_job (decide p kind n) ≡ true
    → n < limit
unfolding decide
decide-bounded p kind n limit a b h = ground arith

-- The failed job, as it is stored.
failed_again :
    (j : Job) (now : ℕ) (kind : FailureKind) (reason : String)
    → job_is_terminal j.status ≡ false
    → j.attempt < j.max_attempts
    → let k = (Job.fail j none now kind reason (some true)).0 in
      (k.status ≡ JobStatus.failed)
      × (k.id ≡ j.id)
      × (k.attempt ≡ j.attempt)
      × (k.max_attempts ≡ j.max_attempts)
unfolding Job.fail Job.assert_optional Job.may_retry
failed_again j now kind reason e h = ground arith

failed_for_good :
    (j : Job) (now : ℕ) (kind : FailureKind) (reason : String)
    → job_is_terminal j.status ≡ false
    → (Job.fail j none now kind reason (some false)).0.status ≡ JobStatus.dead
unfolding Job.fail Job.assert_optional Job.may_retry
failed_for_good j now kind reason e = ground arith

requeued :
    (k : Job) (now : ℕ) (reason : String)
    → k.status ≡ JobStatus.failed
    → k.attempt < k.max_attempts
    → ((Job.requeue k now reason).1 ≡ ok tt)
      × ((Job.requeue k now reason).0.status ≡ JobStatus.queued)
      × ((Job.requeue k now reason).0.id ≡ k.id)
unfolding Job.requeue
requeued k now reason e h = ground arith

-- The queue holds the job for the one who reports.
pub record IsHeld (q : Queue) (id token : ℕ) : Type 0 where
  pub stored : Job
  pub entry : get id q.jobs ≡ some stored
  pub held : Queue.holds stored token ≡ true
  pub score : ℤ
  pub scored : get id q.scores ≡ some score
  pub unacknowledged : Queue.contains id q.acknowledged ≡ false

released :
    (q : Queue) (id token : ℕ)
    → IsHeld q id token
    → let (p, answer) = Queue.release q id token true in
      (answer ≡ ok tt) × ((j : Job) → j.id ≡ id → Queue.is_redelivery p j ≡ false)
unfolding Queue.release Queue.make_ready Queue.is_redelivery
released q id token v =
    rw (Queue.release, v.entry, v.held, Queue.make_ready, v.scored)
      (refl, λ j e. rw (Queue.is_redelivery, e, put_here id _ q.jobs, e, v.unacknowledged) refl)

released_for_good :
    (q : Queue) (id token : ℕ) → IsHeld q id token → (Queue.release q id token false).1 ≡ ok tt
unfolding Queue.release
released_for_good q id token v = rw (Queue.release, v.entry, v.held) refl

-- How a failure ends: with the job waiting in the queue again and the run as it was, or with the job
-- dead and the run failed for the job's cause, and `_advance` called.
pub data IsHandled (j : Job) (r : Run) (e : DomainError) (h : Handled) : Type 0 where
  retried :
      h.job.status ≡ JobStatus.queued
      → h.run ≡ some r
      → get j.id h.queue.jobs ≡ some (record (Queue.rebuild h.job) { status = JobStatus.queued })
      → h.advances ≡ false
      → IsHandled j r e h
  ended :
      (s : Run)
      → h.job.status ≡ JobStatus.dead
      → h.run ≡ some s
      → s.status ≡ RunStatus.failed
      → h.advances ≡ true
      → IsHandled j r e h

published_again :
    (d : RetryDecision) (h : Handled) (now : ℕ)
    → h.job.status ≡ JobStatus.failed
    → h.job.attempt < h.job.max_attempts
    → ((j : Job) → j.id ≡ h.job.id → Queue.is_redelivery h.queue j ≡ false)
    → let (g, answer) = publish_again d h now in
      (answer ≡ ok tt)
      × (g.job.status ≡ JobStatus.queued)
      × (g.run ≡ h.run)
      × (g.advances ≡ h.advances)
      × (get h.job.id g.queue.jobs
          ≡ some (record (Queue.rebuild g.job) { status = JobStatus.queued }))
unfolding publish_again
published_again d h now e l fresh =
    let k = record h.job { events = [] } in
    let again = (Job.requeue k now d.reason).0 in
    let (answered, marked, same) = requeued k now d.reason e l in
    elim (enqueue_lem h.queue again) [
      | inl (redelivered, _) ↦ absurd (clash (fresh again same) redelivered)
      | inr (_, stored, _, _, _) ↦
          rw (publish_again, answered)
            (
              refl,
              marked,
              refl,
              refl,
              subst
                  (λ i.
                    get i (Queue.enqueue h.queue again).jobs
                    ≡ some (record (Queue.rebuild again) { status = JobStatus.queued }))
                  same stored,
            )
    ]
  where
    clash : {b : Bool} → b ≡ false → b ≡ true → ⊥
    clash x y = ground arith

run_failed :
    (r : Run) (kind : FailureKind) (reason : String) (now : ℕ)
    → (run_is_terminal r.status || is_code_defect kind) ≡ false
    → run_is_terminal r.status ≡ false
    → (s : Run) × (fail_run (some r) kind reason now ≡ ok (some s)) × (s.status ≡ RunStatus.failed)
unfolding fail_run
run_failed r kind reason now calm going =
    let (s, done, moved) =
      Yields-value (settled (Run.fail r now kind reason)) (fail-IsMoved r now kind reason going) in
    (s, rw (fail_run, calm, done) refl, moved.status)

-- The job's failure is settled.
abbrev IsSettled : Job → Run → DomainError → Outcome Handled (Unit {0}) → Type 0
IsSettled j r e (h, answer) = (answer ≡ ok tt) × IsHandled j r e h

module _ (j : Job) (token : ℕ) (e : DomainError) (reason : String) (r : Run) (q : Queue) (now : ℕ)
    (alive : job_is_terminal j.status ≡ false) (v : IsHeld q j.id token) where
  comes_back :
      (d : RetryDecision)
      → j.attempt < j.max_attempts
      → IsSettled j r e (settle_failure true d (classify e) j token reason (some r) q now)
  unfolding settle_failure
  comes_back d l =
      let k = (Job.fail j none now (classify e) reason (some true)).0 in
      let (failed, same, count, limit) = failed_again j now (classify e) reason alive l in
      let (answered, fresh) = released q j.id token v in
      let stored : Handled = record {
        job = k;
        run = some r;
        queue = (Queue.release q j.id token true).0;
        advances = false;
      } in
      let (done, marked, kept, still, waiting) =
        published_again d stored now failed (rw (count, limit) l) (λ i x. fresh i (x ∙ same)) in
      rw (settle_failure, answered)
        (
          done,
          retried marked kept
              (subst
                (λ i.
                  get i (publish_again d stored now).0.queue.jobs
                  ≡ some (record (Queue.rebuild (publish_again d stored now).0.job) {
                    status = JobStatus.queued;
                  }))
                same waiting)
              still,
        )

  gives_up :
      (d : RetryDecision)
      → run_is_terminal r.status ≡ false
      → IsSettled j r e (settle_failure false d (classify e) j token reason (some r) q now)
  unfolding settle_failure
  gives_up d going =
      let (s, done, moved) =
        run_failed r (classify e) reason now (rw (going) (classify-is_code_defect e)) going in
      let answered = released_for_good q j.id token v in
      rw (settle_failure, done, answered)
        (refl, ended s (failed_for_good j now (classify e) reason alive) refl moved refl)

-- A job that fails is never left hanging: it waits in the queue again and the run goes on, or it is
-- dead and the run has failed. This takes a job and a run that are not over, a queue that holds the
-- job for the one who reports, and a retry policy that allows no more attempts than the job does.
pub handle_failure-IsHandled :
    (policy : RetryPolicy) (j : Job) (token : ℕ) (e : DomainError) (reason : String) (r : Run)
    (q : Queue) (now : ℕ)
    → policy.max_attempts ≤ j.max_attempts
    → policy.max_structured_output_repairs ≤ j.max_attempts
    → job_is_terminal j.status ≡ false
    → run_is_terminal r.status ≡ false
    → IsHeld q j.id token
    → ((handle_failure policy j token e reason (some r) q now).1 ≡ ok tt)
      × IsHandled j r e (handle_failure policy j token e reason (some r) q now).0
unfolding handle_failure
handle_failure-IsHandled policy j token e reason r q now a b alive going v =
    let d = decide policy (classify e) j.attempt in
    let done = λ (again : Bool).
      IsSettled j r e (settle_failure again d (classify e) j token reason (some r) q now) in
    elim (Bool-cases (should_retry_job d)) [
      | inl again ↦ subst done (sym again) (
          comes_back j token e reason r q now alive v d
            (decide-bounded policy (classify e) j.attempt j.max_attempts a b again))
      | inr over ↦ subst done (sym over) (gives_up j token e reason r q now alive v d going)
    ]
