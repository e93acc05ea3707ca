-- ===== src/Retry/Policy.antt =====
-- What the retry policy (src/domain/services/retry_policy.py) decides, and how it fits the budget of
-- the job that it is asked about (src/domain/entities/job.py).
use native.Mathlib.Nat.{pow-suc}
use agentic_gpu_platform.Shared.{
  String, ap, arith, false, min, none, some, suc, true, ℕ, ◌*◌, ◌<◌, ◌^◌, ◌↔◌, ◌∙◌, ◌≡◌, ◌≤◌, ◌⊎◌,
}
use agentic_gpu_platform.Enums.{
  FailureKind, JobStatus, is_code_defect, is_infrastructure, job_is_terminal,
}
use agentic_gpu_platform.Errors.{invalid_job_transition, ok, raise}
use agentic_gpu_platform.Job.{Job, assert_optional, fail, may_retry, requeue}
use agentic_gpu_platform.Retry.{RetryPolicy, agentic_repair, backoff, decide, should_retry_job}

-- A job is retried exactly when the machinery failed and attempts remain, or the answer of the model
-- was malformed and repair prompts remain. A defect in the produced code always goes to the coder,
-- and only such a defect does.
pub decide_lem :
    (p : RetryPolicy) (kind : FailureKind) (attempt : ℕ)
    → ((should_retry_job (decide p kind attempt) ≡ true)
        ↔ (is_infrastructure kind ≡ true) × (attempt < p.max_attempts)
          ⊎ (kind ≡ FailureKind.invalid_structured_output)
            × (attempt < p.max_structured_output_repairs))
      × (((decide p kind attempt).action ≡ agentic_repair) ↔ (is_code_defect kind ≡ true))
unfolding decide
decide_lem p kind attempt = ground arith

doubling : (b n : ℕ) → b * 2 ^ suc n ≡ 2 * (b * 2 ^ n)
doubling b n = rw pow-suc (omega arith)

-- The delay never passes the cap, is the base delay after the first attempt (or the cap), and
-- doubles with each attempt until the cap is reached.
pub backoff_lem :
    (p : RetryPolicy) (n : ℕ)
    → (backoff p (suc n) ≤ p.max_delay)
      × (backoff p 1 ≡ min p.base_delay p.max_delay)
      × (backoff p (suc (suc n)) ≡ min (2 * backoff p (suc n)) p.max_delay)
      × (backoff p (suc n) ≤ backoff p (suc (suc n)))
unfolding backoff
backoff_lem p n =
    let now : backoff p (suc n) ≡ min (p.base_delay * 2 ^ n) p.max_delay =
      ap (λ (k : ℕ). min (p.base_delay * 2 ^ k) p.max_delay) (omega arith) in
    let next : backoff p (suc (suc n)) ≡ min (2 * (p.base_delay * 2 ^ n)) p.max_delay =
      ap (λ (k : ℕ). min (p.base_delay * 2 ^ k) p.max_delay) (omega arith)
      ∙ ap (λ (x : ℕ). min x p.max_delay) (doubling p.base_delay n) in
    (omega (arith, now), omega arith, omega (arith, now, next), omega (arith, now, next))

-- What `RunOrchestrator._handle_failure` asks of the job once the policy has decided: the job fails
-- as the decision says. Where the policy gives no more attempts than the job has, a decision to retry
-- is carried out: the job is failed, not dead, and can be requeued.
pub decide-requeues :
    (p : RetryPolicy) (j : Job) (kind : FailureKind) (now : ℕ) (why why' : String)
    → p.max_attempts ≤ j.max_attempts
    → p.max_structured_output_repairs ≤ j.max_attempts
    → job_is_terminal j.status ≡ false
    → should_retry_job (decide p kind j.attempt) ≡ true
    → let (k, answer) =
        fail j none now kind why (some (should_retry_job (decide p kind j.attempt))) in
      (answer ≡ ok true)
      × (k.status ≡ JobStatus.failed)
      × ((requeue k now why').0.status ≡ JobStatus.queued)
      × ((requeue k now why').1 ≡ ok tt)
unfolding fail may_retry requeue assert_optional decide
decide-requeues p j kind now why why' a b h r = ground arith

-- Where the policy still allows a retry and the job has no attempt left, the job dies and the requeue
-- that follows raises.
pub decide-overruns :
    (p : RetryPolicy) (j : Job) (kind : FailureKind) (now : ℕ) (why why' : String)
    → j.max_attempts ≤ j.attempt
    → j.attempt < p.max_attempts
    → is_infrastructure kind ≡ true
    → job_is_terminal j.status ≡ false
    → let k = (fail j none now kind why (some (should_retry_job (decide p kind j.attempt)))).0 in
      (should_retry_job (decide p kind j.attempt) ≡ true)
      × (k.status ≡ JobStatus.dead)
      × ((requeue k now why').1 ≡ raise (invalid_job_transition JobStatus.dead JobStatus.queued))
unfolding fail may_retry requeue assert_optional decide
decide-overruns p j kind now why why' a b i h = ground arith
