-- ===== src/Run/Budget.antt =====
-- The budgets of a run (src/domain/entities/run.py): the loops through REPAIRING and PLANNING end.
use agentic_gpu_platform.Shared.{
  Bool, List, [], ap, arith, false, refl, true, ℕ, ◌+◌, ◌∙◌, ◌∷◌, ◌≡◌, ◌≤◌, ◌⊎◌,
}
use agentic_gpu_platform.Enums.{RunStatus}
use agentic_gpu_platform.Errors.{ok}
use agentic_gpu_platform.Limits.{RunLimits}
use agentic_gpu_platform.RunMachine.{can, ensure}
use agentic_gpu_platform.Run.{
  Run, RunSpec, add_token_usage, complete, confirm_cancelled, create, fail, plan_ready,
  request_cancellation, request_plan_revision, request_repair, select_candidate, start_coding,
  start_planning, start_reviewing, start_validating, transition,
}
use agentic_gpu_platform.Run.History.{
  Call, adds_token_usage, after, completes, confirms_cancelled, fails, plan_arrives,
  requests_cancellation, requests_plan_revision, requests_repair, run, selects, starts_coding,
  starts_planning, starts_reviewing, starts_validating,
}

unfoldable pub calls : Unit {0}
unfolding after start_planning plan_ready start_coding start_validating start_reviewing
    request_repair request_plan_revision select_candidate complete fail request_cancellation
    confirm_cancelled add_token_usage transition ensure
calls = tt

-- The stages before a review: a review in hand has not been counted yet.
abbrev is_before_review : RunStatus → Bool
is_before_review s = elim s [
  | RunStatus.created ↦ true
  | RunStatus.planning ↦ true
  | RunStatus.plan_ready ↦ true
  | RunStatus.coding ↦ true
  | RunStatus.validating ↦ true
  | RunStatus.repairing ↦ true
  | _ ↦ false
]

abbrev is_reviewing : RunStatus → Bool
is_reviewing s = elim s [ RunStatus.reviewing ↦ true | _ ↦ false ]

can-review : (s : RunStatus) → can s RunStatus.reviewing ≡ true → is_before_review s ≡ true
unfolding can
can-review s h = ground arith

can-before :
    (s t : RunStatus)
    → can s t ≡ true
    → is_before_review t ≡ true
    → (is_before_review s ≡ true) ⊎ (t ≡ RunStatus.repairing)
unfolding can
can-before s t h k = ground arith

pub record IsBounded (r : Run) : Type 0 where
  pub repairs_capped : r.repair_iterations ≤ r.limits.max_repair_iterations
  pub reviews_capped : r.review_iterations ≤ r.repair_iterations + 1
  pub reviews_settled : is_before_review r.status ≡ true → r.review_iterations ≤ r.repair_iterations

after-IsBounded : (r : Run) (c : Call) → IsBounded r → IsBounded (after r c)
unfolding calls
after-IsBounded r (starts_planning now) b = ground (arith, can-before r.status RunStatus.planning)
after-IsBounded r (plan_arrives p n now) b =
    ground (arith, can-before r.status RunStatus.plan_ready)
after-IsBounded r (starts_coding now) b = ground (arith, can-before r.status RunStatus.coding)
after-IsBounded r (starts_validating now) b =
    ground (arith, can-before r.status RunStatus.validating)
after-IsBounded r (starts_reviewing c now) b = ground (arith, can-review r.status)
after-IsBounded r (requests_repair c why now) b = ground arith
after-IsBounded r (requests_plan_revision now) b =
    ground (arith, can-before r.status RunStatus.planning)
after-IsBounded r (selects c why now) b = ground arith
after-IsBounded r (completes now c) b = ground arith
after-IsBounded r (fails now kind why) b = ground arith
after-IsBounded r (requests_cancellation now why) b = ground arith
after-IsBounded r (confirms_cancelled now why) b = ground arith
after-IsBounded r (adds_token_usage u now) b = ground arith

run-IsBounded : (r : Run) (cs : List Call) → IsBounded r → IsBounded (run r cs)
unfolding run
run-IsBounded r [] b = b
run-IsBounded r (c ∷ cs) b = run-IsBounded (after r c) cs (after-IsBounded r c b)

create-IsBounded : (s : RunSpec) (now : ℕ) {r : Run} → create s now ≡ ok r → IsBounded r
unfolding create
create-IsBounded s now e = ground arith

after-limits : (r : Run) (c : Call) → (after r c).limits ≡ r.limits
unfolding calls
after-limits r (starts_planning now) = ground arith
after-limits r (plan_arrives p n now) = ground arith
after-limits r (starts_coding now) = ground arith
after-limits r (starts_validating now) = ground arith
after-limits r (starts_reviewing c now) = ground arith
after-limits r (requests_repair c why now) = ground arith
after-limits r (requests_plan_revision now) = ground arith
after-limits r (selects c why now) = ground arith
after-limits r (completes now c) = ground arith
after-limits r (fails now kind why) = ground arith
after-limits r (requests_cancellation now why) = ground arith
after-limits r (confirms_cancelled now why) = ground arith
after-limits r (adds_token_usage u now) = ground arith

run-limits : (r : Run) (cs : List Call) → (run r cs).limits ≡ r.limits
unfolding run
run-limits r [] = refl
run-limits r (c ∷ cs) = run-limits (after r c) cs ∙ after-limits r c

-- Whatever calls are made on a new run, it is repaired at most as often as its limits say, and
-- reviewed at most once more than that.
pub iterations_bounded :
    (s : RunSpec) (now : ℕ) (r : Run) (cs : List Call)
    → create s now ≡ ok r
    → ((run r cs).repair_iterations ≤ r.limits.max_repair_iterations)
      × ((run r cs).review_iterations ≤ r.limits.max_repair_iterations + 1)
iterations_bounded s now r cs e =
    let b = run-IsBounded r cs (create-IsBounded s now e) in
    let l = ap (λ (l : RunLimits). l.max_repair_iterations) (run-limits r cs) in
    omega (arith, b.repairs_capped, b.reviews_capped, l)
