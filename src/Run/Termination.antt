-- ===== src/Run/Termination.antt =====
-- A run moves a bounded number of times (src/domain/entities/run.py with the table of
-- src/domain/services/run_state_machine.py).
use agentic_gpu_platform.Shared.{List, [], arith, suc, true, ℕ, ◌*◌, ◌++◌, ◌+◌, ◌-◌, ◌∷◌, ◌≡◌, ◌≤◌}
use agentic_gpu_platform.Enums.{RunStatus}
use agentic_gpu_platform.Errors.{ok}
use agentic_gpu_platform.RunMachine.{can}
use agentic_gpu_platform.Run.{
  Run, RunEvent, RunSpec, can_revise_plan, candidate_selected, create, plan_completed,
  plan_requested, repair_requested, review_requested, run_cancelled, run_completed, run_created,
  run_failed, run_state_changed,
}
use agentic_gpu_platform.Run.History.{
  Call, adds_token_usage, after, completes, confirms_cancelled, fails, plan_arrives,
  requests_cancellation, requests_plan_revision, requests_repair, run, selects, starts_coding,
  starts_planning, starts_reviewing, starts_validating,
}
use agentic_gpu_platform.Run.Budget.{calls}

-- The state changes that the events tell of.
abbrev pub moves : List RunEvent → ℕ
moves [] = 0
moves (run_state_changed _ _ _ _ _ ∷ es) = suc (moves es)
moves (run_created _ _ _ _ _ ∷ es) = moves es
moves (plan_requested _ _ _ ∷ es) = moves es
moves (plan_completed _ _ _ _ _ ∷ es) = moves es
moves (review_requested _ _ _ _ ∷ es) = moves es
moves (repair_requested _ _ _ _ _ ∷ es) = moves es
moves (candidate_selected _ _ _ _ ∷ es) = moves es
moves (run_completed _ _ _ ∷ es) = moves es
moves (run_failed _ _ _ _ ∷ es) = moves es
moves (run_cancelled _ _ _ ∷ es) = moves es

moves-append : (es fs : List RunEvent) → moves (es ++ fs) ≡ moves es + moves fs
moves-append [] fs = omega arith
moves-append (run_state_changed _ _ _ _ _ ∷ es) fs = omega (arith, moves-append es fs)
moves-append (run_created _ _ _ _ _ ∷ es) fs = moves-append es fs
moves-append (plan_requested _ _ _ ∷ es) fs = moves-append es fs
moves-append (plan_completed _ _ _ _ _ ∷ es) fs = moves-append es fs
moves-append (review_requested _ _ _ _ ∷ es) fs = moves-append es fs
moves-append (repair_requested _ _ _ _ _ ∷ es) fs = moves-append es fs
moves-append (candidate_selected _ _ _ _ ∷ es) fs = moves-append es fs
moves-append (run_completed _ _ _ ∷ es) fs = moves-append es fs
moves-append (run_failed _ _ _ _ ∷ es) fs = moves-append es fs
moves-append (run_cancelled _ _ _ ∷ es) fs = moves-append es fs

-- How far a status is from the end, on the way that takes no loop.
level : RunStatus → ℕ
level RunStatus.created = 7
level RunStatus.planning = 6
level RunStatus.plan_ready = 5
level RunStatus.coding = 4
level RunStatus.validating = 3
level RunStatus.reviewing = 2
level RunStatus.repairing = 5
level RunStatus.cancelling = 1
level RunStatus.completed = 0
level RunStatus.failed = 0
level RunStatus.cancelled = 0

-- What entering a stage costs of a budget: a loop back costs one unit, worth four moves.
cost : RunStatus → ℕ
cost RunStatus.planning = 4
cost RunStatus.repairing = 4
cost _ = 0

can-level : (s t : RunStatus) → can s t ≡ true → suc (level t) ≤ level s + cost t
unfolding can level cost
can-level s t h = ground arith

potential : Run → ℕ
potential r =
    level r.status
    + 4 * (r.limits.max_repair_iterations - r.repair_iterations)
    + 4 * (r.limits.max_plan_revisions + 1 - r.plan_revisions)

-- `start_planning` has no check of the plan budget of its own: it is called within the budget.
abbrev pub IsOrderly : Run → Call → Type 0
IsOrderly r (starts_planning now) = can_revise_plan r ≡ true
IsOrderly r _ = Unit

after-potential :
    (r : Run) (c : Call)
    → IsOrderly r c
    → moves (after r c).events + potential (after r c) ≤ moves r.events + potential r
unfolding calls potential cost
after-potential r (starts_planning now) o =
    grind (arith, moves-append, can-level r.status RunStatus.planning)
after-potential r (plan_arrives p n now) o =
    grind (arith, moves-append, can-level r.status RunStatus.plan_ready)
after-potential r (starts_coding now) o =
    grind (arith, moves-append, can-level r.status RunStatus.coding)
after-potential r (starts_validating now) o =
    grind (arith, moves-append, can-level r.status RunStatus.validating)
after-potential r (starts_reviewing c now) o =
    grind (arith, moves-append, can-level r.status RunStatus.reviewing)
after-potential r (requests_repair c why now) o =
    grind (arith, moves-append, can-level r.status RunStatus.repairing)
after-potential r (requests_plan_revision now) o =
    grind (arith, moves-append, can-level r.status RunStatus.planning)
after-potential r (selects c why now) o = grind (arith, moves-append)
after-potential r (completes now c) o =
    grind (arith, moves-append, can-level r.status RunStatus.completed)
after-potential r (fails now kind why) o =
    grind (arith, moves-append, can-level r.status RunStatus.failed)
after-potential r (requests_cancellation now why) o =
    grind (arith, moves-append, can-level r.status RunStatus.cancelling)
after-potential r (confirms_cancelled now why) o =
    grind (arith, moves-append, can-level r.status RunStatus.cancelled)
after-potential r (adds_token_usage u now) o = ground arith

-- Every `start_planning` among the calls comes while the plan budget is not used up.
abbrev pub AreOrderly : Run → List Call → Type 0
AreOrderly r [] = Unit
AreOrderly r (c ∷ cs) = IsOrderly r c × AreOrderly (after r c) cs

run-potential :
    (r : Run) (cs : List Call)
    → AreOrderly r cs
    → moves (run r cs).events + potential (run r cs) ≤ moves r.events + potential r
unfolding run
run-potential r [] o = omega arith
run-potential r (c ∷ cs) o =
    omega (arith, after-potential r c o.0, run-potential (after r c) cs o.1)

create-potential :
    (s : RunSpec) (now : ℕ) {r : Run}
    → create s now ≡ ok r
    → moves r.events + potential r
      ≤ 7 + 4 * r.limits.max_repair_iterations + 4 * (r.limits.max_plan_revisions + 1)
unfolding create potential level
create-potential s now e = ground arith

-- A run changes its state a bounded number of times, however long the list of calls: at most seven
-- times for the way through, and four more for each repair and each plan that its limits allow.
-- The calls of `start_planning` come while the plan budget is not used up.
pub moves_bounded :
    (s : RunSpec) (now : ℕ) (r : Run) (cs : List Call)
    → create s now ≡ ok r
    → AreOrderly r cs
    → moves (run r cs).events
      ≤ 7 + 4 * r.limits.max_repair_iterations + 4 * (r.limits.max_plan_revisions + 1)
moves_bounded s now r cs e o = omega (arith, run-potential r cs o, create-potential s now e)
