-- ===== src/RunMachine/Graph.antt =====
-- The diagram of a run as a relation, apart from the table of
-- src/domain/services/run_state_machine.py: the forward stages, the two loops back, and the two
-- ways out that every stage has.
use agentic_gpu_platform.Shared.{arith, refl, true, ◌↔◌, ◌≡◌}
use agentic_gpu_platform.Enums.{RunStatus}
use agentic_gpu_platform.RunMachine.{can}

-- The stages in which a run is at work.
pub data IsActive : RunStatus → Type 0 where
  at_created : IsActive RunStatus.created
  at_planning : IsActive RunStatus.planning
  at_plan_ready : IsActive RunStatus.plan_ready
  at_coding : IsActive RunStatus.coding
  at_validating : IsActive RunStatus.validating
  at_reviewing : IsActive RunStatus.reviewing
  at_repairing : IsActive RunStatus.repairing

infix 40 ◌⟶◌ ◌⟶*◌
pub data ◌⟶◌ : RunStatus → RunStatus → Type 0 where
  plan : RunStatus.created ⟶ RunStatus.planning
  skip_plan : RunStatus.created ⟶ RunStatus.coding
  accept_plan : RunStatus.planning ⟶ RunStatus.plan_ready
  start_code : RunStatus.plan_ready ⟶ RunStatus.coding
  revise_plan : RunStatus.plan_ready ⟶ RunStatus.planning
  validate : RunStatus.coding ⟶ RunStatus.validating
  review_unvalidated : RunStatus.coding ⟶ RunStatus.reviewing
  review : RunStatus.validating ⟶ RunStatus.reviewing
  repair_invalid : RunStatus.validating ⟶ RunStatus.repairing
  repair_rejected : RunStatus.reviewing ⟶ RunStatus.repairing
  finish : RunStatus.reviewing ⟶ RunStatus.completed
  recode : RunStatus.repairing ⟶ RunStatus.coding
  replan : RunStatus.repairing ⟶ RunStatus.planning
  give_up : {s : RunStatus} → IsActive s → s ⟶ RunStatus.failed
  stop : {s : RunStatus} → IsActive s → s ⟶ RunStatus.cancelling
  confirm_stop : RunStatus.cancelling ⟶ RunStatus.cancelled
  fail_stop : RunStatus.cancelling ⟶ RunStatus.failed

pub data ◌⟶*◌ : RunStatus → RunStatus → Type 0 where
  stay : {s : RunStatus} → s ⟶* s
  onward : {s t u : RunStatus} → s ⟶* t → t ⟶ u → s ⟶* u

pub prepend : {s t u : RunStatus} → s ⟶ t → t ⟶* u → s ⟶* u
prepend e stay = onward stay e
prepend e (onward p f) = onward (prepend e p) f

ruleset edges = (
  plan, skip_plan, accept_plan, start_code, revise_plan, validate, review_unvalidated, review,
  repair_invalid, repair_rejected, finish, recode, replan, give_up, stop, confirm_stop, fail_stop,
)

ruleset active =
    (at_created, at_planning, at_plan_ready, at_coding, at_validating, at_reviewing, at_repairing)

pub can-⟶ : (s t : RunStatus) → can s t ≡ true → s ⟶ t
unfolding can
can-⟶ s t h = grind (arith, edges, active)

⟶-can : {s t : RunStatus} → s ⟶ t → can s t ≡ true
unfolding can
⟶-can plan = refl
⟶-can (give_up at_created) = refl
⟶-can (stop at_created) = refl
⟶-can _ = refl

-- The table allows exactly the moves of the diagram.
pub can_iff : (s t : RunStatus) → (can s t ≡ true) ↔ (s ⟶ t)
can_iff s t = (can-⟶ s t, ⟶-can)
