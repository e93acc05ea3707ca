-- ===== src/RunMachine.antt =====
-- src/domain/services/run_state_machine.py: the table of legal moves of a run.
pub mod Graph
use agentic_gpu_platform.Shared.{Bool, List, [], any, if◌then◌else◌, not, ℕ, ◌&&◌, ◌++◌, ◌==◌, ◌∷◌}
use agentic_gpu_platform.Enums.{RunStatus, run_is_terminal}
use agentic_gpu_platform.Errors.{Result, invalid_run_transition, require}

-- Equality of statuses, by their position in the enumeration.
abbrev pub position : RunStatus → ℕ
position RunStatus.created = 0
position RunStatus.planning = 1
position RunStatus.plan_ready = 2
position RunStatus.coding = 3
position RunStatus.validating = 4
position RunStatus.reviewing = 5
position RunStatus.repairing = 6
position RunStatus.completed = 7
position RunStatus.failed = 8
position RunStatus.cancelling = 9
position RunStatus.cancelled = 10

abbrev pub status_eq : RunStatus → RunStatus → Bool
status_eq a b = position a == position b

-- `_TRANSITIONS`
unfoldable pub transitions : RunStatus → List RunStatus
transitions RunStatus.created = RunStatus.planning ∷ RunStatus.coding ∷ RunStatus.failed ∷ []
transitions RunStatus.planning = RunStatus.plan_ready ∷ RunStatus.failed ∷ []
transitions RunStatus.plan_ready = RunStatus.coding ∷ RunStatus.planning ∷ RunStatus.failed ∷ []
transitions RunStatus.coding = RunStatus.validating ∷ RunStatus.reviewing ∷ RunStatus.failed ∷ []
transitions RunStatus.validating = RunStatus.reviewing ∷ RunStatus.repairing ∷ RunStatus.failed ∷ []
transitions RunStatus.reviewing = RunStatus.completed ∷ RunStatus.repairing ∷ RunStatus.failed ∷ []
transitions RunStatus.repairing = RunStatus.coding ∷ RunStatus.planning ∷ RunStatus.failed ∷ []
transitions RunStatus.cancelling = RunStatus.cancelled ∷ RunStatus.failed ∷ []
transitions RunStatus.completed = []
transitions RunStatus.failed = []
transitions RunStatus.cancelled = []

-- `_ALLOWED`: cancelling is added to every row but the terminal ones and its own.
unfoldable pub allowed_from : RunStatus → List RunStatus
unfolding transitions
allowed_from s =
    if not (run_is_terminal s) && not (status_eq s RunStatus.cancelling)
    then transitions s ++ RunStatus.cancelling ∷ []
    else transitions s

unfoldable pub can : (current requested : RunStatus) → Bool
unfolding allowed_from any
can current requested = any (status_eq requested) (allowed_from current)

unfoldable pub ensure : (current requested : RunStatus) → Result (Unit {0})
ensure current requested =
    require (can current requested) (invalid_run_transition current requested)
