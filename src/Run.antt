-- ===== src/Run.antt =====
-- src/domain/entities/run.py and the run's events in src/domain/events/run.py: the run aggregate.
-- A method takes the run and returns it as the method leaves it, with the result or the error.
pub mod History
pub mod Lifecycle
pub mod Budget
pub mod Termination
pub mod Stopping
mod Samples
use agentic_gpu_platform.Shared.{
  Bool, Fields, List, Option, String, [], end, false, if◌then◌else◌, is_blank, ltb, none, not, some,
  strip, true, ℕ, ◌++◌, ◌+◌, ◌or◌, ◌||◌, ◌∷◌,
}
use agentic_gpu_platform.Enums.{FailureKind, RunStatus, run_is_terminal}
use agentic_gpu_platform.Errors.{Outcome, Result, ok, raise, run_not_modifiable, value_error, ◌>>◌}
use agentic_gpu_platform.Limits.{RunLimits, TokenUsage, add_usage, default_limits, no_tokens}
use agentic_gpu_platform.RunMachine.{ensure, status_eq}

pub data RunEvent : Type 0 where
  run_created :
      (occurred_at run_id project_id : ℕ) (objective : String) (candidate_count : ℕ) → RunEvent
  run_state_changed :
      (occurred_at run_id : ℕ) (previous current : RunStatus) (reason : Option String) → RunEvent
  plan_requested : (occurred_at run_id revision : ℕ) → RunEvent
  plan_completed : (occurred_at run_id plan_id revision task_count : ℕ) → RunEvent
  review_requested : (occurred_at run_id candidate_id iteration : ℕ) → RunEvent
  repair_requested : (occurred_at run_id candidate_id iteration : ℕ) (reason : String) → RunEvent
  candidate_selected : (occurred_at run_id candidate_id : ℕ) (rationale : String) → RunEvent
  run_completed : (occurred_at run_id : ℕ) (candidate_id : Option ℕ) → RunEvent
  run_failed : (occurred_at run_id : ℕ) (kind : FailureKind) (reason : String) → RunEvent
  run_cancelled : (occurred_at run_id : ℕ) (reason : Option String) → RunEvent

pub record Run : Type 0 where
  pub id : ℕ
  pub project_id : ℕ
  pub objective : String
  pub candidate_count : ℕ
  pub limits : RunLimits
  pub status : RunStatus
  pub plan_id : Option ℕ
  pub plan_revisions : ℕ
  pub repair_iterations : ℕ
  pub review_iterations : ℕ
  pub selected_candidate_id : Option ℕ
  pub token_usage : TokenUsage
  pub idempotency_key : Option String
  pub metadata : Fields
  pub created_at : ℕ
  pub started_at : Option ℕ
  pub completed_at : Option ℕ
  pub updated_at : ℕ
  pub failure_kind : Option FailureKind
  pub failure_reason : Option String
  pub events : List RunEvent

-- What a caller of `Run.create` supplies.
pub record RunSpec : Type 0 where
  pub run_id : ℕ
  pub project_id : ℕ
  pub objective : String
  pub candidate_count : ℕ
  pub limits : Option RunLimits
  pub idempotency_key : Option String
  pub metadata : Option Fields

-- The run that `create` builds where the checks of `__init__` pass.
unfoldable pub fresh : RunSpec → (now : ℕ) → Run
fresh s now = record {
  id = s.run_id;
  project_id = s.project_id;
  objective = strip s.objective;
  candidate_count = s.candidate_count;
  limits = s.limits or default_limits;
  status = RunStatus.created;
  plan_id = none;
  plan_revisions = 0;
  repair_iterations = 0;
  review_iterations = 0;
  selected_candidate_id = none;
  token_usage = no_tokens;
  idempotency_key = s.idempotency_key;
  metadata = s.metadata or end;
  created_at = now;
  started_at = none;
  completed_at = none;
  updated_at = now;
  failure_kind = none;
  failure_reason = none;
  events = run_created now s.run_id s.project_id (strip s.objective) s.candidate_count ∷ [];
}

unfoldable pub create : RunSpec → (now : ℕ) → Result Run
unfolding fresh
create s now =
    if is_blank s.objective
    then raise (value_error "a run needs a non-empty objective")
    else if ltb s.candidate_count 1
    then raise (value_error "candidate_count must be at least 1")
    else if ltb (fresh s now).limits.max_parallel_candidates s.candidate_count
    then raise (value_error "candidate_count exceeds the configured maximum")
    else ok (fresh s now)

abbrev pub can_revise_plan : Run → Bool
can_revise_plan r = ltb r.plan_revisions (r.limits.max_plan_revisions + 1)

abbrev pub can_repair : Run → Bool
can_repair r = ltb r.repair_iterations r.limits.max_repair_iterations

abbrev pub record_event : RunEvent → Run → Run
record_event e r = record r { events = r.events ++ e ∷ [] }

-- `_transition`: it raises before anything changes.
unfoldable pub transition : Run → RunStatus → (now : ℕ) → (reason : Option String) → Result Run
unfolding ensure
transition r target now reason =
    ensure r.status target
    >> ok (
        record_event (run_state_changed now r.id r.status target reason)
          (record r { status = target; updated_at = now }))

-- A method that goes on once the transition has been made.
abbrev pub following : {A : Type 0} → Run → Result Run → (Run → Run × A) → Outcome Run A
following r t f = elim t [ raise e ↦ (r, raise e) | ok s ↦ ((f s).0, ok (f s).1) ]

unfoldable pub start_planning : Run → (now : ℕ) → Outcome Run (Unit {0})
unfolding transition
start_planning r now = following r (transition r RunStatus.planning now none) λ s. (
  record_event (plan_requested now s.id (s.plan_revisions + 1))
      (record s { started_at = some (s.started_at or now); plan_revisions = s.plan_revisions + 1 }),
  tt,
)

unfoldable pub plan_ready : Run → (plan_id task_count now : ℕ) → Outcome Run (Unit {0})
unfolding transition
plan_ready r plan_id task_count now = following r (transition r RunStatus.plan_ready now none) λ s.
    (
      record_event (plan_completed now s.id plan_id s.plan_revisions task_count)
          (record s { plan_id = some plan_id }),
      tt,
    )

unfoldable pub start_coding : Run → (now : ℕ) → Outcome Run (Unit {0})
unfolding transition
start_coding r now =
    following r (transition r RunStatus.coding now none)
      λ s. (record s { started_at = some (s.started_at or now) }, tt)

unfoldable pub start_validating : Run → (now : ℕ) → Outcome Run (Unit {0})
unfolding transition
start_validating r now = following r (transition r RunStatus.validating now none) λ s. (s, tt)

unfoldable pub start_reviewing : Run → (candidate_id now : ℕ) → Outcome Run (Unit {0})
unfolding transition
start_reviewing r candidate_id now = following r (transition r RunStatus.reviewing now none) λ s. (
  record_event (review_requested now s.id candidate_id (s.review_iterations + 1))
      (record s { review_iterations = s.review_iterations + 1 }),
  tt,
)

unfoldable pub request_repair :
    Run → (candidate_id : ℕ) (reason : String) (now : ℕ) → Outcome Run Bool
unfolding transition
request_repair r candidate_id reason now =
    if not (can_repair r)
    then (r, ok false)
    else following r (transition r RunStatus.repairing now none) λ s. (
      record_event (repair_requested now s.id candidate_id (s.repair_iterations + 1) reason)
          (record s { repair_iterations = s.repair_iterations + 1 }),
      true,
    )

unfoldable pub request_plan_revision : Run → (now : ℕ) → Outcome Run Bool
unfolding transition
request_plan_revision r now =
    if not (can_revise_plan r)
    then (r, ok false)
    else following r (transition r RunStatus.planning now none) λ s. (
      record_event (plan_requested now s.id (s.plan_revisions + 1))
          (record s { plan_revisions = s.plan_revisions + 1 }),
      true,
    )

unfoldable pub select_candidate : Run → (candidate_id : ℕ) (rationale : String) (now : ℕ) → Run
select_candidate r candidate_id rationale now =
    record_event (candidate_selected now r.id candidate_id rationale)
      (record r { selected_candidate_id = some candidate_id; updated_at = now })

abbrev pub first_some : Option ℕ → Option ℕ → Option ℕ
first_some none b = b
first_some (some a) b = some a

unfoldable pub complete : Run → (now : ℕ) (candidate_id : Option ℕ) → Outcome Run (Unit {0})
unfolding transition
complete r now candidate_id = following r (transition r RunStatus.completed now none) λ s.
    let selected = first_some candidate_id s.selected_candidate_id in
    (
      record_event (run_completed now s.id selected)
          (record s { selected_candidate_id = selected; completed_at = some now }),
      tt,
    )

unfoldable pub fail :
    Run → (now : ℕ) (kind : FailureKind) (reason : String) → Outcome Run (Unit {0})
unfolding transition
fail r now kind reason =
    if run_is_terminal r.status
    then (r, ok tt)
    else following r (transition r RunStatus.failed now none) λ s. (
      record_event (run_failed now s.id kind reason) (record s {
        failure_kind = some kind;
        failure_reason = some reason;
        completed_at = some now;
      }),
      tt,
    )

unfoldable pub request_cancellation : Run → (now : ℕ) (reason : Option String) → Outcome Run Bool
unfolding transition
request_cancellation r now reason =
    if run_is_terminal r.status || status_eq r.status RunStatus.cancelling
    then (r, ok false)
    else following r (transition r RunStatus.cancelling now reason) λ s. (s, true)

unfoldable pub confirm_cancelled : Run → (now : ℕ) (reason : Option String) → Outcome Run (Unit {0})
unfolding transition
confirm_cancelled r now reason =
    if status_eq r.status RunStatus.cancelled
    then (r, ok tt)
    else following r (transition r RunStatus.cancelled now reason) λ s. (
      record_event (run_cancelled now s.id reason)
          (record s { failure_kind = some FailureKind.cancelled; completed_at = some now }),
      tt,
    )

unfoldable pub add_token_usage : Run → TokenUsage → (now : ℕ) → Run
add_token_usage r usage now = record r {
  token_usage = add_usage r.token_usage usage;
  updated_at = now;
}

unfoldable pub ensure_modifiable : Run → Result (Unit {0})
ensure_modifiable r =
    if run_is_terminal r.status then raise (run_not_modifiable r.id r.status) else ok tt
