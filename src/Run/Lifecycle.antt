-- ===== src/Run/Lifecycle.antt =====
-- Where the calls on a run (src/domain/entities/run.py) can take it, and what its events tell.
use agentic_gpu_platform.Shared.{
  List, Option, Option-cases, [], arith, if◌then◌else◌, inl, inr, none, some, subst, true, ℕ, ◌&&◌,
  ◌++◌, ◌∷◌, ◌≡◌, ◌⊎◌,
}
use agentic_gpu_platform.Enums.{RunStatus}
use agentic_gpu_platform.Errors.{ok}
use agentic_gpu_platform.RunMachine.{can, ensure, status_eq}
use agentic_gpu_platform.RunMachine.Graph.{can-⟶, prepend, stay, ◌⟶*◌}
use agentic_gpu_platform.Run.{
  Run, RunEvent, RunSpec, add_token_usage, candidate_selected, complete, confirm_cancelled, create,
  fail, first_some, plan_completed, plan_ready, plan_requested, repair_requested,
  request_cancellation, request_plan_revision, request_repair, review_requested, run_cancelled,
  run_completed, run_created, run_failed, run_state_changed, select_candidate, start_coding,
  start_planning, start_reviewing, start_validating, transition,
}
use agentic_gpu_platform.Run.History.{
  Call, adds_token_usage, after, completes, confirms_cancelled, fails, plan_arrives,
  requests_cancellation, requests_plan_revision, requests_repair, run, selects, starts_coding,
  starts_planning, starts_reviewing, starts_validating,
}

machine : Unit {0}
unfolding after start_planning plan_ready start_coding start_validating start_reviewing
    request_repair request_plan_revision select_candidate complete fail request_cancellation
    confirm_cancelled add_token_usage transition ensure
machine = tt

-- A call leaves the status alone, or makes a legal move.
pub after-can :
    (r : Run) (c : Call)
    → ((after r c).status ≡ r.status) ⊎ (can r.status (after r c).status ≡ true)
unfolding machine
after-can r (starts_planning now) = ground arith
after-can r (plan_arrives p n now) = ground arith
after-can r (starts_coding now) = ground arith
after-can r (starts_validating now) = ground arith
after-can r (starts_reviewing c now) = ground arith
after-can r (requests_repair c why now) = ground arith
after-can r (requests_plan_revision now) = ground arith
after-can r (selects c why now) = ground arith
after-can r (completes now c) = ground arith
after-can r (fails now k why) = ground arith
after-can r (requests_cancellation now why) = ground arith
after-can r (confirms_cancelled now why) = ground arith
after-can r (adds_token_usage u now) = ground arith

-- From any status, any calls lead along the diagram.
pub run-⟶* : (r : Run) (cs : List Call) → r.status ⟶* (run r cs).status
unfolding run
run-⟶* r [] = stay
run-⟶* r (c ∷ cs) = elim (after-can r c) [
  | inl e ↦ subst (λ s. s ⟶* (run (after r c) cs).status) e (run-⟶* (after r c) cs)
  | inr e ↦ prepend (can-⟶ _ _ e) (run-⟶* (after r c) cs)
]

-- One entry of the event stream, read as a claim about the status.
abbrev replay_one : RunStatus → RunEvent → Option RunStatus
replay_one s (run_state_changed _ _ previous current _) =
    if status_eq previous s && can previous current then some current else none
replay_one s (run_created _ _ _ _ _) = some s
replay_one s (plan_requested _ _ _) = some s
replay_one s (plan_completed _ _ _ _ _) = some s
replay_one s (review_requested _ _ _ _) = some s
replay_one s (repair_requested _ _ _ _ _) = some s
replay_one s (candidate_selected _ _ _ _) = some s
replay_one s (run_completed _ _ _) = some s
replay_one s (run_failed _ _ _ _) = some s
replay_one s (run_cancelled _ _ _) = some s

-- A reader who knows only the events: each state change must start where the last one ended and be
-- legal, or the stream is refused.
pub replay : RunStatus → List RunEvent → Option RunStatus
replay s [] = some s
replay s (e ∷ es) = elim (replay_one s e) [ none ↦ none | some t ↦ replay t es ]

replay-snoc :
    (s : RunStatus) (es : List RunEvent) (e : RunEvent) (t : RunStatus)
    → replay s es ≡ some t
    → replay s (es ++ e ∷ []) ≡ replay t (e ∷ [])
unfolding replay
replay-snoc s [] e t h = ground arith
replay-snoc s (x ∷ es) e t h = elim (Option-cases (replay_one s x)) [
  | inl n ↦ absurd (ground arith)
  | inr (u, n) ↦ ground (arith, replay-snoc u es e t)
]

-- The events of a run, read from `created`, tell its status.
abbrev pub Told : Run → Type 0
Told r = replay RunStatus.created r.events ≡ some r.status

after-Told : (r : Run) (c : Call) → Told r → Told (after r c)
unfolding machine replay
after-Told r (starts_planning now) h = grind (arith, replay-snoc)
after-Told r (plan_arrives p n now) h = grind (arith, replay-snoc)
after-Told r (starts_coding now) h = grind (arith, replay-snoc)
after-Told r (starts_validating now) h = grind (arith, replay-snoc)
after-Told r (starts_reviewing c now) h = grind (arith, replay-snoc)
after-Told r (requests_repair c why now) h = grind (arith, replay-snoc)
after-Told r (requests_plan_revision now) h = grind (arith, replay-snoc)
after-Told r (selects c why now) h = grind (arith, replay-snoc)
after-Told r (completes now c) h =
    let moved = run_state_changed now r.id r.status RunStatus.completed none in
    ground (
      arith,
      replay-snoc RunStatus.created r.events moved r.status,
      replay-snoc RunStatus.created (r.events ++ moved ∷ [])
          (run_completed now r.id (first_some c r.selected_candidate_id)) RunStatus.completed,
    )
after-Told r (fails now kind why) h =
    let moved = run_state_changed now r.id r.status RunStatus.failed none in
    ground (
      arith,
      replay-snoc RunStatus.created r.events moved r.status,
      replay-snoc RunStatus.created (r.events ++ moved ∷ []) (run_failed now r.id kind why)
          RunStatus.failed,
    )
after-Told r (requests_cancellation now why) h = ground (
  arith,
  replay-snoc RunStatus.created r.events
      (run_state_changed now r.id r.status RunStatus.cancelling why) r.status,
)
after-Told r (confirms_cancelled now why) h =
    let moved = run_state_changed now r.id r.status RunStatus.cancelled why in
    ground (
      arith,
      replay-snoc RunStatus.created r.events moved r.status,
      replay-snoc RunStatus.created (r.events ++ moved ∷ []) (run_cancelled now r.id why)
          RunStatus.cancelled,
    )
after-Told r (adds_token_usage u now) h = h

run-Told : (r : Run) (cs : List Call) → Told r → Told (run r cs)
unfolding run
run-Told r [] h = h
run-Told r (c ∷ cs) h = run-Told (after r c) cs (after-Told r c h)

create-Told : (s : RunSpec) (now : ℕ) {r : Run} → create s now ≡ ok r → Told r
unfolding create replay
create-Told s now e = ground arith

-- State and events agree: whatever calls are made on a new run, its event stream is accepted by a
-- reader who checks every state change, and ends in the status that the run has.
pub replay-run :
    (s : RunSpec) (now : ℕ) (r : Run) (cs : List Call)
    → create s now ≡ ok r
    → replay RunStatus.created (run r cs).events ≡ some (run r cs).status
replay-run s now r cs e = run-Told r cs (create-Told s now e)
