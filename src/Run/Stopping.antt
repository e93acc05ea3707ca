-- ===== src/Run/Stopping.antt =====
-- How a run ends (src/domain/entities/run.py): cancellation, and what a finished run still allows.
use agentic_gpu_platform.Shared.{
  Bool, List, Option, String, [], ap, arith, false, inl, inr, refl, sym, true, ℕ, ◌∙◌, ◌∷◌, ◌≡◌,
  ◌≢◌, ◌≤◌, ◌⊎◌,
}
use agentic_gpu_platform.Enums.{RunStatus, run_is_terminal}
use agentic_gpu_platform.Errors.{ok}
use agentic_gpu_platform.RunMachine.{can, ensure}
use agentic_gpu_platform.Run.{
  Run, RunSpec, confirm_cancelled, create, request_cancellation, transition,
}
use agentic_gpu_platform.Run.History.{
  Call, adds_token_usage, after, completes, confirms_cancelled, fails, plan_arrives,
  requests_cancellation, requests_plan_revision, requests_repair, run, selects, starts_coding,
  starts_planning, starts_reviewing, starts_validating,
}
use agentic_gpu_platform.Run.Lifecycle.{after-can}
use agentic_gpu_platform.Run.Budget.{calls}

-- The statuses of a run that will not work again.
abbrev pub is_stopping : RunStatus → Bool
is_stopping s = elim s [
  | RunStatus.cancelling ↦ true
  | RunStatus.cancelled ↦ true
  | RunStatus.failed ↦ true
  | _ ↦ false
]

can-terminal : (s t : RunStatus) → run_is_terminal s ≡ true → can s t ≡ true → s ≡ t
unfolding can
can-terminal s t h k = ground arith

can-stopping : (s t : RunStatus) → is_stopping s ≡ true → can s t ≡ true → is_stopping t ≡ true
unfolding can
can-stopping s t h k = ground arith

-- A finished run keeps its status through any calls.
pub terminal-run :
    (r : Run) (cs : List Call) → run_is_terminal r.status ≡ true → (run r cs).status ≡ r.status
unfolding run
terminal-run r [] h = refl
terminal-run r (c ∷ cs) h =
    let same : (after r c).status ≡ r.status = elim (after-can r c) [
      | inl e ↦ e
      | inr e ↦ sym (can-terminal r.status (after r c).status h e)
    ] in
    terminal-run (after r c) cs (ap run_is_terminal same ∙ h) ∙ same

stopping-run :
    (r : Run) (cs : List Call) → is_stopping r.status ≡ true → is_stopping (run r cs).status ≡ true
unfolding run
stopping-run r [] h = h
stopping-run r (c ∷ cs) h = stopping-run (after r c) cs (elim (after-can r c) [
  | inl e ↦ ap is_stopping e ∙ h
  | inr e ↦ can-stopping r.status (after r c).status h e
])

-- Cancelling a run that is at work is accepted, at every stage. From then on, whatever calls come,
-- the run is cancelling, cancelled or failed: it never plans, codes or completes again. A
-- confirmation that comes next makes it cancelled.
pub request_cancellation-stops :
    (r : Run) (now later : ℕ) (why why' : Option String) (cs : List Call)
    → run_is_terminal r.status ≡ false
    → r.status ≢ RunStatus.cancelling
    → let (stopped, answer) = request_cancellation r now why in
      (answer ≡ ok true)
      × (is_stopping (run stopped cs).status ≡ true)
      × ((confirm_cancelled stopped later why').0.status ≡ RunStatus.cancelled)
      × ((confirm_cancelled stopped later why').1 ≡ ok tt)
unfolding request_cancellation confirm_cancelled transition ensure can
request_cancellation-stops r now later why why' cs h n = (
  ground arith,
  stopping-run (request_cancellation r now why).0 cs (ground arith),
  ground arith,
  ground arith,
)

-- A run in the reviewing stage or completed has been through `start_reviewing`.
abbrev WasReviewed : Run → Type 0
WasReviewed r =
    (r.status ≡ RunStatus.reviewing) ⊎ (r.status ≡ RunStatus.completed) → 1 ≤ r.review_iterations

can_complete :
    (s t : RunStatus) → can s t ≡ true → t ≡ RunStatus.completed → s ≡ RunStatus.reviewing
unfolding can
can_complete s t h e = ground arith

after-WasReviewed : (r : Run) (c : Call) → WasReviewed r → WasReviewed (after r c)
unfolding calls
after-WasReviewed r (starts_planning now) w = ground arith
after-WasReviewed r (plan_arrives p n now) w = ground arith
after-WasReviewed r (starts_coding now) w = ground arith
after-WasReviewed r (starts_validating now) w = ground arith
after-WasReviewed r (starts_reviewing c now) w = ground arith
after-WasReviewed r (requests_repair c why now) w = ground arith
after-WasReviewed r (requests_plan_revision now) w = ground arith
after-WasReviewed r (selects c why now) w = ground arith
after-WasReviewed r (completes now c) w = ground (arith, can_complete r.status RunStatus.completed)
after-WasReviewed r (fails now kind why) w = ground arith
after-WasReviewed r (requests_cancellation now why) w = ground arith
after-WasReviewed r (confirms_cancelled now why) w = ground arith
after-WasReviewed r (adds_token_usage u now) w = ground arith

run-WasReviewed : (r : Run) (cs : List Call) → WasReviewed r → WasReviewed (run r cs)
unfolding run
run-WasReviewed r [] w = w
run-WasReviewed r (c ∷ cs) w = run-WasReviewed (after r c) cs (after-WasReviewed r c w)

-- No run completes without a review.
pub completed-reviewed :
    (s : RunSpec) (now : ℕ) (r : Run) (cs : List Call)
    → create s now ≡ ok r
    → (run r cs).status ≡ RunStatus.completed
    → 1 ≤ (run r cs).review_iterations
unfolding create
completed-reviewed s now r cs e h = run-WasReviewed r cs (ground arith) (inr h)
