-- ===== src/Run/History.antt =====
-- Calls on one run (src/domain/entities/run.py) as data, and sequences of them.
use agentic_gpu_platform.Shared.{List, Option, String, [], ℕ, ◌∷◌}
use agentic_gpu_platform.Enums.{FailureKind}
use agentic_gpu_platform.Limits.{TokenUsage}
use agentic_gpu_platform.Run.{
  Run, add_token_usage, complete, confirm_cancelled, fail, plan_ready, request_cancellation,
  request_plan_revision, request_repair, select_candidate, start_coding, start_planning,
  start_reviewing, start_validating,
}

pub data Call : Type 0 where
  starts_planning : (now : ℕ) → Call
  plan_arrives : (plan_id task_count now : ℕ) → Call
  starts_coding starts_validating : (now : ℕ) → Call
  starts_reviewing : (candidate_id now : ℕ) → Call
  requests_repair : (candidate_id : ℕ) (reason : String) (now : ℕ) → Call
  requests_plan_revision : (now : ℕ) → Call
  selects : (candidate_id : ℕ) (rationale : String) (now : ℕ) → Call
  completes : (now : ℕ) (candidate_id : Option ℕ) → Call
  fails : (now : ℕ) (kind : FailureKind) (reason : String) → Call
  requests_cancellation confirms_cancelled : (now : ℕ) (reason : Option String) → Call
  adds_token_usage : (usage : TokenUsage) (now : ℕ) → Call

-- The run after a call, whether the call returned or raised.
unfoldable pub after : Run → Call → Run
after r (starts_planning now) = (start_planning r now).0
after r (plan_arrives p n now) = (plan_ready r p n now).0
after r (starts_coding now) = (start_coding r now).0
after r (starts_validating now) = (start_validating r now).0
after r (starts_reviewing c now) = (start_reviewing r c now).0
after r (requests_repair c why now) = (request_repair r c why now).0
after r (requests_plan_revision now) = (request_plan_revision r now).0
after r (selects c why now) = select_candidate r c why now
after r (completes now c) = (complete r now c).0
after r (fails now k why) = (fail r now k why).0
after r (requests_cancellation now why) = (request_cancellation r now why).0
after r (confirms_cancelled now why) = (confirm_cancelled r now why).0
after r (adds_token_usage u now) = add_token_usage r u now

unfoldable pub run : Run → List Call → Run
run r [] = r
run r (c ∷ cs) = run (after r c) cs
