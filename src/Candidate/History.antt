-- ===== src/Candidate/History.antt =====
-- Calls on one candidate (src/domain/entities/candidate.py) as data, and sequences of them.
use agentic_gpu_platform.Shared.{Bool, List, Option, String, [], ℕ, ◌∷◌}
use agentic_gpu_platform.Enums.{FailureKind, ReviewVerdict}
use agentic_gpu_platform.Validation.{ToolResult, ValidationReport}
use agentic_gpu_platform.Candidate.{
  Candidate, Patch, append_validation, attach_workspace, cancel, choose, fail, record_review,
  record_validation, record_worker, reject, start_coding, start_repair, start_validation,
  submit_patch,
}

pub data Call : Type 0 where
  attaches : (workspace_id : ℕ) → Call
  starts_coding : (now : ℕ) (job_id : Option ℕ) → Call
  records_worker : (worker_id : ℕ) → Call
  submits : Patch → (summary : String) → (uncertainties : List String) → Call
  starts_validation : (now : ℕ) → Call
  appends : List ToolResult → Call
  closes : (now : ℕ) (report : Option ValidationReport) (static_analysis_is_blocking : Bool) → Call
  records_review : ReviewVerdict → Call
  starts_repair : (now : ℕ) → Call
  is_chosen : (now : ℕ) → Call
  is_rejected : (now : ℕ) (reason : String) → Call
  fails : (now : ℕ) (kind : FailureKind) (reason : String) → Call
  is_cancelled : (now : ℕ) → Call

-- The candidate after a call, whether the call returned or raised.
unfoldable pub after : Candidate → Call → Candidate
after c (attaches w) = (attach_workspace c w).0
after c (starts_coding now job) = (start_coding c now job).0
after c (records_worker w) = record_worker c w
after c (submits p s u) = (submit_patch c p s u).0
after c (starts_validation now) = (start_validation c now).0
after c (appends rs) = (append_validation c rs).0
after c (closes now report blocking) = (record_validation c now report blocking).0
after c (records_review v) = record_review c v
after c (starts_repair now) = (start_repair c now).0
after c (is_chosen now) = (choose c now).0
after c (is_rejected now why) = reject c now why
after c (fails now kind why) = fail c now kind why
after c (is_cancelled now) = cancel c now

unfoldable pub run : Candidate → List Call → Candidate
run c [] = c
run c (k ∷ ks) = run (after c k) ks
