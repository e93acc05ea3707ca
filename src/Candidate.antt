-- ===== src/Candidate.antt =====
-- One attempt at a run's objective: src/domain/entities/candidate.py, with the patch that it
-- produces (src/domain/value_objects/patch.py) and its events (src/domain/events/run.py). An index is
-- a natural number, so the constructor's refusal of a negative one never applies.
pub mod History
pub mod Lifecycle
pub mod Freshness
use agentic_gpu_platform.Shared.{
  Bool, List, Option, String, [], false, if◌then◌else◌, is_blank, length, none, not, some, true, ℕ,
  ◌&&◌, ◌++◌, ◌+◌, ◌==◌, ◌or◌, ◌||◌, ◌∷◌,
}
use agentic_gpu_platform.Enums.{CandidateStatus, FailureKind, ReviewVerdict, candidate_is_terminal}
use agentic_gpu_platform.Errors.{Outcome, candidate_error, invalid_candidate_transition, ok, raise}
use agentic_gpu_platform.Validation.{
  ToolResult, ValidationReport, extended_with, report_is_viable, summary_of,
}

pub record FileChange : Type 0 where
  pub path : String
  pub added_lines : ℕ
  pub removed_lines : ℕ

abbrev pub churn : FileChange → ℕ
churn f = f.added_lines + f.removed_lines

pub record Patch : Type 0 where
  pub diff : String
  pub base_revision : Option String
  pub files : List FileChange

abbrev pub is_empty_patch : Patch → Bool
is_empty_patch p = is_blank p.diff

abbrev pub churn_of : List FileChange → ℕ
churn_of [] = 0
churn_of (f ∷ fs) = churn f + churn_of fs

abbrev pub total_churn : Patch → ℕ
total_churn p = churn_of p.files

pub data CandidateEvent : Type 0 where
  candidate_started : (now candidate_id index : ℕ) (job_id : Option ℕ) → CandidateEvent
  candidate_completed :
      (now candidate_id : ℕ) (status : CandidateStatus) (changed_files : ℕ) → CandidateEvent
  validation_started : (now candidate_id : ℕ) → CandidateEvent
  validation_completed : (now candidate_id : ℕ) (viable : Bool) (summary : String) → CandidateEvent

pub record Candidate : Type 0 where
  pub id : ℕ
  pub run_id : ℕ
  pub index : ℕ
  pub created_at : ℕ
  pub workspace_id : Option ℕ
  pub status : CandidateStatus
  pub patch : Option Patch
  pub validation : ValidationReport
  pub summary : String
  pub uncertainties : List String
  pub coder_iterations : ℕ
  pub repair_iterations : ℕ
  pub worker_id : Option ℕ
  pub last_job_id : Option ℕ
  pub review_verdict : Option ReviewVerdict
  pub started_at : Option ℕ
  pub completed_at : Option ℕ
  pub failure_kind : Option FailureKind
  pub failure_reason : Option String
  pub events : List CandidateEvent

-- The report that says nothing yet.
abbrev pub blank_report : Bool → ValidationReport
blank_report blocking = record { results = []; static_analysis_is_blocking = blocking }

unfoldable pub create : (candidate_id run_id index now : ℕ) → Candidate
create candidate_id run_id index now = record {
  id = candidate_id;
  run_id = run_id;
  index = index;
  created_at = now;
  workspace_id = none;
  status = CandidateStatus.created;
  patch = none;
  validation = blank_report false;
  summary = "";
  uncertainties = [];
  coder_iterations = 0;
  repair_iterations = 0;
  worker_id = none;
  last_job_id = none;
  review_verdict = none;
  started_at = none;
  completed_at = none;
  failure_kind = none;
  failure_reason = none;
  events = [];
}

abbrev pub has_patch : Candidate → Bool
has_patch c = elim c.patch [ none ↦ false | some p ↦ not (is_empty_patch p) ]

abbrev pub is_viable : Candidate → Bool
is_viable c = has_patch c && report_is_viable c.validation

abbrev pub record_event : Candidate → CandidateEvent → Candidate
record_event c e = record c { events = c.events ++ (e ∷ []) }

abbrev refuse : Candidate → CandidateStatus → Outcome Candidate (Unit {0})
refuse c requested = (c, raise (invalid_candidate_transition c.status requested))

unfoldable pub attach_workspace : Candidate → (workspace_id : ℕ) → Outcome Candidate (Unit {0})
attach_workspace c workspace_id = elim c.workspace_id [
  | none ↦ (record c { workspace_id = some workspace_id }, ok tt)
  | some w ↦
      if w == workspace_id
      then (record c { workspace_id = some workspace_id }, ok tt)
      else (c, raise (candidate_error "candidate already owns a workspace"))
]

unfoldable pub start_coding :
    Candidate → (now : ℕ) (job_id : Option ℕ) → Outcome Candidate (Unit {0})
start_coding c now job_id =
    if candidate_is_terminal c.status then refuse c CandidateStatus.coding else (
      record_event
          (record c {
            status = CandidateStatus.coding;
            coder_iterations = c.coder_iterations + 1;
            started_at = some (c.started_at or now);
            last_job_id = job_id;
          })
          (candidate_started now c.id c.index job_id),
      ok tt,
    )

unfoldable pub record_worker : Candidate → (worker_id : ℕ) → Candidate
record_worker c worker_id = record c { worker_id = some worker_id }

abbrev is_coding : CandidateStatus → Bool
is_coding s = elim s [ CandidateStatus.coding ↦ true | _ ↦ false ]

abbrev is_validating : CandidateStatus → Bool
is_validating s = elim s [ CandidateStatus.validating ↦ true | _ ↦ false ]

unfoldable pub submit_patch :
    Candidate
    → Patch
    → (summary : String) → (uncertainties : List String) → Outcome Candidate (Unit {0})
submit_patch c patch summary uncertainties =
    if not (is_coding c.status)
    then refuse c CandidateStatus.validating
    else (record c { patch = some patch; summary = summary; uncertainties = uncertainties }, ok tt)

unfoldable pub start_validation : Candidate → (now : ℕ) → Outcome Candidate (Unit {0})
start_validation c now =
    if not (is_coding c.status || is_validating c.status)
    then refuse c CandidateStatus.validating
    else (
      record_event (record c { status = CandidateStatus.validating }) (validation_started now c.id),
      ok tt,
    )

unfoldable pub append_validation : Candidate → List ToolResult → Outcome Candidate (Unit {0})
append_validation c results =
    if not (is_validating c.status)
    then refuse c CandidateStatus.validating
    else (record c { validation = extended_with c.validation results }, ok tt)

unfoldable pub record_validation :
    Candidate
    → (now : ℕ) (report : Option ValidationReport) (static_analysis_is_blocking : Bool)
    → Outcome Candidate (Unit {0})
record_validation c now report blocking =
    if not (is_validating c.status)
    then refuse c CandidateStatus.validated
    else let final = record (report or c.validation) { static_analysis_is_blocking = blocking } in
      (
        record_event (record c { validation = final; status = CandidateStatus.validated })
            (validation_completed now c.id (report_is_viable final) (summary_of final)),
        ok tt,
      )

unfoldable pub record_review : Candidate → ReviewVerdict → Candidate
record_review c verdict = record c { review_verdict = some verdict }

unfoldable pub start_repair : Candidate → (now : ℕ) → Outcome Candidate (Unit {0})
start_repair c now = if candidate_is_terminal c.status then refuse c CandidateStatus.coding else (
  record_event
      (record c {
        repair_iterations = c.repair_iterations + 1;
        status = CandidateStatus.coding;
        coder_iterations = c.coder_iterations + 1;
        validation = blank_report c.validation.static_analysis_is_blocking;
      })
      (candidate_started now c.id c.index none),
  ok tt,
)

-- `_finish`
unfoldable pub finish : Candidate → CandidateStatus → (now : ℕ) → Candidate
finish c status now =
    record_event (record c { status = status; completed_at = some now })
      (candidate_completed now c.id status (elim c.patch [ none ↦ 0 | some p ↦ length p.files ]))

abbrev is_selected : CandidateStatus → Bool
is_selected s = elim s [ CandidateStatus.selected ↦ true | _ ↦ false ]

-- `Candidate.select`
unfoldable pub choose : Candidate → (now : ℕ) → Outcome Candidate (Unit {0})
unfolding finish
choose c now =
    if is_selected c.status
    then (c, ok tt)
    else if candidate_is_terminal c.status
    then refuse c CandidateStatus.selected
    else (finish c CandidateStatus.selected now, ok tt)

unfoldable pub reject : Candidate → (now : ℕ) (reason : String) → Candidate
unfolding finish
reject c now reason =
    if candidate_is_terminal c.status
    then c
    else finish (record c { failure_reason = some reason }) CandidateStatus.rejected now

unfoldable pub fail : Candidate → (now : ℕ) (kind : FailureKind) (reason : String) → Candidate
unfolding finish
fail c now kind reason =
    if candidate_is_terminal c.status
    then c
    else finish (record c { failure_kind = some kind; failure_reason = some reason })
        CandidateStatus.failed now

unfoldable pub cancel : Candidate → (now : ℕ) → Candidate
unfolding finish
cancel c now =
    if candidate_is_terminal c.status
    then c
    else finish (record c { failure_kind = some FailureKind.cancelled }) CandidateStatus.cancelled
        now
