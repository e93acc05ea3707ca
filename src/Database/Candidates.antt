-- ===== src/Database/Candidates.antt =====
-- The row of a candidate (`CandidateModel` of src/infrastructure/database/models.py), with its patch and
-- its evidence as JSON: the translation in src/infrastructure/database/mappers.py.
use agentic_gpu_platform.Shared.{
  Fields, Json, List, Option, String, [], array, bool, end, false, field, none, object, refl, some,
  text, ℕ, ◌∷◌, ◌≡◌,
}
use agentic_gpu_platform.Enums.{CandidateStatus, ReviewVerdict, kind_value}
use agentic_gpu_platform.Errors.{Result, ok, ◌>>=◌}
use agentic_gpu_platform.Validation.{ToolResult, ValidationReport}
use agentic_gpu_platform.Candidate.{Candidate, FileChange, Patch}
use agentic_gpu_platform.Database.Codes.{
  dump_optional, read_code, read_kind, read_kinds, read_optional,
}
use agentic_gpu_platform.Database.Columns.{
  as_array, as_flag, as_nat, as_object, as_optional, as_optional-of_optional, as_text, at,
  dump_items, load_items, load_items-dump_items, need, of_nat, of_optional,
}
use agentic_gpu_platform.Database.Results.{
  dump_tool_result, load_tool_result, load_tool_result-dump_tool_result,
}

unfoldable pub candidate_status_value : CandidateStatus → String
candidate_status_value CandidateStatus.created = "CREATED"
candidate_status_value CandidateStatus.coding = "CODING"
candidate_status_value CandidateStatus.validating = "VALIDATING"
candidate_status_value CandidateStatus.validated = "VALIDATED"
candidate_status_value CandidateStatus.rejected = "REJECTED"
candidate_status_value CandidateStatus.selected = "SELECTED"
candidate_status_value CandidateStatus.failed = "FAILED"
candidate_status_value CandidateStatus.cancelled = "CANCELLED"

unfoldable pub read_candidate_status : String → Result CandidateStatus
unfolding read_code candidate_status_value
read_candidate_status = read_code candidate_status_value (
    CandidateStatus.created ∷ CandidateStatus.coding ∷ CandidateStatus.validating
    ∷ CandidateStatus.validated ∷ CandidateStatus.rejected ∷ CandidateStatus.selected
    ∷ CandidateStatus.failed ∷ CandidateStatus.cancelled ∷ [])

pub read_candidate_status-candidate_status_value :
    (s : CandidateStatus) → read_candidate_status (candidate_status_value s) ≡ ok s
unfolding read_candidate_status
read_candidate_status-candidate_status_value CandidateStatus.created = refl
read_candidate_status-candidate_status_value CandidateStatus.coding = refl
read_candidate_status-candidate_status_value CandidateStatus.validating = refl
read_candidate_status-candidate_status_value CandidateStatus.validated = refl
read_candidate_status-candidate_status_value CandidateStatus.rejected = refl
read_candidate_status-candidate_status_value CandidateStatus.selected = refl
read_candidate_status-candidate_status_value CandidateStatus.failed = refl
read_candidate_status-candidate_status_value CandidateStatus.cancelled = refl

unfoldable pub verdict_value : ReviewVerdict → String
verdict_value ReviewVerdict.pass = "PASS"
verdict_value ReviewVerdict.fail = "FAIL"

unfoldable pub read_verdict : String → Result ReviewVerdict
unfolding read_code verdict_value
read_verdict = read_code verdict_value (ReviewVerdict.pass ∷ ReviewVerdict.fail ∷ [])

pub read_verdict-verdict_value : (v : ReviewVerdict) → read_verdict (verdict_value v) ≡ ok v
unfolding read_verdict
read_verdict-verdict_value ReviewVerdict.pass = refl
read_verdict-verdict_value ReviewVerdict.fail = refl

read_verdicts :
    (v : Option ReviewVerdict) → read_optional read_verdict (dump_optional verdict_value v) ≡ ok v
unfolding read_optional read_verdict
read_verdicts none = refl
read_verdicts (some ReviewVerdict.pass) = refl
read_verdicts (some ReviewVerdict.fail) = refl

unfoldable pub dump_change : FileChange → Json
dump_change c = object (
    field "path" (text c.path) (
      field "added_lines" (of_nat c.added_lines)
        (field "removed_lines" (of_nat c.removed_lines) end)))

-- `_dump_patch`
unfoldable pub dump_patch : Option Patch → Option Fields
unfolding dump_change dump_items
dump_patch none = none
dump_patch (some p) = some (
    field "diff" (text p.diff) (
      field "base_revision" (of_optional p.base_revision)
        (field "files" (array (dump_items dump_change p.files)) end)))

unfoldable pub load_change : Json → Result FileChange
unfolding as_object need at as_text as_nat
load_change v = as_object v >>= λ raw. need as_text "path" raw >>= λ path.
    at as_nat 0 "added_lines" raw >>= λ added. at as_nat 0 "removed_lines" raw >>= λ removed.
    ok (record { path = path; added_lines = added; removed_lines = removed })

abbrev load_changes : Json → Result (List FileChange)
load_changes v = as_array v >>= load_items load_change

-- `_load_patch`
unfoldable pub load_patch : Option Fields → Result (Option Patch)
unfolding at as_text as_optional as_array load_items load_change
load_patch none = ok none
load_patch (some raw) = at as_text "" "diff" raw >>= λ diff.
    at as_optional none "base_revision" raw >>= λ base. at load_changes [] "files" raw >>= λ files.
    ok (some (record { diff = diff; base_revision = base; files = files }))

-- `_dump_validation`
unfoldable pub dump_validation : ValidationReport → Fields
unfolding dump_items dump_tool_result
dump_validation v =
    field "results" (array (dump_items dump_tool_result v.results))
      (field "static_analysis_is_blocking" (bool v.static_analysis_is_blocking) end)

abbrev load_results : Json → Result (List ToolResult)
load_results v = as_array v >>= load_items load_tool_result

-- `_load_validation`
unfoldable pub load_validation : Fields → Result ValidationReport
unfolding at as_array as_flag load_items load_tool_result
load_validation raw = at load_results [] "results" raw >>= λ results.
    at as_flag false "static_analysis_is_blocking" raw >>= λ blocking.
    ok (record { results = results; static_analysis_is_blocking = blocking })

pub record CandidateModel : Type 0 where
  pub id : ℕ
  pub run_id : ℕ
  pub candidate_index : ℕ
  pub status : String
  pub workspace_id : Option ℕ
  pub patch : Option Fields
  pub validation : Fields
  pub summary : String
  pub uncertainties : List String
  pub coder_iterations : ℕ
  pub repair_iterations : ℕ
  pub worker_id : Option ℕ
  pub last_job_id : Option ℕ
  pub review_verdict : Option String
  pub created_at : ℕ
  pub started_at : Option ℕ
  pub completed_at : Option ℕ
  pub failure_kind : Option String
  pub failure_reason : Option String

-- `apply_candidate`
unfoldable pub apply_candidate : CandidateModel → Candidate → CandidateModel
unfolding candidate_status_value verdict_value kind_value dump_patch dump_validation
apply_candidate m c = record m {
  status = candidate_status_value c.status;
  workspace_id = c.workspace_id;
  patch = dump_patch c.patch;
  validation = dump_validation c.validation;
  summary = c.summary;
  uncertainties = c.uncertainties;
  coder_iterations = c.coder_iterations;
  repair_iterations = c.repair_iterations;
  worker_id = c.worker_id;
  last_job_id = c.last_job_id;
  review_verdict = dump_optional verdict_value c.review_verdict;
  started_at = c.started_at;
  completed_at = c.completed_at;
  failure_kind = dump_optional kind_value c.failure_kind;
  failure_reason = c.failure_reason;
}

-- The row that a new candidate starts with: the defaults of the table, where `apply_candidate` sets
-- the column anyway.
abbrev pub new_candidate_row : Candidate → CandidateModel
new_candidate_row c = record {
  id = c.id;
  run_id = c.run_id;
  candidate_index = c.index;
  status = candidate_status_value c.status;
  workspace_id = none;
  patch = none;
  validation = end;
  summary = "";
  uncertainties = [];
  coder_iterations = 0;
  repair_iterations = 0;
  worker_id = none;
  last_job_id = none;
  review_verdict = none;
  created_at = c.created_at;
  started_at = none;
  completed_at = none;
  failure_kind = none;
  failure_reason = none;
}

-- `candidate_to_model`
unfoldable pub candidate_to_model : Candidate → CandidateModel
unfolding apply_candidate
candidate_to_model c = apply_candidate (new_candidate_row c) c

-- `candidate_to_domain`
unfoldable pub candidate_to_domain : CandidateModel → Result Candidate
unfolding read_candidate_status load_patch load_validation read_optional read_verdict read_kind
candidate_to_domain m = read_candidate_status m.status >>= λ status. load_patch m.patch >>= λ patch.
    load_validation m.validation >>= λ validation.
    read_optional read_verdict m.review_verdict >>= λ verdict.
    read_optional read_kind m.failure_kind >>= λ kind. ok (record {
      id = m.id;
      run_id = m.run_id;
      index = m.candidate_index;
      created_at = m.created_at;
      workspace_id = m.workspace_id;
      status = status;
      patch = patch;
      validation = validation;
      summary = m.summary;
      uncertainties = m.uncertainties;
      coder_iterations = m.coder_iterations;
      repair_iterations = m.repair_iterations;
      worker_id = m.worker_id;
      last_job_id = m.last_job_id;
      review_verdict = verdict;
      started_at = m.started_at;
      completed_at = m.completed_at;
      failure_kind = kind;
      failure_reason = m.failure_reason;
      events = [];
    })

changes-restored : (cs : List FileChange) → load_changes (array (dump_items dump_change cs)) ≡ ok cs
unfolding as_array
changes-restored cs =
    load_items-dump_items dump_change load_change (λ c. unfold load_change dump_change in refl) cs

results-restored :
    (rs : List ToolResult) → load_results (array (dump_items dump_tool_result rs)) ≡ ok rs
unfolding as_array
results-restored rs =
    load_items-dump_items dump_tool_result load_tool_result load_tool_result-dump_tool_result rs

patch-restored : (p : Option Patch) → load_patch (dump_patch p) ≡ ok p
unfolding load_patch dump_patch
patch-restored none = refl
patch-restored (some p) =
    rw (load_patch, dump_patch, as_optional-of_optional p.base_revision, changes-restored p.files)
      refl

validation-restored : (v : ValidationReport) → load_validation (dump_validation v) ≡ ok v
unfolding load_validation dump_validation
validation-restored v = rw (load_validation, dump_validation, results-restored v.results) refl

-- The row of the same candidate.
pub record IsRowOf (m : CandidateModel) (c : Candidate) : Type 0 where
  pub id : m.id ≡ c.id
  pub run : m.run_id ≡ c.run_id
  pub index : m.candidate_index ≡ c.index
  pub created : m.created_at ≡ c.created_at

-- A candidate that is stored over a row of the same candidate, and read back, is the candidate, less
-- the events that were already published: its patch and every result of its evidence included.
pub candidate_to_domain-apply_candidate :
    (m : CandidateModel) (c : Candidate)
    → IsRowOf m c
    → candidate_to_domain (apply_candidate m c) ≡ ok (record c { events = [] })
unfolding candidate_to_domain apply_candidate
candidate_to_domain-apply_candidate m c s =
    rw
      (
        candidate_to_domain,
        apply_candidate,
        read_candidate_status-candidate_status_value c.status,
        patch-restored c.patch,
        validation-restored c.validation,
        read_verdicts c.review_verdict,
        read_kinds c.failure_kind,
        s.id,
        s.run,
        s.index,
        s.created,
      )
      refl

-- A new row of a candidate, read back, is the candidate, less the events that were already published.
pub candidate_to_domain-candidate_to_model :
    (c : Candidate) → candidate_to_domain (candidate_to_model c) ≡ ok (record c { events = [] })
unfolding candidate_to_model
candidate_to_domain-candidate_to_model c =
    candidate_to_domain-apply_candidate (new_candidate_row c) c
      (record { id = refl; run = refl; index = refl; created = refl })
