-- ===== src/Orchestrator/Work.antt =====
-- What a finished job stores: the last transactions of `_run_planner`, `_run_coder`,
-- `_run_validation_stage` and `_run_reviewer` of src/application/orchestration/orchestrator.py, and the
-- gate of `_dispatch`. What the models and the tools answered is an argument, and so is the text of an
-- identifier. An exception leaves the database as it was.
use agentic_gpu_platform.Shared.{
  Fields, List, Option, String, [], array, bool, end, field, if◌then◌else◌, is_empty, length, none,
  some, text, ℕ, ◌+◌, ◌||◌, ◌∷◌,
}
use agentic_gpu_platform.Enums.{ReviewVerdict, is_cancelling_or_cancelled, run_is_terminal}
use agentic_gpu_platform.Errors.{Result, ok, settled, ◌>>=◌}
use agentic_gpu_platform.Limits.{TokenUsage}
use agentic_gpu_platform.Validation.{ToolResult}
use agentic_gpu_platform.Plan.{Plan}
use agentic_gpu_platform.Review.{Review, ReviewFinding, check_finding, check_review}
use agentic_gpu_platform.Job.{Job}
use agentic_gpu_platform.Job
use agentic_gpu_platform.Run.{Run}
use agentic_gpu_platform.Run
use agentic_gpu_platform.Candidate.{Candidate, Patch}
use agentic_gpu_platform.Candidate
use agentic_gpu_platform.Queue.{Queue}
use agentic_gpu_platform.Queue
use agentic_gpu_platform.Database.Codes.{job_type_value}
use agentic_gpu_platform.Database.Columns.{dump_items, of_int, of_nat}
use agentic_gpu_platform.Database.Candidates.{verdict_value}

-- The gate of `_dispatch`: a job of a run that is over or being cancelled is cancelled.
unfoldable pub dispatch_gate : Run → Job → (token : ℕ) → Queue → (now : ℕ) → Option (Job × Queue)
unfolding Job.cancel Queue.acknowledge
dispatch_gate r j token q now =
    if is_cancelling_or_cancelled r.status || run_is_terminal r.status
    then some (Job.cancel j now, Queue.acknowledge q j.id token)
    else none

-- Who answered, at what cost.
pub record Answer : Type 0 where
  pub worker_id : ℕ
  pub usage : TokenUsage
  pub prompt_version : String
  pub repairs : ℕ

-- The end of `_run_planner`.
unfoldable pub finish_plan :
    (id_text : ℕ → String)
    → Run
    → Plan
    → Job
    → (token : ℕ) → Answer
    → (now : ℕ) → Result (Run × Job)
unfolding settled Run.plan_ready Run.add_token_usage Job.complete
finish_plan id_text r p j token a now =
    settled (Run.plan_ready r p.id (length p.tasks) now) >>= λ s.
    settled (
      Job.complete j (some token) now (
        some (
          field "plan_id" (text (id_text p.id)) (
            field "task_count" (of_nat (length p.tasks)) (
              field "worker_id" (text (id_text a.worker_id)) (
                field "prompt_version" (text a.prompt_version)
                  (field "repairs" (of_nat a.repairs) end)))))))
    >>= λ k. ok (Run.add_token_usage s a.usage now, k)

-- What the coder handed over.
pub record CodeDraft : Type 0 where
  pub patch : Patch
  pub summary : String
  pub uncertainties : List String

-- The result that `_run_coder` stores with its job.
abbrev pub code_result : (id_text : ℕ → String) → Candidate → CodeDraft → Answer → Fields
code_result id_text c d a = field "candidate_id" (text (id_text c.id)) (
    field "changed_files" (of_nat (length d.patch.files)) (
      field "worker_id" (text (id_text a.worker_id))
        (field "prompt_version" (text a.prompt_version) end)))

-- The end of `_run_coder`.
unfoldable pub finish_code :
    (id_text : ℕ → String)
    → Run
    → Candidate
    → Job
    → (token : ℕ) → CodeDraft
    → Answer
    → (now : ℕ) → Result (Run × Candidate × Job)
unfolding settled Candidate.record_worker Candidate.submit_patch Candidate.start_validation
    Run.add_token_usage Job.complete
finish_code id_text r c j token d a now =
    settled (
      Candidate.submit_patch (Candidate.record_worker c a.worker_id) d.patch d.summary
        d.uncertainties)
    >>= λ patched. settled (Candidate.start_validation patched now) >>= λ validating.
        settled (Job.complete j (some token) now (some (code_result id_text c d a))) >>= λ k.
        ok (Run.add_token_usage r a.usage now, validating, k)

-- The end of `_run_validation_stage`; no result is a stage that was skipped.
unfoldable pub finish_stage :
    Candidate → Job → (token : ℕ) → List ToolResult → (now : ℕ) → Result (Candidate × Job)
unfolding settled Candidate.append_validation Job.complete job_type_value dump_items
finish_stage c j token results now = settled (Candidate.append_validation c results) >>= λ d.
    settled (
      Job.complete j (some token) now (
        some (
          field "stage" (text (job_type_value j.type)) (
            field "exit_codes" (array (dump_items (λ (r : ToolResult). of_int r.exit_code) results))
              (field "skipped" (bool (is_empty results)) end)))))
    >>= λ k. ok (d, k)

-- What the reviewer said.
pub record ReviewDraft : Type 0 where
  pub verdict : ReviewVerdict
  pub summary : String
  pub findings : List ReviewFinding

-- Each finding is built anew, with its check.
unfoldable pub build_findings : List ReviewFinding → Result (List ReviewFinding)
unfolding check_finding
build_findings [] = ok []
build_findings (f ∷ fs) =
    let rest = build_findings fs in check_finding f >>= λ g. rest >>= λ gs. ok (g ∷ gs)

-- The end of `_run_reviewer`: `previous` is the number of reviews that the candidate had.
unfoldable pub finish_review :
    (id_text : ℕ → String)
    → Run
    → Candidate
    → Job
    → (token : ℕ) → ReviewDraft
    → Answer
    → (review_id previous now : ℕ) → Result (Review × Run × Candidate × Job)
unfolding settled build_findings check_review Candidate.record_review Run.add_token_usage
    Job.complete verdict_value
finish_review id_text r c j token d a review_id previous now =
    build_findings d.findings >>= λ findings.
    check_review (record {
      id = review_id;
      run_id = j.run_id;
      candidate_id = c.id;
      verdict = d.verdict;
      iteration = previous + 1;
      created_at = now;
      summary = d.summary;
      findings = findings;
      prompt_version = a.prompt_version;
      metadata = end;
    })
    >>= λ review.
        settled (
          Job.complete j (some token) now (
            some (
              field "verdict" (text (verdict_value d.verdict)) (
                field "findings" (of_nat (length d.findings)) (
                  field "worker_id" (text (id_text a.worker_id))
                    (field "prompt_version" (text a.prompt_version) end))))))
        >>= λ k.
            ok (review, Run.add_token_usage r a.usage now, Candidate.record_review c d.verdict, k)
