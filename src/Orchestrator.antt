-- ===== src/Orchestrator.antt =====
-- How a run moves on: `_advance` of src/application/orchestration/orchestrator.py and what it calls.
-- It runs under the run's lock in one unit of work, so a decision is a function of what the database
-- holds, and an exception leaves the database as it was; after it the jobs are put in the queue. The
-- readings of the clock during one decision are one instant. The workspaces and the identifiers come
-- from ports, as `Ports`.
mod Stages
unfoldable pub use Stages.*
pub mod Opening
pub mod Repair
pub mod Pushing
pub mod Progress
pub mod Unrepaired
pub mod Verdict
pub mod Publishing
pub mod Drawn
pub mod Advance
pub mod Failures
pub mod Handling
pub mod Work
pub mod Handover
mod Samples
use agentic_gpu_platform.Shared.{
  List, Option, String, [], false, first, if◌then◌else◌, is_empty, none, select, some, suc,
  text_append, true, zero, ℕ, ◌++◌, ◌==◌, ◌or◌, ◌||◌, ◌∷◌,
}
use agentic_gpu_platform.Enums.{
  AgentRole, FailureKind, JobType, Priority, RunStatus, is_cancelling_or_cancelled, run_is_terminal,
}
use agentic_gpu_platform.Errors.{
  Result, entity_not_found, ok, raise, settled, workspace_error, ◌>>=◌, ◌>>◌,
}
use agentic_gpu_platform.Selection.{select_candidate, viable}
use agentic_gpu_platform.Project.{Project}
use agentic_gpu_platform.Job.{Job}
use agentic_gpu_platform.Job
use agentic_gpu_platform.Run.{Run}
use agentic_gpu_platform.Run
use agentic_gpu_platform.RunMachine.{status_eq}
use agentic_gpu_platform.Candidate.{Candidate}
use agentic_gpu_platform.Candidate
use agentic_gpu_platform.Queue.{Queue}
use agentic_gpu_platform.Queue

-- `_publish_jobs`
unfoldable pub publish_jobs : Queue → List Job → Queue
unfolding Queue.enqueue
publish_jobs q [] = q
publish_jobs q (j ∷ js) = publish_jobs (Queue.enqueue q j) js

module _ (ports : Ports) (cfg : OrchestratorConfig) (now : ℕ) where
  -- The end of each step that asks for a single job.
  unfoldable pub ask_for :
      JobType → Option AgentRole → (candidate_id : Option ℕ) → Priority → Step → Result Step
  unfolding new_job
  ask_for t role candidate_id priority st =
      new_job cfg st.run t role candidate_id priority (ports.fresh_id st.drawn) now >>= λ j.
      ok (record st { drawn = suc st.drawn; follow_ups = j ∷ [] })

  -- The loop of `_open_candidates`: each round draws an identifier for the candidate and one for its job.
  unfoldable pub open_from :
      (left index : ℕ) → Run → (drawn : ℕ) → Result (List Candidate × List Job × ℕ)
  unfolding new_job settled Candidate.create Candidate.attach_workspace Candidate.start_coding
  open_from zero index r drawn = ok ([], [], drawn)
  open_from (suc left) index r drawn =
      let later = open_from left (suc index) r (suc (suc drawn)) in
      let opened = Candidate.create (ports.fresh_id drawn) r.id index now in
      ports.create_workspace opened.id >>= λ w.
      settled (Candidate.attach_workspace opened w) >>= λ c.
      settled (Candidate.start_coding c now none) >>= λ d.
      new_job cfg r JobType.code (some AgentRole.coder) (some d.id) Priority.normal
        (ports.fresh_id (suc drawn)) now
      >>= λ j. later >>= λ p. ok (d ∷ p.0, j ∷ p.1, p.2)

  unfoldable pub open_candidates : Step → Result Step
  unfolding open_from
  open_candidates st = open_from st.run.candidate_count 0 st.run st.drawn >>= λ p.
      ok (record { run = st.run; candidates = st.candidates ++ p.0; drawn = p.2; follow_ups = p.1 })

  abbrev pub start_coding : Step → Result Step
  start_coding st = settled (Run.start_coding st.run now) >>= λ r. ok (record st { run = r })

  unfoldable pub open_first_stage : Step → Result Step
  unfolding requires_plan settled ask_for open_candidates Run.start_planning Run.start_coding
  open_first_stage st =
      if requires_plan st.run
      then (settled (Run.start_planning st.run now) >>= λ r.
          ask_for JobType.plan (some AgentRole.planner) none Priority.normal
            (record st { run = r }))
      else (start_coding st >>= open_candidates)

  -- The loop of `_advance_candidates`.
  unfoldable pub push_candidates :
      Project → Run → List Candidate → (drawn : ℕ) → Result (List Candidate × List Job × ℕ)
  unfolding settled next_stage new_job Candidate.record_validation
  push_candidates p r [] drawn = ok ([], [], drawn)
  push_candidates p r (c ∷ cs) drawn = elim (is_validating c.status) [
    | false ↦ push_candidates p r cs drawn >>= λ q. ok (c ∷ q.0, q.1, q.2)
    | true ↦ elim (next_stage p c.validation) [
      | some stage ↦
          new_job cfg r stage none (some c.id) Priority.high (ports.fresh_id drawn) now >>= λ j.
          push_candidates p r cs (suc drawn) >>= λ q. ok (c ∷ q.0, j ∷ q.1, q.2)
      | none ↦
          settled (Candidate.record_validation c now none cfg.static_analysis_is_blocking) >>= λ d.
          push_candidates p r cs drawn >>= λ q. ok (d ∷ q.0, q.1, q.2)
    ]
  ]

  -- The end of a run whose repair budget is spent.
  unfoldable pub give_up : (reason : String) → Step → Result Step
  unfolding settled Run.fail
  give_up reason st =
      settled
        (Run.fail st.run now FailureKind.review (text_append reason "; repair budget exhausted"))
      >>= λ r. ports.release_run r.id >> ok (record st { run = r; follow_ups = [] })

  unfoldable pub send_back : Candidate → Step → Result Step
  unfolding settled replace ask_for Candidate.start_repair Run.start_coding
  send_back target st = settled (Candidate.start_repair target now) >>= λ c.
      start_coding (record st { candidates = replace c st.candidates })
      >>= ask_for JobType.code (some AgentRole.coder) (some target.id) Priority.high

  -- `_repair_or_fail`
  unfoldable pub repair_or_fail : List Candidate → (reason : String) → Step → Result Step
  unfolding Run.request_repair
  repair_or_fail candidates reason st = elim (first candidates) [
    | none ↦ give_up reason st
    | some target ↦
        let (r, answer) = Run.request_repair st.run target.id reason now in
        elim answer [
          | raise e ↦ raise e
          | ok again ↦
              if again
              then send_back target (record st { run = r })
              else give_up reason (record st { run = r })
        ]
  ]

  unfoldable pub enter_validating : Step → Result Step
  unfolding settled Run.start_validating
  enter_validating st =
      if status_eq st.run.status RunStatus.validating
      then ok st
      else (settled (Run.start_validating st.run now) >>= λ r. ok (record st { run = r }))

  unfoldable pub open_review : Candidate → Step → Result Step
  unfolding settled ask_for Run.start_reviewing
  open_review best st =
      let review =
        ask_for JobType.review (some AgentRole.reviewer) (some best.id) Priority.normal in
      if status_eq st.run.status RunStatus.reviewing
      then review st
      else (settled (Run.start_reviewing st.run best.id now) >>= λ r.
          review (record st { run = r }))

  -- The second half of `_advance_candidates`, where no stage is left to run.
  unfoldable pub judge : Step → Result Step
  unfolding viable select_candidate open_review repair_or_fail
  judge st =
      let fit = viable (settled_candidates st) in
      if is_empty (settled_candidates st) then ok st else elim (first fit) [
        | none ↦
            repair_or_fail (settled_candidates st) "no candidate survived deterministic validation"
              st
        | some c ↦ open_review ((select_candidate ports.str_of fit).winner or c) st
      ]

  unfoldable pub advance_candidates : Project → Step → Result Step
  unfolding push_candidates enter_validating judge
  advance_candidates p st = push_candidates p st.run st.candidates st.drawn >>= λ q.
      let pushed : Step = record {
        run = st.run;
        candidates = q.0;
        drawn = q.2;
        follow_ups = q.1;
      } in
      if is_empty q.1 then judge pushed else enter_validating pushed

  -- `_integrate`
  unfoldable pub integrate : Run → Candidate → Result (Unit {0})
  integrate r c = elim c.workspace_id [
    | none ↦ raise (workspace_error "candidate has no workspace")
    | some w ↦ ports.integrate r.id w
  ]

  -- The loop over the losers.
  unfoldable pub reject_others : (winner : ℕ) → List Candidate → List Candidate
  unfolding Candidate.reject
  reject_others winner [] = []
  reject_others winner (c ∷ cs) =
      let rest = reject_others winner cs in
      if c.id == winner
      then c ∷ rest
      else Candidate.reject c now "another candidate was selected" ∷ rest

  unfoldable pub finish_with : (winner : Candidate) → (rationale : String) → Step → Result Step
  unfolding settled integrate reject_others replace Candidate.choose Run.select_candidate
      Run.complete
  finish_with winner rationale st =
      (if cfg.integrate_on_success then integrate st.run winner else ok tt)
      >> settled (Candidate.choose winner now)
      >>= λ c.
          settled (
            Run.complete (Run.select_candidate st.run winner.id rationale now) now (some winner.id))
          >>= λ r.
              ports.release_run r.id
              >> ok (record {
                run = r;
                candidates = replace c (reject_others winner.id st.candidates);
                drawn = st.drawn;
                follow_ups = [];
              })

  unfoldable pub advance_review : Step → Result Step
  unfolding select_candidate finish_with repair_or_fail
  advance_review st =
      let passed = select has_passed st.candidates in
      let choice = select_candidate ports.str_of passed in
      elim (first passed) [
        | some c ↦ finish_with (choice.winner or c) choice.rationale st
        | none ↦ elim (first (select has_failed st.candidates)) [
          | some failing ↦ repair_or_fail (failing ∷ []) "the reviewer rejected every candidate" st
          | none ↦ repair_or_fail st.candidates "the reviewer rejected every candidate" st
        ]
      ]

  unfoldable pub decide_next : Project → Step → Result Step
  unfolding open_first_stage settled Run.start_coding open_candidates advance_candidates
      advance_review
  decide_next p st = elim st.run.status [
    | RunStatus.created ↦ open_first_stage st
    | RunStatus.plan_ready ↦ start_coding st >>= open_candidates
    | RunStatus.coding ↦ advance_candidates p st
    | RunStatus.validating ↦ advance_candidates p st
    | RunStatus.repairing ↦ advance_candidates p st
    | RunStatus.reviewing ↦ advance_review st
    | _ ↦ ok st
  ]

  -- `_persist_jobs`
  unfoldable pub persist_jobs : List Job → Result (List Job)
  unfolding settled Job.enqueue
  persist_jobs [] = ok []
  persist_jobs (j ∷ js) =
      let rest = persist_jobs js in settled (Job.enqueue j now) >>= λ k. rest >>= λ ks. ok (k ∷ ks)

  -- `_advance` of a run that the database holds, with its project, its candidates (in `st`) and its
  -- jobs, and the queue. Where it returns early, nothing changes, and where the transaction raises,
  -- nothing is published.
  unfoldable pub advance : Option Project → List Job → Queue → Step → Result (Step × Queue)
  unfolding has_unfinished decide_next persist_jobs publish_jobs
  advance project jobs q st =
      if run_is_terminal st.run.status || is_cancelling_or_cancelled st.run.status
      then ok (st, q)
      else elim project [
        | none ↦ raise (entity_not_found "Project" st.run.project_id)
        | some p ↦
            if has_unfinished jobs
            then ok (st, q)
            else (decide_next p st >>= λ d. persist_jobs d.follow_ups >>= λ js.
                ok (record d { follow_ups = js }, publish_jobs q js))
      ]
