-- ===== src/Orchestrator/Advance.antt =====
-- A whole decision on a run (`_advance` of src/application/orchestration/orchestrator.py): it leaves
-- jobs that will call the orchestrator back, or a run that is over.
use agentic_gpu_platform.Shared.{
  All, List, Option, [], any, arith, false, inl, inr, is_empty, length, refl, some, subst, sym,
  true, ℕ, ◌∙◌, ◌∷◌, ◌≡◌, ◌≤◌, ◌⊎◌,
}
use agentic_gpu_platform.Enums.{
  JobStatus, JobType, RunStatus, is_cancelling_or_cancelled, run_is_terminal,
}
use agentic_gpu_platform.Errors.{Yields, Yields-map, Yields-value, settled}
use agentic_gpu_platform.Project.{Project}
use agentic_gpu_platform.Job.{Job}
use agentic_gpu_platform.Job
use agentic_gpu_platform.Run.{Run}
use agentic_gpu_platform.Run
use agentic_gpu_platform.RunMachine.{can}
use agentic_gpu_platform.Candidate.{Candidate}
use agentic_gpu_platform.Orchestrator.{
  OrchestratorConfig, Ports, Step, advance, advance_candidates, advance_review, decide_next,
  has_unfinished, open_candidates, open_first_stage, persist_jobs,
}
use agentic_gpu_platform.Orchestrator.Opening.{
  AreOpened, IsServing, IsStarted, IsWaiting, coded, none_left, open_candidates-IsOpened,
  open_first_stage-IsStarted, opened, planned, start_coding-IsMoved,
}
use agentic_gpu_platform.Orchestrator.Pushing.{AreAsked-AreWaiting, AreWaiting, is_open}
use agentic_gpu_platform.Orchestrator.Progress.{
  IsAdvanced, IsJudged, advance_candidates-IsAdvanced, judges, validates,
}
use agentic_gpu_platform.Queue.{Queue}
use agentic_gpu_platform.Orchestrator.Publishing.{IsPublished, is_taken, publish_jobs-IsPublished}
use agentic_gpu_platform.Orchestrator.Drawn.{
  AreDrawn, Grants, Grants-then, IsDrawn, advance_candidates-AreDrawn, advance_review-AreDrawn,
  open_candidates-AreDrawn, open_first_stage-AreDrawn,
}
use agentic_gpu_platform.Orchestrator.Verdict.{IsAlive, IsConcluded, advance_review-IsConcluded}

-- The states of a run in which a decision is due.
pub data IsDue (st : Step) : Type 0 where
  due_created : st.run.status ≡ RunStatus.created → 1 ≤ st.run.candidate_count → IsDue st
  due_planned : st.run.status ≡ RunStatus.plan_ready → 1 ≤ st.run.candidate_count → IsDue st
  due_validating :
      st.run.status ≡ RunStatus.validating → any is_open st.candidates ≡ true → IsDue st
  due_reviewing :
      st.run.status ≡ RunStatus.reviewing
      → All IsAlive st.candidates
      → is_empty st.candidates ≡ false
      → IsDue st

-- Jobs of the run that are stored as waiting in the queue.
abbrev pub AreQueued : (run_id : ℕ) → List Job → Type 0
AreQueued run_id jobs = All (λ (j : Job). (j.run_id ≡ run_id) × (j.status ≡ JobStatus.queued)) jobs

-- There are follow-ups, or the run is over.
abbrev pub IsOngoing : Step → Type 0
IsOngoing d = (is_empty d.follow_ups ≡ false) ⊎ (run_is_terminal d.run.status ≡ true)

AreOpened-AreWaiting :
    {run_id index : ℕ} (cs : List Candidate) (js : List Job)
    → AreOpened run_id index cs js
    → AreWaiting run_id js
AreOpened-AreWaiting [] [] none_left = tt
AreOpened-AreWaiting [] (j ∷ js) x = elim x [ ]
AreOpened-AreWaiting (c ∷ cs) [] x = elim x [ ]
AreOpened-AreWaiting (c ∷ cs) (j ∷ js) (opened a b x w rest) =
    ((w.0, w.3), AreOpened-AreWaiting cs js rest)

filled-length : (js : List Job) (n : ℕ) → length js ≡ n → 1 ≤ n → is_empty js ≡ false
filled-length [] n e h = absurd (omega (arith, e, h))
filled-length (j ∷ js) n e h = refl

open_run :
    (st : Step)
    → IsDue st
    → (run_is_terminal st.run.status ≡ false) × (is_cancelling_or_cancelled st.run.status ≡ false)
open_run st (due_created e n) = rw (e) (refl, refl)
open_run st (due_planned e n) = rw (e) (refl, refl)
open_run st (due_validating e o) = rw (e) (refl, refl)
open_run st (due_reviewing e a f) = rw (e) (refl, refl)

published :
    (j : Job) (now : ℕ)
    → j.status ≡ JobStatus.pending
    → Yields
        (λ (k : Job). (k.id ≡ j.id) × (k.run_id ≡ j.run_id) × (k.status ≡ JobStatus.queued))
        (settled (Job.enqueue j now))
unfolding settled Job.enqueue
published j now e = rw (e) (refl, refl, refl)

module _ (ports : Ports) (cfg : OrchestratorConfig) (now : ℕ) where
  persist_jobs-AreQueued :
      (run_id : ℕ) (js : List Job)
      → AreWaiting run_id js
      → All (IsDrawn ports) js
      → Yields
          (λ (ks : List Job).
            AreQueued run_id ks × (is_empty ks ≡ is_empty js) × All (IsDrawn ports) ks)
          (persist_jobs ports cfg now js)
  unfolding persist_jobs
  persist_jobs-AreQueued run_id [] w m = (tt, refl, tt)
  persist_jobs-AreQueued run_id (j ∷ js) ((same, pending), w) ((n, own), m) =
      let (ks, done, (queued, filled, drawn)) =
        Yields-value (persist_jobs ports cfg now js) (persist_jobs-AreQueued run_id js w m) in
      let (k, sent, (named, remains, marked)) =
        Yields-value (settled (Job.enqueue j now)) (published j now pending) in
      rw (sent, done) (((remains ∙ same, marked), queued), refl, ((n, named ∙ own), drawn))

  -- What a decision leaves before its jobs are stored.
  abbrev IsDecided : (run_id : ℕ) → Step → Type 0
  IsDecided run_id d = AreWaiting run_id d.follow_ups × IsOngoing d

  single :
      (run_id : ℕ) {t : JobType} {c : Option ℕ} {j : Job} (d : Step)
      → d.follow_ups ≡ j ∷ []
      → IsWaiting run_id t c j
      → IsDecided run_id d
  single run_id d e (same, _, _, pending) = rw (e) (((same, pending), tt), inl refl)

  ended :
      (run_id : ℕ) (d : Step)
      → d.follow_ups ≡ []
      → run_is_terminal d.run.status ≡ true
      → IsDecided run_id d
  ended run_id d e over = rw (e) (tt, inr over)

  IsJudged-IsDecided :
      (r : Run) (cs : List Candidate) (d : Step) → IsJudged r cs d → IsDecided r.id d
  IsJudged-IsDecided r cs d (IsJudged.reviews c a b w s m x y) = single r.id d b w
  IsJudged-IsDecided r cs d (IsJudged.repairs c h f a b w x y) = single r.id d b w
  IsJudged-IsDecided r cs d (IsJudged.fails h a b x) = ended r.id d b (rw (a) refl)

  IsAdvanced-IsDecided : (p : Project) (st d : Step) → IsAdvanced p st d → IsDecided st.run.id d
  IsAdvanced-IsDecided p st d (validates a l b w) = (AreAsked-AreWaiting w, inl b)
  IsAdvanced-IsDecided p st d (judges cs n m k how) = IsJudged-IsDecided st.run cs d how

  IsConcluded-IsDecided : (st d : Step) → IsConcluded st d → IsDecided st.run.id d
  IsConcluded-IsDecided st d (IsConcluded.completes w m p a b x e) =
      ended st.run.id d e (rw (a) refl)
  IsConcluded-IsDecided st d (IsConcluded.repairs c m n a b w x y) = single st.run.id d b w
  IsConcluded-IsDecided st d (IsConcluded.fails n a b x) = ended st.run.id d b (rw (a) refl)

  IsStarted-IsDecided :
      (st d : Step) → 1 ≤ st.run.candidate_count → IsStarted st d → IsDecided st.run.id d
  IsStarted-IsDecided st d h (planned p a b w) = single st.run.id d b w
  IsStarted-IsDecided st d h (coded cs p a b o n) = (
    AreOpened-AreWaiting cs d.follow_ups o,
    inl (filled-length d.follow_ups st.run.candidate_count n h),
  )

  decide_next-IsDecided :
      (p : Project) (st : Step)
      → IsServing ports
      → 1 ≤ cfg.job_max_attempts
      → IsDue st
      → Yields (IsDecided st.run.id) (decide_next ports cfg now p st)
  unfolding decide_next can
  decide_next-IsDecided p st v h (due_created e n) =
      let m = open_first_stage ports cfg now st in
      rw (decide_next, e)
        (Yields-map (IsStarted st) m (open_first_stage-IsStarted ports cfg now st e v h)
          λ d k. IsStarted-IsDecided st d n k)
  decide_next-IsDecided p st v h (due_planned e n) =
      let (r, coding_run, moved) =
        Yields-value (settled (Run.start_coding st.run now))
          (start_coding-IsMoved st.run now (rw (e) refl)) in
      let st2 : Step = record st { run = r } in
      let (d, done, (cs, _, in_order, counted, _)) =
        Yields-value (open_candidates ports cfg now st2)
          (open_candidates-IsOpened ports cfg now st2 v h) in
      rw (decide_next, e, coding_run, done)
        (
          AreOpened-AreWaiting cs d.follow_ups
              (subst (λ i. AreOpened i 0 cs d.follow_ups) moved.same in_order),
          inl (filled-length d.follow_ups st.run.candidate_count (counted ∙ moved.count) n),
        )
  decide_next-IsDecided p st v h (due_validating e o) =
      rw (decide_next, e)
        (Yields-map (IsAdvanced p st) (advance_candidates ports cfg now p st)
          (advance_candidates-IsAdvanced ports cfg now p st v h o e) (IsAdvanced-IsDecided p st))
  decide_next-IsDecided p st v h (due_reviewing e a f) =
      rw (decide_next, e)
        (Yields-map (IsConcluded st) (advance_review ports cfg now st)
          (advance_review-IsConcluded ports cfg now st v h a f e) (IsConcluded-IsDecided st))

  decide_next-AreDrawn :
      (p : Project) (st : Step)
      → IsDue st
      → Grants (AreDrawn ports) (decide_next ports cfg now p st)
  unfolding decide_next
  decide_next-AreDrawn p st (due_created e n) =
      rw (decide_next, e) (open_first_stage-AreDrawn ports cfg now st)
  decide_next-AreDrawn p st (due_planned e n) =
      rw (decide_next, e)
        (Grants-then (AreDrawn ports) _ (open_candidates ports cfg now)
          (λ d. open_candidates-AreDrawn ports cfg now d))
  decide_next-AreDrawn p st (due_validating e o) =
      rw (decide_next, e) (advance_candidates-AreDrawn ports cfg now p st)
  decide_next-AreDrawn p st (due_reviewing e a f) =
      rw (decide_next, e) (advance_review-AreDrawn ports cfg now st)

  -- What is drawn is free in the queue.
  drawn-free :
      (q : Queue) (js : List Job)
      → ((n : ℕ) → is_taken q (ports.fresh_id n) ≡ false)
      → All (IsDrawn ports) js
      → All (λ (j : Job). is_taken q j.id ≡ false) js
  drawn-free q [] free m = tt
  drawn-free q (j ∷ js) free ((n, own), m) =
      (subst (λ i. is_taken q i ≡ false) (sym own) (free n), drawn-free q js free m)

  queued-own :
      (run_id : ℕ) (js : List Job) → AreQueued run_id js → All (λ (j : Job). j.run_id ≡ run_id) js
  queued-own run_id [] h = tt
  queued-own run_id (j ∷ js) ((own, _), h) = (own, queued-own run_id js h)

  -- A run is never left waiting for nothing. Where all its jobs are over and a decision is due, the
  -- decision is made, and it either leaves jobs of the run, each stored as queued and waiting in the
  -- queue, ready to be claimed, or ends the run: for a run just created, with its plan ready,
  -- validating with a candidate handed over, or under review with candidates that can still be chosen.
  -- The services have to answer, the project has to exist, jobs are given an attempt, and
  -- the queue must have no job in flight or acknowledged under an identifier that the generator gives to the decision.
  pub advance-IsOngoing :
      (p : Project) (jobs : List Job) (q : Queue) (st : Step)
      → IsServing ports
      → 1 ≤ cfg.job_max_attempts
      → ((n : ℕ) → is_taken q (ports.fresh_id n) ≡ false)
      → has_unfinished jobs ≡ false
      → IsDue st
      → Yields
          (λ (out : Step × Queue).
            AreQueued st.run.id out.0.follow_ups
            × All (IsPublished st.run.id out.1) out.0.follow_ups
            × IsOngoing out.0)
          (advance ports cfg now (some p) jobs q st)
  unfolding advance
  advance-IsOngoing p jobs q st v h free finished due =
      let (d, done, (waiting, onward)) =
        Yields-value (decide_next ports cfg now p st) (decide_next-IsDecided p st v h due) in
      let drawn = subst (Grants (AreDrawn ports)) done (decide_next-AreDrawn p st due) in
      let (ks, stored, (queued, filled, named)) =
        Yields-value (persist_jobs ports cfg now d.follow_ups)
          (persist_jobs-AreQueued st.run.id d.follow_ups waiting drawn) in
      let (alive, staying) = open_run st due in
      rw (advance, alive, staying, finished, done, stored)
        (
          queued,
          publish_jobs-IsPublished st.run.id q ks (queued-own st.run.id ks queued)
              (drawn-free q ks free named),
          elim onward [ inl some_left ↦ inl (filled ∙ some_left) | inr over ↦ inr over ],
        )
