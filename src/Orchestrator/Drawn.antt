-- ===== src/Orchestrator/Drawn.antt =====
-- The identifiers of the jobs that a decision asks for come from the generator (`self._ids.next_id` in
-- `_new_job` of src/application/orchestration/orchestrator.py).
use agentic_gpu_platform.Shared.{
  All, Bool, Bool-cases, List, Option, Option-cases, String, [], arith, false, first, if◌then◌else◌,
  inl, inr, is_empty, none, select, some, suc, text_append, true, zero, ℕ, ◌or◌, ◌∷◌, ◌≡◌,
}
use agentic_gpu_platform.Enums.{AgentRole, FailureKind, JobType, Priority, RunStatus}
use agentic_gpu_platform.Errors.{Result, ok, raise, settled, ◌>>=◌, ◌>>◌}
use agentic_gpu_platform.Selection.{select_candidate, viable}
use agentic_gpu_platform.Project.{Project}
use agentic_gpu_platform.Job.{Job}
use agentic_gpu_platform.Job
use agentic_gpu_platform.Run.{Run}
use agentic_gpu_platform.Run
use agentic_gpu_platform.RunMachine.{status_eq}
use agentic_gpu_platform.Candidate.{Candidate}
use agentic_gpu_platform.Candidate
use agentic_gpu_platform.Orchestrator.{
  OrchestratorConfig, Ports, Step, advance_candidates, advance_review, ask_for, enter_validating,
  finish_with, give_up, has_failed, has_passed, integrate, is_validating, judge, new_job,
  next_stage, open_candidates, open_first_stage, open_from, open_review, push_candidates,
  repair_or_fail, replace, requires_plan, send_back, settled_candidates, start_coding,
}

-- Every answer that is no exception has the property.
abbrev pub Grants {ℓ} : {A : Type 0} → (A → Type ℓ) → Result A → Type ℓ
Grants P (raise e) = Unit
Grants P (ok a) = P a

Grants-bind {ℓ κ} :
    {A B : Type 0} (P : A → Type ℓ) (Q : B → Type κ) (x : Result A) (f : A → Result B)
    → Grants P x
    → ((a : A) → P a → Grants Q (f a))
    → Grants Q (x >>= f)
Grants-bind P Q (raise e) f p h = tt
Grants-bind P Q (ok a) f p h = h a p

Grants-map {ℓ κ} :
    {A : Type 0} (P : A → Type ℓ) (Q : A → Type κ) (x : Result A)
    → ((a : A) → P a → Q a)
    → Grants P x
    → Grants Q x
Grants-map P Q (raise e) h p = tt
Grants-map P Q (ok a) h p = h a p

pub Grants-then {ℓ} :
    {A B : Type 0} (Q : B → Type ℓ) (x : Result A) (f : A → Result B)
    → ((a : A) → Grants Q (f a))
    → Grants Q (x >>= f)
Grants-then Q (raise e) f h = tt
Grants-then Q (ok a) f h = h a

module _ (ports : Ports) where
  -- The identifier was drawn.
  abbrev pub IsDrawn : Job → Type 0
  IsDrawn j = (n : ℕ) × (j.id ≡ ports.fresh_id n)

  abbrev pub AreDrawn : Step → Type 0
  AreDrawn d = All IsDrawn d.follow_ups

  module _ (cfg : OrchestratorConfig) (now : ℕ) where
    new_job-id :
        (r : Run) (t : JobType) (role : Option AgentRole) (candidate : Option ℕ)
        (priority : Priority) (id : ℕ)
        → Grants (λ (j : Job). j.id ≡ id) (new_job cfg r t role candidate priority id now)
    unfolding new_job Job.create Job.check_job
    new_job-id r t role candidate priority id = ground arith

    new_job-IsDrawn :
        (r : Run) (t : JobType) (role : Option AgentRole) (candidate : Option ℕ)
        (priority : Priority) (n : ℕ)
        → Grants IsDrawn (new_job cfg r t role candidate priority (ports.fresh_id n) now)
    new_job-IsDrawn r t role candidate priority n =
        Grants-map (λ (j : Job). j.id ≡ ports.fresh_id n) IsDrawn
          (new_job cfg r t role candidate priority (ports.fresh_id n) now) (λ j e. (n, e))
          (new_job-id r t role candidate priority (ports.fresh_id n))

    ask_for-AreDrawn :
        (t : JobType) (role : Option AgentRole) (candidate : Option ℕ) (priority : Priority)
        (st : Step)
        → Grants AreDrawn (ask_for ports cfg now t role candidate priority st)
    unfolding ask_for
    ask_for-AreDrawn t role candidate priority st =
        Grants-bind IsDrawn AreDrawn _ _ (new_job-IsDrawn st.run t role candidate priority st.drawn)
          (λ j m. (m, tt))

    open_from-AreDrawn :
        (left index : ℕ) (r : Run) (drawn : ℕ)
        → Grants
            (λ (p : List Candidate × List Job × ℕ). All IsDrawn p.1)
            (open_from ports cfg now left index r drawn)
    unfolding open_from
    open_from-AreDrawn zero index r drawn = tt
    open_from-AreDrawn (suc left) index r drawn =
        let Q = λ (p : List Candidate × List Job × ℕ). All IsDrawn p.1 in
        let fresh = Candidate.create (ports.fresh_id drawn) r.id index now in
        Grants-then Q (ports.create_workspace fresh.id) _ (λ w.
          Grants-then Q (settled (Candidate.attach_workspace fresh w)) _ (λ c.
            Grants-then Q (settled (Candidate.start_coding c now none)) _ (λ d.
              Grants-bind IsDrawn Q _ _
                (new_job-IsDrawn r JobType.code (some AgentRole.coder) (some d.id) Priority.normal
                  (suc drawn))
                (λ j m.
                  Grants-bind Q Q _ (λ p. ok (d ∷ p.0, j ∷ p.1, p.2))
                    (open_from-AreDrawn left (suc index) r (suc (suc drawn))) (λ p h. (m, h))))))

    pub open_candidates-AreDrawn : (st : Step) → Grants AreDrawn (open_candidates ports cfg now st)
    unfolding open_candidates
    open_candidates-AreDrawn st =
        Grants-bind (λ (p : List Candidate × List Job × ℕ). All IsDrawn p.1) AreDrawn _ _
          (open_from-AreDrawn st.run.candidate_count 0 st.run st.drawn) (λ p h. h)

    pub open_first_stage-AreDrawn :
        (st : Step) → Grants AreDrawn (open_first_stage ports cfg now st)
    unfolding open_first_stage
    open_first_stage-AreDrawn st = elim (Bool-cases (requires_plan st.run)) [
      | inl e ↦
          rw (open_first_stage, e)
            (Grants-then AreDrawn _ _ (λ r.
              ask_for-AreDrawn JobType.plan (some AgentRole.planner) none Priority.normal
                (record st { run = r })))
      | inr e ↦
          rw (open_first_stage, e) (Grants-then AreDrawn _ _ (λ d. open_candidates-AreDrawn d))
    ]

    push_candidates-AreDrawn :
        (p : Project) (r : Run) (cs : List Candidate) (drawn : ℕ)
        → Grants
            (λ (q : List Candidate × List Job × ℕ). All IsDrawn q.1)
            (push_candidates ports cfg now p r cs drawn)
    unfolding push_candidates
    push_candidates-AreDrawn p r [] drawn = tt
    push_candidates-AreDrawn p r (c ∷ cs) drawn =
        let Q = λ (q : List Candidate × List Job × ℕ). All IsDrawn q.1 in
        let rest = push_candidates-AreDrawn p r cs drawn in
        elim (Bool-cases (is_validating c.status)) [
          | inl e ↦ elim (Option-cases (next_stage p c.validation)) [
            | inl n ↦
                rw (push_candidates, e, n)
                  (Grants-then Q _ _ (λ d. Grants-bind Q Q _ _ rest (λ q h. h)))
            | inr (stage, n) ↦
                rw (push_candidates, e, n)
                  (Grants-bind IsDrawn Q _ _
                    (new_job-IsDrawn r stage none (some c.id) Priority.high drawn)
                    (λ j m.
                      Grants-bind Q Q _ _ (push_candidates-AreDrawn p r cs (suc drawn))
                        (λ q h. (m, h))))
          ]
          | inr e ↦ rw (push_candidates, e) (Grants-bind Q Q _ _ rest (λ q h. h))
        ]

    give_up-AreDrawn :
        (reason : String) (st : Step) → Grants AreDrawn (give_up ports cfg now reason st)
    unfolding give_up
    give_up-AreDrawn reason st =
        Grants-then AreDrawn
          (settled (
            Run.fail st.run now FailureKind.review
              (text_append reason "; repair budget exhausted")))
          _ (λ r. Grants-then AreDrawn (ports.release_run r.id) _ (λ u. tt))

    send_back-AreDrawn :
        (target : Candidate) (st : Step) → Grants AreDrawn (send_back ports cfg now target st)
    unfolding send_back
    send_back-AreDrawn target st =
        Grants-then AreDrawn (settled (Candidate.start_repair target now)) _ (λ c.
          Grants-then AreDrawn
            (start_coding ports cfg now (record st { candidates = replace c st.candidates }))
            (ask_for ports cfg now JobType.code (some AgentRole.coder) (some target.id)
              Priority.high)
            (λ d.
              ask_for-AreDrawn JobType.code (some AgentRole.coder) (some target.id) Priority.high
                d))

    repaired-AreDrawn :
        (target : Candidate) (reason : String) (st : Step) (answer : Result Bool)
        → Grants AreDrawn (elim answer [
          | raise e ↦ raise e
          | ok again ↦
              if again then send_back ports cfg now target st else give_up ports cfg now reason st
        ])
    repaired-AreDrawn target reason st (raise e) = tt
    repaired-AreDrawn target reason st (ok true) = send_back-AreDrawn target st
    repaired-AreDrawn target reason st (ok false) = give_up-AreDrawn reason st

    repair_or_fail-AreDrawn :
        (cs : List Candidate) (reason : String) (st : Step)
        → Grants AreDrawn (repair_or_fail ports cfg now cs reason st)
    unfolding repair_or_fail
    repair_or_fail-AreDrawn cs reason st = elim (Option-cases (first cs)) [
      | inl e ↦ rw (repair_or_fail, e) (give_up-AreDrawn reason st)
      | inr (target, e) ↦
          let asked = Run.request_repair st.run target.id reason now in
          rw (repair_or_fail, e)
            (repaired-AreDrawn target reason (record st { run = asked.0 }) asked.1)
    ]

    open_review-AreDrawn :
        (c : Candidate) (st : Step) → Grants AreDrawn (open_review ports cfg now c st)
    unfolding open_review
    open_review-AreDrawn c st =
        let review =
          ask_for-AreDrawn JobType.review (some AgentRole.reviewer) (some c.id) Priority.normal in
        elim (Bool-cases (status_eq st.run.status RunStatus.reviewing)) [
          | inl e ↦ rw (open_review, e) (review st)
          | inr e ↦
              rw (open_review, e) (Grants-then AreDrawn _ _ (λ r. review (record st { run = r })))
        ]

    judge-AreDrawn : (st : Step) → AreDrawn st → Grants AreDrawn (judge ports cfg now st)
    unfolding judge
    judge-AreDrawn st h = elim (Bool-cases (is_empty (settled_candidates st))) [
      | inl e ↦ rw (judge, e) h
      | inr e ↦ elim (Option-cases (first (viable (settled_candidates st)))) [
        | inl n ↦
            rw (judge, e, n)
              (repair_or_fail-AreDrawn (settled_candidates st)
                "no candidate survived deterministic validation" st)
        | inr (c, n) ↦
            let choice = select_candidate ports.str_of (viable (settled_candidates st)) in
            rw (judge, e, n) (open_review-AreDrawn (choice.winner or c) st)
      ]
    ]

    enter_validating-AreDrawn :
        (st : Step) → AreDrawn st → Grants AreDrawn (enter_validating ports cfg now st)
    unfolding enter_validating
    enter_validating-AreDrawn st h =
        elim (Bool-cases (status_eq st.run.status RunStatus.validating)) [
          | inl e ↦ rw (enter_validating, e) h
          | inr e ↦
              rw (enter_validating, e)
                (Grants-then AreDrawn (settled (Run.start_validating st.run now))
                  (λ r. ok (record st { run = r })) (λ r. h))
        ]

    pub advance_candidates-AreDrawn :
        (p : Project) (st : Step) → Grants AreDrawn (advance_candidates ports cfg now p st)
    unfolding advance_candidates
    advance_candidates-AreDrawn p st =
        Grants-bind (λ (q : List Candidate × List Job × ℕ). All IsDrawn q.1) AreDrawn _ _
          (push_candidates-AreDrawn p st.run st.candidates st.drawn)
          (λ q h.
            let pushed : Step = record {
              run = st.run;
              candidates = q.0;
              drawn = q.2;
              follow_ups = q.1;
            } in
            elim (Bool-cases (is_empty q.1)) [
              | inl e ↦ rw (e) (judge-AreDrawn pushed h)
              | inr e ↦ rw (e) (enter_validating-AreDrawn pushed h)
            ])

    finish_with-AreDrawn :
        (winner : Candidate) (rationale : String) (st : Step)
        → Grants AreDrawn (finish_with ports cfg now winner rationale st)
    unfolding finish_with
    finish_with-AreDrawn winner rationale st =
        Grants-then AreDrawn
          ((if cfg.integrate_on_success then integrate ports cfg now st.run winner else ok tt)
            >> settled (Candidate.choose winner now))
          _
          (λ c.
            Grants-then AreDrawn
              (settled (
                Run.complete (Run.select_candidate st.run winner.id rationale now) now
                  (some winner.id)))
              _ (λ r. Grants-then AreDrawn (ports.release_run r.id) _ (λ u. tt)))

    pub advance_review-AreDrawn : (st : Step) → Grants AreDrawn (advance_review ports cfg now st)
    unfolding advance_review
    advance_review-AreDrawn st = elim (Option-cases (first (select has_passed st.candidates))) [
      | inr (c, e) ↦
          let choice = select_candidate ports.str_of (select has_passed st.candidates) in
          rw (advance_review, e) (finish_with-AreDrawn (choice.winner or c) choice.rationale st)
      | inl e ↦ elim (Option-cases (first (select has_failed st.candidates))) [
        | inr (failing, f) ↦
            rw (advance_review, e, f)
              (repair_or_fail-AreDrawn (failing ∷ []) "the reviewer rejected every candidate" st)
        | inl f ↦
            rw (advance_review, e, f)
              (repair_or_fail-AreDrawn st.candidates "the reviewer rejected every candidate" st)
      ]
    ]
