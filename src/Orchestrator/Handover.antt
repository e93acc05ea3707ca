-- ===== src/Orchestrator/Handover.antt =====
-- What is stored when a worker hands in its work (the ends of `_run_coder` and `_run_validation_stage`
-- of src/application/orchestration/orchestrator.py).
use agentic_gpu_platform.Shared.{
  Bool, Bool-cases, Fields, String, arith, false, inl, inr, refl, some, true, ℕ, ◌&&◌, ◌+◌, ◌||◌,
  ◌∙◌, ◌≡◌, ◌⊎◌,
}
use agentic_gpu_platform.Enums.{CandidateStatus, JobStatus}
use agentic_gpu_platform.Errors.{Yields, Yields-value, is_ok, settled}
use agentic_gpu_platform.Job.{Job}
use agentic_gpu_platform.Job
use agentic_gpu_platform.Run.{Run}
use agentic_gpu_platform.Run
use agentic_gpu_platform.Candidate.{Candidate}
use agentic_gpu_platform.Candidate
use agentic_gpu_platform.Orchestrator.Work.{Answer, CodeDraft, code_result, finish_code}
use agentic_gpu_platform.Orchestrator.Pushing.{is_open}

abbrev pub is_at_work : Candidate → Bool
is_at_work c = elim c.status [ CandidateStatus.coding ↦ true | _ ↦ false ]

abbrev pub is_done : Job → Bool
is_done j = elim j.status [ JobStatus.succeeded ↦ true | _ ↦ false ]

-- The worker may hand in its work: the candidate is being coded, and the report comes under the job's
-- running lease, or repeats the report of a job that succeeded.
abbrev pub may_hand_in : Candidate → Job → (token now : ℕ) → Bool
may_hand_in c j token now = is_at_work c && (is_done j || is_ok (Job.assert_lease j token now))

-- What the stored objects say afterwards.
pub record IsHandedIn (r : Run) (d : CodeDraft) (a : Answer) (stored : Run × Candidate × Job)
    : Type 0 where
  pub patch : stored.1.patch ≡ some d.patch
  pub handed_over : is_open stored.1 ≡ true
  pub succeeded : stored.2.status ≡ JobStatus.succeeded
  pub counted :
      stored.0.token_usage.input_tokens ≡ r.token_usage.input_tokens + a.usage.input_tokens
  pub counted_out :
      stored.0.token_usage.output_tokens ≡ r.token_usage.output_tokens + a.usage.output_tokens
  pub status : stored.0.status ≡ r.status

patched :
    (c : Candidate) (d : CodeDraft) (worker : ℕ)
    → is_at_work c ≡ true
    → Yields
        (λ (e : Candidate). (e.patch ≡ some d.patch) × (is_at_work e ≡ true))
        (settled (
          Candidate.submit_patch
            (Candidate.record_worker c worker)
            d.patch
            d.summary
            d.uncertainties))
unfolding settled Candidate.record_worker Candidate.submit_patch
patched c d worker e = ground arith

validating :
    (c : Candidate) (now : ℕ)
    → is_at_work c ≡ true
    → Yields
        (λ (e : Candidate). (e.patch ≡ c.patch) × (is_open e ≡ true))
        (settled (Candidate.start_validation c now))
unfolding settled Candidate.start_validation
validating c now e = ground arith

completed :
    (j : Job) (token now : ℕ) (result : Fields)
    → (is_done j || is_ok (Job.assert_lease j token now)) ≡ true
    → Yields
        (λ (k : Job). k.status ≡ JobStatus.succeeded)
        (settled (Job.complete j (some token) now (some result)))
unfolding settled Job.complete Job.assert_optional
completed j token now result e = ground arith

refused :
    (id_text : ℕ → String) (r : Run) (c : Candidate) (j : Job) (token : ℕ) (d : CodeDraft)
    (a : Answer) (now : ℕ)
    → may_hand_in c j token now ≡ false
    → is_ok (finish_code id_text r c j token d a now) ≡ false
unfolding finish_code settled Candidate.record_worker Candidate.submit_patch
    Candidate.start_validation Run.add_token_usage Job.complete Job.assert_optional
refused id_text r c j token d a now e = ground arith

both : (a b : Bool) → (a && b) ≡ true → (a ≡ true) × (b ≡ true)
both a b h = ground arith

-- The coder's work is stored where it may be handed in, and only there. Then the candidate is handed
-- over with the patch, the job has succeeded, the tokens read and written are counted and the
-- run's status stays.
-- Otherwise the transaction raises, so a worker that lost its lease changes nothing.
pub finish_code_lem :
    (id_text : ℕ → String) (r : Run) (c : Candidate) (j : Job) (token : ℕ) (d : CodeDraft)
    (a : Answer) (now : ℕ)
    → (may_hand_in c j token now ≡ true)
        × Yields (IsHandedIn r d a) (finish_code id_text r c j token d a now)
      ⊎ (may_hand_in c j token now ≡ false)
        × (is_ok (finish_code id_text r c j token d a now) ≡ false)
unfolding finish_code Run.add_token_usage
finish_code_lem id_text r c j token d a now = elim (Bool-cases (may_hand_in c j token now)) [
  | inl e ↦
      let (work, leased) =
        both (is_at_work c) (is_done j || is_ok (Job.assert_lease j token now)) e in
      let (p, one, (kept, still)) =
        Yields-value
          (settled (
            Candidate.submit_patch (Candidate.record_worker c a.worker_id) d.patch d.summary
              d.uncertainties))
          (patched c d a.worker_id work) in
      let (q, two, (same, open_now)) =
        Yields-value (settled (Candidate.start_validation p now)) (validating p now still) in
      let (k, three, over) =
        Yields-value (settled (Job.complete j (some token) now (some (code_result id_text c d a))))
          (completed j token now (code_result id_text c d a) leased) in
      inl (
        e,
        rw (finish_code, one, two, three)
            (record {
              patch = same ∙ kept;
              handed_over = open_now;
              succeeded = over;
              counted = refl;
              counted_out = refl;
              status = refl;
            }),
      )
  | inr e ↦ inr (e, refused id_text r c j token d a now e)
]
