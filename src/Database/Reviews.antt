-- ===== src/Database/Reviews.antt =====
-- The rows of a review and of its findings (`ReviewModel` and `ReviewFindingModel` of
-- src/infrastructure/database/models.py): the translation in src/infrastructure/database/mappers.py. A
-- finding has no identity of its own, so its row draws one.
use agentic_gpu_platform.Shared.{All, Fields, List, Option, String, [], refl, sorted, ℕ, ◌∷◌, ◌≡◌}
use agentic_gpu_platform.Errors.{Result, ok, ◌>>=◌}
use agentic_gpu_platform.Review.{
  Review, ReviewFinding, Severity, check_finding, check_review, severity_value,
}
use agentic_gpu_platform.Database.Codes.{read_code}
use agentic_gpu_platform.Database.Candidates.{
  read_verdict, read_verdict-verdict_value, verdict_value,
}
use agentic_gpu_platform.Database.Plans.{
  by_position, load_all, number_from, numbered_load, numbered_stay,
}

unfoldable pub read_severity : String → Result Severity
unfolding read_code severity_value
read_severity =
    read_code severity_value
      (Severity.blocker ∷ Severity.major ∷ Severity.minor ∷ Severity.info ∷ [])

read_severity-severity_value : (s : Severity) → read_severity (severity_value s) ≡ ok s
unfolding read_severity
read_severity-severity_value Severity.blocker = refl
read_severity-severity_value Severity.major = refl
read_severity-severity_value Severity.minor = refl
read_severity-severity_value Severity.info = refl

pub record ReviewFindingModel : Type 0 where
  pub id : ℕ
  pub review_id : ℕ
  pub position : ℕ
  pub summary : String
  pub severity : String
  pub file_path : Option String
  pub line : Option ℕ
  pub repair_instruction : Option String

pub record ReviewModel : Type 0 where
  pub id : ℕ
  pub run_id : ℕ
  pub candidate_id : ℕ
  pub verdict : String
  pub iteration : ℕ
  pub created_at : ℕ
  pub summary : String
  pub prompt_version : String
  pub meta : Fields
  pub findings : List ReviewFindingModel

-- The row of a finding, with the identifier drawn for its position.
unfoldable pub finding_row :
    (row_id : ℕ → ℕ) → (review_id position : ℕ) → ReviewFinding → ReviewFindingModel
unfolding severity_value
finding_row row_id review_id position f = record {
  id = row_id position;
  review_id = review_id;
  position = position;
  summary = f.summary;
  severity = severity_value f.severity;
  file_path = f.file;
  line = f.line;
  repair_instruction = f.repair_instruction;
}

-- `review_to_model`
unfoldable pub review_to_model : (row_id : ℕ → ℕ) → Review → ReviewModel
unfolding verdict_value number_from finding_row
review_to_model row_id r = record {
  id = r.id;
  run_id = r.run_id;
  candidate_id = r.candidate_id;
  verdict = verdict_value r.verdict;
  iteration = r.iteration;
  created_at = r.created_at;
  summary = r.summary;
  prompt_version = r.prompt_version;
  meta = r.metadata;
  findings = number_from (finding_row row_id r.id) 0 r.findings;
}

unfoldable pub load_finding : ReviewFindingModel → Result ReviewFinding
unfolding read_severity check_finding
load_finding m = read_severity m.severity >>= λ severity. check_finding (record {
  summary = m.summary;
  severity = severity;
  file = m.file_path;
  line = m.line;
  repair_instruction = m.repair_instruction;
})

-- `review_to_domain`
unfoldable pub review_to_domain : ReviewModel → Result Review
unfolding read_verdict load_all load_finding sorted check_review
review_to_domain m = read_verdict m.verdict >>= λ verdict.
    load_all load_finding (sorted (by_position λ (f : ReviewFindingModel). f.position) m.findings)
    >>= λ findings. check_review (record {
      id = m.id;
      run_id = m.run_id;
      candidate_id = m.candidate_id;
      verdict = verdict;
      iteration = m.iteration;
      created_at = m.created_at;
      summary = m.summary;
      findings = findings;
      prompt_version = m.prompt_version;
      metadata = m.meta;
    })

finding-restored :
    (row_id : ℕ → ℕ) (id n : ℕ) (f : ReviewFinding)
    → check_finding f ≡ ok f
    → load_finding (finding_row row_id id n f) ≡ ok f
unfolding load_finding finding_row
finding-restored row_id id n f e =
    rw (load_finding, finding_row, read_severity-severity_value f.severity) e

finding-placed :
    (row_id : ℕ → ℕ) (id n : ℕ) (f : ReviewFinding) → (finding_row row_id id n f).position ≡ n
unfolding finding_row
finding-placed row_id id n f = refl

findings-restored :
    (row_id : ℕ → ℕ) (id : ℕ) (fs : List ReviewFinding)
    → All (λ f. check_finding f ≡ ok f) fs
    → All (λ f. (m : ℕ) → load_finding (finding_row row_id id m f) ≡ ok f) fs
findings-restored row_id id [] a = tt
findings-restored row_id id (f ∷ fs) (e, a) =
    (λ m. finding-restored row_id id m f e, findings-restored row_id id fs a)

-- A review that its checks accept comes back from its rows as it was, its findings in their order.
pub review_to_domain-review_to_model :
    (row_id : ℕ → ℕ) (r : Review)
    → All (λ f. check_finding f ≡ ok f) r.findings
    → check_review r ≡ ok r
    → review_to_domain (review_to_model row_id r) ≡ ok r
unfolding review_to_domain review_to_model
review_to_domain-review_to_model row_id r a e =
    let row = finding_row row_id r.id in
    let position = λ (f : ReviewFindingModel). f.position in
    rw
      (
        review_to_domain,
        review_to_model,
        read_verdict-verdict_value r.verdict,
        numbered_stay row position (finding-placed row_id r.id) 0 r.findings,
        numbered_load row position (finding-placed row_id r.id) load_finding 0 r.findings
            (findings-restored row_id r.id r.findings a),
      )
      e
