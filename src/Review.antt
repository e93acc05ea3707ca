-- ===== src/Review.antt =====
-- src/domain/entities/review.py: the reviewer's verdict. A line number in a text is left to `str_of`.
use agentic_gpu_platform.Project.{is_given}
use agentic_gpu_platform.Shared.{
  Bool, Fields, List, Option, String, [], false, if◌then◌else◌, is_blank, is_empty, ltb, none, not,
  select, some, text_append, true, ℕ, ◌&&◌, ◌or◌, ◌∷◌,
}
use agentic_gpu_platform.Enums.{ReviewVerdict}
use agentic_gpu_platform.Errors.{Result, ok, raise, value_error}

pub data Severity : Type 0 where
  blocker major minor info : Severity

abbrev pub blocks_completion : Severity → Bool
blocks_completion s = elim s [ blocker ↦ true | major ↦ true | minor ↦ false | info ↦ false ]

unfoldable pub severity_value : Severity → String
severity_value blocker = "BLOCKER"
severity_value major = "MAJOR"
severity_value minor = "MINOR"
severity_value info = "INFO"

pub record ReviewFinding : Type 0 where
  pub summary : String
  pub severity : Severity
  pub file : Option String
  pub line : Option ℕ
  pub repair_instruction : Option String

-- `ReviewFinding.__post_init__`
unfoldable pub check_finding : ReviewFinding → Result ReviewFinding
check_finding f =
    if is_blank f.summary then raise (value_error "a finding needs a summary") else ok f

pub record Review : Type 0 where
  pub id : ℕ
  pub run_id : ℕ
  pub candidate_id : ℕ
  pub verdict : ReviewVerdict
  pub iteration : ℕ
  pub created_at : ℕ
  pub summary : String
  pub findings : List ReviewFinding
  pub prompt_version : String
  pub metadata : Fields

abbrev pub is_pass : ReviewVerdict → Bool
is_pass v = elim v [ ReviewVerdict.pass ↦ true | ReviewVerdict.fail ↦ false ]

-- `Review.__post_init__`
unfoldable pub check_review : Review → Result Review
check_review r =
    if ltb r.iteration 1
    then raise (value_error "review iterations are 1-based")
    else if not (is_pass r.verdict) && is_empty r.findings
    then raise (value_error "a failing review must report at least one finding")
    else ok r

abbrev pub passed : Review → Bool
passed r = is_pass r.verdict

abbrev pub blocking_findings : Review → List ReviewFinding
blocking_findings r = select (λ f. blocks_completion f.severity) r.findings

abbrev line_text : (str_of : ℕ → String) → Option ℕ → String
line_text str_of none = "None"
line_text str_of (some n) = str_of n

-- ` (file:line)`; a missing line is the text `None`.
unfoldable pub location_of : (str_of : ℕ → String) → ReviewFinding → String
unfolding is_given
location_of str_of f =
    let file = f.file or "" in
    let line = line_text str_of f.line in
    if is_given f.file
    then text_append " (" (text_append file (text_append ":" (text_append line ")")))
    else ""

-- `finding.repair_instruction or finding.summary`
unfoldable pub instruction_of : ReviewFinding → String
unfolding is_given
instruction_of f = if is_given f.repair_instruction then f.repair_instruction or "" else f.summary

unfoldable pub brief_line : (str_of : ℕ → String) → ReviewFinding → String
unfolding severity_value location_of instruction_of
brief_line str_of f = text_append "- [" (
    text_append (severity_value f.severity)
      (text_append "]" (text_append (location_of str_of f) (text_append " " (instruction_of f)))))

-- The lines of the findings, one after the other, with a line break between two.
unfoldable pub repair_brief : (str_of : ℕ → String) → List ReviewFinding → String
unfolding brief_line
repair_brief str_of [] = ""
repair_brief str_of (f ∷ []) = brief_line str_of f
repair_brief str_of (f ∷ g ∷ fs) =
    text_append (brief_line str_of f) (text_append "\n" (repair_brief str_of (g ∷ fs)))
