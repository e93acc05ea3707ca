-- ===== src/Selection.antt =====
-- Choosing between candidates: src/domain/services/candidate_selection.py.
pub mod Best
mod Samples
use agentic_gpu_platform.Shared.{
  Bool, List, Option, String, [], by, by_descending, false, if◌then◌else◌, lex, none, not, select,
  some, sorted, text_append, true, ℕ, ◌==◌, ◌||◌, ◌∷◌,
}
use agentic_gpu_platform.Enums.{ReviewVerdict, candidate_is_terminal}
use agentic_gpu_platform.Candidate.{Candidate, has_patch, is_viable, total_churn}
use agentic_gpu_platform.Validation.{build_passed, is_truthy, summary_of, tests_passed}

pub record CandidateSelection : Type 0 where
  pub winner : Option Candidate
  pub rationale : String
  pub rejected : List Candidate

abbrev pub as_number : Bool → ℕ
as_number b = if b then 1 else 0

abbrev pub passed_review : Candidate → Bool
passed_review c = elim c.review_verdict [
  | none ↦ false
  | some v ↦ elim v [ ReviewVerdict.pass ↦ true | ReviewVerdict.fail ↦ false ]
]

-- `_tier`
abbrev pub tier : Candidate → ℕ × ℕ × ℕ × ℕ
tier c = (
  as_number (passed_review c),
  as_number (is_truthy (tests_passed c.validation)),
  as_number (is_truthy (build_passed c.validation)),
  as_number (has_patch c),
)

abbrev pub churn_of_patch : Candidate → ℕ
churn_of_patch c = elim c.patch [ none ↦ 0 | some p ↦ total_churn p ]

-- The tuple `(_tier(c), -churn, -index)`, in reverse.
abbrev pub outranks : Candidate → Candidate → Bool
outranks = lex (by_descending λ c. as_number (passed_review c)) (
    lex (by_descending λ c. as_number (is_truthy (tests_passed c.validation))) (
      lex (by_descending λ c. as_number (is_truthy (build_passed c.validation))) (
        lex (by_descending λ c. as_number (has_patch c))
          (lex (by churn_of_patch) (by λ c. c.index)))))

abbrev pub is_usable : Candidate → Bool
is_usable c = not (candidate_is_terminal c.status) || is_viable c

-- What is said of the ranked candidates. A number in a text is left to `str_of`.
unfoldable pub pick : (str_of : ℕ → String) → List Candidate → CandidateSelection
pick str_of [] = record {
  winner = none;
  rationale = "no candidate produced a usable patch";
  rejected = [];
}
pick str_of (c ∷ cs) =
    if (tier c).3 == 0
    then record {
      winner = none;
      rationale = "no candidate produced a non-empty patch";
      rejected = c ∷ cs;
    }
    else if not (is_viable c)
    then record {
      winner = none;
      rationale =
          text_append "no candidate survived deterministic validation: " (summary_of c.validation);
      rejected = c ∷ cs;
    }
    else record {
      winner = some c;
      rationale =
          text_append "candidate "
            (text_append (str_of c.index) (text_append " selected on " (summary_of c.validation)));
      rejected = cs;
    }

unfoldable pub rank : List Candidate → List Candidate
rank candidates = sorted outranks (select is_usable candidates)

-- `DeterministicCandidateSelectionPolicy.select`
unfoldable pub select_candidate : (str_of : ℕ → String) → List Candidate → CandidateSelection
unfolding rank pick
select_candidate str_of candidates = pick str_of (rank candidates)

unfoldable pub viable : List Candidate → List Candidate
viable candidates = select is_viable candidates
