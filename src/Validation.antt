-- ===== src/Validation.antt =====
-- The evidence on a candidate: src/domain/value_objects/validation.py, with `ToolKind` and
-- `ToolResult` of src/domain/value_objects/tools.py.
pub mod Evidence
use agentic_gpu_platform.Shared.{
  Bool, Fields, List, Option, String, all, false, if◌then◌else◌, is_empty, is_zero, none, not,
  select, some, text_append, true, ℕ, ℤ, ◌&&◌, ◌++◌, ◌||◌,
}
use agentic_gpu_platform.Enums.{FailureKind}

pub data ToolKind : Type 0 where
  search read edit patch command build test static_analysis vcs : ToolKind

-- `a is b`
abbrev pub kind_is : ToolKind → ToolKind → Bool
kind_is a b = elim a [
  | ToolKind.search ↦ elim b [ ToolKind.search ↦ true | _ ↦ false ]
  | ToolKind.read ↦ elim b [ ToolKind.read ↦ true | _ ↦ false ]
  | ToolKind.edit ↦ elim b [ ToolKind.edit ↦ true | _ ↦ false ]
  | ToolKind.patch ↦ elim b [ ToolKind.patch ↦ true | _ ↦ false ]
  | ToolKind.command ↦ elim b [ ToolKind.command ↦ true | _ ↦ false ]
  | ToolKind.build ↦ elim b [ ToolKind.build ↦ true | _ ↦ false ]
  | ToolKind.test ↦ elim b [ ToolKind.test ↦ true | _ ↦ false ]
  | ToolKind.static_analysis ↦ elim b [ ToolKind.static_analysis ↦ true | _ ↦ false ]
  | ToolKind.vcs ↦ elim b [ ToolKind.vcs ↦ true | _ ↦ false ]
]

-- A process ends with a code, or with minus the number of a signal.
pub record ToolResult : Type 0 where
  pub tool : String
  pub kind : ToolKind
  pub command : String
  pub exit_code : ℤ
  pub stdout : String
  pub stderr : String
  pub duration_ms : ℕ
  pub truncated : Bool
  pub artifacts : List String
  pub metadata : Fields

abbrev pub succeeded : ToolResult → Bool
succeeded r = is_zero r.exit_code

pub record ValidationReport : Type 0 where
  pub results : List ToolResult
  pub static_analysis_is_blocking : Bool

abbrev pub of_kind : ToolKind → ValidationReport → List ToolResult
of_kind kind v = select (λ r. kind_is r.kind kind) v.results

-- `none` where no result is given.
unfoldable pub all_passed : List ToolResult → Option Bool
all_passed rs = if is_empty rs then none else some (all succeeded rs)

abbrev pub build_passed : ValidationReport → Option Bool
build_passed v = all_passed (of_kind ToolKind.build v)

abbrev pub tests_passed : ValidationReport → Option Bool
tests_passed v = all_passed (of_kind ToolKind.test v)

abbrev pub static_analysis_passed : ValidationReport → Option Bool
static_analysis_passed v = all_passed (of_kind ToolKind.static_analysis v)

-- `verdict is False`
abbrev pub is_false : Option Bool → Bool
is_false none = false
is_false (some b) = not b

-- `bool(verdict)`
abbrev pub is_truthy : Option Bool → Bool
is_truthy none = false
is_truthy (some b) = b

unfoldable pub report_is_viable : ValidationReport → Bool
report_is_viable v =
    if is_false (build_passed v) || is_false (tests_passed v)
    then false
    else not (v.static_analysis_is_blocking && is_false (static_analysis_passed v))

unfoldable pub failure_kind : ValidationReport → Option FailureKind
failure_kind v =
    if is_false (build_passed v)
    then some FailureKind.compilation
    else if is_false (tests_passed v)
    then some FailureKind.test
    else if v.static_analysis_is_blocking && is_false (static_analysis_passed v)
    then some FailureKind.test
    else none

unfoldable pub failing_results : ValidationReport → List ToolResult
failing_results v = select (λ r. not (succeeded r)) v.results

unfoldable pub extended_with : ValidationReport → List ToolResult → ValidationReport
extended_with v rs = record v { results = v.results ++ rs }

abbrev render : String → Option Bool → String
render label value =
    text_append label
      (text_append "=" (elim value [ none ↦ "skipped" | some b ↦ if b then "pass" else "fail" ]))

unfoldable pub summary_of : ValidationReport → String
summary_of v = text_append (render "build" (build_passed v)) (
    text_append " " (
      text_append (render "tests" (tests_passed v))
        (text_append " " (render "static_analysis" (static_analysis_passed v)))))
