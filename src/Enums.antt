-- ===== src/Enums.antt =====
-- src/domain/enums.py: the enumerations of the domain and their predicates.
-- `x is Enum.member` is written as a test by cases.
use agentic_gpu_platform.Shared.{Bool, String, false, true, ℕ}

pub data RunStatus : Type 0 where
  created planning plan_ready coding validating reviewing repairing completed failed : RunStatus
  cancelling cancelled : RunStatus

abbrev pub run_is_terminal : RunStatus → Bool
run_is_terminal s = elim s [
  | RunStatus.completed ↦ true
  | RunStatus.failed ↦ true
  | RunStatus.cancelled ↦ true
  | _ ↦ false
]

abbrev pub is_cancelling_or_cancelled : RunStatus → Bool
is_cancelling_or_cancelled s = elim s [
  | RunStatus.cancelling ↦ true
  | RunStatus.cancelled ↦ true
  | _ ↦ false
]

pub data JobStatus : Type 0 where
  pending queued leased running succeeded failed dead cancelled : JobStatus

abbrev pub job_is_terminal : JobStatus → Bool
job_is_terminal s = elim s [
  | JobStatus.succeeded ↦ true
  | JobStatus.dead ↦ true
  | JobStatus.cancelled ↦ true
  | _ ↦ false
]

abbrev pub is_in_flight : JobStatus → Bool
is_in_flight s = elim s [ JobStatus.leased ↦ true | JobStatus.running ↦ true | _ ↦ false ]

abbrev pub is_queued : JobStatus → Bool
is_queued s = elim s [ JobStatus.queued ↦ true | _ ↦ false ]

pub data JobType : Type 0 where
  plan code review llm_inference build test static_analysis patch_apply : JobType

abbrev pub requires_inference : JobType → Bool
requires_inference t = elim t [
  | JobType.plan ↦ true
  | JobType.code ↦ true
  | JobType.review ↦ true
  | JobType.llm_inference ↦ true
  | _ ↦ false
]

pub data AgentRole : Type 0 where
  planner coder reviewer : AgentRole

abbrev pub role_eq : AgentRole → AgentRole → Bool
role_eq a b = elim a [
  | AgentRole.planner ↦ elim b [ AgentRole.planner ↦ true | _ ↦ false ]
  | AgentRole.coder ↦ elim b [ AgentRole.coder ↦ true | _ ↦ false ]
  | AgentRole.reviewer ↦ elim b [ AgentRole.reviewer ↦ true | _ ↦ false ]
]

pub data WorkerStatus : Type 0 where
  starting registering ready busy draining offline unhealthy : WorkerStatus

abbrev pub accepts_new_jobs : WorkerStatus → Bool
accepts_new_jobs s = elim s [ WorkerStatus.ready ↦ true | WorkerStatus.busy ↦ true | _ ↦ false ]

abbrev pub is_live : WorkerStatus → Bool
is_live s = elim s [ WorkerStatus.offline ↦ false | WorkerStatus.unhealthy ↦ false | _ ↦ true ]

pub data CandidateStatus : Type 0 where
  created coding validating validated rejected selected failed cancelled : CandidateStatus

abbrev pub candidate_is_terminal : CandidateStatus → Bool
candidate_is_terminal s = elim s [
  | CandidateStatus.rejected ↦ true
  | CandidateStatus.selected ↦ true
  | CandidateStatus.failed ↦ true
  | CandidateStatus.cancelled ↦ true
  | _ ↦ false
]

pub data ReviewVerdict : Type 0 where
  pass fail : ReviewVerdict

pub data Priority : Type 0 where
  low normal high critical : Priority

unfoldable pub rank : Priority → ℕ
rank Priority.low = 0
rank Priority.normal = 10
rank Priority.high = 20
rank Priority.critical = 30

pub data FailureKind : Type 0 where
  infrastructure inference invalid_structured_output tool compilation test review : FailureKind
  cancelled : FailureKind

-- The text that a `FailureKind` is.
unfoldable pub kind_value : FailureKind → String
kind_value FailureKind.infrastructure = "INFRASTRUCTURE"
kind_value FailureKind.inference = "INFERENCE"
kind_value FailureKind.invalid_structured_output = "INVALID_STRUCTURED_OUTPUT"
kind_value FailureKind.tool = "TOOL"
kind_value FailureKind.compilation = "COMPILATION"
kind_value FailureKind.test = "TEST"
kind_value FailureKind.review = "REVIEW"
kind_value FailureKind.cancelled = "CANCELLED"

abbrev pub is_infrastructure : FailureKind → Bool
is_infrastructure k = elim k [
  | FailureKind.infrastructure ↦ true
  | FailureKind.inference ↦ true
  | FailureKind.tool ↦ true
  | _ ↦ false
]

abbrev pub is_code_defect : FailureKind → Bool
is_code_defect k = elim k [
  | FailureKind.compilation ↦ true
  | FailureKind.test ↦ true
  | FailureKind.review ↦ true
  | _ ↦ false
]

abbrev pub is_invalid_structured_output : FailureKind → Bool
is_invalid_structured_output k = elim k [ FailureKind.invalid_structured_output ↦ true | _ ↦ false ]
