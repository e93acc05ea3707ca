-- ===== src/Project.antt =====
-- src/domain/entities/project.py: the project that a run works on. A mapping from text to text is a
-- list of fields, as JSON has it.
use agentic_gpu_platform.Shared.{
  Bool, Fields, Option, String, end, false, if◌then◌else◌, is_blank, is_empty_text, none, not, some,
  strip, ℕ, ◌&&◌, ◌or◌,
}
use agentic_gpu_platform.Errors.{Result, ok, raise, value_error}

pub record ToolchainConfig : Type 0 where
  pub language : String
  pub build_command : Option String
  pub test_command : Option String
  pub static_analysis_command : Option String
  pub install_command : Option String
  pub working_subdirectory : Option String
  pub environment : Fields

-- The values of `ToolchainConfig()`.
abbrev pub default_toolchain : ToolchainConfig
default_toolchain = record {
  language = "python";
  build_command = none;
  test_command = none;
  static_analysis_command = none;
  install_command = none;
  working_subdirectory = none;
  environment = end;
}

-- `bool(text)` of an optional text: the empty one counts as missing.
unfoldable pub is_given : Option String → Bool
is_given none = false
is_given (some s) = not (is_empty_text s)

abbrev pub can_build : ToolchainConfig → Bool
can_build t = is_given t.build_command

abbrev pub can_test : ToolchainConfig → Bool
can_test t = is_given t.test_command

pub record Project : Type 0 where
  pub id : ℕ
  pub name : String
  pub repository_url : Option String
  pub default_branch : String
  pub created_at : ℕ
  pub toolchain : ToolchainConfig
  pub local_path : Option String
  pub metadata : Fields

-- `Project.__post_init__`
unfoldable pub check_project : Project → Result Project
unfolding is_given
check_project p =
    if is_blank p.name
    then raise (value_error "project name must not be blank")
    else if not (is_given p.repository_url) && not (is_given p.local_path)
    then raise (value_error "a project needs either a repository_url or a local_path")
    else ok p

-- What a caller of `Project.create` supplies.
pub record ProjectSpec : Type 0 where
  pub project_id : ℕ
  pub name : String
  pub repository_url : Option String
  pub local_path : Option String
  pub default_branch : String
  pub toolchain : Option ToolchainConfig
  pub metadata : Option Fields

unfoldable pub create : ProjectSpec → (now : ℕ) → Result Project
unfolding check_project
create s now = check_project (record {
  id = s.project_id;
  name = strip s.name;
  repository_url = s.repository_url;
  default_branch = s.default_branch;
  created_at = now;
  toolchain = s.toolchain or default_toolchain;
  local_path = s.local_path;
  metadata = s.metadata or end;
})
