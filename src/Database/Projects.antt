-- ===== src/Database/Projects.antt =====
-- The row of a project (`ProjectModel` of src/infrastructure/database/models.py), with its toolchain as
-- JSON: the translation in src/infrastructure/database/mappers.py.
use agentic_gpu_platform.Shared.{
  Fields, Option, String, end, field, none, object, refl, text, ℕ, ◌≡◌,
}
use agentic_gpu_platform.Errors.{Result, ok, ◌>>=◌}
use agentic_gpu_platform.Project.{Project, ToolchainConfig, check_project}
use agentic_gpu_platform.Database.Columns.{
  as_mapping, as_mapping-restored, as_optional, as_optional-of_optional, as_text, at, of_optional,
}

pub record ProjectModel : Type 0 where
  pub id : ℕ
  pub name : String
  pub repository_url : Option String
  pub local_path : Option String
  pub default_branch : String
  pub created_at : ℕ
  pub toolchain : Fields
  pub meta : Fields

-- `_dump_toolchain`
unfoldable pub dump_toolchain : ToolchainConfig → Fields
dump_toolchain t = field "language" (text t.language) (
    field "build_command" (of_optional t.build_command) (
      field "test_command" (of_optional t.test_command) (
        field "static_analysis_command" (of_optional t.static_analysis_command) (
          field "install_command" (of_optional t.install_command) (
            field "working_subdirectory" (of_optional t.working_subdirectory)
              (field "environment" (object t.environment) end))))))

-- `_load_toolchain`
unfoldable pub load_toolchain : Fields → Result ToolchainConfig
unfolding at as_text as_optional as_mapping
load_toolchain raw = at as_text "python" "language" raw >>= λ language.
    at as_optional none "build_command" raw >>= λ build.
    at as_optional none "test_command" raw >>= λ test.
    at as_optional none "static_analysis_command" raw >>= λ analysis.
    at as_optional none "install_command" raw >>= λ install.
    at as_optional none "working_subdirectory" raw >>= λ folder.
    at as_mapping end "environment" raw >>= λ environment. ok (record {
      language = language;
      build_command = build;
      test_command = test;
      static_analysis_command = analysis;
      install_command = install;
      working_subdirectory = folder;
      environment = environment;
    })

-- `project_to_model`
unfoldable pub project_to_model : Project → ProjectModel
unfolding dump_toolchain
project_to_model p = record {
  id = p.id;
  name = p.name;
  repository_url = p.repository_url;
  local_path = p.local_path;
  default_branch = p.default_branch;
  created_at = p.created_at;
  toolchain = dump_toolchain p.toolchain;
  meta = p.metadata;
}

-- `project_to_domain`
unfoldable pub project_to_domain : ProjectModel → Result Project
unfolding load_toolchain check_project
project_to_domain m = load_toolchain m.toolchain >>= λ toolchain. check_project (record {
  id = m.id;
  name = m.name;
  repository_url = m.repository_url;
  default_branch = m.default_branch;
  created_at = m.created_at;
  toolchain = toolchain;
  local_path = m.local_path;
  metadata = m.meta;
})

toolchain-restored : (t : ToolchainConfig) → load_toolchain (dump_toolchain t) ≡ ok t
unfolding load_toolchain dump_toolchain
toolchain-restored t =
    rw
      (
        load_toolchain,
        dump_toolchain,
        as_optional-of_optional t.build_command,
        as_optional-of_optional t.test_command,
        as_optional-of_optional t.static_analysis_command,
        as_optional-of_optional t.install_command,
        as_optional-of_optional t.working_subdirectory,
        as_mapping-restored t.environment,
      )
      refl

-- A project that its checks accept comes back from its row as it was.
pub project_to_domain-project_to_model :
    (p : Project) → check_project p ≡ ok p → project_to_domain (project_to_model p) ≡ ok p
unfolding project_to_domain project_to_model
project_to_domain-project_to_model p e =
    rw (project_to_domain, project_to_model, toolchain-restored p.toolchain) e
