-- ===== src/Database/Results.antt =====
-- A tool's result as JSON and as a row (`ToolResultModel` of src/infrastructure/database/models.py): the
-- translation in src/infrastructure/database/mappers.py. The column `duration_seconds` repeats
-- `duration_ms` for queries, and the server sets `created_at`: neither is read back.
use agentic_gpu_platform.Shared.{
  Bool, Fields, Json, List, Option, String, [], array, bool, end, false, field, object, pos, refl,
  suc, text, ℕ, ℤ, ◌∷◌, ◌≡◌,
}
use agentic_gpu_platform.Errors.{Result, ok, ◌>>=◌}
use agentic_gpu_platform.Validation.{ToolKind, ToolResult}
use agentic_gpu_platform.Database.Codes.{read_code}
use agentic_gpu_platform.Database.Columns.{
  as_flag, as_int, as_int-of_int, as_mapping, as_mapping-restored, as_nat, as_object, as_text, at,
  dump_items, load_texts, load_texts-restored, need, of_int, of_nat,
}

unfoldable pub tool_kind_value : ToolKind → String
tool_kind_value ToolKind.search = "SEARCH"
tool_kind_value ToolKind.read = "READ"
tool_kind_value ToolKind.edit = "EDIT"
tool_kind_value ToolKind.patch = "PATCH"
tool_kind_value ToolKind.command = "COMMAND"
tool_kind_value ToolKind.build = "BUILD"
tool_kind_value ToolKind.test = "TEST"
tool_kind_value ToolKind.static_analysis = "STATIC_ANALYSIS"
tool_kind_value ToolKind.vcs = "VCS"

unfoldable pub read_tool_kind : String → Result ToolKind
unfolding read_code tool_kind_value
read_tool_kind = read_code tool_kind_value (
    ToolKind.search ∷ ToolKind.read ∷ ToolKind.edit ∷ ToolKind.patch ∷ ToolKind.command
    ∷ ToolKind.build ∷ ToolKind.test ∷ ToolKind.static_analysis ∷ ToolKind.vcs ∷ [])

pub read_tool_kind-tool_kind_value : (k : ToolKind) → read_tool_kind (tool_kind_value k) ≡ ok k
unfolding read_tool_kind
read_tool_kind-tool_kind_value ToolKind.search = refl
read_tool_kind-tool_kind_value ToolKind.read = refl
read_tool_kind-tool_kind_value ToolKind.edit = refl
read_tool_kind-tool_kind_value ToolKind.patch = refl
read_tool_kind-tool_kind_value ToolKind.command = refl
read_tool_kind-tool_kind_value ToolKind.build = refl
read_tool_kind-tool_kind_value ToolKind.test = refl
read_tool_kind-tool_kind_value ToolKind.static_analysis = refl
read_tool_kind-tool_kind_value ToolKind.vcs = refl

-- `_dump_tool_result`
unfoldable pub dump_tool_result : ToolResult → Json
unfolding tool_kind_value dump_items
dump_tool_result r = object (
    field "tool" (text r.tool) (
      field "kind" (text (tool_kind_value r.kind)) (
        field "command" (text r.command) (
          field "exit_code" (of_int r.exit_code) (
            field "stdout" (text r.stdout) (
              field "stderr" (text r.stderr) (
                field "duration_ms" (of_nat r.duration_ms) (
                  field "truncated" (bool r.truncated) (
                    field "artifacts" (array (dump_items text r.artifacts))
                      (field "metadata" (object r.metadata) end))))))))))

-- `_load_tool_result`
unfoldable pub load_tool_result : Json → Result ToolResult
unfolding as_object need at as_text as_int as_nat as_flag read_tool_kind load_texts as_mapping
load_tool_result v = as_object v >>= λ raw. need as_text "tool" raw >>= λ tool.
    need as_text "kind" raw >>= read_tool_kind >>= λ kind.
    at as_text "" "command" raw >>= λ command. at as_int (pos 0) "exit_code" raw >>= λ exit_code.
    at as_text "" "stdout" raw >>= λ stdout. at as_text "" "stderr" raw >>= λ stderr.
    at as_nat 0 "duration_ms" raw >>= λ duration. at as_flag false "truncated" raw >>= λ truncated.
    at load_texts [] "artifacts" raw >>= λ artifacts.
    at as_mapping end "metadata" raw >>= λ metadata. ok (record {
      tool = tool;
      kind = kind;
      command = command;
      exit_code = exit_code;
      stdout = stdout;
      stderr = stderr;
      duration_ms = duration;
      truncated = truncated;
      artifacts = artifacts;
      metadata = metadata;
    })

pub load_tool_result-dump_tool_result :
    (r : ToolResult) → load_tool_result (dump_tool_result r) ≡ ok r
unfolding load_tool_result dump_tool_result
load_tool_result-dump_tool_result r =
    rw
      (
        load_tool_result,
        dump_tool_result,
        read_tool_kind-tool_kind_value r.kind,
        as_int-of_int r.exit_code,
        load_texts-restored r.artifacts,
        as_mapping-restored r.metadata,
      )
      refl

pub record ToolResultModel : Type 0 where
  pub id : ℕ
  pub run_id : ℕ
  pub candidate_id : Option ℕ
  pub position : ℕ
  pub tool : String
  pub kind : String
  pub command : String
  pub exit_code : ℤ
  pub stdout : String
  pub stderr : String
  pub duration_ms : ℕ
  pub truncated : Bool
  pub artifacts : List String
  pub meta : Fields

-- `tool_result_to_model`, with the identifier that the row gets.
unfoldable pub tool_result_to_model :
    ToolResult → (run_id : ℕ) → (candidate_id : Option ℕ) → (position row_id : ℕ) → ToolResultModel
unfolding tool_kind_value
tool_result_to_model r run_id candidate_id position row_id = record {
  id = row_id;
  run_id = run_id;
  candidate_id = candidate_id;
  position = position;
  tool = r.tool;
  kind = tool_kind_value r.kind;
  command = r.command;
  exit_code = r.exit_code;
  stdout = r.stdout;
  stderr = r.stderr;
  duration_ms = r.duration_ms;
  truncated = r.truncated;
  artifacts = r.artifacts;
  meta = r.metadata;
}

-- `tool_result_to_domain`
unfoldable pub tool_result_to_domain : ToolResultModel → Result ToolResult
unfolding read_tool_kind
tool_result_to_domain m = read_tool_kind m.kind >>= λ kind. ok (record {
  tool = m.tool;
  kind = kind;
  command = m.command;
  exit_code = m.exit_code;
  stdout = m.stdout;
  stderr = m.stderr;
  duration_ms = m.duration_ms;
  truncated = m.truncated;
  artifacts = m.artifacts;
  metadata = m.meta;
})

-- `tool_results_to_models`, with the stream of identifiers of the rows.
unfoldable pub tool_results_to_models :
    (row_id : ℕ → ℕ)
    → List ToolResult
    → (run_id : ℕ) → (candidate_id : Option ℕ) → (position : ℕ) → List ToolResultModel
unfolding tool_result_to_model
tool_results_to_models row_id [] run_id candidate_id position = []
tool_results_to_models row_id (r ∷ rs) run_id candidate_id position =
    tool_result_to_model r run_id candidate_id position (row_id position)
    ∷ tool_results_to_models row_id rs run_id candidate_id (suc position)

unfoldable pub tool_results_to_domain : List ToolResultModel → Result (List ToolResult)
unfolding tool_result_to_domain
tool_results_to_domain [] = ok []
tool_results_to_domain (m ∷ ms) =
    let rest = tool_results_to_domain ms in
    tool_result_to_domain m >>= λ r. rest >>= λ rs. ok (r ∷ rs)

-- The rows of a batch of results, read back one by one in the order of their positions, are the results.
pub tool_results_to_domain-tool_results_to_models :
    (row_id : ℕ → ℕ) (rs : List ToolResult) (run_id : ℕ) (candidate_id : Option ℕ) (position : ℕ)
    → tool_results_to_domain (tool_results_to_models row_id rs run_id candidate_id position) ≡ ok rs
unfolding tool_results_to_domain tool_results_to_models
tool_results_to_domain-tool_results_to_models row_id [] run_id candidate_id position = refl
tool_results_to_domain-tool_results_to_models row_id (r ∷ rs) run_id candidate_id position =
    rw
      (
        tool_result_to_domain,
        tool_result_to_model,
        read_tool_kind-tool_kind_value r.kind,
        tool_results_to_domain-tool_results_to_models row_id rs run_id candidate_id (suc position),
      )
      refl
