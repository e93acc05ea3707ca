-- ===== src/GpuWorker/Samples.antt =====
-- A configuration, a volume and a hub that fails once, and what the theorems say of them.
use agentic_gpu_platform.Shared.{
  Option, String, [], arith, false, if◌then◌else◌, is_blank, leb, none, pos, pos_part, refl, some,
  starts_with, str_eq, suc, true, zero, ℕ, ◌+◌, ◌∷◌, ◌≡◌,
}
use agentic_gpu_platform.GpuWorker.Config.{
  IsUsable, WorkerConfig, bad, check_config, good, model_preparation_error,
}
use agentic_gpu_platform.GpuWorker.Volume.{
  Matches, Sizes, Volume, mismatches, size_of, snapshot_files, stat_size,
}
use agentic_gpu_platform.GpuWorker.Marker.{matches, read_marker}
use agentic_gpu_platform.GpuWorker.Download.{
  Fetch, FetchError, IsBrief, Recovers, attempt_from, conclude, contains_text,
  download_with_retries, download_with_retries-IsBrief, download_with_retries-Recovers, failed,
  fetch_once, fetched, is_quota_error, is_quota_text, refused, require_free_space, sleep,
}
use agentic_gpu_platform.GpuWorker.Prepare.{
  PreparationOutcome, Surroundings, already_prepared, finish, new_state, prepare_cold,
  prepare_locked, prepare_model, repair_until_correct, reused, with_room,
}
use agentic_gpu_platform.GpuWorker.Prepare.Verified.{prepare_cold-verified}
use agentic_gpu_platform.GpuWorker.Prepare.Failure.{prepare_locked-failure}
use agentic_gpu_platform.GpuWorker.Prepare.Restart.{HasDistinctNames, prepare_model-restart}
use agentic_gpu_platform.GpuWorker.Waiting.{Probe, models, not_ready}
use agentic_gpu_platform.GpuWorker.Arguments.{is_safe, redact, redact-safe}
use agentic_gpu_platform.GpuWorker.Environment.{Env, Readers, from_env, from_env-IsUsable, read_env}

abbrev config : WorkerConfig
config = record {
  model_id = "Qwen";
  model_revision = none;
  served_model_name = none;
  persistent_root = "/v";
  min_free_disk_gb = pos 0;
  host = "0.0.0.0";
  port = pos 8000;
  max_model_len = pos 16384;
  gpu_memory_utilization = pos 90;
  tensor_parallel_size = pos 1;
  auto_tensor_parallel = false;
  extra_args = [];
  readiness_timeout_seconds = pos 0;
  readiness_poll_seconds = pos 300;
  download_max_attempts = pos 2;
  download_backoff_seconds = pos 500;
  lock_timeout_seconds = pos 0;
  hf_hub_disable_xet = none;
  hf_token = "";
  vllm_api_key = "";
}

abbrev weights : Sizes
weights = ("a.json", 3) ∷ []

abbrev stored_weights : String → Option Sizes
stored_weights path = if str_eq path "/v/c" then some weights else none

abbrev nothing_stored : String → Option Sizes
nothing_stored path = none

abbrev reset : FetchError
reset = failed none "reset"

-- The first call fails, and every other one stores the snapshot.
abbrev fetch_later : ℕ → Volume → Fetch
fetch_later zero v = record { snapshots = nothing_stored; free_bytes = 9; answer = refused reset }
fetch_later (suc n) v = record {
  snapshots = stored_weights;
  free_bytes = 9;
  answer = fetched "/v/c";
}

abbrev as_is : String → String
as_is s = s

abbrev hub : Surroundings
hub = record {
  lower = as_is;
  fetch = fetch_later;
  hub = some (("a.json", some 3) ∷ []);
  can_remove = λ name. true;
  path_name = λ path. "c";
  now = "today";
  vllm_image = none;
  locked = λ v. some v;
}

abbrev empty_volume : Volume
empty_volume = record {
  marker = none;
  snapshots = nothing_stored;
  free_bytes = 9;
  fetches = 0;
  slept = [];
}

abbrev prepared : PreparationOutcome
prepared = record {
  state = record {
    model_id = "Qwen";
    revision = "c";
    snapshot_path = "/v/c";
    prepared_at = "today";
    total_bytes = 3;
    files = weights;
    verified = true;
    marker_version = 2;
    vllm_image = none;
  };
  downloaded = true;
  attempts = 2;
}

prepares : (prepare_cold hub config (some weights) empty_volume).1 ≡ good prepared
unfolding prepare_cold download_with_retries attempt_from conclude fetch_once sleep is_quota_error
    is_quota_text contains_text starts_with repair_until_correct mismatches stat_size size_of finish
    new_state snapshot_files
prepares = refl

prepare_cold-verified_example :
    (sizes : Sizes) × (some weights ≡ some sizes)
    × Matches (prepare_cold hub config (some weights) empty_volume).0 "/v/c" sizes
    × (read_marker (prepare_cold hub config (some weights) empty_volume).0 ≡ some prepared.state)
prepare_cold-verified_example =
    prepare_cold-verified hub config (some weights) empty_volume prepared prepares refl

wanted : matches prepared.state config.model_id config.model_revision ≡ true
unfolding matches
wanted = refl

distinct : HasDistinctNames prepared.state.files
unfolding size_of
distinct = (refl, tt)

prepare_model-restart_example :
    prepare_model hub config (prepare_cold hub config (some weights) empty_volume).0
    ≡ ((prepare_cold hub config (some weights) empty_volume).0, good (reused prepared.state))
prepare_model-restart_example =
    prepare_model-restart hub hub config (some weights) empty_volume prepared prepares refl wanted
      distinct refl

-- The free space is short of what the configuration wants.
abbrev small : WorkerConfig
small = record config { min_free_disk_gb = pos 100 }

fails :
    (prepare_locked hub small none empty_volume).1
    ≡ bad (model_preparation_error "not enough space is free" false)
unfolding prepare_locked already_prepared read_marker with_room require_free_space
fails = refl

prepare_locked-failure_example :
    (prepare_locked hub small none empty_volume).0.marker ≡ empty_volume.marker
prepare_locked-failure_example =
    prepare_locked-failure hub small none empty_volume
      (model_preparation_error "not enough space is free" false) fails

download_with_retries-IsBrief_example :
    IsBrief as_is fetch_later 2 1
      (pos_part config.download_backoff_seconds)
      empty_volume
      (download_with_retries as_is fetch_later config empty_volume)
download_with_retries-IsBrief_example =
    download_with_retries-IsBrief as_is fetch_later config empty_volume

recovers : Recovers as_is fetch_later config 1 1 empty_volume "/v/c"
unfolding is_quota_error is_quota_text contains_text starts_with fetch_once sleep
recovers = ((reset, refl, refl), refl)

download_with_retries-Recovers_example :
    (download_with_retries as_is fetch_later config empty_volume).1 ≡ good ("/v/c", 1 + 1)
download_with_retries-Recovers_example =
    download_with_retries-Recovers as_is fetch_later config 1 empty_volume "/v/c" (omega arith)
      recovers

-- The server lists the model from the time 5 on, and a request takes no time.
abbrev answers : ℕ → Probe
answers t = if leb 5 t then models ("Qwen" ∷ []) else not_ready "HTTPError"

abbrev at_once : ℕ → ℕ
at_once t = 0

abbrev readers : Readers
readers = record { to_int = λ s. none; to_number = λ s. none; lower = as_is; split = λ s. none }

abbrev no_variables : Env
no_variables name = none

abbrev defaults : WorkerConfig
defaults = record {
  model_id = "Qwen/Qwen3-Coder-30B-A3B-Instruct-FP8";
  model_revision = none;
  served_model_name = none;
  persistent_root = "/runpod-volume";
  min_free_disk_gb = pos 4000;
  host = "0.0.0.0";
  port = pos 8000;
  max_model_len = pos 16384;
  gpu_memory_utilization = pos 90;
  tensor_parallel_size = pos 1;
  auto_tensor_parallel = false;
  extra_args = [];
  readiness_timeout_seconds = pos 180000;
  readiness_poll_seconds = pos 300;
  download_max_attempts = pos 5;
  download_backoff_seconds = pos 500;
  lock_timeout_seconds = pos 720000;
  hf_hub_disable_xet = none;
  hf_token = "";
  vllm_api_key = "";
}

reads_defaults : from_env readers no_variables ≡ good defaults
unfolding from_env read_env check_config starts_with is_blank
reads_defaults = refl

from_env-IsUsable_example : IsUsable defaults
from_env-IsUsable_example = from_env-IsUsable readers no_variables defaults reads_defaults

redact-safe_example : is_safe (redact ("--api-key" ∷ "k" ∷ "--api-key=k" ∷ [])) ≡ true
redact-safe_example = redact-safe ("--api-key" ∷ "k" ∷ "--api-key=k" ∷ [])
