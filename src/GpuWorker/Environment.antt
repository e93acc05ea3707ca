-- ===== src/GpuWorker/Environment.antt =====
-- gpu-worker/src/worker/config.py: the configuration from the environment. Python's `int`, `float`,
-- `str.lower` and `shlex.split` are parameters; a number is in the unit of its field.
use agentic_gpu_platform.Shared.{
  Bool, List, Option, String, [], any, arith, false, if◌then◌else◌, is_blank, is_empty_text, max,
  none, not, pos, pos_part, some, str_eq, strip, subst, sym, true, ℕ, ℤ, ◌or◌, ◌∷◌, ◌≡◌, ◌≤◌,
}
use agentic_gpu_platform.GpuWorker.Config.{
  Checked, IsUsable, WorkerConfig, bad, check_config, check_config-IsUsable, config_error, good,
  ◌and_then◌,
}

abbrev pub Env : Type 0
Env = String → Option String

abbrev filled : String → Option String
filled value = if is_blank value then none else some (strip value)

-- `_optional`
unfoldable pub optional : Env → (name : String) → Option String
optional env name = elim (env name) [ none ↦ none | some value ↦ filled value ]

-- `_text`
unfoldable pub env_text : Env → (name default : String) → String
unfolding optional
env_text env name default = optional env name or default

-- What the texts of the environment are read with.
pub record Readers : Type 0 where
  pub to_int : String → Option ℤ
  pub to_number : String → Option ℤ
  pub lower : String → String
  pub split : String → Option (List String)

-- `_integer` and `_number`, by the reader.
unfoldable pub env_number :
    (read : String → Option ℤ) → Env → (name : String) → (default : ℤ) → Checked ℤ
unfolding optional
env_number read env name default = elim (optional env name) [
  | none ↦ good default
  | some raw ↦ elim (read raw) [ none ↦ bad (config_error name none) | some n ↦ good n ]
]

abbrev is_one_of : List String → String → Bool
is_one_of words word = any (str_eq word) words

-- `_optional_flag`
unfoldable pub optional_flag : Readers → Env → (name : String) → Checked (Option Bool)
unfolding optional
optional_flag r env name = elim (optional env name) [
  | none ↦ good none
  | some raw ↦
      if is_one_of ("1" ∷ "true" ∷ "yes" ∷ "on" ∷ []) (r.lower raw)
      then good (some true)
      else if is_one_of ("0" ∷ "false" ∷ "no" ∷ "off" ∷ []) (r.lower raw)
      then good (some false)
      else bad (config_error name (some "accepted: 1/0, true/false, yes/no, on/off"))
]

-- `_flag`
unfoldable pub flag : Readers → Env → (name : String) → (default : Bool) → Checked Bool
unfolding optional_flag
flag r env name default = optional_flag r env name and_then λ result. good (result or default)

-- `_words`
unfoldable pub env_words : Readers → Env → (name : String) → Checked (List String)
unfolding optional
env_words r env name = elim (optional env name) [
  | none ↦ good []
  | some raw ↦ elim (r.split raw) [
    | none ↦ bad (config_error name (some "quote values containing spaces, e.g. --foo \"a b\""))
    | some words ↦ good words
  ]
]

-- `a or b` on texts that may be missing, held as a `Secret`.
abbrev secret_of : Option String → Option String → String
secret_of first_choice second = elim first_choice [
  | none ↦ second or ""
  | some value ↦ if is_empty_text value then second or "" else value
]

-- The values that `from_env` calls the constructor with.
unfoldable pub read_env : Readers → Env → Checked WorkerConfig
unfolding env_text env_number optional_flag flag env_words
read_env r env =
    env_number r.to_number env "MIN_FREE_DISK_GB" (pos 4000) and_then λ min_free_disk_gb.
    env_number r.to_int env "PORT" (pos 8000) and_then λ port.
    env_number r.to_int env "MAX_MODEL_LEN" (pos 16384) and_then λ max_model_len.
    env_number r.to_number env "GPU_MEMORY_UTILIZATION" (pos 90) and_then λ gpu_memory_utilization.
    env_number r.to_int env "TENSOR_PARALLEL_SIZE" (pos 1) and_then λ tensor_parallel_size.
    flag r env "AUTO_TENSOR_PARALLEL" false and_then λ auto_tensor_parallel.
    env_words r env "VLLM_EXTRA_ARGS" and_then λ extra_args.
    env_number r.to_number env "READINESS_TIMEOUT_SECONDS" (pos 180000)
    and_then λ readiness_timeout.
        env_number r.to_number env "READINESS_POLL_SECONDS" (pos 300) and_then λ readiness_poll.
        env_number r.to_int env "MODEL_DOWNLOAD_MAX_ATTEMPTS" (pos 5) and_then λ max_attempts.
        env_number r.to_number env "MODEL_DOWNLOAD_BACKOFF_SECONDS" (pos 500) and_then λ backoff.
        env_number r.to_number env "MODEL_LOCK_TIMEOUT_SECONDS" (pos 720000)
        and_then λ lock_seconds. optional_flag r env "HF_HUB_DISABLE_XET" and_then λ disable_xet.
            good (record {
              model_id = env_text env "MODEL_ID" "Qwen/Qwen3-Coder-30B-A3B-Instruct-FP8";
              model_revision = optional env "MODEL_REVISION";
              served_model_name = optional env "SERVED_MODEL_NAME";
              persistent_root = env_text env "PERSISTENT_ROOT" "/runpod-volume";
              min_free_disk_gb = min_free_disk_gb;
              host = env_text env "HOST" "0.0.0.0";
              port = port;
              max_model_len = max_model_len;
              gpu_memory_utilization = gpu_memory_utilization;
              tensor_parallel_size = tensor_parallel_size;
              auto_tensor_parallel = auto_tensor_parallel;
              extra_args = extra_args;
              readiness_timeout_seconds = readiness_timeout;
              readiness_poll_seconds = readiness_poll;
              download_max_attempts = max_attempts;
              download_backoff_seconds = backoff;
              lock_timeout_seconds = lock_seconds;
              hf_hub_disable_xet = disable_xet;
              hf_token = secret_of (env "HF_TOKEN") (env "HUGGING_FACE_HUB_TOKEN");
              vllm_api_key = env "VLLM_API_KEY" or "";
            })

-- `WorkerConfig.from_env`, with the checks of the constructor.
unfoldable pub from_env : Readers → Env → Checked WorkerConfig
from_env r env = read_env r env and_then check_config

-- `resolve_tensor_parallel`
unfoldable pub resolve_tensor_parallel : WorkerConfig → (visible_gpus : ℕ) → ℤ
resolve_tensor_parallel c visible_gpus =
    if not c.auto_tensor_parallel then c.tensor_parallel_size else pos (max visible_gpus 1)

checked-IsUsable :
    (m : Checked WorkerConfig) (c : WorkerConfig) → (m and_then check_config) ≡ good c → IsUsable c
checked-IsUsable (good d) c h =
    let (same, usable) = check_config-IsUsable d c h in subst IsUsable (sym same) usable
checked-IsUsable (bad e) c h = absurd cc

-- A configuration that is read from the environment has a model name, a port of TCP, a share of
-- the memory in (0, 1], a context of at least 1024, at least one attempt to download, no negative
-- time or space, and an absolute root.
pub from_env-IsUsable :
    (r : Readers) (env : Env) (c : WorkerConfig) → from_env r env ≡ good c → IsUsable c
unfolding from_env
from_env-IsUsable r env c h = checked-IsUsable (read_env r env) c h

-- The degree of parallelism of a usable configuration is positive, in both modes.
pub resolve_tensor_parallel-pos :
    (c : WorkerConfig) (visible_gpus : ℕ)
    → IsUsable c
    → 1 ≤ pos_part (resolve_tensor_parallel c visible_gpus)
unfolding resolve_tensor_parallel
resolve_tensor_parallel-pos c visible_gpus u = let h = u.parallel in ground arith
