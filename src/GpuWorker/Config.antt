-- ===== src/GpuWorker/Config.antt =====
-- gpu-worker/src/worker/config.py: the configuration and its checks. The fractional numbers are
-- rational: a value is a whole number of hundredths. The exceptions of the worker carry what the
-- callers read; messages are shortened.
use agentic_gpu_platform.Shared.{
  Bool, List, Option, String, arith, false, if◌then◌else◌, is_blank, is_empty_text, ltb_ℤ, neg_part,
  none, not, pos, pos_part, some, starts_with, true, ℕ, ℤ, ◌&&◌, ◌<◌, ◌≡◌, ◌≤◌,
}

pub data WorkerError : Type 0 where
  config_error : (variable : String) (hint : Option String) → WorkerError
  model_preparation_error : (message : String) (retryable : Bool) → WorkerError
  lock_timeout : WorkerError

pub data Checked {ℓ} (A : Type ℓ) : Type ℓ where
  good : A → Checked A
  bad : WorkerError → Checked A

infixl 5 ◌and_then◌
abbrev pub ◌and_then◌ {ℓ κ} : {A : Type ℓ} {B : Type κ} → Checked A → (A → Checked B) → Checked B
good a and_then f = f a
bad e and_then f = bad e

-- `Secret`: the value, and whether it is set.
abbrev pub is_set : String → Bool
is_set value = not (is_empty_text value)

pub record WorkerConfig : Type 0 where
  pub model_id : String
  pub model_revision : Option String
  pub served_model_name : Option String
  pub persistent_root : String
  pub min_free_disk_gb : ℤ
  pub host : String
  pub port : ℤ
  pub max_model_len : ℤ
  pub gpu_memory_utilization : ℤ
  pub tensor_parallel_size : ℤ
  pub auto_tensor_parallel : Bool
  pub extra_args : List String
  pub readiness_timeout_seconds : ℤ
  pub readiness_poll_seconds : ℤ
  pub download_max_attempts : ℤ
  pub download_backoff_seconds : ℤ
  pub lock_timeout_seconds : ℤ
  pub hf_hub_disable_xet : Option Bool
  pub hf_token : String
  pub vllm_api_key : String

abbrev pub attempts_hint : String
attempts_hint = "a zero attempt budget means the worker never tries to download"

-- The test of one entry of the loop over the timings.
abbrev at_least :
    (floor : ℕ) → ℤ → (variable : String) → (hint : Option String) → Checked (Unit {0})
at_least floor value variable hint =
    if ltb_ℤ value (pos floor) then bad (config_error variable hint) else good tt

-- `Path.is_absolute`
abbrev is_absolute : String → Bool
is_absolute path = starts_with path "/"

-- `WorkerConfig.__post_init__`; `max_model_len` and `port` are whole numbers.
unfoldable pub check_config : WorkerConfig → Checked WorkerConfig
check_config c =
    if is_blank c.model_id
    then bad (config_error "MODEL_ID" none)
    else if not
        (ltb_ℤ (pos 0) c.gpu_memory_utilization && not (ltb_ℤ (pos 100) c.gpu_memory_utilization))
    then bad (
        config_error "GPU_MEMORY_UTILIZATION"
          (some "0.90 leaves room for the CUDA context and activations"))
    else if ltb_ℤ c.max_model_len (pos 1024)
    then bad (config_error "MAX_MODEL_LEN" none)
    else if ltb_ℤ c.tensor_parallel_size (pos 1)
    then bad (config_error "TENSOR_PARALLEL_SIZE" none)
    else if not (not (ltb_ℤ c.port (pos 1)) && not (ltb_ℤ (pos 65535) c.port))
    then bad (config_error "PORT" none)
    else if ltb_ℤ c.min_free_disk_gb (pos 0)
    then bad (config_error "MIN_FREE_DISK_GB" none)
    else at_least 1 c.download_max_attempts "MODEL_DOWNLOAD_MAX_ATTEMPTS" (some attempts_hint)
      and_then λ _.
          at_least 0 c.download_backoff_seconds "MODEL_DOWNLOAD_BACKOFF_SECONDS" none and_then λ _.
          at_least 0 c.readiness_timeout_seconds "READINESS_TIMEOUT_SECONDS" none and_then λ _.
          at_least 0 c.readiness_poll_seconds "READINESS_POLL_SECONDS" none and_then λ _.
          at_least 0 c.lock_timeout_seconds "MODEL_LOCK_TIMEOUT_SECONDS" none and_then λ _.
          if not (is_absolute c.persistent_root)
          then bad (
              config_error "PERSISTENT_ROOT"
                (some "RunPod mounts network volumes at /runpod-volume"))
          else good c

-- `public_model_name`
unfoldable pub public_model_name : WorkerConfig → String
unfolding is_empty_text
public_model_name c = elim c.served_model_name [
  | none ↦ c.model_id
  | some name ↦ if is_empty_text name then c.model_id else name
]

-- What a configuration that passed the checks guarantees.
pub record IsUsable (c : WorkerConfig) : Type 0 where
  pub named : is_blank c.model_id ≡ false
  pub utilized : (0 < pos_part c.gpu_memory_utilization) × (pos_part c.gpu_memory_utilization ≤ 100)
  pub long_enough : 1024 ≤ pos_part c.max_model_len
  pub parallel : 1 ≤ pos_part c.tensor_parallel_size
  pub reachable : (1 ≤ pos_part c.port) × (pos_part c.port ≤ 65535)
  pub tried : 1 ≤ pos_part c.download_max_attempts
  pub forward :
      (neg_part c.min_free_disk_gb ≡ 0)
      × (neg_part c.download_backoff_seconds ≡ 0)
      × (neg_part c.readiness_timeout_seconds ≡ 0)
      × (neg_part c.readiness_poll_seconds ≡ 0)
      × (neg_part c.lock_timeout_seconds ≡ 0)
  pub absolute : is_absolute c.persistent_root ≡ true

-- A configuration that the checks let through is usable: a model name, a share of the memory in
-- (0, 1], a port of TCP, at least one attempt to download, and no negative time.
pub check_config-IsUsable : (c d : WorkerConfig) → check_config c ≡ good d → (d ≡ c) × IsUsable c
unfolding check_config
check_config-IsUsable c d h = ground arith
