-- ===== src/GpuWorker/Prepare.antt =====
-- gpu-worker/src/worker/model_state.py: `prepare_model` and what it calls. While this process waits for
-- the lock, others may change the volume; the lock file itself is not modelled.
pub mod Verified
pub mod Failure
pub mod Restart
use agentic_gpu_platform.Shared.{
  Bool, List, Option, String, [], any, false, if◌then◌else◌, is_empty, ltb, none, not, some, str_eq,
  true, ℕ, ◌&&◌, ◌+◌, ◌||◌, ◌∷◌,
}
use agentic_gpu_platform.GpuWorker.Config.{
  Checked, WorkerConfig, bad, good, lock_timeout, model_preparation_error,
}
use agentic_gpu_platform.GpuWorker.Volume.{
  Sizes, Volume, mismatches, put_size, snapshot_files, total, verify_snapshot,
}
use agentic_gpu_platform.GpuWorker.Marker.{
  ModelState, current_version, matches, read_marker, write_marker,
}
use agentic_gpu_platform.GpuWorker.Download.{Fetch, download_with_retries, require_free_space}

-- `text.endswith(suffix)`
unfoldable pub ends_with : String → (suffix : String) → Bool
ends_with String.[] suffix = str_eq "" suffix
ends_with (String.◌∷◌ c s) suffix = str_eq (String.◌∷◌ c s) suffix || ends_with s suffix

-- `_wanted`, with ALLOW_PATTERNS
unfoldable pub is_wanted : (name : String) → Bool
unfolding ends_with
is_wanted name =
    ends_with name ".safetensors"
    || ends_with name ".json"
    || ends_with name ".txt"
    || ends_with name ".model"
    || ends_with name ".jinja"

-- The loop of `hub_file_sizes` over the files that the hub lists.
unfoldable pub wanted_sizes : Sizes → List (String × Option ℕ) → Sizes
unfolding put_size is_wanted
wanted_sizes sizes [] = sizes
wanted_sizes sizes ((name, none) ∷ rest) = wanted_sizes sizes rest
wanted_sizes sizes ((name, some size) ∷ rest) =
    wanted_sizes (if ltb 0 size && is_wanted name then put_size name size sizes else sizes) rest

-- `sizes or None`
abbrev pub if_filled : Sizes → Option Sizes
if_filled [] = none
if_filled (s ∷ rest) = some (s ∷ rest)

-- `hub_file_sizes`, from the answer of the hub, which is absent where it cannot be reached.
unfoldable pub hub_file_sizes : Option (List (String × Option ℕ)) → Option Sizes
unfolding wanted_sizes
hub_file_sizes none = none
hub_file_sizes (some siblings) = if_filled (wanted_sizes [] siblings)

-- The sizes of an earlier preparation that was verified.
abbrev pub recorded_sizes : Option ModelState → Option Sizes
recorded_sizes none = none
recorded_sizes (some s) = if s.verified then if_filled s.files else none

-- `authoritative_sizes`
unfoldable pub authoritative_sizes :
    Option (List (String × Option ℕ)) → (previous : Option ModelState) → Option Sizes
unfolding hub_file_sizes
authoritative_sizes hub previous = elim (hub_file_sizes hub) [
  | none ↦ recorded_sizes previous
  | some sizes ↦ some sizes
]

-- `PreparationOutcome`, without the time that it took.
pub record PreparationOutcome : Type 0 where
  pub state : ModelState
  pub downloaded : Bool
  pub attempts : ℕ

-- What a marker and the volume say of the marker's model.
abbrev pub reusable : WorkerConfig → Volume → ModelState → Option ModelState
reusable c v m =
    if not (matches m c.model_id c.model_revision)
    then none
    else if not m.verified
    then none
    else if (verify_snapshot v m.snapshot_path m.files).0
    then some m
    else none

-- `_already_prepared`
unfoldable pub already_prepared : WorkerConfig → Volume → Option ModelState
already_prepared c v = elim (read_marker v) [ none ↦ none | some m ↦ reusable c v m ]

-- The files of a directory without some.
unfoldable pub without : (can_remove : String → Bool) → List String → Sizes → Sizes
without can_remove names [] = []
without can_remove names ((name, size) ∷ rest) =
    let more = without can_remove names rest in
    if any (str_eq name) names && can_remove name then more else (name, size) ∷ more

-- What the process takes from outside: `str.lower`, the hub client, the list of the hub, the files that
-- the system lets it remove, `Path.name`, the time as a text and the environment, and what the other
-- processes did to the volume until the lock was free, if it was in time.
pub record Surroundings : Type 0 where
  pub lower : String → String
  pub fetch : (fetches : ℕ) → Volume → Fetch
  pub hub : Option (List (String × Option ℕ))
  pub can_remove : String → Bool
  pub path_name : String → String
  pub now : String
  pub vllm_image : Option String
  pub locked : Volume → Option Volume

-- `_discard`
unfoldable pub discard : Surroundings → (snapshot : String) → List String → Volume → Volume
unfolding without
discard s snapshot names v = record v {
  snapshots = λ path.
      if str_eq path snapshot
      then elim (v.snapshots path) [
        | none ↦ none
        | some files ↦ some (without s.can_remove names files)
      ]
      else v.snapshots path;
}

-- A step that may fail, on the volume that the one before left.
infixl 5 ◌onward◌
abbrev pub ◌onward◌ :
    {A B : Type 0} → Volume × Checked A → (Volume → A → Volume × Checked B) → Volume × Checked B
r onward f = elim r.1 [ good a ↦ f r.0 a | bad e ↦ (r.0, bad e) ]

-- The second half of `_repair_until_correct`, after the corrupt files were fetched again.
unfoldable pub recheck :
    (expected : Sizes) (attempts : ℕ) → Volume → String × ℕ → Volume × Checked (String × ℕ × Bool)
recheck expected attempts v (snapshot, more) =
    if is_empty (mismatches v snapshot expected)
    then (v, good (snapshot, attempts + more, true))
    else (v, bad (model_preparation_error "files still do not match the hub" false))

-- `_repair_until_correct`
unfoldable pub repair_until_correct :
    Surroundings
    → WorkerConfig
    → (expected : Option Sizes) → Volume
    → String × ℕ
    → Volume × Checked (String × ℕ × Bool)
repair_until_correct s c none v (snapshot, attempts) = (v, good (snapshot, attempts, false))
repair_until_correct s c (some expected) v (snapshot, attempts) =
    if is_empty (mismatches v snapshot expected)
    then (v, good (snapshot, attempts, true))
    else download_with_retries s.lower s.fetch c
        (discard s snapshot (mismatches v snapshot expected) v)
      onward recheck expected attempts

-- The state that `prepare_model` records.
unfoldable pub new_state :
    Surroundings → WorkerConfig → Volume → (snapshot : String) → (verified : Bool) → ModelState
new_state s c v snapshot verified = record {
  model_id = c.model_id;
  revision = s.path_name snapshot;
  snapshot_path = snapshot;
  prepared_at = s.now;
  total_bytes = total (snapshot_files v snapshot);
  files = snapshot_files v snapshot;
  verified = verified;
  marker_version = current_version;
  vllm_image = s.vllm_image;
}

-- The end of `prepare_model`.
unfoldable pub finish :
    Surroundings → WorkerConfig → Volume → String × ℕ × Bool → Volume × Checked PreparationOutcome
finish s c v (snapshot, attempts, verified) =
    let state = new_state s c v snapshot verified in
    (write_marker v state, good (record { state = state; downloaded = true; attempts = attempts }))

-- `prepare_model` from the download on.
unfoldable pub prepare_cold :
    Surroundings
    → WorkerConfig
    → (expected : Option Sizes) → Volume
    → Volume × Checked PreparationOutcome
prepare_cold s c expected v =
    download_with_retries s.lower s.fetch c v
    onward repair_until_correct s c expected
    onward finish s c

abbrev pub reused : ModelState → PreparationOutcome
reused m = record { state = m; downloaded = false; attempts = 0 }

-- What follows the check of the free space.
unfoldable pub with_room :
    Checked (Unit {0})
    → Volume
    → (cold : Volume × Checked PreparationOutcome) → Volume × Checked PreparationOutcome
with_room (good _) v cold = cold
with_room (bad e) v cold = (v, bad e)

-- What `prepare_model` does with the lock.
unfoldable pub prepare_locked :
    Surroundings
    → WorkerConfig
    → (previous : Option ModelState) → Volume
    → Volume × Checked PreparationOutcome
prepare_locked s c previous v = elim (already_prepared c v) [
  | some m ↦ (v, good (reused m))
  | none ↦
      with_room (require_free_space c v) v (prepare_cold s c (authoritative_sizes s.hub previous) v)
]

-- `prepare_model`
unfoldable pub prepare_model :
    Surroundings → WorkerConfig → Volume → Volume × Checked PreparationOutcome
prepare_model s c v = elim (already_prepared c v) [
  | some m ↦ (v, good (reused m))
  | none ↦ elim (s.locked v) [
    | none ↦ (v, bad lock_timeout)
    | some w ↦ prepare_locked s c (read_marker v) w
  ]
]
