-- ===== src/GpuWorker/Marker.antt =====
-- gpu-worker/src/worker/model_state.py: the readiness marker. A field is read as a value of the type
-- that `to_json` writes, where the source also converts other values. The marker is replaced at once,
-- by a rename.
use agentic_gpu_platform.Shared.{
  Bool, Fields, Json, Option, String, [], ap, bool, end, false, field, if◌then◌else◌, none, not,
  object, refl, some, str_eq, text, true, ℕ, ◌==◌, ◌∷◌, ◌≡◌,
}
use agentic_gpu_platform.Errors.{Result, ok, raise, ◌>>=◌}
use agentic_gpu_platform.Database.Columns.{
  as_flag, as_mapping, as_mapping-restored, as_nat, as_object, as_optional, as_optional-of_optional,
  as_text, at, need, of_nat, of_optional,
}
use agentic_gpu_platform.GpuWorker.Volume.{Sizes, Volume}

pub record ModelState : Type 0 where
  pub model_id : String
  pub revision : String
  pub snapshot_path : String
  pub prepared_at : String
  pub total_bytes : ℕ
  pub files : Sizes
  pub verified : Bool
  pub marker_version : ℕ
  pub vllm_image : Option String

abbrev pub current_version : ℕ
current_version = 2

-- `ModelState.matches`
unfoldable pub matches : ModelState → (model_id : String) → (revision : Option String) → Bool
matches s model_id revision =
    if not (str_eq s.model_id model_id)
    then false
    else elim revision [ none ↦ true | some r ↦ str_eq s.revision r ]

unfoldable pub dump_sizes : Sizes → Fields
dump_sizes [] = end
dump_sizes ((name, size) ∷ rest) = field name (of_nat size) (dump_sizes rest)

unfoldable pub load_sizes : Fields → Result Sizes
unfolding as_nat
load_sizes end = ok []
load_sizes (field name value rest) =
    let more = load_sizes rest in
    as_nat value >>= λ size. more >>= λ sizes. ok ((name, size) ∷ sizes)

-- `to_json`
unfoldable pub to_json : ModelState → Json
to_json s = object (
    field "model_id" (text s.model_id) (
      field "revision" (text s.revision) (
        field "snapshot_path" (text s.snapshot_path) (
          field "prepared_at" (text s.prepared_at) (
            field "total_bytes" (of_nat s.total_bytes) (
              field "files" (object (dump_sizes s.files)) (
                field "verified" (bool s.verified) (
                  field "marker_version" (of_nat s.marker_version)
                    (field "vllm_image" (of_optional s.vllm_image) end)))))))))

-- `from_mapping`
unfoldable pub from_mapping : Fields → Result ModelState
unfolding at need as_nat as_text as_flag
from_mapping raw = need as_text "model_id" raw >>= λ model_id.
    need as_text "revision" raw >>= λ revision.
    need as_text "snapshot_path" raw >>= λ snapshot_path.
    need as_text "prepared_at" raw >>= λ prepared_at.
    at as_nat 0 "total_bytes" raw >>= λ total_bytes. at as_mapping end "files" raw >>= λ files.
    load_sizes files >>= λ sizes. at as_flag true "verified" raw >>= λ verified.
    at as_nat 0 "marker_version" raw >>= λ marker_version.
    at as_optional none "vllm_image" raw >>= λ vllm_image. ok (record {
      model_id = model_id;
      revision = revision;
      snapshot_path = snapshot_path;
      prepared_at = prepared_at;
      total_bytes = total_bytes;
      files = sizes;
      verified = verified;
      marker_version = marker_version;
      vllm_image = vllm_image;
    })

-- What is read is kept only where it has the current version.
abbrev pub if_current : Result ModelState → Option ModelState
if_current (ok s) = if s.marker_version == current_version then some s else none
if_current (raise e) = none

-- `read_marker`
unfoldable pub read_marker : Volume → Option ModelState
unfolding as_object from_mapping
read_marker v = elim v.marker [
  | none ↦ none
  | some value ↦ if_current (as_object value >>= from_mapping)
]

-- `write_marker`
unfoldable pub write_marker : Volume → ModelState → Volume
unfolding to_json
write_marker v s = record v { marker = some (to_json s) }

load_sizes-dump_sizes : (files : Sizes) → load_sizes (dump_sizes files) ≡ ok files
unfolding load_sizes dump_sizes
load_sizes-dump_sizes [] = refl
load_sizes-dump_sizes ((name, size) ∷ rest) = rw (load_sizes-dump_sizes rest) refl

from_mapping-to_json : (s : ModelState) → (as_object (to_json s) >>= from_mapping) ≡ ok s
unfolding as_object from_mapping to_json
from_mapping-to_json s =
    rw
      (
        as_mapping-restored (dump_sizes s.files),
        load_sizes-dump_sizes s.files,
        as_optional-of_optional s.vllm_image,
      )
      refl

-- A marker of the current version that was written is read back as it was; one of another version
-- counts as absent.
pub read_marker-write_marker :
    (v : Volume) (s : ModelState)
    → read_marker (write_marker v s)
      ≡ (if s.marker_version == current_version then some s else none)
unfolding read_marker write_marker
read_marker-write_marker v s = ap if_current (from_mapping-to_json s)
