-- ===== src/GpuWorker/Arguments.antt =====
-- gpu-worker/src/worker/config.py: the arguments of the model server, and the same for the log.
-- `show` is `str` of a whole number, and `show_share` the format of the share of the memory.
use agentic_gpu_platform.Shared.{
  Bool, Bool-cases, List, Option, String, [], false, if◌then◌else◌, inl, inr, is_empty_text, none,
  not, refl, some, starts_with, str_eq, str_eq_iff, true, ℤ, ◌&&◌, ◌++◌, ◌or◌, ◌||◌, ◌∷◌, ◌≡◌,
}
use agentic_gpu_platform.GpuWorker.Config.{WorkerConfig, public_model_name}

abbrev revision_words : WorkerConfig → (model_path : Option String) → List String
revision_words c (some path) = []
revision_words c none = elim c.model_revision [
  | none ↦ []
  | some r ↦ if is_empty_text r then [] else "--revision" ∷ r ∷ []
]

-- `vllm_argv`
unfoldable pub vllm_argv :
    (show show_share : ℤ → String) → WorkerConfig → (model_path : Option String) → List String
unfolding public_model_name
vllm_argv show show_share c model_path =
    "vllm"
    ∷ "serve"
    ∷ (model_path or c.model_id)
    ∷ "--host"
    ∷ c.host
    ∷ "--port"
    ∷ show c.port
    ∷ "--served-model-name"
    ∷ public_model_name c
    ∷ "--max-model-len"
    ∷ show c.max_model_len
    ∷ "--gpu-memory-utilization"
    ∷ show_share c.gpu_memory_utilization
    ∷ "--tensor-parallel-size"
    ∷ show c.tensor_parallel_size
    ∷ (revision_words c model_path ++ c.extra_args)

unfoldable pub is_flag : String → Bool
is_flag word = str_eq word "--api-key"

unfoldable pub carries_key : String → Bool
unfolding starts_with
carries_key word = starts_with word "--api-key="

-- The loop of `redacted_argv`. After the flag, the word that was masked is passed over, which changes
-- nothing: the mask is neither the flag nor carries a key.
unfoldable pub redact : List String → List String
redact [] = []
redact (word ∷ []) =
    (if is_flag word then word else if carries_key word then "--api-key=***" else word) ∷ []
redact (word ∷ next ∷ rest) =
    let masked = word ∷ "***" ∷ redact rest in
    let kept = redact (next ∷ rest) in
    if is_flag word
    then masked
    else if carries_key word
    then "--api-key=***" ∷ kept
    else word ∷ kept

-- `redacted_argv`
unfoldable pub redacted_argv :
    (show show_share : ℤ → String) → WorkerConfig → (model_path : Option String) → List String
unfolding vllm_argv redact
redacted_argv show show_share c model_path = redact (vllm_argv show show_share c model_path)

-- Whether a word gives away a key by itself.
abbrev is_safe_word : String → Bool
is_safe_word word = not (carries_key word) || str_eq word "--api-key=***"

-- No word carries a key, and what follows the flag is the mask.
unfoldable pub is_safe : List String → Bool
is_safe [] = true
is_safe (word ∷ []) = is_safe_word word
is_safe (word ∷ next ∷ rest) =
    is_safe_word word && (not (is_flag word) || str_eq next "***") && is_safe (next ∷ rest)

flag-plain : (word : String) → is_flag word ≡ true → carries_key word ≡ false
unfolding is_flag carries_key
flag-plain word h = let same = (str_eq_iff word "--api-key").0 h in rw same refl

mask-safe : (rest : List String) → is_safe rest ≡ true → is_safe ("***" ∷ rest) ≡ true
unfolding is_safe is_flag carries_key
mask-safe [] h = refl
mask-safe (w ∷ ws) h = h

cons-safe :
    (word : String) (rest : List String)
    → is_safe_word word ≡ true
    → is_flag word ≡ false
    → is_safe rest ≡ true
    → is_safe (word ∷ rest) ≡ true
unfolding is_safe
cons-safe word [] w f h = w
cons-safe word (next ∷ rest) w f h = rw (w, f, h) refl

word_safe :
    (word : String)
    → is_safe_word
        (if is_flag word then word else if carries_key word then "--api-key=***" else word)
      ≡ true
word_safe word = elim (Bool-cases (is_flag word)) [
  | inl f ↦ rw (f, flag-plain word f) refl
  | inr f ↦ elim (Bool-cases (carries_key word)) [
    | inl k ↦ rw (f, k) (unfold carries_key in refl)
    | inr k ↦ rw (f, k, k) refl
  ]
]

-- In the redacted arguments no word carries an API key, and what follows the flag for one is the
-- mask.
pub redact-safe : (argv : List String) → is_safe (redact argv) ≡ true
unfolding redact is_safe
redact-safe [] = unfold is_safe in refl
redact-safe (word ∷ []) = unfold is_safe in word_safe word
redact-safe (word ∷ next ∷ rest) = elim (Bool-cases (is_flag word)) [
  | inl f ↦
      let safe = mask-safe (redact rest) (redact-safe rest) in
      rw (redact, f, is_safe, f, flag-plain word f) safe
  | inr f ↦ elim (Bool-cases (carries_key word)) [
    | inl k ↦
        rw (redact, f, k)
          (cons-safe "--api-key=***" (redact (next ∷ rest)) (unfold carries_key in refl)
            (unfold is_flag in refl) (redact-safe (next ∷ rest)))
    | inr k ↦
        rw (redact, f, k)
          (cons-safe word (redact (next ∷ rest)) (rw k refl) f (redact-safe (next ∷ rest)))
  ]
]
