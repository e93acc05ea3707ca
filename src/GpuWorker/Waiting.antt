-- ===== src/GpuWorker/Waiting.antt =====
-- The two loops of the worker that wait: `download_lock` of gpu-worker/src/worker/model_state.py, and
-- `wait_until_ready` with `list_models` of gpu-worker/src/worker/readiness.py. Time is a natural number;
-- it passes while the process sleeps and, in `wait_until_ready`, while it asks the server.
use agentic_gpu_platform.Shared.{
  Bool, Bool-cases, Items, Json, List, Option, String, [], any, arith, array, false, get_field,
  if◌then◌else◌, inl, inr, item, leb, min, nil, none, not, object, refl, some, str_eq, suc, true,
  zero, ℕ, ◌+◌, ◌-◌, ◌<◌, ◌==◌, ◌∷◌, ◌≡◌, ◌≤◌,
}

-- What the waiting for the lock came to, and when.
pub data Held : Type 0 where
  held : (at : ℕ) → Held
  timed_out : (at : ℕ) → Held

-- The loop of `download_lock`. `is_free` is whether `flock` succeeds at a time; no answer means that the
-- fuel ran out.
unfoldable pub lock_from : (fuel : ℕ) (is_free : ℕ → Bool) (poll deadline now : ℕ) → Option Held
lock_from zero is_free poll deadline now = none
lock_from (suc fuel) is_free poll deadline now =
    let rest = lock_from fuel is_free poll deadline (now + min poll (deadline - now)) in
    if is_free now then some (held now) else if leb deadline now then some (timed_out now) else rest

-- How the waiting may end: with the lock, at a time when it was free and not after the deadline, or at
-- the deadline, where it was not free.
abbrev pub Ends : (is_free : ℕ → Bool) (deadline : ℕ) → Held → Type 0
Ends is_free deadline (held t) = (is_free t ≡ true) × (t ≤ deadline)
Ends is_free deadline (timed_out t) = (is_free t ≡ false) × (t ≡ deadline)

-- The waiting for the lock comes to an end, with the lock or at the deadline.
pub lock_from-Ends :
    (fuel : ℕ) (is_free : ℕ → Bool) (poll deadline now : ℕ)
    → 0 < poll
    → now ≤ deadline
    → deadline - now < fuel
    → (h : Held) × (lock_from fuel is_free poll deadline now ≡ some h) × Ends is_free deadline h
unfolding lock_from
lock_from-Ends zero is_free poll deadline now p n f = absurd (omega arith)
lock_from-Ends (suc fuel) is_free poll deadline now p n f = elim (Bool-cases (is_free now)) [
  | inl e ↦ (held now, rw e refl, (e, n))
  | inr e ↦ elim (Bool-cases (leb deadline now)) [
    | inl d ↦ (timed_out now, rw (e, d) refl, (e, ground arith))
    | inr d ↦
        let (h, q, r) =
          lock_from-Ends fuel is_free poll deadline (now + min poll (deadline - now)) p
            (ground arith) (ground arith) in
        (h, rw (e, d) q, r)
  ]
]

pub data Probe : Type 0 where
  models : List String → Probe
  not_ready : (detail : String) → Probe
  crashed : Probe

-- The identifiers of the entries that are objects; `show` is `str` of a value that is no text.
unfoldable pub entry_ids : (show : Json → String) → Items → List String
unfolding get_field
entry_ids show nil = []
entry_ids show (item (object entry) rest) =
    (elim (get_field "id" entry) [ none ↦ "" | some v ↦ show v ]) ∷ entry_ids show rest
entry_ids show (item _ rest) = entry_ids show rest

-- The body of a response: `payload.get` fails on what is not an object.
unfoldable pub read_models : (show : Json → String) → Json → Probe
unfolding get_field entry_ids
read_models show (object payload) = elim (get_field "data" payload) [
  | none ↦ not_ready "/v1/models returned no model list"
  | some v ↦ elim v [
    | array entries ↦ models (entry_ids show entries)
    | _ ↦ not_ready "/v1/models returned no model list"
  ]
]
read_models show _ = crashed

-- What the server answers to a request: nothing, or a status and the JSON value of its body, if it
-- is one.
pub record Reply : Type 0 where
  pub status : ℕ
  pub body : Option Json

-- `list_models`
unfoldable pub list_models : (show : Json → String) → Option Reply → Probe
unfolding read_models
list_models show none = not_ready "HTTPError"
list_models show (some r) =
    if not (r.status == 200) then not_ready "/v1/models returned another status" else elim r.body [
      | none ↦ not_ready "/v1/models did not return JSON"
      | some payload ↦ read_models show payload
    ]

pub data Readiness : Type 0 where
  ready : List String → (waited : ℕ) → Readiness
  never : (waited : ℕ) → Readiness
  failing : Readiness

-- What a pass of the loop makes of the answer: it stops, or goes on.
unfoldable pub settle_probe : (expected : String) (waited : ℕ) → Probe → Option Readiness
settle_probe expected waited (models names) =
    if any (str_eq expected) names then some (ready names waited) else none
settle_probe expected waited (not_ready detail) = none
settle_probe expected waited crashed = some failing

-- The loop of `wait_until_ready` from a pass that asks the server. `ask` is what `list_models` answers
-- where it is asked at a time, and `took` how long that takes.
module _ (ask : ℕ → Probe) (took : ℕ → ℕ) (expected : String) (interval started deadline : ℕ) where
  unfoldable pub wait_from : (fuel now : ℕ) → Option Readiness
  unfolding settle_probe
  wait_from zero now = none
  wait_from (suc fuel) now =
      let later = now + took now in
      let rest = wait_from fuel (later + min interval (deadline - later)) in
      elim (settle_probe expected (later - started) (ask now)) [
        | some r ↦ some r
        | none ↦
            if leb deadline later
            then some (never (later - started))
            else if leb deadline (later + min interval (deadline - later))
            then some (never (later + min interval (deadline - later) - started))
            else rest
      ]

  -- An answer that the loop takes as a reason to wait on.
  abbrev pub IsUnready : Probe → Type 0
  IsUnready (models names) = any (str_eq expected) names ≡ false
  IsUnready (not_ready detail) = Unit
  IsUnready crashed = true ≡ false

  -- What the server answered in the pass that ended the waiting, and when it was asked: names with the
  -- expected one among them, which are those reported; nothing that makes it ready, with the deadline
  -- passed; or what the loop does not catch.
  abbrev pub Serves : Readiness → Type 0
  Serves (ready names waited) =
      (t : ℕ) × (started ≤ t)
      × (ask t ≡ models names)
      × (any (str_eq expected) names ≡ true)
      × (started + waited ≡ t + took t)
  Serves (never waited) =
      (t : ℕ) × (started ≤ t) × IsUnready (ask t) × (deadline ≤ started + waited)
  Serves failing = (t : ℕ) × (started ≤ t) × (ask t ≡ crashed)
