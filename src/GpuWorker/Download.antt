-- ===== src/GpuWorker/Download.antt =====
-- gpu-worker/src/worker/model_state.py: the download with its retries, and which failures mean that
-- the volume is full (gpu-worker/src/worker/filesystem.py). The hub client is a parameter: its answer
-- and the snapshots and free bytes that it leaves may differ from call to call.
use mathlib.Core.List.{append-nil, append_assoc}
use native.Mathlib.Omega.{pow_step}
use agentic_gpu_platform.Shared.{
  Bool, Bool-cases, List, Option, String, [], ap, arith, false, if◌then◌else◌, inl, inr, leb, ltb,
  min, none, pos_part, refl, some, starts_with, subst, suc, sym, true, zero, ℕ, ◌*◌, ◌++◌, ◌+◌, ◌-◌,
  ◌<◌, ◌==◌, ◌^◌, ◌||◌, ◌∙◌, ◌∷◌, ◌≡◌, ◌≤◌, ◌⊎◌,
}
use agentic_gpu_platform.GpuWorker.Config.{
  Checked, WorkerConfig, bad, good, model_preparation_error,
}
use agentic_gpu_platform.GpuWorker.Volume.{Sizes, Volume}

-- An exception with the number of an OSError, if it is one, its text, and what caused it.
pub data FetchError : Type 0 where
  failed : (errno : Option ℕ) (message : String) → FetchError
  caused : (errno : Option ℕ) (message : String) (cause : FetchError) → FetchError

pub data Fetched : Type 0 where
  fetched : (path : String) → Fetched
  refused : FetchError → Fetched

-- What a call of the hub client leaves of the cache, and its answer.
pub record Fetch : Type 0 where
  pub snapshots : String → Option Sizes
  pub free_bytes : ℕ
  pub answer : Fetched

-- `needle in text`
unfoldable pub contains_text : (needle : String) → String → Bool
unfolding starts_with
contains_text needle String.[] = starts_with "" needle
contains_text needle (String.◌∷◌ c s) =
    starts_with (String.◌∷◌ c s) needle || contains_text needle s

-- ENOSPC and EDQUOT
abbrev is_quota_errno : Option ℕ → Bool
is_quota_errno none = false
is_quota_errno (some n) = n == 28 || n == 122

unfoldable pub is_quota_text : String → Bool
unfolding contains_text
is_quota_text s =
    contains_text "disk quota exceeded" s
    || contains_text "no space left on device" s
    || contains_text "quota exceeded" s

-- `is_quota_error`; `lower` is `str.lower`.
unfoldable pub is_quota_error : (lower : String → String) → FetchError → Bool
unfolding is_quota_text
is_quota_error lower (failed errno message) = is_quota_errno errno || is_quota_text (lower message)
is_quota_error lower (caused errno message cause) =
    is_quota_errno errno || is_quota_text (lower message) || is_quota_error lower cause

abbrev pub gib : ℕ
gib = 1024 * 1024 * 1024

-- `_require_free_space`
unfoldable pub require_free_space : WorkerConfig → Volume → Checked (Unit {0})
require_free_space c v =
    if ltb (v.free_bytes * 100) (pos_part c.min_free_disk_gb * gib)
    then bad (model_preparation_error "not enough space is free" false)
    else good tt

-- The pause after a failed attempt, in hundredths of a second.
abbrev pub delay_after : WorkerConfig → (attempt : ℕ) → ℕ
delay_after c attempt = pos_part c.download_backoff_seconds * 2 ^ (attempt - 1)

abbrev pub max_attempts : WorkerConfig → ℕ
max_attempts c = pos_part c.download_max_attempts

module _ (lower : String → String) (fetch : (fetches : ℕ) → Volume → Fetch) where
  -- One call of the hub client.
  unfoldable pub fetch_once : Volume → Volume
  fetch_once v =
      let done = fetch v.fetches v in
      record v { snapshots = done.snapshots; free_bytes = done.free_bytes; fetches = v.fetches + 1 }

  -- What follows an attempt: the snapshot, an error, or a further attempt after a pause.
  unfoldable pub conclude :
      WorkerConfig
      → (attempt : ℕ) (after : Volume) (again : Volume × Checked (String × ℕ)) → Fetched
      → Volume × Checked (String × ℕ)
  conclude c attempt after again (fetched path) = (after, good (path, attempt))
  conclude c attempt after again (refused e) =
      if is_quota_error lower e
      then (after, bad (model_preparation_error "the volume ran out of space" false))
      else if leb (max_attempts c) attempt
      then (after, bad (model_preparation_error "download failed" true))
      else again

  unfoldable pub sleep : (pause : ℕ) → Volume → Volume
  sleep pause v = record v { slept = v.slept ++ pause ∷ [] }

  -- The loop of `_download_with_retries` with the attempts that are left.
  unfoldable pub attempt_from :
      WorkerConfig → (left attempt : ℕ) → Volume → Volume × Checked (String × ℕ)
  attempt_from c zero attempt v = (v, bad (model_preparation_error "download failed" true))
  attempt_from c (suc left) attempt v =
      conclude c attempt (fetch_once v)
        (attempt_from c left (attempt + 1) (sleep (delay_after c attempt) (fetch_once v)))
        (fetch v.fetches v).answer

  -- `_download_with_retries`
  unfoldable pub download_with_retries : WorkerConfig → Volume → Volume × Checked (String × ℕ)
  download_with_retries c v = attempt_from c (max_attempts c) 1 v

  -- So many pauses, each twice as long as the one before.
  unfoldable pub doubling : (pause count : ℕ) → List ℕ
  doubling pause zero = []
  doubling pause (suc count) = pause ∷ doubling (pause + pause) count

  -- The attempt that a success reports, where the loop went from one count of calls to another.
  abbrev pub Reports : (attempt before after : ℕ) → Checked (String × ℕ) → Type 0
  Reports attempt before after (good (path, n)) = n + before + 1 ≡ after + attempt
  Reports attempt before after (bad e) = Unit

  -- How the run of the loop went, whose first pause is given.
  pub record IsBrief (left attempt pause : ℕ) (v : Volume) (r : Volume × Checked (String × ℕ))
      : Type 0 where
    pub same_marker : r.0.marker ≡ v.marker
    pub bounded : r.0.fetches ≤ v.fetches + left
    pub grown : v.fetches + min left 1 ≤ r.0.fetches
    pub paused : r.0.slept ≡ v.slept ++ doubling pause (r.0.fetches - v.fetches - 1)
    pub reported : Reports attempt v.fetches r.0.fetches r.1

  over :
      (left attempt pause : ℕ) (v : Volume) (e : Checked (String × ℕ))
      → Reports attempt v.fetches (v.fetches + 1) e
      → IsBrief (suc left) attempt pause v (fetch_once v, e)
  unfolding fetch_once doubling
  over left attempt pause v e h = record {
    same_marker = refl;
    bounded = omega arith;
    grown = ground arith;
    paused =
        let one : v.fetches + 1 - v.fetches - 1 ≡ 0 = omega arith in
        rw one (sym (append-nil v.slept));
    reported = h;
  }

  conclude-IsBrief :
      (c : WorkerConfig) (left attempt pause : ℕ) (v : Volume)
      (again : Volume × Checked (String × ℕ)) (answer : Fetched)
      → IsBrief (suc left) attempt pause v again ⊎ (leb (max_attempts c) attempt ≡ true)
      → IsBrief (suc left) attempt pause v (conclude c attempt (fetch_once v) again answer)
  unfolding conclude
  conclude-IsBrief c left attempt pause v again (fetched path) h =
      over left attempt pause v _ (omega arith)
  conclude-IsBrief c left attempt pause v again (refused e) h =
      elim (Bool-cases (is_quota_error lower e)) [
        | inl q ↦ rw (conclude, q) (over left attempt pause v _ tt)
        | inr q ↦ elim (Bool-cases (leb (max_attempts c) attempt)) [
          | inl m ↦ rw (conclude, q, m) (over left attempt pause v _ tt)
          | inr m ↦ rw (conclude, q, m) (elim h [ inl b ↦ b | inr b ↦ absurd (cc (b, m)) ])
        ]
      ]

  Reports-earlier :
      (attempt before after : ℕ) (x : Checked (String × ℕ))
      → Reports (attempt + 1) (before + 1) after x
      → Reports attempt before after x
  Reports-earlier attempt before after (good (path, n)) h = omega arith
  Reports-earlier attempt before after (bad e) h = tt

  later :
      (left attempt pause : ℕ) (v : Volume) (r : Volume × Checked (String × ℕ))
      → 0 < left
      → IsBrief left (attempt + 1) (pause + pause) (sleep pause (fetch_once v)) r
      → IsBrief (suc left) attempt pause v r
  unfolding sleep fetch_once doubling
  later left attempt pause v r h b =
      let grown = b.grown in
      let steps = r.0.fetches - v.fetches - 2 in
      let count : r.0.fetches - v.fetches - 1 ≡ suc steps = ground arith in
      let fewer : r.0.fetches - (v.fetches + 1) - 1 ≡ steps = omega arith in
      record {
        same_marker = b.same_marker;
        bounded = let bounded = b.bounded in omega arith;
        grown = ground arith;
        paused = rw count (
            subst (λ k. r.0.slept ≡ (v.slept ++ pause ∷ []) ++ doubling (pause + pause) k) fewer
              b.paused
            ∙ append_assoc v.slept (pause ∷ []) (doubling (pause + pause) steps));
        reported = Reports-earlier attempt v.fetches r.0.fetches r.1 b.reported;
      }

  delay_after_twice :
      (c : WorkerConfig) (attempt : ℕ)
      → 1 ≤ attempt
      → delay_after c (attempt + 1) ≡ delay_after c attempt + delay_after c attempt
  delay_after_twice c zero h = absurd (omega arith)
  delay_after_twice c (suc k) h =
      let next : suc k + 1 - 1 ≡ suc k = omega arith in
      let earlier : suc k - 1 ≡ k = omega arith in
      rw (next, earlier, pow_step 2 k) (twice (pos_part c.download_backoff_seconds) (2 ^ k))
    where
      twice : (a b : ℕ) → a * (2 * b) ≡ a * b + a * b
      twice a b = omega arith

  attempt_from-IsBrief :
      (c : WorkerConfig) (left attempt : ℕ) (v : Volume)
      → 1 ≤ attempt
      → attempt + left ≡ max_attempts c + 1
      → IsBrief left attempt (delay_after c attempt) v (attempt_from c left attempt v)
  unfolding attempt_from
  attempt_from-IsBrief c zero attempt v p h = record {
    same_marker = refl;
    bounded = omega arith;
    grown = ground arith;
    paused =
        let none_yet : v.fetches - v.fetches - 1 ≡ 0 = omega arith in
        rw none_yet (unfold doubling in sym (append-nil v.slept));
    reported = tt;
  }
  attempt_from-IsBrief c (suc left) attempt v p h =
      let pause = delay_after c attempt in
      let next = sleep pause (fetch_once v) in
      let again = attempt_from c left (attempt + 1) next in
      conclude-IsBrief c left attempt pause v again (fetch v.fetches v).answer
        (elim (Bool-cases (leb (max_attempts c) attempt)) [
          | inl m ↦ inr m
          | inr m ↦ inl (
              later left attempt pause v again (ground arith) (
                subst (λ q. IsBrief left (attempt + 1) q next again) (delay_after_twice c attempt p)
                  (attempt_from-IsBrief c left (attempt + 1) next (omega arith) (omega arith))))
        ])

  -- A download makes at most the configured number of calls, and at least one where that is
  -- positive; a success reports the number of calls made; between two calls it pauses, first for the
  -- configured time and then each time twice as long as before; and it leaves the marker alone.
  pub download_with_retries-IsBrief :
      (c : WorkerConfig) (v : Volume)
      → IsBrief
          (max_attempts c)
          1
          (pos_part c.download_backoff_seconds)
          v
          (download_with_retries c v)
  unfolding download_with_retries
  download_with_retries-IsBrief c v =
      subst (λ q. IsBrief (max_attempts c) 1 q v (download_with_retries c v)) (first_delay c)
        (attempt_from-IsBrief c (max_attempts c) 1 v (omega arith) (omega arith))
    where
      first_delay : (d : WorkerConfig) → delay_after d 1 ≡ pos_part d.download_backoff_seconds
      first_delay d = ground arith

  attempt_from-quota :
      (c : WorkerConfig) (left attempt : ℕ) (v : Volume) (e : FetchError)
      → 0 < left
      → (fetch v.fetches v).answer ≡ refused e
      → is_quota_error lower e ≡ true
      → attempt_from c left attempt v
        ≡ (fetch_once v, bad (model_preparation_error "the volume ran out of space" false))
  unfolding attempt_from conclude
  attempt_from-quota c zero attempt v e h a q = absurd (omega arith)
  attempt_from-quota c (suc left) attempt v e h a q = rw (attempt_from, a, conclude, q) refl

  -- A failure that means a full volume is not tried again: one call, and no pause.
  pub download_with_retries-quota :
      (c : WorkerConfig) (v : Volume) (e : FetchError)
      → 0 < max_attempts c
      → (fetch v.fetches v).answer ≡ refused e
      → is_quota_error lower e ≡ true
      → download_with_retries c v
        ≡ (fetch_once v, bad (model_preparation_error "the volume ran out of space" false))
  unfolding download_with_retries
  download_with_retries-quota c v e h a q = attempt_from-quota c (max_attempts c) 1 v e h a q

  -- The hub client fails so many times, for other reasons than a full volume, and then succeeds.
  abbrev pub Recovers : WorkerConfig → (failures attempt : ℕ) → Volume → (path : String) → Type 0
  Recovers c zero attempt v path = (fetch v.fetches v).answer ≡ fetched path
  Recovers c (suc n) attempt v path =
      ((e : FetchError) × ((fetch v.fetches v).answer ≡ refused e)
        × (is_quota_error lower e ≡ false))
      × Recovers c n (attempt + 1) (sleep (delay_after c attempt) (fetch_once v)) path

  attempt_from-Recovers :
      (c : WorkerConfig) (failures left attempt : ℕ) (v : Volume) (path : String)
      → attempt + left ≡ max_attempts c + 1
      → failures < left
      → Recovers c failures attempt v path
      → (attempt_from c left attempt v).1 ≡ good (path, attempt + failures)
  unfolding attempt_from conclude
  attempt_from-Recovers c failures zero attempt v path k h r = absurd (omega arith)
  attempt_from-Recovers c zero (suc left) attempt v path k h r =
      let same : attempt ≡ attempt + 0 = omega arith in
      rw (attempt_from, r, conclude) (ap (λ (n : ℕ). good (path, n)) same)
  attempt_from-Recovers c (suc n) (suc left) attempt v path k h ((e, a, q), r) =
      let next = sleep (delay_after c attempt) (fetch_once v) in
      let rest =
        attempt_from-Recovers c n left (attempt + 1) next path (omega arith) (omega arith) r in
      let more : leb (max_attempts c) attempt ≡ false = ground arith in
      let same : attempt + 1 + n ≡ attempt + suc n = omega arith in
      rw (attempt_from, a, conclude, q, more) (rest ∙ ap (λ (m : ℕ). good (path, m)) same)

  -- Where the hub client fails fewer times than there are attempts, never for a full volume, and
  -- then succeeds, the download returns the snapshot and the number of the attempt that succeeded.
  pub download_with_retries-Recovers :
      (c : WorkerConfig) (failures : ℕ) (v : Volume) (path : String)
      → failures < max_attempts c
      → Recovers c failures 1 v path
      → (download_with_retries c v).1 ≡ good (path, 1 + failures)
  unfolding download_with_retries
  download_with_retries-Recovers c failures v path h r =
      attempt_from-Recovers c failures (max_attempts c) 1 v path (omega arith) h r
