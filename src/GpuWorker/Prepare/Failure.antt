-- ===== src/GpuWorker/Prepare/Failure.antt =====
-- What a failed preparation leaves behind, and how often the hub client is called.
use agentic_gpu_platform.Shared.{
  Bool, Bool-cases, Option, Option-cases, String, arith, inl, inr, is_empty, none, refl, some,
  subst, sym, ℕ, ◌+◌, ◌∙◌, ◌≡◌, ◌≤◌,
}
use agentic_gpu_platform.GpuWorker.Config.{Checked, WorkerConfig, WorkerError, bad, good}
use agentic_gpu_platform.GpuWorker.Volume.{Sizes, Volume, mismatches}
use agentic_gpu_platform.GpuWorker.Marker.{ModelState, write_marker}
use agentic_gpu_platform.GpuWorker.Download.{
  download_with_retries, download_with_retries-IsBrief, max_attempts, require_free_space,
}
use agentic_gpu_platform.GpuWorker.Prepare.{
  PreparationOutcome, Surroundings, already_prepared, authoritative_sizes, discard, finish,
  prepare_cold, prepare_locked, recheck, repair_until_correct, with_room, ◌onward◌,
}

-- The marker is untouched, and the hub client was called so many times at most.
record Spares (calls : ℕ) (v w : Volume) : Type 0 where
  same_marker : w.marker ≡ v.marker
  bounded : w.fetches ≤ v.fetches + calls

download-Spares :
    (s : Surroundings) (c : WorkerConfig) (v : Volume)
    → Spares (max_attempts c) v (download_with_retries s.lower s.fetch c v).0
download-Spares s c v =
    let brief = download_with_retries-IsBrief s.lower s.fetch c v in
    record { same_marker = brief.same_marker; bounded = brief.bounded }

onward-volume :
    {A B : Type 0} (r : Volume × Checked A) (f : Volume → A → Volume × Checked B)
    → ((v : Volume) (a : A) → (f v a).0 ≡ v)
    → (r onward f).0 ≡ r.0
onward-volume (v, good a) f h = h v a
onward-volume (v, bad e) f h = refl

recheck-volume :
    (expected : Sizes) (attempts : ℕ) (v : Volume) (p : String × ℕ)
    → (recheck expected attempts v p).0 ≡ v
unfolding recheck
recheck-volume expected attempts v (path, n) = ground arith

repair-Spares :
    (s : Surroundings) (c : WorkerConfig) (expected : Option Sizes) (v : Volume) (p : String × ℕ)
    → Spares (max_attempts c) v (repair_until_correct s c expected v p).0
unfolding repair_until_correct discard
repair-Spares s c none v (path, n) = record { same_marker = refl; bounded = omega arith }
repair-Spares s c (some sizes) v (path, n) =
    elim (Bool-cases (is_empty (mismatches v path sizes))) [
      | inl e ↦ rw (repair_until_correct, e) (record { same_marker = refl; bounded = omega arith })
      | inr e ↦
          let u = discard s path (mismatches v path sizes) v in
          let d = download_with_retries s.lower s.fetch c u in
          let one = download-Spares s c u in
          let spared : Spares (max_attempts c) v d.0 = record {
            same_marker = one.same_marker;
            bounded = one.bounded;
          } in
          let kept = onward-volume d (recheck sizes n) (recheck-volume sizes n) in
          rw (repair_until_correct, e) (subst (Spares (max_attempts c) v) (sym kept) spared)
    ]

onward-Spares :
    {A B : Type 0} (k l : ℕ) (v : Volume) (r : Volume × Checked A)
    (f : Volume → A → Volume × Checked B)
    → Spares k v r.0
    → ((a : A) → Spares l r.0 (f r.0 a).0)
    → Spares (k + l) v (r onward f).0
onward-Spares k l v (w, good a) f h g =
    let m = h.same_marker in
    let n = (g a).same_marker in
    let i = h.bounded in
    let j = (g a).bounded in record { same_marker = n ∙ m; bounded = omega (arith, i, j) }
onward-Spares k l v (w, bad e) f h g =
    let i = h.bounded in record { same_marker = h.same_marker; bounded = omega (arith, i) }

finish-fetches :
    (s : Surroundings) (c : WorkerConfig) (v : Volume) (p : String × ℕ × Bool)
    → (finish s c v p).0.fetches ≡ v.fetches
unfolding finish write_marker
finish-fetches s c v (path, n, b) = refl

cold-finished :
    (s : Surroundings) (c : WorkerConfig) (calls : ℕ) (v : Volume)
    (r : Volume × Checked (String × ℕ × Bool))
    → Spares calls v r.0
    → (r onward finish s c).0.fetches ≤ v.fetches + calls
cold-finished s c calls v (w, good p) h =
    let i = h.bounded in omega (arith, i, finish-fetches s c w p)
cold-finished s c calls v (w, bad e) h = h.bounded

cold-failed :
    (s : Surroundings) (c : WorkerConfig) (calls : ℕ) (v : Volume)
    (r : Volume × Checked (String × ℕ × Bool)) (e : WorkerError)
    → Spares calls v r.0
    → (r onward finish s c).1 ≡ bad e
    → (r onward finish s c).0.marker ≡ v.marker
unfolding finish
cold-failed s c calls v (w, good (path, n, b)) e h q = absurd cc
cold-failed s c calls v (w, bad d) e h q = h.same_marker

repaired-Spares :
    (s : Surroundings) (c : WorkerConfig) (expected : Option Sizes) (v : Volume)
    → Spares
        (max_attempts c + max_attempts c)
        v
        (download_with_retries s.lower s.fetch c v onward repair_until_correct s c expected).0
repaired-Spares s c expected v =
    let d = download_with_retries s.lower s.fetch c v in
    onward-Spares (max_attempts c) (max_attempts c) v d (repair_until_correct s c expected)
      (download-Spares s c v) (λ a. repair-Spares s c expected d.0 a)

room-fetches :
    (room : Checked (Unit {0})) (v : Volume) (cold : Volume × Checked PreparationOutcome)
    (calls : ℕ)
    → cold.0.fetches ≤ v.fetches + calls
    → (with_room room v cold).0.fetches ≤ v.fetches + calls
unfolding with_room
room-fetches (good _) v cold calls h = h
room-fetches (bad e) v cold calls h = omega arith

room-failed :
    (room : Checked (Unit {0})) (v : Volume) (cold : Volume × Checked PreparationOutcome)
    (e : WorkerError)
    → (cold.1 ≡ bad e → cold.0.marker ≡ v.marker)
    → (with_room room v cold).1 ≡ bad e
    → (with_room room v cold).0.marker ≡ v.marker
unfolding with_room
room-failed (good _) v cold e h q = h q
room-failed (bad d) v cold e h q = refl

-- A preparation under the lock calls the hub client at most twice for each configured attempt: for
-- the download, and for one repair.
pub prepare_locked-fetches :
    (s : Surroundings) (c : WorkerConfig) (previous : Option ModelState) (v : Volume)
    → (prepare_locked s c previous v).0.fetches ≤ v.fetches + (max_attempts c + max_attempts c)
unfolding prepare_locked prepare_cold
prepare_locked-fetches s c previous v =
    let expected = authoritative_sizes s.hub previous in
    let cold =
      cold-finished s c (max_attempts c + max_attempts c) v
        (download_with_retries s.lower s.fetch c v onward repair_until_correct s c expected)
        (repaired-Spares s c expected v) in
    elim (Option-cases (already_prepared c v)) [
      | inl e ↦
          rw (prepare_locked, e)
            (room-fetches (require_free_space c v) v (prepare_cold s c expected v)
              (max_attempts c + max_attempts c) cold)
      | inr (m, e) ↦ rw (prepare_locked, e) (omega arith)
    ]

-- A preparation under the lock that fails leaves the marker as it was.
pub prepare_locked-failure :
    (s : Surroundings) (c : WorkerConfig) (previous : Option ModelState) (v : Volume)
    (e : WorkerError)
    → (prepare_locked s c previous v).1 ≡ bad e
    → (prepare_locked s c previous v).0.marker ≡ v.marker
unfolding prepare_locked prepare_cold
prepare_locked-failure s c previous v e h =
    let expected = authoritative_sizes s.hub previous in
    let r = download_with_retries s.lower s.fetch c v onward repair_until_correct s c expected in
    let cold =
      cold-failed s c (max_attempts c + max_attempts c) v r e (repaired-Spares s c expected v) in
    elim (Option-cases (already_prepared c v)) [
      | inl q ↦
          rw (prepare_locked, q)
            (room-failed (require_free_space c v) v (prepare_cold s c expected v) e cold
              (rw (prepare_locked, q) at h))
      | inr (m, q) ↦ rw (prepare_locked, q) refl
    ]
