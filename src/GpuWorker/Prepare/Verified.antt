-- ===== src/GpuWorker/Prepare/Verified.antt =====
-- What `prepare_model` proves before it writes the marker, and what a failure leaves.
use agentic_gpu_platform.Shared.{
  Bool, Bool-cases, List, Option, Option-cases, String, [], ap, arith, inl, inr, is_empty, none,
  refl, some, subst, sym, true, ℕ, ◌+◌, ◌∙◌, ◌∷◌, ◌≡◌,
}
use agentic_gpu_platform.GpuWorker.Config.{Checked, WorkerConfig, bad, good}
use agentic_gpu_platform.GpuWorker.Volume.{
  Matches, Sizes, Volume, mismatches, mismatches-Matches, snapshot_files, stat_size,
  verify_snapshot, verify_snapshot-Matches,
}
use agentic_gpu_platform.GpuWorker.Marker.{
  ModelState, current_version, matches, read_marker, read_marker-write_marker, write_marker,
}
use agentic_gpu_platform.GpuWorker.Download.{download_with_retries}
use agentic_gpu_platform.GpuWorker.Prepare.{
  PreparationOutcome, Surroundings, already_prepared, discard, finish, new_state, prepare_cold,
  recheck, repair_until_correct, reusable, ◌onward◌,
}

is_empty-nil {ℓ} : {A : Type ℓ} (xs : List A) → is_empty xs ≡ true → xs ≡ []
is_empty-nil [] h = refl
is_empty-nil (x ∷ xs) h = absurd cc

reusable_sound :
    (c : WorkerConfig) (v : Volume) (n m : ModelState)
    → reusable c v n ≡ some m
    → (n ≡ m)
      × (matches n c.model_id c.model_revision ≡ true)
      × (n.verified ≡ true)
      × ((verify_snapshot v n.snapshot_path n.files).0 ≡ true)
reusable_sound c v n m h = ground arith

-- A model that is reused is the one of the marker, it was asked for, it was verified, and every
-- recorded file is there at its size.
pub already_prepared-Matches :
    (c : WorkerConfig) (v : Volume) (m : ModelState)
    → already_prepared c v ≡ some m
    → (read_marker v ≡ some m)
      × (matches m c.model_id c.model_revision ≡ true)
      × (m.verified ≡ true)
      × Matches v m.snapshot_path m.files
unfolding already_prepared
already_prepared-Matches c v m h = elim (Option-cases (read_marker v)) [
  | inl e ↦
      let no : ◌≡◌ {A = Option ModelState} none (some m) = rw (already_prepared, e) at h in
      absurd cc
  | inr (n, e) ↦
      let (same, asked, proven, sized) = reusable_sound c v n m (rw (already_prepared, e) at h) in
      (
        e ∙ ap some same,
        subst (λ s. matches s c.model_id c.model_revision ≡ true) same asked,
        subst (λ (s : ModelState). s.verified ≡ true) same proven,
        subst (λ (s : ModelState). Matches v s.snapshot_path s.files) same
            (verify_snapshot-Matches v n.snapshot_path n.files sized),
      )
]

pub onward-good :
    {A B : Type 0} (r : Volume × Checked A) (f : Volume → A → Volume × Checked B) (b : B)
    → (r onward f).1 ≡ good b
    → (a : A) × (r.1 ≡ good a) × ((r onward f) ≡ f r.0 a)
onward-good (v, good a) f b h = (a, refl, refl)
onward-good (v, bad e) f b h = absurd cc

recheck-verified :
    (expected : Sizes) (attempts : ℕ) (v : Volume) (p : String × ℕ) (snapshot : String) (n : ℕ)
    → (recheck expected attempts v p).1 ≡ good (snapshot, n, true)
    → Matches (recheck expected attempts v p).0 snapshot expected
unfolding recheck
recheck-verified expected attempts v (path, more) snapshot n h =
    elim (Bool-cases (is_empty (mismatches v path expected))) [
      | inl e ↦
          let made : ◌≡◌ {A = Checked (String × ℕ × Bool)} (good (path, attempts + more, true))
              (good (snapshot, n, true)) =
            rw (recheck, e) at h in
          let same : path ≡ snapshot = cc in
          rw (recheck, e)
            (subst (λ s. Matches v s expected) same
              (mismatches-Matches v path expected (is_empty-nil (mismatches v path expected) e)))
      | inr e ↦ absurd (ground arith)
    ]

-- A repair that ends with a verified snapshot was given sizes, and every file has its size.
repair-verified :
    (s : Surroundings) (c : WorkerConfig) (expected : Option Sizes) (v : Volume) (p : String × ℕ)
    (snapshot : String) (n : ℕ)
    → (repair_until_correct s c expected v p).1 ≡ good (snapshot, n, true)
    → (sizes : Sizes) × (expected ≡ some sizes)
      × Matches (repair_until_correct s c expected v p).0 snapshot sizes
unfolding repair_until_correct
repair-verified s c none v (path, m) snapshot n h = absurd (ground arith)
repair-verified s c (some sizes) v (path, m) snapshot n h =
    elim (Bool-cases (is_empty (mismatches v path sizes))) [
      | inl e ↦
          let made : ◌≡◌ {A = Checked (String × ℕ × Bool)} (good (path, m, true))
              (good (snapshot, n, true)) =
            rw (repair_until_correct, e) at h in
          let same : path ≡ snapshot = cc in
          (
            sizes,
            refl,
            rw (repair_until_correct, e)
                (subst (λ t. Matches v t sizes) same
                  (mismatches-Matches v path sizes (is_empty-nil (mismatches v path sizes) e))),
          )
      | inr e ↦
          let done =
            download_with_retries s.lower s.fetch c (discard s path (mismatches v path sizes) v) in
          let h' : (done onward recheck sizes m).1 ≡ good (snapshot, n, true) =
            rw (repair_until_correct, e) at h in
          let (a, _, q) = onward-good done (recheck sizes m) (snapshot, n, true) h' in
          let again : (recheck sizes m done.0 a).1 ≡ good (snapshot, n, true) =
            ap (λ r. r.1) (sym q) ∙ h' in
          (
            sizes,
            refl,
            rw (repair_until_correct, e)
                (subst (λ (r : Volume × Checked (String × ℕ × Bool)). Matches r.0 snapshot sizes)
                  (sym q) (recheck-verified sizes m done.0 a snapshot n again)),
          )
    ]

pub finish-verified :
    (s : Surroundings) (c : WorkerConfig) (v : Volume) (p : String × ℕ × Bool)
    (o : PreparationOutcome)
    → (finish s c v p).1 ≡ good o
    → (o.state.verified ≡ p.2)
      × (o.state.snapshot_path ≡ p.0)
      × ((finish s c v p).0 ≡ write_marker v o.state)
      × (o.state.marker_version ≡ current_version)
      × (o.state.files ≡ snapshot_files v p.0)
unfolding finish new_state
finish-verified s c v (snapshot, n, verified) o h =
    let state = new_state s c v snapshot verified in
    let same : o.state ≡ state = sym (cc h) in
    (
      ap (λ (m : ModelState). m.verified) same,
      ap (λ (m : ModelState). m.snapshot_path) same,
      ap (write_marker v) (sym same),
      ap (λ (m : ModelState). m.marker_version) same,
      ap (λ (m : ModelState). m.files) same,
    )

stored :
    (v : Volume) (m : ModelState)
    → m.marker_version ≡ current_version
    → read_marker (write_marker v m) ≡ some m
stored v m h = read_marker-write_marker v m ∙ ground (arith, h)

write_marker-Matches :
    (v : Volume) (m : ModelState) (snapshot : String) (sizes : Sizes)
    → Matches v snapshot sizes
    → Matches (write_marker v m) snapshot sizes
write_marker-Matches v m snapshot [] h = tt
write_marker-Matches v m snapshot (f ∷ rest) h =
    (unfold write_marker stat_size in h.0, write_marker-Matches v m snapshot rest h.1)

-- A preparation that downloads and reports a verified model was given sizes from outside the
-- snapshot, every file named there stands in the snapshot at its size, and the marker that was
-- written is read back as the reported state.
pub prepare_cold-verified :
    (s : Surroundings) (c : WorkerConfig) (expected : Option Sizes) (v : Volume)
    (o : PreparationOutcome)
    → (prepare_cold s c expected v).1 ≡ good o
    → o.state.verified ≡ true
    → (sizes : Sizes) × (expected ≡ some sizes)
      × Matches (prepare_cold s c expected v).0 o.state.snapshot_path sizes
      × (read_marker (prepare_cold s c expected v).0 ≡ some o.state)
unfolding prepare_cold
prepare_cold-verified s c expected v o h p =
    let d = download_with_retries s.lower s.fetch c v in
    let r = d onward repair_until_correct s c expected in
    let (a, e1, q1) = onward-good r (finish s c) o h in
    let (proven, path, written, version, _) =
      finish-verified s c r.0 a o (ap (λ x. x.1) (sym q1) ∙ h) in
    let (b, _, q2) = onward-good d (repair_until_correct s c expected) a e1 in
    let e2 =
      subst (λ x. (repair_until_correct s c expected d.0 b).1 ≡ good (a.0, a.1, x)) (sym proven ∙ p)
        (ap (λ x. x.1) (sym q2) ∙ e1) in
    let (sizes, given, fits) = repair-verified s c expected d.0 b a.0 a.1 e2 in
    let here_fits =
      subst (λ x. Matches x.0 o.state.snapshot_path sizes) (sym q2)
        (subst (λ x. Matches (repair_until_correct s c expected d.0 b).0 x sizes) (sym path)
          fits) in
    let last = ap (λ x. x.0) q1 ∙ written in
    (
      sizes,
      given,
      subst (λ x. Matches x o.state.snapshot_path sizes) (sym last)
          (write_marker-Matches r.0 o.state o.state.snapshot_path sizes here_fits),
      subst (λ x. read_marker x ≡ some o.state) (sym last) (stored r.0 o.state version),
    )
