-- ===== src/Queue/Claim.antt =====
-- Which job `InMemoryJobQueue.claim` (src/infrastructure/queue/in_memory.py) takes, and that a job that
-- is taken is not taken twice.
use agentic_gpu_platform.Shared.{
  ==_iff, Bool-cases, Has, List, Option-cases, [], ap, arith, first, get, get-put, inl, inr, length,
  none, refl, some, subst, suc, sym, true, zero, ℕ, ◌+◌, ◌<◌, ◌==◌, ◌∙◌, ◌∷◌, ◌≡◌, ◌≤◌, ◌⊎◌,
}
use agentic_gpu_platform.Enums.{JobStatus, JobType, is_queued}
use agentic_gpu_platform.Errors.{ok}
use agentic_gpu_platform.Lease.{Lease}
use agentic_gpu_platform.Job.{Job, lease_to}
use agentic_gpu_platform.Queue.{
  Entry, Queue, Ready, claim, claim_loop, distinct, drop_ready, earlier, entries, hand_out,
  next_ready, rebuild, waiting, without,
}
use agentic_gpu_platform.Queue.Entries.{drop-entries, entries-drop, length-drop-lt, lowest_lem}

-- No entry of the wanted types is of a job that waits.
abbrev pub NoneWaits : Queue → List JobType → Type 0
NoneWaits q wanted = (e : Entry) → Has e (entries wanted q.ready) → waiting q e ≡ none

-- An entry of a job that waits, such that no earlier entry is of a job that waits.
abbrev pub IsNext : Queue → List JobType → Entry → Job → Type 0
IsNext q wanted e stored =
    Has e (entries wanted q.ready)
    × (waiting q e ≡ some stored)
    × ((f : Entry) → Has f (entries wanted q.ready) → earlier f e ≡ true → waiting q f ≡ none)

waiting-id : (q : Queue) (e f : Entry) → (e.id == f.id) ≡ true → waiting q e ≡ waiting q f
unfolding waiting
waiting-id q e f h = ap (λ (k : ℕ). waiting q (record e { id = k })) ((==_iff e.id f.id).0 h)

waiting-without : (q : Queue) (e f : Entry) → waiting (without e q) f ≡ waiting q f
unfolding waiting
waiting-without q e f = refl

claim_loop-none :
    (n : ℕ) (wanted : List JobType) (q : Queue) (w d now g : ℕ)
    → next_ready wanted q ≡ none
    → claim_loop (suc n) wanted q w d now g ≡ (q, ok none)
unfolding claim_loop
claim_loop-none n wanted q w d now g h = rw (claim_loop, h) refl

claim_loop-stale :
    (n : ℕ) (wanted : List JobType) (q : Queue) (w d now g : ℕ) {e : Entry}
    → next_ready wanted q ≡ some e
    → waiting q e ≡ none
    → claim_loop (suc n) wanted q w d now g ≡ claim_loop n wanted (without e q) w d now g
unfolding claim_loop
claim_loop-stale n wanted q w d now g h k = rw (claim_loop, h, k) refl

claim_loop-taken :
    (n : ℕ) (wanted : List JobType) (q : Queue) (w d now g : ℕ) {e : Entry} {stored : Job}
    → next_ready wanted q ≡ some e
    → waiting q e ≡ some stored
    → claim_loop (suc n) wanted q w d now g ≡ hand_out (without e q) e stored w d now g
unfolding claim_loop
claim_loop-taken n wanted q w d now g h k = rw (claim_loop, h, k) refl

-- With fuel for every entry, the loop ends with nothing where no job waits, and otherwise hands out
-- the job of the next entry.
claim_loop-IsNext :
    (n : ℕ) (wanted : List JobType) (q : Queue) (w d now g : ℕ)
    → length (entries wanted q.ready) ≤ n
    → ((r : Ready) × (claim_loop n wanted q w d now g ≡ (record q { ready = r }, ok none))
        × NoneWaits q wanted)
      ⊎ ((r : Ready) × (e : Entry) × (stored : Job) × IsNext q wanted e stored
          × (claim_loop n wanted q w d now g
              ≡ hand_out (record q { ready = r }) e stored w d now g))
unfolding next_ready
claim_loop-IsNext zero wanted q w d now g h =
    inl (q.ready, unfold claim_loop in refl, λ e m. absurd (nothing (entries wanted q.ready) h m))
  where
    nothing : (es : List Entry) {e : Entry} → length es ≤ 0 → Has e es → ⊥
    nothing [] k m = elim m [ ]
    nothing (x ∷ xs) k m = omega arith
claim_loop-IsNext (suc n) wanted q w d now g h = elim (lowest_lem (entries wanted q.ready)) [
  | inl (found, empty) ↦
      inl (
        q.ready,
        claim_loop-none n wanted q w d now g found,
        λ e m. elim (subst (Has e) empty m) [ ],
      )
  | inr (x, found, among, least) ↦ elim (Option-cases (waiting q x)) [
    | inr (stored, e) ↦ inr (
      drop_ready x.type x.id q.ready,
      x,
      stored,
      (among, e, λ f m k. absurd (cc (least f m, k))),
      claim_loop-taken n wanted q w d now g found e,
    )
    | inl e ↦
        let fewer : length (entries wanted (drop_ready x.type x.id q.ready)) ≤ n =
          omega (arith, length-drop-lt wanted q.ready x among) in
        let stays : (f : Entry)
            → Has f (entries wanted q.ready)
            → ((waiting q f ≡ none) ⊎ Has f (entries wanted (drop_ready x.type x.id q.ready))) =
          λ f m. elim (Bool-cases (f.id == x.id)) [
            | inl same ↦ inl (waiting-id q f x same ∙ e)
            | inr other ↦ inr (drop-entries wanted x.type x.id q.ready m other)
          ] in
        elim (claim_loop-IsNext n wanted (without x q) w d now g fewer) [
          | inl (r, ends, none_waits) ↦ inl (
            r,
            claim_loop-stale n wanted q w d now g found e ∙ ends,
            λ f m. elim (stays f m) [
              | inl gone ↦ gone
              | inr left ↦ sym (waiting-without q x f) ∙ none_waits f left
            ],
          )
          | inr (r, y, stored, (there_is, waits, first), ends) ↦ inr (
            r,
            y,
            stored,
            (
              entries-drop wanted x.type x.id q.ready there_is,
              sym (waiting-without q x y) ∙ waits,
              λ f m k. elim (stays f m) [
                | inl gone ↦ gone
                | inr left ↦ sym (waiting-without q x f) ∙ first f left k
              ],
            ),
            claim_loop-stale n wanted q w d now g found e ∙ ends,
          )
        ]
  ]
]

waiting-queued :
    (q : Queue) (e : Entry) {stored : Job}
    → waiting q e ≡ some stored
    → is_queued stored.status ≡ true
unfolding waiting
waiting-queued q e h = ground arith

hand_out_lem :
    (q : Queue) (e : Entry) (stored : Job) (w d now g : ℕ)
    → 0 < d
    → is_queued stored.status ≡ true
    → (j : Job) × (l : Lease) × ((hand_out q e stored w d now g).1 ≡ ok (some (j, l)))
      × (j.status ≡ JobStatus.leased)
      × (j.id ≡ stored.id)
      × (j.attempt ≡ stored.attempt + 1)
      × (l.holder ≡ w)
      × (l.token ≡ g)
      × (l.expires_at ≡ now + d)
      × (j.lease ≡ some l)
      × (get e.id (hand_out q e stored w d now g).0.jobs ≡ some (rebuild j))
      × (get e.id (hand_out q e stored w d now g).0.leases ≡ some (now + d))
unfolding hand_out lease_to
hand_out_lem q e stored w d now g p h =
    let c = (lease_to (rebuild stored) w now d (some g) g).0 in
    (
      c,
      record { job_id = stored.id; holder = w; token = g; acquired_at = now; expires_at = now + d },
      ground arith,
      ground arith,
      ground arith,
      ground arith,
      refl,
      refl,
      refl,
      ground arith,
      ground (arith, get-put e.id e.id (rebuild c) q.jobs),
      ground (arith, get-put e.id e.id (now + d) q.leases),
    )

-- What a successful claim shows of the job, the lease and the queue after it.
abbrev pub IsHandedOut : Queue → Entry → Job → (w d now g : ℕ) → Job → Lease → Queue → Type 0
IsHandedOut q e stored w d now g j l p =
    (j.status ≡ JobStatus.leased)
    × (j.id ≡ stored.id)
    × (j.attempt ≡ stored.attempt + 1)
    × (l.holder ≡ w)
    × (l.token ≡ g)
    × (l.expires_at ≡ now + d)
    × (j.lease ≡ some l)
    × (get e.id p.jobs ≡ some (rebuild j))
    × (get e.id p.leases ≡ some (now + d))

-- A claim for a positive time never raises. It answers nothing exactly where no entry of the wanted
-- types is of a waiting job, and then no job and no lease changes. Otherwise it hands out the waiting
-- job of the entry that is first by score, then by id: the job is leased to the consumer under the new
-- token for the time asked, an attempt is counted, and the queue keeps it as leased until then.
pub claim-IsNext :
    (q : Queue) (w : ℕ) (types : List JobType) (d now g : ℕ)
    → 0 < d
    → let wanted = distinct types in
      let (p, answer) = claim q w types d now g in
      (answer ≡ ok none) × NoneWaits q wanted × (p.jobs ≡ q.jobs) × (p.leases ≡ q.leases)
      ⊎ ((e : Entry) × (stored : Job) × (j : Job) × (l : Lease) × IsNext q wanted e stored
          × (answer ≡ ok (some (j, l)))
          × IsHandedOut q e stored w d now g j l p)
unfolding claim
claim-IsNext q w types d now g h =
    let wanted = distinct types in
    elim (claim_loop-IsNext (length (entries wanted q.ready)) wanted q w d now g (omega arith)) [
      | inl (r, ends, none_waits) ↦
          inl (ap (λ x. x.1) ends, none_waits, ap (λ x. x.0.jobs) ends, ap (λ x. x.0.leases) ends)
      | inr (r, e, stored, next, ends) ↦
          let (j, l, answer, a, b, c, i, t, x, held, kept, due) =
            hand_out_lem (record q { ready = r }) e stored w d now g h
              (waiting-queued q e next.1) in
          inr (
            e,
            stored,
            j,
            l,
            next,
            ap (λ x. x.1) ends ∙ answer,
            (
              a,
              b,
              c,
              i,
              t,
              x,
              held,
              ap (λ x. get e.id x.0.jobs) ends ∙ kept,
              ap (λ x. get e.id x.0.leases) ends ∙ due,
            ),
          )
    ]
