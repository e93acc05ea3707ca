-- ===== src/Registry/Silence.antt =====
-- `reap_stale`: which workers it marks, and what the others become.
use mathlib.Core.List.{append-nil, append_assoc}
use agentic_gpu_platform.Shared.{
  Bool, false, true, ltb, ◌+◌, Bool-cases, Has, List, Option, [], arith, by, get as get_value,
  get-put, if◌then◌else◌, inl, inr, map, none, put, refl, select, some, sorted, sorted-Has,
  Has-sorted, sym, ℕ, ap, ==_iff, subst, Option-cases, ◌&&◌, ◌++◌, ◌==◌, ◌∷◌, ◌≡◌, ◌⊎◌, ◌∙◌, ◌≢◌,
  here, there,
}
use agentic_gpu_platform.Enums.{WorkerStatus}
use agentic_gpu_platform.Worker
use agentic_gpu_platform.Worker.{Worker}
use agentic_gpu_platform.Registry.Consistency.{IsKeyed, nothing, one_more}
use agentic_gpu_platform.Registry.{
  Registry, copy_worker, is_due, reap_all, reap_one, reap_stale, reaped, sorted_workers,
}

-- A worker that has not been given up yet.
unfoldable pub not_given_up : WorkerStatus → Bool
not_given_up s = elim s [ WorkerStatus.offline ↦ false | WorkerStatus.unhealthy ↦ false | _ ↦ true ]

-- What is to be registered for a worker: where it was not given up and its last heartbeat lies longer
-- ago than the time out, it is offline, and without events; else it is as it was.
unfoldable pub after_silence : (now heartbeat_timeout : ℕ) → Worker → Worker
unfolding not_given_up
after_silence now heartbeat_timeout w =
    if not_given_up w.status && ltb (w.last_heartbeat_at + heartbeat_timeout) now
    then record w { status = WorkerStatus.offline; events = [] }
    else w

-- What a round of the loop registers for it.
unfoldable after_round : (now heartbeat_timeout : ℕ) → Worker → Worker
after_round now heartbeat_timeout w =
    if is_due now heartbeat_timeout w then copy_worker (reaped now w) else w

after_round_lem :
    (now heartbeat_timeout : ℕ) (w : Worker)
    → after_round now heartbeat_timeout w ≡ after_silence now heartbeat_timeout w
unfolding after_round after_silence not_given_up is_due reaped copy_worker Worker.mark_unavailable
    Worker.transition Worker.is_stale
after_round_lem now heartbeat_timeout w = ground arith

abbrev pub after_silence? : (now heartbeat_timeout : ℕ) → Option Worker → Option Worker
after_silence? now heartbeat_timeout none = none
after_silence? now heartbeat_timeout (some w) = some (after_silence now heartbeat_timeout w)

pub reaped-id : (now : ℕ) (w : Worker) → (reaped now w).id ≡ w.id
unfolding reaped copy_worker Worker.mark_unavailable Worker.transition
reaped-id now w = ground arith

-- A marked worker is not live.
after_round-quiet :
    (now heartbeat_timeout : ℕ) (w : Worker)
    → is_due now heartbeat_timeout (after_round now heartbeat_timeout w) ≡ false
unfolding after_round is_due reaped copy_worker Worker.mark_unavailable Worker.transition
after_round-quiet now heartbeat_timeout w = ground arith

module _ (now heartbeat_timeout : ℕ) where
  -- What a round of the loop makes of the entry `j`.
  settle_one : (j : ℕ) → Option Worker → Worker → Option Worker
  settle_one j o s =
      if s.id == j && is_due now heartbeat_timeout s then some (copy_worker (reaped now s)) else o

  settle : (j : ℕ) → Option Worker → List Worker → Option Worker
  settle j o [] = o
  settle j o (s ∷ ws) = settle j (settle_one j o s) ws

  get-reap_one :
      (j : ℕ) (r : Registry) (out : List Worker) (s : Worker)
      → get_value j (reap_one now heartbeat_timeout (r, out) s).0 ≡ settle_one j (get_value j r) s
  unfolding reap_one settle_one
  get-reap_one j r out s =
      ground (arith, reaped-id now s, get-put (reaped now s).id j (copy_worker (reaped now s)) r)

  get-reap_all :
      (j : ℕ) (r : Registry) (out : List Worker) (ws : List Worker)
      → get_value j (reap_all now heartbeat_timeout (r, out) ws).0 ≡ settle j (get_value j r) ws
  unfolding reap_all settle
  get-reap_all j r out [] = refl
  get-reap_all j r out (s ∷ ws) =
      let (r', out') = reap_one now heartbeat_timeout (r, out) s in
      rw (← get-reap_one j r out s) (get-reap_all j r' out' ws)

  settle-none :
      (j : ℕ) (o : Option Worker) (ws : List Worker)
      → ((s : Worker) → Has s ws → s.id ≢ j)
      → settle j o ws ≡ o
  unfolding settle settle_one
  settle-none j o [] absent = refl
  settle-none j o (s ∷ ws) absent =
      ground (arith, absent s (here refl), settle-none j o ws (λ t h. absent t (there h)))

  settle_one_self :
      (w : Worker) → settle_one w.id (some w) w ≡ some (after_round now heartbeat_timeout w)
  unfolding settle_one after_round
  settle_one_self w = ground arith

  settle_one-after :
      (w s : Worker)
      → (s.id ≡ w.id → s ≡ w)
      → settle_one w.id (some (after_round now heartbeat_timeout w)) s
        ≡ some (after_round now heartbeat_timeout w)
  unfolding settle_one after_round
  settle_one-after w s only = ground arith

  settle_one-stays :
      (w s : Worker)
      → (s.id ≡ w.id → s ≡ w)
      → (settle_one w.id (some w) s ≡ some w)
        ⊎ (settle_one w.id (some w) s ≡ some (after_round now heartbeat_timeout w))
  unfolding settle_one after_round
  settle_one-stays w s only = ground arith

  settle-after :
      (w : Worker) (ws : List Worker)
      → ((s : Worker) → Has s ws → s.id ≡ w.id → s ≡ w)
      → settle w.id (some (after_round now heartbeat_timeout w)) ws
        ≡ some (after_round now heartbeat_timeout w)
  unfolding settle
  settle-after w [] only = refl
  settle-after w (s ∷ ws) only =
      rw (settle_one-after w s (only s (here refl))) (settle-after w ws (λ t h. only t (there h)))

  settle-some :
      (w : Worker) (ws : List Worker)
      → ((s : Worker) → Has s ws → s.id ≡ w.id → s ≡ w)
      → Has w ws
      → settle w.id (some w) ws ≡ some (after_round now heartbeat_timeout w)
  unfolding settle
  settle-some w [] only m = elim m [ ]
  settle-some w (s ∷ ws) only (here q) =
      rw (q, settle_one_self w) (settle-after w ws (λ t h. only t (there h)))
  settle-some w (s ∷ ws) only (there m) = elim (settle_one-stays w s (only s (here refl))) [
    | inl e ↦ rw e (settle-some w ws (λ t h. only t (there h)) m)
    | inr e ↦ rw e (settle-after w ws (λ t h. only t (there h)))
  ]

after_silence-quiet :
    (now heartbeat_timeout : ℕ) (w : Worker)
    → is_due now heartbeat_timeout (after_silence now heartbeat_timeout w) ≡ false
after_silence-quiet now heartbeat_timeout w =
    rw (← after_round_lem now heartbeat_timeout w) (after_round-quiet now heartbeat_timeout w)

IsKeyed-get :
    (r : Registry)
    → IsKeyed r
    → (k : ℕ) (w : Worker) → Has (k, w) r
    → (get_value k r ≡ some w) × (w.id ≡ k)
unfolding get_value
IsKeyed-get r nothing k w m = elim m [ ]
IsKeyed-get r (one_more i v rest e quiet fresh good) k w (here q) =
    ground (arith, ap (λ p. p.0) q, ap (λ p. p.1) q)
IsKeyed-get r (one_more i v rest e quiet fresh good) k w (there m) =
    let found = IsKeyed-get rest good k w m in ground (arith, found.0, found.1)

get-Has : (k : ℕ) (r : Registry) (w : Worker) → get_value k r ≡ some w → Has (k, w) r
unfolding get_value
get-Has k [] w h = absurd (ground arith)
get-Has k ((i, v) ∷ r) w h = elim (Bool-cases (i == k)) [
  | inl e ↦ let same : some v ≡ some w = rw e at h in here (cc ((==_iff i k).0 e, same))
  | inr e ↦ there (get-Has k r w (rw e at h))
]

Has-map {ℓ κ} :
    {A : Type ℓ} {B : Type κ} (f : A → B) (xs : List A) {a : A} → Has a xs → Has (f a) (map f xs)
Has-map f [] h = elim h [ ]
Has-map f (x ∷ xs) (here q) = here (ap f q)
Has-map f (x ∷ xs) (there m) = there (Has-map f xs m)

map-Has {ℓ κ} :
    {A : Type ℓ} {B : Type κ} (f : A → B) (xs : List A) {b : B}
    → Has b (map f xs)
    → (a : A) × Has a xs × (f a ≡ b)
map-Has f [] h = elim h [ ]
map-Has f (x ∷ xs) (here q) = (x, here refl, q)
map-Has f (x ∷ xs) (there m) = let (a, h, e) = map-Has f xs m in (a, there h, e)

sorted_workers-Has :
    (r : Registry) (k : ℕ) (w : Worker) → get_value k r ≡ some w → Has w (sorted_workers r)
unfolding sorted_workers
sorted_workers-Has r k w h =
    Has-map (λ e. e.1) (sorted (by (λ e. e.0)) r) (sorted-Has (by (λ e. e.0)) r (get-Has k r w h))

sorted_workers-get :
    (r : Registry) (w : Worker) → IsKeyed r → Has w (sorted_workers r) → get_value w.id r ≡ some w
unfolding sorted_workers
sorted_workers-get r w good m =
    let (e, h, q) = map-Has (λ e. e.1) (sorted (by (λ e. e.0)) r) m in
    let found = IsKeyed-get r good e.0 e.1 (Has-sorted (by (λ e. e.0)) r h) in
    subst (λ v. get_value v.id r ≡ some v) q
      (subst (λ n. get_value n r ≡ some e.1) (sym found.1) found.0)

-- For a registry that holds every worker under its own identifier, after reap_stale every worker
-- is registered as it was, or, where it was neither offline nor unhealthy and its last heartbeat lies
-- longer ago than the time out, offline and without events; no worker comes or goes.
pub get-reap_stale :
    (r : Registry) (now heartbeat_timeout : ℕ) (j : ℕ)
    → IsKeyed r
    → get_value j (reap_stale r now heartbeat_timeout).0
      ≡ after_silence? now heartbeat_timeout (get_value j r)
unfolding reap_stale
get-reap_stale r now heartbeat_timeout j good =
    let ws = sorted_workers r in
    let one = λ (s : Worker) (h : Has s ws) (q : s.id ≡ j).
      subst (λ n. get_value n r ≡ some s) q (sorted_workers-get r s good h) in
    get-reap_all now heartbeat_timeout j r [] ws ∙ (elim (Option-cases (get_value j r)) [
      | inl e ↦ rw e (settle-none now heartbeat_timeout j none ws (λ s h q. cc (e, one s h q)))
      | inr (w, e) ↦
          let own = (IsKeyed-get r good j w (get-Has j r w e)).1 in
          rw (e, ← own, ← after_round_lem now heartbeat_timeout w)
            (settle-some now heartbeat_timeout w ws (λ s h q. cc (e, one s h (q ∙ own)))
              (sorted_workers-Has r j w e))
    ])

-- After `reap_stale` no registered worker is live and silent for longer than the time out.
pub reap_stale-quiet :
    (r : Registry) (now heartbeat_timeout : ℕ) (j : ℕ) (w : Worker)
    → IsKeyed r
    → get_value j (reap_stale r now heartbeat_timeout).0 ≡ some w
    → is_due now heartbeat_timeout w ≡ false
reap_stale-quiet r now heartbeat_timeout j w good h = elim (Option-cases (get_value j r)) [
  | inl e ↦ absurd (cc (sym (get-reap_stale r now heartbeat_timeout j good) ∙ h, e))
  | inr (v, e) ↦
      let same = rw e at (sym (get-reap_stale r now heartbeat_timeout j good) ∙ h) in
      subst (λ u. is_due now heartbeat_timeout u ≡ false) (cc same)
        (after_silence-quiet now heartbeat_timeout v)
]

reap_all-out :
    (now heartbeat_timeout : ℕ) (r : Registry) (out : List Worker) (ws : List Worker)
    → (reap_all now heartbeat_timeout (r, out) ws).1
      ≡ out ++ map (reaped now) (select (is_due now heartbeat_timeout) ws)
unfolding reap_all reap_one select
reap_all-out now heartbeat_timeout r out [] = sym (append-nil out)
reap_all-out now heartbeat_timeout r out (s ∷ ws) =
    elim (Bool-cases (is_due now heartbeat_timeout s)) [
      | inl e ↦
          rw (reap_all, e)
            (reap_all-out now heartbeat_timeout
                (put (reaped now s).id (copy_worker (reaped now s)) r) (out ++ reaped now s ∷ []) ws
              ∙ append_assoc out (reaped now s ∷ []) _)
      | inr e ↦ rw (reap_all, e) (reap_all-out now heartbeat_timeout r out ws)
    ]

-- `reap_stale` returns the workers that it marked, in the order of their identifiers.
pub reap_stale-out :
    (r : Registry) (now heartbeat_timeout : ℕ)
    → (reap_stale r now heartbeat_timeout).1
      ≡ map (reaped now) (select (is_due now heartbeat_timeout) (sorted_workers r))
unfolding reap_stale
reap_stale-out r now heartbeat_timeout = reap_all-out now heartbeat_timeout r [] (sorted_workers r)
