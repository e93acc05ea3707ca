-- ===== src/Lease.antt =====
-- src/domain/value_objects/lease.py. Times are microseconds since the epoch (every datetime of the
-- program is timezone-aware), durations are microseconds. A token is opaque: a valid token is a
-- number, and the fresh one of `LeaseToken.generate` is an argument.
use agentic_gpu_platform.Shared.{Bool, Option, if◌then◌else◌, leb, ℕ, ◌&&◌, ◌+◌, ◌-◌, ◌==◌, ◌or◌}
use agentic_gpu_platform.Errors.{Result, ok, raise, value_error}

pub record Lease : Type 0 where
  pub job_id : ℕ
  pub holder : ℕ
  pub token : ℕ
  pub acquired_at : ℕ
  pub expires_at : ℕ

-- `Lease.__post_init__`, run on each new value.
unfoldable pub check : Lease → Result Lease
check l =
    if leb l.expires_at l.acquired_at
    then raise (value_error "lease must expire strictly after it was acquired")
    else ok l

unfoldable pub granted :
    (job_id holder now duration : ℕ) (token : Option ℕ) (generated : ℕ) → Result Lease
unfolding check
granted job_id holder now duration token generated = check (record {
  job_id = job_id;
  holder = holder;
  token = token or generated;
  acquired_at = now;
  expires_at = now + duration;
})

abbrev pub is_expired : Lease → (now : ℕ) → Bool
is_expired l now = leb l.expires_at now

-- `max(expires_at - now, 0)`
unfoldable pub remaining : Lease → (now : ℕ) → ℕ
remaining l now = l.expires_at - now

unfoldable pub renewed : Lease → (now duration : ℕ) → Result Lease
unfolding check
renewed l now duration =
    if is_expired l now
    then raise (value_error "an expired lease cannot be renewed; the job was reassigned")
    else check (record l { expires_at = now + duration })

unfoldable pub held_by : Lease → (worker_id token : ℕ) → Bool
held_by l worker_id token = l.holder == worker_id && l.token == token
