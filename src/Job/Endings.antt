-- ===== src/Job/Endings.antt =====
-- The operations that take a job away from a device (src/nova_voice/companion/jobs.py, `complete` to
-- `reclaim`).
use nova_voice.Base.{ℕ, String, Bool, true, false, not, ◌||◌, Option, none, some, if◌then◌else◌}
use nova_voice.Job.Record.{
  State, queued, falling_back, expired, AttemptOutcome, timeout, disconnected, JobRecord,
}
use nova_voice.Job.Attempts.{
  Outcome, kept, moved, move_to, lease_expired, is_terminal, present, end_if_given, end_current,
  owns,
}

-- 1.0 in millionths
abbrev pub whole : ℕ
whole = 1000000

unfoldable pub disowned : JobRecord → Option String → Bool
unfolding owns
disowned r none = false
disowned r (some name) = not (owns r name)

unfoldable pub complete : JobRecord → Option String → String → (t1 t2 : ℕ) → Outcome
unfolding disowned present end_if_given move_to
complete r name reference t1 t2 =
    if disowned r name
    then kept
    else move_to r State.completed
        (record r {
          attempts = end_if_given r.attempts (present name) AttemptOutcome.completed none t1;
          result_ref = some reference;
          lease_owner = none;
          lease_expires_at = none;
          progress_stage = "completed";
          progress_fraction = some whole;
        })
        t2

unfoldable pub fall_back : JobRecord → String → Option String → (t1 t2 : ℕ) → Outcome
unfolding present end_if_given move_to
fall_back r reason name t1 t2 =
    move_to r falling_back
      (record r {
        attempts = end_if_given r.attempts (present name) AttemptOutcome.failed (some reason) t1;
        local_fallback = true;
        lease_owner = none;
        lease_expires_at = none;
        failure_detail = some reason;
        progress_stage = "falling_back";
      })
      t2

unfoldable pub fail : JobRecord → String → Option String → Option String → (t1 t2 : ℕ) → Outcome
unfolding present end_if_given move_to
fail r code detail name t1 t2 =
    move_to r State.failed
      (record r {
        attempts = end_if_given r.attempts (present name) AttemptOutcome.failed detail t1;
        failure_code = some code;
        failure_detail = detail;
        lease_owner = none;
        lease_expires_at = none;
        progress_stage = "failed";
      })
      t2

unfoldable pub cancel : JobRecord → String → (t1 t2 : ℕ) → Outcome
unfolding end_current move_to
cancel r reason t1 t2 =
    move_to r State.cancelled
      (record r {
        attempts = end_current r AttemptOutcome.cancelled (some reason) t1;
        failure_detail = some reason;
        lease_owner = none;
        lease_expires_at = none;
        progress_stage = "cancelled";
      })
      t2

unfoldable pub expire : JobRecord → (t1 t2 : ℕ) → Outcome
unfolding end_current move_to
expire r t1 t2 =
    move_to r expired
      (record r {
        attempts = end_current r timeout (some "deadline elapsed") t1;
        failure_code = some "deadline";
        lease_owner = none;
        lease_expires_at = none;
        progress_stage = "expired";
      })
      t2

unfoldable pub reclaim : JobRecord → (now t1 t2 : ℕ) → Outcome
unfolding lease_expired is_terminal end_current
reclaim r now t1 t2 =
    if not (lease_expired r now) || is_terminal r.status
    then kept
    else moved (record r {
      status = queued;
      attempts = end_current r disconnected (some "lease expired") t1;
      lease_owner = none;
      lease_expires_at = none;
      progress_stage = "queued";
      updated_at = t2;
    })
