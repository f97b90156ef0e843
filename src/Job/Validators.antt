-- ===== src/Job/Validators.antt =====
-- The validators of the job's records (src/nova_voice/durable/models.py), which run when a stored
-- record is read back, and not when an operation copies one. The checks that a timestamp carries a
-- time zone are left out: an instant of the model is one point in time. So are the limits that the
-- fields set on the lengths of texts and on the fraction of progress, which reading checks as well.
use nova_voice.Base.{
  ℕ, String, Bool, true, false, not, ◌&&◌, Option, none, some, List, [], ◌∷◌, leb,
}
use nova_voice.Job.Record.{Attempt, JobRecord}
use nova_voice.Job.Attempts.{has_attempt}

-- `require_utc_ordered_timestamps`
unfoldable pub ordered_timestamps : JobRecord → Bool
ordered_timestamps r =
    leb r.created_at r.updated_at && elim r.expires_at [ none ↦ true | some t ↦ leb r.created_at t ]

-- `validate_attempt`
unfoldable pub valid_attempt : Attempt → Bool
valid_attempt a = elim a.ended_at [ none ↦ true | some t ↦ leb a.started_at t ]

unfoldable pub valid_attempts : List Attempt → Bool
unfolding valid_attempt
valid_attempts [] = true
valid_attempts (a ∷ rest) = valid_attempt a && valid_attempts rest

-- `len(set(seen)) == len(seen)`
unfoldable pub distinct_ids : List Attempt → Bool
unfolding has_attempt
distinct_ids [] = true
distinct_ids (a ∷ rest) = not (has_attempt rest a.attempt_id) && distinct_ids rest

same_presence : Option String → Option ℕ → Bool
same_presence none none = true
same_presence (some _) (some _) = true
same_presence _ _ = false

-- `validate_companion_job`
unfoldable pub valid_job : JobRecord → Bool
unfolding distinct_ids same_presence
valid_job r = distinct_ids r.attempts && same_presence r.lease_owner r.lease_expires_at

-- The validators of a job and of its attempts together
unfoldable pub valid : JobRecord → Bool
unfolding ordered_timestamps valid_attempts valid_job
valid r = ordered_timestamps r && (valid_attempts r.attempts && valid_job r)
