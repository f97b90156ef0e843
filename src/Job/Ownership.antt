-- ===== src/Job/Ownership.antt =====
-- Who holds a job: one open attempt at most, and a lease exactly while a device works on it.
use nova_voice.Base.{
  ℕ, ◌≤◌, String, ◌≡◌, Bool, true, false, Option, none, some, List, [], ◌∷◌, arith, is_some, inl,
  inr, Option-cases, eq_refl,
}
use nova_voice.Job.Record.{
  State, queued, offered, running, waiting_tool, waiting_approval, rejected, timeout, disconnected,
  AttemptOutcome, Attempt, JobRecord,
}
use nova_voice.Job.Attempts.{
  last_open, end_attempt, end_current, end_if_given, is_open, present, holds,
}
use nova_voice.Job.History
use nova_voice.Job.History.{open_count}
use nova_voice.Job.Moves.{new_attempt}
use nova_voice.Job.Events.{Event, run, result, Delivery, run_all}

-- The states in which a device works on the job.
abbrev pub is_device : State → Bool
is_device offered = true
is_device State.accepted = true
is_device running = true
is_device waiting_tool = true
is_device waiting_approval = true
is_device _ = false

abbrev pub session_of : Option Attempt → Option String
session_of none = none
session_of (some a) = a.session_id

-- One attempt is open at most; a queued job has none; a lease is there exactly while a device
-- works on the job, and its owner is the session of the open attempt.
pub record IsHeld (r : JobRecord) : Type 0 where
  pub one_open : open_count r.attempts ≤ 1
  pub none_queued : r.status ≡ queued → open_count r.attempts ≡ 0
  pub leased : is_some r.lease_owner ≡ is_device r.status
  pub whole : is_some r.lease_owner ≡ is_some r.lease_expires_at
  pub holder : is_device r.status ≡ true → session_of (last_open r.attempts) ≡ r.lease_owner

module _ (o : AttemptOutcome) (d : Option String) (t : ℕ) where
  pub end_if_given-le :
      (l : List Attempt) (n : Option String) → open_count (end_if_given l n o d t) ≤ open_count l
  unfolding end_if_given
  end_if_given-le l none = omega arith
  end_if_given-le l (some n) = History.open_count-end_attempt_le n o d t l

  pub end_attempt-closes :
      (l : List Attempt) (n : String)
      → holds (last_open l) n ≡ true
      → open_count l ≤ 1
      → open_count (end_attempt l n o d t) ≡ 0
  unfolding holds
  end_attempt-closes l n h le = elim (Option-cases (last_open l)) [
    | inl e ↦ ground arith
    | inr (a, e) ↦ ground (arith, History.open_count-end_attempt_lt n o d t l a)
  ]

  pub end_current-closes :
      (r : JobRecord) → open_count r.attempts ≤ 1 → open_count (end_current r o d t) ≡ 0
  unfolding end_current
  end_current-closes r le = elim (Option-cases (last_open r.attempts)) [
    | inl e ↦ ground (arith, History.open_count-zero r.attempts)
    | inr (a, e) ↦ ground (
      arith,
      History.open_count-end_attempt_lt a.attempt_id o d t r.attempts a,
      eq_refl a.attempt_id,
    )
  ]

pub run-IsHeld :
    (e : Event) (t1 t2 : ℕ) (r : JobRecord) → IsHeld r → IsHeld (result r (run e t1 t2 r))
unfolding run
run-IsHeld (Event.offer n s l d) t1 t2 r h =
    let a = new_attempt n s t1 in
    unfold is_open in
    ground (arith, History.open_count-append r.attempts a, History.last_open-append r.attempts a)
run-IsHeld (Event.reject n reason) t1 t2 r h =
    ground (arith, end_attempt-closes rejected (some reason) t1 r.attempts n)
run-IsHeld (Event.complete n reference) t1 t2 r h =
    ground (arith, end_if_given-le AttemptOutcome.completed none t1 r.attempts (present n))
run-IsHeld (Event.fall_back reason n) t1 t2 r h =
    ground (arith, end_if_given-le AttemptOutcome.failed (some reason) t1 r.attempts (present n))
run-IsHeld (Event.fail code d n) t1 t2 r h =
    ground (arith, end_if_given-le AttemptOutcome.failed d t1 r.attempts (present n))
run-IsHeld (Event.cancel reason) t1 t2 r h =
    ground (arith, end_current-closes AttemptOutcome.cancelled (some reason) t1 r)
run-IsHeld Event.expire t1 t2 r h =
    ground (arith, end_current-closes timeout (some "deadline elapsed") t1 r)
run-IsHeld (Event.reclaim now) t1 t2 r h =
    ground (arith, end_current-closes disconnected (some "lease expired") t1 r)
run-IsHeld _ t1 t2 r h = ground arith

-- However operations arrive, no two attempts hold a job at once: one attempt is open at most, a
-- queued job has none, and the job is leased exactly while a device works on it, to the session
-- whose attempt is open.
pub run_all-IsHeld : (ds : List Delivery) (r : JobRecord) → IsHeld r → IsHeld (run_all ds r)
unfolding run_all
run_all-IsHeld [] r h = h
run_all-IsHeld (d ∷ ds) r h =
    run_all-IsHeld ds (result r (run d.event d.t1 d.t2 r)) (run-IsHeld d.event d.t1 d.t2 r h)
