-- ===== src/Job/Validity.antt =====
-- The records that the operations write pass the validators of the models
-- (src/nova_voice/durable/models.py).
use nova_voice.Base.{ℕ, ◌≤◌, String, ◌≡◌, true, Option, none, some, List, [], ◌∷◌, arith}
use nova_voice.Job.Record.{rejected, timeout, disconnected, AttemptOutcome, Attempt, JobRecord}
use nova_voice.Job.Attempts.{last_open, end_attempt, end_current, end_if_given, present}
use nova_voice.Job.Validators.{valid, valid_attempts, distinct_ids}
use nova_voice.Job.History
use nova_voice.Job.Moves.{new_attempt}
use nova_voice.Job.Events.{Event, run, result, Delivery, run_all}

-- A record that passes its validators, last written no later than `t`.
pub record IsConsistent (t : ℕ) (r : JobRecord) : Type 0 where
  pub valid_now : valid r ≡ true
  pub updated : r.updated_at ≤ t
  pub started : History.started_by t r.attempts ≡ true

-- Facts about a history that closing an attempt keeps.
record IsGoodHistory (t : ℕ) (l : List Attempt) : Type 0 where
  attempts : valid_attempts l ≡ true
  distinct : distinct_ids l ≡ true
  started : History.started_by t l ≡ true

module _ (t : ℕ) (o : AttemptOutcome) (d : Option String) where
  end_attempt-good :
      (l : List Attempt) (n : String) → IsGoodHistory t l → IsGoodHistory t (end_attempt l n o d t)
  end_attempt-good l n g = record {
    attempts = History.valid_attempts-end_attempt n o d t l g.attempts g.started;
    distinct = rw History.distinct-end_attempt g.distinct;
    started = rw History.started_by-end_attempt g.started;
  }

  end_current-good :
      (r : JobRecord) → IsGoodHistory t r.attempts → IsGoodHistory t (end_current r o d t)
  unfolding end_current
  end_current-good r g =
      elim (last_open r.attempts)
        as (λ x.
          IsGoodHistory t
            (elim x [ none ↦ r.attempts | some a ↦ end_attempt r.attempts a.attempt_id o d t ])) [
              | none ↦ g
              | some a ↦ end_attempt-good r.attempts a.attempt_id g
            ]

  end_if_given-good :
      (l : List Attempt) (n : Option String)
      → IsGoodHistory t l
      → IsGoodHistory t (end_if_given l n o d t)
  unfolding end_if_given
  end_if_given-good l none g = g
  end_if_given-good l (some n) g = end_attempt-good l n g

good_of_consistent :
    (t u : ℕ) (r : JobRecord) → IsConsistent t r → t ≤ u → IsGoodHistory u r.attempts
unfolding valid
good_of_consistent t u r h le = record {
  attempts = ground (arith, h.valid_now);
  distinct = ground (arith, h.valid_now);
  started = History.started_by_mono t u r.attempts le h.started;
}

module _ {t : ℕ} (t1 t2 : ℕ) (le1 : t ≤ t1) (le2 : t1 ≤ t2) (r : JobRecord)
    (h : IsConsistent t r) where
  good : IsGoodHistory t1 r.attempts
  good = good_of_consistent t t1 r h le1

  good_later : (l : List Attempt) → IsGoodHistory t1 l → IsGoodHistory t2 l
  good_later l g = record {
    attempts = g.attempts;
    distinct = g.distinct;
    started = History.started_by_mono t1 t2 l le2 g.started;
  }

  run-IsConsistent : (e : Event) → IsConsistent t2 (result r (run e t1 t2 r))
  unfolding run valid
  run-IsConsistent (Event.offer n session lease d) =
      let a = new_attempt n session t1 in
      ground (
        arith,
        h.valid_now,
        h.updated,
        good_later r.attempts good,
        History.distinct-append r.attempts a,
        History.valid_attempts-append r.attempts a,
        History.started_by-append t2 r.attempts a,
      )
  run-IsConsistent (Event.reject n reason) = ground (
    arith,
    h.valid_now,
    h.updated,
    good_later r.attempts good,
    good_later _ (end_attempt-good t1 rejected (some reason) r.attempts n good),
  )
  run-IsConsistent (Event.complete n reference) = ground (
    arith,
    h.valid_now,
    h.updated,
    good_later r.attempts good,
    good_later _ (end_if_given-good t1 AttemptOutcome.completed none r.attempts (present n) good),
  )
  run-IsConsistent (Event.fall_back reason n) = ground (
    arith,
    h.valid_now,
    h.updated,
    good_later r.attempts good,
    good_later _
        (end_if_given-good t1 AttemptOutcome.failed (some reason) r.attempts (present n) good),
  )
  run-IsConsistent (Event.fail code d n) = ground (
    arith,
    h.valid_now,
    h.updated,
    good_later r.attempts good,
    good_later _ (end_if_given-good t1 AttemptOutcome.failed d r.attempts (present n) good),
  )
  run-IsConsistent (Event.cancel reason) = ground (
    arith,
    h.valid_now,
    h.updated,
    good_later r.attempts good,
    good_later _ (end_current-good t1 AttemptOutcome.cancelled (some reason) r good),
  )
  run-IsConsistent Event.expire = ground (
    arith,
    h.valid_now,
    h.updated,
    good_later r.attempts good,
    good_later _ (end_current-good t1 timeout (some "deadline elapsed") r good),
  )
  run-IsConsistent (Event.reclaim now) = ground (
    arith,
    h.valid_now,
    h.updated,
    good_later r.attempts good,
    good_later _ (end_current-good t1 disconnected (some "lease expired") r good),
  )
  run-IsConsistent _ = ground (arith, h.valid_now, h.updated, good_later r.attempts good)

-- The clock does not run backwards: each operation reads it no earlier than the one before.
abbrev pub InOrder : ℕ → List Delivery → Type 0
InOrder t [] = Unit
InOrder t (d ∷ ds) = (t ≤ d.t1) × (d.t1 ≤ d.t2) × InOrder d.t2 ds

abbrev pub last_reading : ℕ → List Delivery → ℕ
last_reading t [] = t
last_reading t (d ∷ ds) = last_reading d.t2 ds

-- A job that passes the validators of its models passes them after any operations whose clock does not
-- run backwards, although the operations copy records without validating them: the timestamps stay in
-- order, the attempts distinct and ended after they began, and the lease whole.
pub run_all-IsConsistent :
    (ds : List Delivery) (t : ℕ) (r : JobRecord)
    → InOrder t ds
    → IsConsistent t r
    → IsConsistent (last_reading t ds) (run_all ds r)
unfolding run_all
run_all-IsConsistent [] t r o h = h
run_all-IsConsistent (d ∷ ds) t r o h =
    run_all-IsConsistent ds d.t2 (result r (run d.event d.t1 d.t2 r)) o.2
      (run-IsConsistent d.t1 d.t2 o.0 o.1 r h d.event)
