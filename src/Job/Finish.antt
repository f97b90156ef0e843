-- ===== src/Job/Finish.antt =====
-- How a job comes to its end: what a completion needs, the one-way fallback, and the attempts that
-- an end leaves open.
use nova_voice.Base.{ℕ, ◌≡◌, Bool, true, false, none, some, List, [], ◌∷◌, arith, exists, ◌⊎◌}
use nova_voice.Job.Record.{State, queued, falling_back, AttemptOutcome, JobRecord}
use nova_voice.Job.Attempts.{present}
use nova_voice.Job.History
use nova_voice.Job.History.{open_count}
use nova_voice.Job.Events.{Event, run, result, Delivery, run_all}
use nova_voice.Job.Ownership.{end_if_given-le, end_current-closes}

-- The events that put the work in somebody's hands.
abbrev pub is_work : Event → Bool
is_work (Event.start _) = true
is_work (Event.resume _) = true
is_work (Event.fall_back _ _) = true
is_work _ = false

abbrev unworked : State → Bool
unworked queued = true
unworked State.offered = true
unworked State.accepted = true
unworked State.cancelled = true
unworked State.expired = true
unworked _ = false

run-unworked :
    (e : Event) (t1 t2 : ℕ) (r : JobRecord)
    → is_work e ≡ false
    → unworked r.status ≡ true
    → unworked (result r (run e t1 t2 r)).status ≡ true
unfolding run
run-unworked (Event.offer n s l d) t1 t2 r w h = ground arith
run-unworked _ t1 t2 r w h = ground arith

run_all-unworked :
    (ds : List Delivery) (r : JobRecord)
    → exists (λ d. is_work d.event) ds ≡ false
    → unworked r.status ≡ true
    → unworked (run_all ds r).status ≡ true
unfolding run_all
run_all-unworked [] r w h = h
run_all-unworked (d ∷ ds) r w h =
    run_all-unworked ds (result r (run d.event d.t1 d.t2 r)) (ground arith)
      (run-unworked d.event d.t1 d.t2 r (ground arith) h)

-- A queued job is completed or failed only after operations among which a device started or
-- resumed it, or it fell back to be run locally.
completed_needs_work :
    (ds : List Delivery) (r : JobRecord)
    → r.status ≡ queued
    → ((run_all ds r).status ≡ State.completed) ⊎ ((run_all ds r).status ≡ State.failed)
    → exists (λ d. is_work d.event) ds ≡ true
completed_needs_work ds r q h = ground (arith, run_all-unworked ds r)

-- The states of a job that has been handed to the local fallback.
abbrev pub is_local : State → Bool
is_local falling_back = true
is_local State.completed = true
is_local State.failed = true
is_local State.cancelled = true
is_local _ = false

-- Handed over to the local fallback, with every attempt closed.
pub record IsHandedOver (r : JobRecord) : Type 0 where
  pub stage : is_local r.status ≡ true
  pub flagged : r.local_fallback ≡ true
  pub unleased : (r.lease_owner ≡ none) × (r.lease_expires_at ≡ none)
  pub closed : open_count r.attempts ≡ 0

run-IsHandedOver :
    (e : Event) (t1 t2 : ℕ) (r : JobRecord)
    → IsHandedOver r
    → IsHandedOver (result r (run e t1 t2 r))
unfolding run
run-IsHandedOver (Event.offer n s l d) t1 t2 r h = ground arith
run-IsHandedOver (Event.complete n reference) t1 t2 r h =
    ground (arith, end_if_given-le AttemptOutcome.completed none t1 r.attempts (present n))
run-IsHandedOver (Event.fall_back reason n) t1 t2 r h =
    ground (arith, end_if_given-le AttemptOutcome.failed (some reason) t1 r.attempts (present n))
run-IsHandedOver (Event.fail code d n) t1 t2 r h =
    ground (arith, end_if_given-le AttemptOutcome.failed d t1 r.attempts (present n))
run-IsHandedOver (Event.cancel reason) t1 t2 r h =
    ground (arith, end_current-closes AttemptOutcome.cancelled (some reason) t1 r)
run-IsHandedOver _ t1 t2 r h = ground (arith, History.last_open-none r.attempts)

-- The fallback is one-way: a job that was handed over with its attempts closed is never queued,
-- offered or leased to a device again, whatever operations arrive.
pub run_all-IsHandedOver :
    (ds : List Delivery) (r : JobRecord) → IsHandedOver r → IsHandedOver (run_all ds r)
unfolding run_all
run_all-IsHandedOver [] r h = h
run_all-IsHandedOver (d ∷ ds) r h =
    run_all-IsHandedOver ds (result r (run d.event d.t1 d.t2 r))
      (run-IsHandedOver d.event d.t1 d.t2 r h)
