-- ===== src/Job/Identity.antt =====
-- What no operation on a job changes, and which moves the operations make.
use nova_voice.Base.{ℕ, ◌≡◌, Bool, true, false, ◌⊎◌, List, [], ◌∷◌, arith}
use nova_voice.Job.Record.{queued, JobRecord}
use nova_voice.Job.Attempts.{allows, moved}
use nova_voice.Job.Events.{Event, run, result, Delivery, run_all}

-- The question that a job answers, and the key under which it is answered.
pub record SameWork (r s : JobRecord) : Type 0 where
  pub id : r.id ≡ s.id
  pub workload : r.workload ≡ s.workload
  pub input_revision : r.input_revision ≡ s.input_revision
  pub idempotency_key : r.idempotency_key ≡ s.idempotency_key
  pub trace_id : r.trace_id ≡ s.trace_id
  pub sensitivity : r.sensitivity ≡ s.sensitivity
  pub locality : r.locality ≡ s.locality
  pub created_at : r.created_at ≡ s.created_at

run-SameWork : (e : Event) (t1 t2 : ℕ) (r : JobRecord) → SameWork r (result r (run e t1 t2 r))
unfolding run
run-SameWork (Event.offer n s l d) t1 t2 r = ground arith
run-SameWork _ t1 t2 r = ground arith

-- No sequence of operations, the hand-over to the local fallback included, changes what a job is
-- about: its identity, its input revision, its idempotency key, its trace and its class.
run_all-SameWork : (ds : List Delivery) (r : JobRecord) → SameWork r (run_all ds r)
unfolding run_all
run_all-SameWork [] r = ground arith
run_all-SameWork (d ∷ ds) r = ground (
  arith,
  run-SameWork d.event d.t1 d.t2 r,
  run_all-SameWork ds (result r (run d.event d.t1 d.t2 r)),
)

-- The operations that report without moving the job.
abbrev pub is_report : Event → Bool
is_report (Event.progress _ _ _ _ _) = true
is_report (Event.checkpoint _ _) = true
is_report _ = false

-- The operations that put the job back on the queue.
abbrev pub is_requeue : Event → Bool
is_requeue (Event.reject _ _) = true
is_requeue (Event.reclaim _) = true
is_requeue _ = false

-- Whatever the state and the event, an operation that changes the record follows an edge of the
-- transition table, or reports and leaves the state alone, or is a rejection or a reclaim, which
-- put the job on the queue.
run-moves :
    (e : Event) (t1 t2 : ℕ) (r s : JobRecord)
    → run e t1 t2 r ≡ moved s
    → (is_report e ≡ false) × (is_requeue e ≡ false) × (allows r.status s.status ≡ true)
      ⊎ (is_report e ≡ true) × (s.status ≡ r.status)
      ⊎ (is_requeue e ≡ true) × (s.status ≡ queued)
unfolding run
run-moves (Event.offer n s l d) t1 t2 r r' h = ground arith
run-moves _ t1 t2 r r' h = ground arith
