-- ===== src/Ledger/Fallback.antt =====
-- `fall_back` where no other writer runs.
use nova_voice.Base.{
  ℕ, suc, ◌+◌, ◌≤◌, String, ◌≡◌, ◌≢◌, ◌∙◌, false, Option, none, some, arith, inl, inr,
  if◌then◌else◌, ◌==◌, eq_refl, Option-cases,
}
use nova_voice.Job.Record.{waiting_approval, falling_back, Attempt, AttemptOutcome, JobRecord}
use nova_voice.Job.Attempts.{moved, is_terminal, current_attempt, last_open, holds}
use nova_voice.Job.Endings
use nova_voice.Job.Events.{result}
use nova_voice.Job.History
use nova_voice.Job.History.{open_count}
use nova_voice.Job.Ownership.{end_attempt-closes}
use nova_voice.Job.Finish.{IsHandedOver}
use nova_voice.Durable.Store
use nova_voice.Durable.Store.{Stored}
use nova_voice.Durable.Laws.{DistinctRows}
use nova_voice.Ledger.Apply.{Db, job_id, returned, apply, Clock, fall_back, holder_name}
use nova_voice.Ledger.Alone.{nobody, apply_alone}

-- An attempt has a name that is not empty, as its record's field demands.
abbrev pub IsNamed : Option Attempt → Type 0
IsNamed none = Unit
IsNamed (some a) = (a.attempt_id == "") ≡ false

handed : Clock → String → JobRecord → JobRecord
handed clock reason r =
    result r (
      Endings.fall_back r reason (holder_name (current_attempt r)) (clock.first 0) (clock.second 0))

module _ (clock : Clock) (reason : String) (r : JobRecord) (live : is_terminal r.status ≡ false)
    (no_approval : r.status ≢ waiting_approval) (ours : r.status ≢ falling_back) where
  fall_back_moves :
      Endings.fall_back r reason (holder_name (current_attempt r)) (clock.first 0) (clock.second 0)
      ≡ moved (handed clock reason r)
  unfolding handed Endings.fall_back is_terminal
  fall_back_moves = ground arith

  handed_closed :
      open_count r.attempts ≤ 1
      → IsNamed (current_attempt r)
      → open_count (handed clock reason r).attempts ≡ 0
  unfolding handed Endings.fall_back is_terminal current_attempt holds
  handed_closed one n = elim (Option-cases (last_open r.attempts)) [
    | inl e ↦ ground (arith, History.open_count-zero r.attempts)
    | inr (a, e) ↦ ground (
      arith,
      n,
      eq_refl a.attempt_id,
      end_attempt-closes AttemptOutcome.failed (some reason) (clock.first 0) r.attempts
          a.attempt_id,
    )
  ]

  handed-IsHandedOver :
      open_count r.attempts ≤ 1 → IsNamed (current_attempt r) → IsHandedOver (handed clock reason r)
  unfolding handed Endings.fall_back is_terminal
  handed-IsHandedOver one n = record {
    stage = ground arith;
    flagged = ground arith;
    unleased = ground arith;
    closed = handed_closed one n;
  }

  handed_status : (handed clock reason r).status ≡ falling_back
  unfolding handed Endings.fall_back is_terminal
  handed_status = ground arith

  handed-id : (handed clock reason r).id ≡ r.id
  unfolding handed Endings.fall_back is_terminal
  handed-id = ground arith

-- On a job that has not ended the call is one `apply`.
fall_back_applies :
    (clock : Clock) (retries : ℕ) (name reason : String) (db : Db) (row : Stored JobRecord)
    → Store.get job_id db name ≡ some row
    → is_terminal row.value.status ≡ false
    → fall_back nobody clock retries name reason db
      ≡ apply nobody
          (λ n job.
            Endings.fall_back job reason
              (holder_name (current_attempt row.value))
              (clock.first n)
              (clock.second n))
          name
          retries
          db
unfolding fall_back
fall_back_applies clock retries name reason db row f live = rw (f, fall_back, live)

-- With nobody else writing, `fall_back` on a job that has not ended, does not wait for an approval
-- and has not fallen back before makes one write, after which the job is handed over: it falls
-- back under the flag, its lease is gone and its attempts are closed. Every other row is as it was.
fall_back_hands_over :
    (clock : Clock) (retries : ℕ) (name reason : String) (db : Db) (row : Stored JobRecord)
    → DistinctRows job_id db.rows
    → Store.get job_id db name ≡ some row
    → is_terminal row.value.status ≡ false
    → row.value.status ≢ waiting_approval
    → row.value.status ≢ falling_back
    → open_count row.value.attempts ≤ 1
    → IsNamed (current_attempt row.value)
    → (db' : Db) × (r : JobRecord) × (fall_back nobody clock (suc retries) name reason db
        ≡ (returned (some r), db'))
      × (r.status ≡ falling_back)
      × IsHandedOver r
      × ((j : String)
          → Store.get job_id db' j ≡ (
              if name == j
              then some (record { value = r; revision = row.revision + 1 })
              else Store.get job_id db j))
fall_back_hands_over clock retries name reason db row d f live na nf one named =
    let r = row.value in
    let transition = λ (n : ℕ) (job : JobRecord).
      Endings.fall_back job reason (holder_name (current_attempt r)) (clock.first n)
        (clock.second n) in
    let (db', a, d', g) =
      apply_alone transition name retries db row f (handed clock reason r) d
        (fall_back_moves clock reason r live na nf) (handed-id clock reason r live na nf) in
    (
      db',
      handed clock reason r,
      fall_back_applies clock (suc retries) name reason db row f live ∙ a,
      handed_status clock reason r live na nf,
      handed-IsHandedOver clock reason r live na nf one named,
      g,
    )
