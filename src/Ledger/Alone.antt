-- ===== src/Ledger/Alone.antt =====
-- `apply` where no other writer runs.
use nova_voice.Base.{
  ℕ, suc, ◌+◌, String, ◌≡◌, sym, ◌∙◌, true, some, arith, inl, inr, if◌then◌else◌, ◌==◌,
}
use mathlib.Core.Bool.{false≢true}
use nova_voice.Job.Record.{State, JobRecord}
use nova_voice.Job.Attempts.{Outcome, kept, moved, illegal}
use nova_voice.Durable.Store
use nova_voice.Durable.Store.{Stored, Database, Written, written, conflict, duplicate}
use nova_voice.Durable.Laws.{DistinctRows, at_revision, get-save, find_row-key}
use nova_voice.Ledger.Apply.{Db, job_id, returned, raised, apply, attempt_loop}

abbrev pub nobody : ℕ → Db → Db
nobody n db = db

module _ (transition : ℕ → JobRecord → Outcome) (name : String) (retries : ℕ) (db : Db)
    (row : Stored JobRecord) (found : Store.get job_id db name ≡ some row) where
  pub get-key : row.value.id ≡ name
  unfolding Store.get
  get-key = find_row-key job_id db.rows name row found

  loop_writes :
      (r : JobRecord) (db' : Db)
      → transition 0 row.value ≡ moved r
      → Store.save job_id db r row.revision "system" ≡ written db'
      → apply nobody transition name (suc retries) db ≡ (returned (some r), db')
  unfolding apply
  loop_writes r db' t w = rw (found, attempt_loop, t, w)

  at_own_revision :
      (r : JobRecord)
      → r.id ≡ row.value.id
      → at_revision (Store.get job_id db r.id) row.revision ≡ true
  at_own_revision r k = rw (k ∙ get-key, found) (ground arith)

  -- With a try to spend and nobody else writing, a move is written at once: the reply is the moved
  -- record, it stands under the job's name at the next revision, and all else is as it was.
  pub apply_alone :
      (r : JobRecord)
      → DistinctRows job_id db.rows
      → transition 0 row.value ≡ moved r
      → r.id ≡ row.value.id
      → (db' : Db) × (apply nobody transition name (suc retries) db ≡ (returned (some r), db'))
        × DistinctRows job_id db'.rows
        × ((j : String)
            → Store.get job_id db' j ≡ (
                if name == j
                then some (record { value = r; revision = row.revision + 1 })
                else Store.get job_id db j))
  apply_alone r d t k = elim (get-save job_id db r row.revision "system" d) [
    | inl (_, (db', w, d', g)) ↦ (db', loop_writes r db' t w, d', λ j. rw (← (k ∙ get-key)) (g j))
    | inr (at, _) ↦ absurd (false≢true (sym at ∙ at_own_revision r k))
  ]

  -- A transition that keeps the record writes nothing.
  pub apply_kept :
      transition 0 row.value ≡ kept
      → apply nobody transition name (suc retries) db ≡ (returned (some row.value), db)
  unfolding apply
  apply_kept t = rw (found, attempt_loop, t)

  -- A refused transition is raised and writes nothing.
  pub apply_illegal :
      (from to : State)
      → transition 0 row.value ≡ illegal from to
      → apply nobody transition name (suc retries) db ≡ (raised from to, db)
  unfolding apply
  apply_illegal from to t = rw (found, attempt_loop, t)
