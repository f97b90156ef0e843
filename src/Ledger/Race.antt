-- ===== src/Ledger/Race.antt =====
-- `apply` against other writers: the write that it makes is decided on the record that it replaces.
use nova_voice.Base.{
  ℕ, zero, suc, ◌+◌, String, ◌≡◌, refl, sym, ◌∙◌, ap, true, Option, none, some, arith, Option-cases,
  inl, inr, ◌⊎◌,
}
use nova_voice.Job.Record.{State, JobRecord}
use nova_voice.Job.Attempts.{Outcome, kept, moved, illegal}
use nova_voice.Durable.Store
use nova_voice.Durable.Store.{Stored, Database, Written, written, conflict, duplicate}
use nova_voice.Durable.Laws.{DistinctRows, at_revision, get-save, find_row-key}
use nova_voice.Ledger.Apply.{Db, job_id, Reply, returned, attempt_loop, apply}

-- What other writers respect: they too write through the store, so a row that is back at the same
-- revision is the same row, and keys stay distinct.
pub record Respects (others : ℕ → Db → Db) : Type 0 where
  pub revisions :
      (n : ℕ) (db : Db) (name : String) (a b : Stored JobRecord)
      → Store.get job_id db name ≡ some a
      → Store.get job_id (others n db) name ≡ some b
      → a.revision ≡ b.revision
      → a ≡ b
  pub distinct :
      (n : ℕ) (db : Db) → DistinctRows job_id db.rows → DistinctRows job_id (others n db).rows

-- The databases that other writers alone make of one.
pub data Elsewhere (others : ℕ → Db → Db) (db : Db) : Db → Type 0 where
  here : Elsewhere others db db
  next : {mid : Db} → Elsewhere others db mid → (n : ℕ) → Elsewhere others db (others n mid)

at_revision-some :
    (o : Option (Stored JobRecord)) (n : ℕ)
    → at_revision o n ≡ true
    → (b : Stored JobRecord) × (o ≡ some b) × (b.revision ≡ n)
at_revision-some none n h = cc
at_revision-some (some b) n h = (b, refl, ground arith)

Outcome-cases :
    (o : Outcome)
    → (o ≡ kept)
      ⊎ ((from : State) × (to : State) × (o ≡ illegal from to))
      ⊎ ((r : JobRecord) × (o ≡ moved r))
Outcome-cases kept = inl refl
Outcome-cases (illegal from to) = inr (inl (from, to, refl))
Outcome-cases (moved r) = inr (inr (r, refl))

module _ (others : ℕ → Db → Db) (transition : ℕ → JobRecord → Outcome) (name : String) where
  -- How a call ends: it wrote nothing, and the database is what other writers made of it; or it
  -- made one write, at a moment when the row on record was the very one its transition decided on.
  pub data Ends (db : Db) : Reply × Db → Type 0 where
    left_alone : {reply : Reply} {db' : Db} → Elsewhere others db db' → Ends db (reply, db')
    wrote :
        {db' : Db} (try : ℕ) (mid : Db) (row : Stored JobRecord) (r : JobRecord)
        → Elsewhere others db mid
        → Store.get job_id mid name ≡ some row
        → transition try row.value ≡ moved r
        → Store.save job_id mid r row.revision "system" ≡ written db'
        → Ends db (returned (some r), db')

  module _ (respects : Respects others)
      (keeps_name : (n : ℕ) (r s : JobRecord) → transition n r ≡ moved s → s.id ≡ r.id) where
    get-key :
        (db : Db) (row : Stored JobRecord)
        → Store.get job_id db name ≡ some row
        → row.value.id ≡ name
    unfolding Store.get
    get-key db row p = find_row-key job_id db.rows name row p

    -- The row that a successful save replaces is the row that was read.
    unchanged :
        (n : ℕ) (db : Db) (row : Stored JobRecord) (r : JobRecord)
        → Store.get job_id db name ≡ some row
        → r.id ≡ row.value.id
        → at_revision (Store.get job_id (others n db) r.id) row.revision ≡ true
        → Store.get job_id (others n db) name ≡ some row
    unchanged n db row r p key at =
        let same : r.id ≡ name = key ∙ get-key db row p in
        let (b, q, e) = at_revision-some (Store.get job_id (others n db) r.id) row.revision at in
        let q' : Store.get job_id (others n db) name ≡ some b = rw (← same) q in
        q' ∙ ap some (sym (respects.revisions n db name row b p q' (sym e)))

    -- One try that writes, and what follows when it is lost.
    after_write :
        (start db : Db) (calls tries : ℕ) (row : Stored JobRecord) (r : JobRecord)
        (again : Reply × Db)
        → DistinctRows job_id db.rows
        → Elsewhere others start db
        → Store.get job_id db name ≡ some row
        → transition tries row.value ≡ moved r
        → Ends start again
        → (w : Written JobRecord) → Store.save job_id (others calls db) r row.revision "system" ≡ w
        → Ends start (elim w [
          | written db' ↦ (returned (some r), db')
          | conflict ↦ again
          | duplicate ↦ again
        ])
    after_write start db calls tries row r again d e p t rest (written db') s =
        elim (get-save job_id (others calls db) r row.revision "system"
          (respects.distinct calls db d)) [
            | inl (at, _) ↦
                wrote tries (others calls db) row r (next e calls)
                  (unchanged calls db row r p (keeps_name tries row.value r t) at) t s
            | inr (_, c) ↦ cc
          ]
    after_write start db calls tries row r again d e p t rest conflict s = rest
    after_write start db calls tries row r again d e p t rest duplicate s = rest

    loop-Ends :
        (left calls tries : ℕ) (start db : Db)
        → DistinctRows job_id db.rows
        → Elsewhere others start db
        → Ends start (attempt_loop others transition name left calls tries db)
    unfolding attempt_loop
    loop-Ends zero calls tries start db d e = left_alone (next e calls)
    loop-Ends (suc left) calls tries start db d e =
        let rest =
          loop-Ends left (calls + 2) (tries + 1) start (others (calls + 1) (others calls db))
            (respects.distinct (calls + 1) (others calls db) (respects.distinct calls db d))
            (next (next e calls) (calls + 1)) in
        elim (Option-cases (Store.get job_id db name)) [
          | inl p ↦ rw (p, attempt_loop) (left_alone (next e calls))
          | inr (row, p) ↦ elim (Outcome-cases (transition tries row.value)) [
            | inl k ↦ rw (p, attempt_loop, k) (left_alone (next e calls))
            | inr (inl (from, to, k)) ↦ rw (p, attempt_loop, k) (left_alone (next e calls))
            | inr (inr (r, k)) ↦
                rw (p, attempt_loop, k)
                  (after_write start db calls tries row r _ d e p k rest _ refl)
          ]
        ]

  -- Whatever other writers do between its calls, `apply` makes one write at most, and the
  -- transition that it writes was decided on the record that the write replaces. Otherwise the
  -- database is only what the others made of it. The transition must keep the job's id.
  pub apply_linearizes :
      (retries : ℕ) (db : Db)
      → Respects others
      → ((n : ℕ) (r s : JobRecord) → transition n r ≡ moved s → s.id ≡ r.id)
      → DistinctRows job_id db.rows
      → Ends db (apply others transition name retries db)
  unfolding apply
  apply_linearizes retries db respects keeps d = loop-Ends respects keeps retries 0 0 db db d here
