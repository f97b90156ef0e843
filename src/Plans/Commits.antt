-- ===== src/Plans/Commits.antt =====
-- That the acquisition of a lease commits exactly what `acquire` makes of a step and its execution
-- (src/nova_voice/durable/store.py, `acquire_execution_sync`).
use nova_voice.Base.{
  ◌+◌, ◌≡◌, refl, sym, subst, ◌∙◌, inl, inr, String, none, some, List, [], ◌∷◌, if◌then◌else◌, ◌==◌,
  eq_iff, eq_refl, arith, Bool-cases,
}
use nova_voice.Durable.Store
use nova_voice.Durable.Store.{Stored, Database, Written, written, conflict, duplicate, find_row}
use nova_voice.Durable.Laws.{DistinctRows, save_here, find_row-key}
use nova_voice.Plans.Records.{Step, Execution, step_id, execution_id, execution_key}
use nova_voice.Plans.Lease.{granted, Bid, acquire}
use nova_voice.Plans.Transactions.{World, committed, put_grant, key_of, acquire_execution}

-- A row that another column finds is the row of its own key.
find_row-other :
    {R : Type 0} (id other : R → String) (rows : List (Stored R)) (name : String) (row : Stored R)
    → DistinctRows id rows
    → find_row other rows name ≡ some row
    → find_row id rows (id row.value) ≡ some row
unfolding find_row
find_row-other id other [] name row d h = ground arith
find_row-other id other (first ∷ rest) name row d h =
    elim (Bool-cases (other first.value == name)) [
      | inl e ↦ let same : first ≡ row = ground arith in rw (← same, eq_refl (id first.value)) refl
      | inr e ↦
          let later = find_row-other id other rest name row d.1 (ground arith) in
          elim (Bool-cases (id first.value == id row.value)) [
            | inl x ↦
                let gone : find_row id rest (id row.value) ≡ none =
                  subst (λ z. find_row id rest z ≡ none)
                    ((eq_iff (id first.value) (id row.value)).0 x) d.0 in
                let never : none ≡ some row = sym gone ∙ later in cc (never)
            | inr x ↦ rw x later
          ]
    ]

acquire-ids :
    (s s' : Step) (e e' : Execution) (key : String) (b : Bid)
    → acquire s (some e) key b ≡ granted e' s'
    → (e'.id ≡ e.id) × (s'.id ≡ s.id)
unfolding acquire
acquire-ids s s' e e' key b h = ground arith

-- The transaction, by what its reads and writes give.
runs-acquire :
    (w : World) (step : String) (b : Bid) (row : Stored Step) (old : Stored Execution)
    (e : Execution) (s : Step) (edb : Database Execution) (sdb : Database Step)
    → Store.get step_id w.steps step ≡ some row
    → Store.get execution_key w.executions (key_of row.value) ≡ some old
    → acquire row.value (some old.value) (key_of row.value) b ≡ granted e s
    → Store.save execution_id w.executions e old.revision b.worker ≡ written edb
    → Store.save step_id w.steps s row.revision b.worker ≡ written sdb
    → acquire_execution w step b ≡ committed (some e) (record w { steps = sdb; executions = edb })
unfolding acquire_execution put_grant
runs-acquire w step b row old e s edb sdb fs fe g ew sw =
    rw (fs, acquire_execution) (rw (fe) (rw (g) (rw (put_grant, ew, sw) refl)))

-- Where a step has an execution and a lease of it is granted, the transaction commits: the step and the
-- execution become what was granted, each at the next revision, and every other row of the four
-- tables stays.
pub acquire_commits :
    (w : World) (step : String) (b : Bid) (row : Stored Step) (old : Stored Execution)
    (e : Execution) (s : Step)
    → DistinctRows step_id w.steps.rows
    → DistinctRows execution_id w.executions.rows
    → Store.get step_id w.steps step ≡ some row
    → Store.get execution_key w.executions (key_of row.value) ≡ some old
    → acquire row.value (some old.value) (key_of row.value) b ≡ granted e s
    → (w' : World) × (acquire_execution w step b ≡ committed (some e) w')
      × (w'.plans ≡ w.plans)
      × (w'.goals ≡ w.goals)
      × ((j : String)
          → Store.get step_id w'.steps j ≡ (
              if s.id == j
              then some (record { value = s; revision = row.revision + 1 })
              else Store.get step_id w.steps j))
      × ((j : String)
          → Store.get execution_id w'.executions j ≡ (
              if e.id == j
              then some (record { value = e; revision = old.revision + 1 })
              else Store.get execution_id w.executions j))
unfolding Store.get
acquire_commits w step b row old e s ds de fs fe g =
    let (eid, sid) = acquire-ids row.value s old.value e (key_of row.value) b g in
    let key : row.value.id ≡ step = find_row-key step_id w.steps.rows step row fs in
    let here : Store.get execution_id w.executions e.id ≡ some old =
      subst (λ x. Store.get execution_id w.executions x ≡ some old) (sym eid)
        (find_row-other execution_id execution_key w.executions.rows (key_of row.value) old de
          fe) in
    let there : Store.get step_id w.steps s.id ≡ some row =
      subst (λ x. Store.get step_id w.steps x ≡ some row) (sym (sid ∙ key)) fs in
    let (edb, ew, _, eg) = save_here execution_id w.executions old e b.worker de here in
    let (sdb, sw, _, sg) = save_here step_id w.steps row s b.worker ds there in
    (
      record w { steps = sdb; executions = edb },
      runs-acquire w step b row old e s edb sdb fs fe g ew sw,
      refl,
      refl,
      sg,
      eg,
    )
