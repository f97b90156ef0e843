-- ===== src/Ledger/Sweeping.antt =====
-- What a sweep does where no other writer runs.
use nova_voice.Base.{
  ℕ, suc, ◌+◌, String, ◌≡◌, true, false, Option, none, some, List, [], ◌∷◌, ◌++◌, arith,
  if◌then◌else◌, ◌==◌, eq_iff,
}
use nova_voice.Job.Record.{falling_back, expired, JobRecord}
use nova_voice.Job.Attempts.{is_terminal, lease_expired}
use nova_voice.Job.Endings
use nova_voice.Job.Events.{result}
use nova_voice.Durable.Store
use nova_voice.Durable.Store.{Stored, find_row}
use nova_voice.Durable.Laws.{DistinctRows}
use nova_voice.Ledger.Apply.{Db, job_id, Reply, returned, raised, Clock}
use nova_voice.Ledger.Recovery.{Swept, touched, broke, deadline_passed, apply_expire, go_on, sweep}
use nova_voice.Ledger.Alone.{nobody, apply_illegal}

abbrev pub no_one : ℕ → ℕ → Db → Db
no_one row = nobody

-- The listing shows the rows that are in the database.
abbrev pub Lists : List (Stored JobRecord) → Db → Type 0
Lists rows db =
    (j : String) (s : Stored JobRecord)
    → find_row job_id rows j ≡ some s
    → Store.get job_id db j ≡ some s

module _ (clock : Clock) (moment : ℕ) where
  -- What is to be done with a job.
  pub data Treatment : Type 0 where
    leave expire reclaim : Treatment

  unfoldable pub treatment : JobRecord → Treatment
  unfolding is_terminal lease_expired
  treatment r =
      if is_terminal r.status
      then leave
      else if deadline_passed r moment
      then expire
      else if lease_expired r moment
      then reclaim
      else leave

  -- The job after its treatment.
  unfoldable pub treated : JobRecord → JobRecord
  unfolding treatment
  treated r = elim (treatment r) [
    | leave ↦ r
    | expire ↦ result r (Endings.expire r (clock.first 0) (clock.second 0))
    | reclaim ↦ result r (Endings.reclaim r moment (clock.first 0) (clock.second 0))
  ]

  unfoldable pub treated_row : Stored JobRecord → Stored JobRecord
  unfolding treated
  treated_row s = elim (treatment s.value) [
    | leave ↦ s
    | expire ↦ record { value = treated s.value; revision = s.revision + 1 }
    | reclaim ↦ record { value = treated s.value; revision = s.revision + 1 }
  ]

  unfoldable pub due_names : List (Stored JobRecord) → List String
  unfolding treatment
  due_names [] = []
  due_names (s ∷ rest) = elim (treatment s.value) [
    | leave ↦ due_names rest
    | expire ↦ s.value.id ∷ due_names rest
    | reclaim ↦ s.value.id ∷ due_names rest
  ]

  -- The job does not wait for the local fallback past its deadline.
  abbrev pub IsSweepable : List (Stored JobRecord) → Type 0
  IsSweepable [] = Unit
  IsSweepable (s ∷ rest) =
      (s.value.status ≡ falling_back → deadline_passed s.value moment ≡ false) × IsSweepable rest

  abbrev pub swept_row :
      Option (Stored JobRecord) → Option (Stored JobRecord) → Option (Stored JobRecord)
  swept_row none before = before
  swept_row (some s) before = some (treated_row s)

  -- The sweep came to its end: it touched the names that were due, each listed row had its
  -- treatment, and every other row is as it was.
  abbrev pub Sweeps : List (Stored JobRecord) → List String → Db → Swept × Db → Type 0
  Sweeps rows names db out =
      (db' : Db) × (out ≡ (touched (names ++ due_names rows), db'))
      × ((j : String)
          → Store.get job_id db' j ≡ swept_row (find_row job_id rows j) (Store.get job_id db j))

  found :
      (s : Stored JobRecord) (rest : List (Stored JobRecord)) (db : Db)
      → Lists (s ∷ rest) db
      → Store.get job_id db s.value.id ≡ some s
  unfolding find_row
  found s rest db l = ground (arith, l s.value.id s, eq_iff s.value.id s.value.id)

  -- A row that is due is written once, with its treatment.
  abbrev pub Treats : Stored JobRecord → Db → Reply × Db → Type 0
  Treats s db out =
      (db' : Db) × (out ≡ (returned (some (treated s.value)), db'))
      × DistinctRows job_id db'.rows
      × ((j : String)
          → Store.get job_id db' j ≡ (
              if s.value.id == j
              then some (record { value = treated s.value; revision = s.revision + 1 })
              else Store.get job_id db j))

  -- With nobody else writing, a sweep whose listing begins with a job that waits for the local
  -- fallback past its deadline ends there: the refused expiry is raised, whatever rows follow, and
  -- nothing is written.
  pub sweep_breaks :
      (retries : ℕ) (s : Stored JobRecord) (rest : List (Stored JobRecord)) (db : Db)
      → Lists (s ∷ rest) db
      → s.value.status ≡ falling_back
      → deadline_passed s.value moment ≡ true
      → sweep no_one clock (suc retries) moment (s ∷ rest) db
        ≡ (broke (raised falling_back expired), db)
  unfolding sweep go_on apply_expire Endings.expire is_terminal
  sweep_breaks retries s rest db l e p = ground (
    arith,
    apply_illegal (λ n job. Endings.expire job (clock.first n) (clock.second n)) s.value.id retries
        db s (found s rest db l) falling_back expired,
  )
