-- ===== src/Ledger/Tests.antt =====
-- The ledger at concrete databases.
use nova_voice.Base.{ℕ, ◌+◌, ◌≡◌, refl, some, [], ◌∷◌, arith}
use nova_voice.Job.Record.{falling_back, expired, JobRecord}
use nova_voice.Job.Attempts.{moved}
use nova_voice.Job.Endings
use nova_voice.Job.Samples.{fresh}
use nova_voice.Durable.Store
use nova_voice.Durable.Store.{Stored, find_row}
use nova_voice.Durable.Laws.{DistinctRows}
use nova_voice.Ledger.Apply.{Db, job_id, raised, apply, Clock}
use nova_voice.Ledger.Recovery.{broke, sweep}
use nova_voice.Ledger.Alone.{nobody}
use nova_voice.Ledger.Race.{Respects, Ends, apply_linearizes}
use nova_voice.Ledger.Sweeping.{no_one, Lists, sweep_breaks}

abbrev clock : Clock
clock = record { first = λ n. 60 + n; second = λ n. 61 + n }

-- A job whose deadline is at 50.
abbrev overdue : Stored JobRecord
overdue = record { value = record fresh { complete_deadline = some 50 }; revision = 1 }

abbrev waiting : Stored JobRecord
waiting = record {
  value = record fresh { status = falling_back; complete_deadline = some 50 };
  revision = 3;
}

abbrev holding : Stored JobRecord → Db
holding row = record { rows = row ∷ []; audit = [] }

one_row : (row : Stored JobRecord) → DistinctRows job_id (row ∷ [])
unfolding find_row
one_row row = (refl, tt)

listed : (row : Stored JobRecord) → Lists (row ∷ []) (holding row)
unfolding Store.get find_row
listed row j s h = h

sweep_breaks_example :
    sweep no_one clock 3 55 (waiting ∷ []) (holding waiting)
    ≡ (broke (raised falling_back expired), holding waiting)
sweep_breaks_example =
    sweep_breaks clock 55 2 waiting [] (holding waiting) (listed waiting) refl refl

overdue_found : Store.get job_id (holding overdue) "job-1" ≡ some overdue
unfolding Store.get
overdue_found = refl

nobody-Respects : Respects nobody
nobody-Respects = record { revisions = λ n db name a b p q e. cc (p, q); distinct = λ n db d. d }

expire_keeps_id :
    (n : ℕ) (r s : JobRecord)
    → Endings.expire r (clock.first n) (clock.second n) ≡ moved s
    → s.id ≡ r.id
unfolding Endings.expire
expire_keeps_id n r s h = ground arith

apply_linearizes_example :
    Ends nobody
      (λ n job. Endings.expire job (clock.first n) (clock.second n))
      "job-1"
      (holding overdue)
      (apply nobody
        (λ n job. Endings.expire job (clock.first n) (clock.second n))
        "job-1"
        3
        (holding overdue))
apply_linearizes_example =
    apply_linearizes nobody (λ n job. Endings.expire job (clock.first n) (clock.second n)) "job-1" 3
      (holding overdue) nobody-Respects expire_keeps_id (one_row overdue)
