-- ===== src/Ledger/Apply.antt =====
-- `CompanionJobLedger.apply` and the operations built on it (src/nova_voice/companion/ledger.py).
-- Between two calls of the store other writers may run: `others n` is what they do to the database
-- after the n-th call. A transition is given the number of the try, since each try reads the clock.
use nova_voice.Base.{ℕ, zero, suc, ◌+◌, String, Option, none, some, if◌then◌else◌}
use nova_voice.Job.Record.{State, Attempt, JobRecord}
use nova_voice.Job.Attempts.{Outcome, kept, moved, illegal, is_terminal, current_attempt}
use nova_voice.Job.Endings
use nova_voice.Durable.Store
use nova_voice.Durable.Store.{Stored, Database, Written, written, conflict, duplicate}

abbrev pub Db : Type 0
Db = Database JobRecord

abbrev pub job_id : JobRecord → String
job_id r = r.id

-- What a caller sees: a record or `None`, `IllegalTransition` from one state to another, or the
-- store's own refusal of a second record under one key.
pub data Reply : Type 0 where
  returned : Option JobRecord → Reply
  raised : State → State → Reply
  refused : Reply

unfoldable pub create : Db → JobRecord → Reply × Db
create db r = elim (Store.insert job_id db r "system") [
  | written db' ↦ (returned (some r), db')
  | conflict ↦ (refused, db)
  | duplicate ↦ (refused, db)
]

abbrev pub value_of : Option (Stored JobRecord) → Option JobRecord
value_of none = none
value_of (some row) = some row.value

unfoldable pub get : Db → String → Option JobRecord
get db name = value_of (Store.get job_id db name)

module _ (others : ℕ → Db → Db) (transition : ℕ → JobRecord → Outcome) (name : String) where
  -- The tries that are left, the calls of the store made so far, and the tries made so far. When
  -- every try was lost the job is left alone and read once more.
  unfoldable pub attempt_loop : (left calls tries : ℕ) → Db → Reply × Db
  attempt_loop zero calls tries db = (returned (get db name), others calls db)
  attempt_loop (suc left) calls tries db = elim (Store.get job_id db name) [
    | none ↦ (returned none, others calls db)
    | some row ↦ elim (transition tries row.value) [
      | kept ↦ (returned (some row.value), others calls db)
      | illegal from to ↦ (raised from to, others calls db)
      | moved r ↦ elim (Store.save job_id (others calls db) r row.revision "system") [
        | written db' ↦ (returned (some r), db')
        | conflict ↦
            attempt_loop left (calls + 2) (tries + 1) (others (calls + 1) (others calls db))
        | duplicate ↦
            attempt_loop left (calls + 2) (tries + 1) (others (calls + 1) (others calls db))
      ]
    ]
  ]

  -- `apply`, with `max_conflict_retries` tries
  unfoldable pub apply : ℕ → Db → Reply × Db
  unfolding attempt_loop get
  apply max_conflict_retries db = attempt_loop max_conflict_retries 0 0 db

-- `attempt.attempt_id if attempt else None`
abbrev pub holder_name : Option Attempt → Option String
holder_name none = none
holder_name (some a) = some a.attempt_id

-- The clock of the calls below: the readings of a try.
pub record Clock : Type 0 where
  pub first : ℕ → ℕ
  pub second : ℕ → ℕ

module _ (others : ℕ → Db → Db) (clock : Clock) (max_conflict_retries : ℕ) where
  -- `fall_back`; the first read is the store's first call
  unfoldable pub fall_back : String → String → Db → Reply × Db
  unfolding apply get
  fall_back name reason db = elim (get db name) [
    | none ↦ (returned none, others 0 db)
    | some current ↦
        if is_terminal current.status
        then (returned (some current), others 0 db)
        else (let attempt = holder_name (current_attempt current) in
            apply (λ n. others (n + 1))
              (λ n job. Endings.fall_back job reason attempt (clock.first n) (clock.second n)) name
              max_conflict_retries (others 0 db))
  ]

  -- `complete_locally`
  unfoldable pub complete_locally : String → String → Db → Reply × Db
  unfolding apply
  complete_locally name reference db =
      apply others (λ n job. Endings.complete job none reference (clock.first n) (clock.second n))
        name max_conflict_retries db
