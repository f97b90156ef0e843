-- ===== src/Ledger/Recovery.antt =====
-- `CompanionJobLedger.sweep` and `reconcile` (src/nova_voice/companion/ledger.py). The rows that the
-- store lists, and their order, are an argument, as is the sorting of the texts that are returned.
-- `others` is what other writers do, by the row that is being treated and the call of the store.
use nova_voice.Base.{
  ℕ, suc, String, Bool, false, not, ◌||◌, Option, none, some, List, [], ◌∷◌, ◌++◌, leb, exists,
  is_text, if◌then◌else◌, ◌==◌,
}
use nova_voice.Job.Record.{queued, JobRecord}
use nova_voice.Job.Attempts.{Outcome, is_terminal, lease_expired, same_state}
use nova_voice.Job.Endings
use nova_voice.Durable.Store.{Stored}
use nova_voice.Ledger.Apply.{Db, Reply, returned, raised, refused, apply, Clock}

-- What the loops return: the names gathered, or the exception that ended them.
pub data Swept : Type 0 where
  touched : List String → Swept
  broke : Reply → Swept

abbrev pub deadline_passed : JobRecord → ℕ → Bool
deadline_passed r moment = elim r.complete_deadline [ none ↦ false | some d ↦ leb d moment ]

module _ (others : ℕ → ℕ → Db → Db) (clock : Clock) (max_conflict_retries : ℕ) where
  unfoldable pub apply_expire : ℕ → String → Db → Reply × Db
  unfolding apply
  apply_expire row name =
      apply (others row) (λ n job. Endings.expire job (clock.first n) (clock.second n)) name
        max_conflict_retries

  unfoldable pub apply_reclaim : ℕ → String → ℕ → Db → Reply × Db
  unfolding apply
  apply_reclaim row name moment =
      apply (others row) (λ n job. Endings.reclaim job moment (clock.first n) (clock.second n)) name
        max_conflict_retries

  -- The reply of a call whose result is dropped: only an exception counts.
  unfoldable pub go_on : Reply × Db → (Db → Swept × Db) → Swept × Db
  go_on (returned _, db) rest = rest db
  go_on (raised from to, db) rest = (broke (raised from to), db)
  go_on (refused, db) rest = (broke refused, db)

  -- The loop of `sweep` over the rows that were listed, with the names touched so far.
  unfoldable pub sweep_rows :
      (moment row : ℕ) → List (Stored JobRecord) → List String → Db → Swept × Db
  unfolding is_terminal lease_expired
  sweep_rows moment row [] names db = (touched names, db)
  sweep_rows moment row (stored ∷ rest) names db =
      let r = stored.value in
      let skip = sweep_rows moment (suc row) rest names db in
      let done = λ (db' : Db). sweep_rows moment (suc row) rest (names ++ r.id ∷ []) db' in
      if is_terminal r.status
      then skip
      else if deadline_passed r moment
      then go_on (apply_expire row r.id db) done
      else if lease_expired r moment
      then go_on (apply_reclaim row r.id moment db) done
      else skip

  unfoldable pub sweep : ℕ → List (Stored JobRecord) → Db → Swept × Db
  unfolding sweep_rows
  sweep moment listed db = sweep_rows moment 0 listed [] db

  -- The forced reclaim: it runs at the end of the job's own lease.
  unfoldable pub forced_reclaim : ℕ → JobRecord → Outcome
  forced_reclaim n job =
      Endings.reclaim job (elim job.lease_expires_at [ none ↦ clock.first n | some until ↦ until ])
        (clock.first n) (clock.second n)

  unfoldable pub member : String → List String → Bool
  member name names = exists (λ n. n == name) names

  -- `moved is not None and moved.status is QUEUED`
  unfoldable pub is_requeued : Option JobRecord → Bool
  is_requeued none = false
  is_requeued (some r) = same_state r.status queued

  -- The loop of `reconcile`: the names reclaimed and the names that are ours, so far.
  unfoldable pub reconcile_rows :
      (session : String) (claimed : List String) (row : ℕ)
      → List (Stored JobRecord)
      → (reclaimed ours : List String) → Db
      → (Option Reply × List String × List String) × Db
  unfolding apply forced_reclaim member is_requeued
  reconcile_rows session claimed row [] reclaimed ours db = ((none, reclaimed, ours), db)
  reconcile_rows session claimed row (stored ∷ rest) reclaimed ours db =
      let r = stored.value in
      let skip = reconcile_rows session claimed (suc row) rest reclaimed ours db in
      let known = reconcile_rows session claimed (suc row) rest reclaimed (ours ++ r.id ∷ []) db in
      if not (is_text r.lease_owner session) || is_terminal r.status
      then skip
      else if member r.id claimed
      then known
      else (let (reply, db') = apply (others row) forced_reclaim r.id max_conflict_retries db in
          elim reply [
            | returned job ↦
                reconcile_rows session claimed (suc row) rest
                  (if is_requeued job then reclaimed ++ r.id ∷ [] else reclaimed)
                  (ours ++ r.id ∷ []) db'
            | raised from to ↦ ((some (raised from to), reclaimed, ours), db')
            | refused ↦ ((some refused, reclaimed, ours), db')
          ])

  -- A name once each: the texts of a set.
  unfoldable pub as_set : List String → List String
  unfolding member
  as_set [] = []
  as_set (name ∷ rest) =
      let kept_names = as_set rest in if member name rest then kept_names else name ∷ kept_names

  -- The names that are claimed and are not ours.
  unfoldable pub not_ours : List String → List String → List String
  unfolding member
  not_ours [] ours = []
  not_ours (name ∷ rest) ours =
      let kept_names = not_ours rest ours in
      if member name ours then kept_names else name ∷ kept_names

  -- `reconcile`; `sorted` is the language's sorting of texts
  unfoldable pub reconcile :
      (sorted : List String → List String) (session : String) (device_job_ids : List String)
      → List (Stored JobRecord)
      → Db
      → (Option Reply × List String × List String) × Db
  unfolding reconcile_rows as_set not_ours
  reconcile sorted session device_job_ids listed db =
      let claimed = as_set device_job_ids in
      let (found, db') = reconcile_rows session claimed 0 listed [] [] db in
      ((found.0, found.1, sorted (not_ours claimed found.2)), db')
