-- ===== src/Callbacks/Tests.antt =====
-- One callback that two workers execute, and the theorems about callbacks on it.
use nova_voice.Base.{ℕ, ◌≡◌, refl, String, true, false, none, some, [], ◌∷◌, ◌⊎◌, inl}
use nova_voice.Durable.Store
use nova_voice.Durable.Store.{Stored, Database}
use nova_voice.Durable.Laws.{DistinctRows, at_revision}
use nova_voice.Callbacks.Defs.{
  State, executing, state_rank, Asked, new_callback, Callback, Db, callback_id, Error, returned,
  raised, get, execute, Answer, reload_and_save, deliverable,
}
use nova_voice.Callbacks.Laws.{claimed, execute_claims_or_yields}

abbrev asked : Asked
asked = record {
  job_id = "j1";
  attempt_id = "a1";
  call_id = "c1";
  provider = "calendar";
  tool = "read";
  arguments = "today";
  sensitivity = "personal";
}

abbrev waiting : Stored Callback
waiting = record { value = new_callback asked "j1:c1" 3600 100; revision = 1 }

abbrev taken : Stored Callback
taken = record { value = record waiting.value { status = executing }; revision = 2 }

abbrev db_of : Stored Callback → Db
db_of row = record { rows = row ∷ []; audit = [] }

-- The other worker claims the callback after the first call of the store.
abbrev worker : ℕ → Db → Db
worker n db = db_of taken

abbrev free_today : Callback → Answer ⊎ String
free_today r = inl (record { ok = true; code = "ok"; message = ""; observed = some "free" })

waiting_found : Store.get callback_id (db_of waiting) "c1" ≡ some waiting
unfolding Store.get Store.find_row new_callback
waiting_found = refl

taken_found : Store.get callback_id (db_of taken) "c1" ≡ some taken
unfolding Store.get Store.find_row new_callback
taken_found = refl

taken_distinct : DistinctRows callback_id (db_of taken).rows
unfolding Store.find_row
taken_distinct = (refl, tt)

waiting_pending : waiting.value.status ≡ State.pending
unfolding new_callback
waiting_pending = refl

handed_over :
    (deliverable worker "c1" (some "a1") 200 (db_of waiting)).0 ≡ returned (some waiting.value)
unfolding deliverable get reload_and_save state_rank new_callback Store.get Store.find_row
handed_over = refl

-- Another attempt gets nothing.
not_handed_over : (deliverable worker "c1" (some "a2") 200 (db_of waiting)).0 ≡ returned none
unfolding deliverable get reload_and_save state_rank new_callback Store.get Store.find_row
    Store.save Store.selects Store.update_row Store.append_audit
not_handed_over = refl

execute_claims_or_yields_example :
    (let found = at_revision (Store.get callback_id (db_of taken) "c1") 1 in
      let done = execute worker free_today "c1" 200 210 220 (db_of waiting) in
      ((found ≡ true) × (done.ran ≡ some (claimed waiting.value 200)))
      ⊎ ((found ≡ false)
          × (done ≡ record { reply = raised Error.overtaken; ran = none; db = db_of taken })))
execute_claims_or_yields_example =
    execute_claims_or_yields worker free_today "c1" 200 210 220 (db_of waiting) waiting
      waiting_found waiting_pending taken_distinct
