-- ===== src/Callbacks/Laws.antt =====
-- Which executions of a callback run its tool
-- (src/nova_voice/companion/callbacks.py).
use nova_voice.Base.{ℕ, ◌≡◌, refl, subst, String, true, false, none, some, ◌⊎◌, inl, inr}
use nova_voice.Durable.Store
use nova_voice.Durable.Store.{Stored, Database, Written, written, conflict, duplicate}
use nova_voice.Durable.Laws.{DistinctRows, at_revision, get-save, find_row-key}
use nova_voice.Callbacks.Defs.{
  pending, executing, state_rank, Callback, Db, callback_id, Error, raised, Answer, reload_and_save,
  execute,
}

-- The record that claims a run.
abbrev pub claimed : Callback → ℕ → Callback
claimed r t = record r { status = executing; updated_at = t }

-- An execution of a pending callback runs its tool, on the claimed record, where the row is still at the
-- revision that was read once others have written; where it is not, the execution does not run the tool:
-- it raises, and leaves what the others left.
pub execute_claims_or_yields :
    (others : ℕ → Db → Db) (run : Callback → Answer ⊎ String) (call : String) (t0 t t' : ℕ)
    (db : Db) (row : Stored Callback)
    → Store.get callback_id db call ≡ some row
    → row.value.status ≡ pending
    → DistinctRows callback_id (others 0 db).rows
    → (let found = at_revision (Store.get callback_id (others 0 db) call) row.revision in
        let done = execute others run call t0 t t' db in
        ((found ≡ true) × (done.ran ≡ some (claimed row.value t0)))
        ⊎ ((found ≡ false)
            × (done ≡ record { reply = raised Error.overtaken; ran = none; db = others 0 db })))
unfolding execute state_rank Store.get reload_and_save
execute_claims_or_yields others run call t0 t t' db row found p d =
    let key : row.value.id ≡ call = find_row-key callback_id db.rows call row found in
    elim (get-save callback_id (others 0 db) (claimed row.value t0) row.revision "system" d) [
      | inl (at, (db', w, d', there)) ↦ inl (
        subst (λ x. at_revision (Store.get callback_id (others 0 db) x) row.revision ≡ true) key at,
        rw (execute, found, p, w) refl,
      )
      | inr (late, w) ↦ inr (
        subst (λ x. at_revision (Store.get callback_id (others 0 db) x) row.revision ≡ false) key
            late,
        rw (execute, found, p, w) refl,
      )
    ]
