-- ===== src/Approvals/Runs.antt =====
-- How an approved mutation is run (src/nova_voice/companion/approvals.py, `execute_approved`).
use nova_voice.Base.{
  ℕ, ◌+◌, ◌≡◌, ◌≢◌, refl, sym, subst, ap, ◌∙◌, String, none, some, ◌⊎◌, inl, inr, arith,
}
use nova_voice.Durable.Store
use nova_voice.Durable.Store.{Stored, Database}
use nova_voice.Durable.Laws.{DistinctRows}
use nova_voice.Approvals.Gate.{
  State, pending, denied, expired, approved, executing, executed, failed, state_rank, Approval, Db,
  approval_id, returned, write, Run, finish, run_claimed, execute_approved,
}
use nova_voice.Approvals.Decisions.{write-here, write-late, nobody, once, get-key}

-- The record that claims a run.
abbrev pub claim : Approval → ℕ → Approval
claim r t = record r { status = executing; updated_at = t }

finish-id : (r : Approval) (answer : String ⊎ String) (t t' : ℕ) → (finish r answer t t').id ≡ r.id
finish-id r (inl reference) t t' = refl
finish-id r (inr detail) t t' = refl

finish-ended :
    (r : Approval) (answer : String ⊎ String) (t t' : ℕ) → (finish r answer t t').status ≢ approved
finish-ended r (inl reference) t t' e = ground arith
finish-ended r (inr detail) t t' e = ground arith

-- After a claim that went through, with nobody else writing.
run_claimed-here :
    (execute : Approval → String ⊎ String) (id : String) (t t' : ℕ) (db : Db) (c : Approval)
    (row : Stored Approval)
    → DistinctRows approval_id db.rows
    → Store.get approval_id db id ≡ some row
    → (let ended = finish row.value (execute c) t t' in
        (db' : Db) × (run_claimed nobody execute id t t' (returned c, db)
          ≡ record { reply = returned ended; ran = some c; db = db' })
        × (Store.get approval_id db' id
            ≡ some (record { value = ended; revision = row.revision + 1 })))
unfolding run_claimed
run_claimed-here execute id t t' db c row d found =
    let ended = finish row.value (execute c) t t' in
    let key : ended.id ≡ id = finish-id row.value (execute c) t t' ∙ get-key db row id found in
    let (db', _, e, _, g) =
      write-here (λ (x : Db). x) db row ended d
        (subst (λ x. Store.get approval_id db x ≡ some row) (sym key) found) in
    (
      db',
      rw (found, run_claimed, e) refl,
      subst
          (λ x.
            Store.get approval_id db' x
            ≡ some (record { value = ended; revision = row.revision + 1 }))
          key g,
    )

module _ (execute : Approval → String ⊎ String) (id : String) (t0 t t' : ℕ) (db : Db)
    (row : Stored Approval) (found : Store.get approval_id db id ≡ some row) where
  -- An approved record goes on to its claim.
  execute-claims :
      (others : ℕ → Db → Db)
      → row.value.status ≡ approved
      → execute_approved others execute id t0 t t' db
        ≡ run_claimed others execute id t t'
            (write (others 1) (others 0 db) (claim row.value t0) row.revision)
  unfolding execute_approved run_claimed write state_rank
  execute-claims others a = rw (found, execute_approved, a) refl

  idle :
      (others : ℕ → Db → Db) (s : State)
      → row.value.status ≡ s
      → ((execute_approved others execute id t0 t t' db).ran ≡ none) ⊎ (s ≡ approved)
  unfolding execute_approved run_claimed write state_rank
  idle others pending e = inl (rw (found, execute_approved, e) refl)
  idle others approved e = inr refl
  idle others denied e = inl (rw (found, execute_approved, e) refl)
  idle others expired e = inl (rw (found, execute_approved, e) refl)
  idle others executing e = inl (rw (found, execute_approved, e) refl)
  idle others executed e = inl (rw (found, execute_approved, e) refl)
  idle others failed e = inl (rw (found, execute_approved, e) refl)

  -- Whatever other writers do, the executor is called only where the record read was approved: never
  -- for a proposal that is pending, denied, expired, executing or executed already.
  ran-approved :
      (others : ℕ → Db → Db) (r : Approval)
      → (execute_approved others execute id t0 t t' db).ran ≡ some r
      → row.value.status ≡ approved
  ran-approved others r h = elim (idle others row.value.status refl) [
    | inl n ↦ let never : none ≡ some r = cc (n, h) in cc (never)
    | inr a ↦ a
  ]

module _ (execute : Approval → String ⊎ String) (id : String) (t0 t t' : ℕ) (db : Db)
    (row : Stored Approval) (found : Store.get approval_id db id ≡ some row) where
  -- With nobody else writing, running an approved record calls the executor once, with the stored
  -- proposal, the row then holds the record with the executor's answer, two revisions on, and a second
  -- run calls nothing.
  pub execute_once :
      (t0' u u' : ℕ)
      → DistinctRows approval_id db.rows
      → row.value.status ≡ approved
      → (let done = execute_approved nobody execute id t0 t t' db in
          let claimed = claim row.value t0 in
          (done.ran ≡ some claimed)
          × (done.reply ≡ returned (finish claimed (execute claimed) t t'))
          × (Store.get approval_id done.db id
              ≡ some (record {
                value = finish claimed (execute claimed) t t';
                revision = row.revision + 1 + 1;
              }))
          × ((execute_approved nobody execute id t0' u u' done.db).ran ≡ none))
  execute_once t0' u u' d a =
      let claimed = claim row.value t0 in
      let key : row.value.id ≡ id = get-key db row id found in
      let (db1, _, e, d1, g1) =
        write-here (λ (x : Db). x) db row claimed d
          (subst (λ x. Store.get approval_id db x ≡ some row) (sym key) found) in
      let claims = execute-claims execute id t0 t t' db row found nobody a in
      let first : Stored Approval = record { value = claimed; revision = row.revision + 1 } in
      let (db2, e2, g2) =
        run_claimed-here execute id t t' db1 claimed first d1
          (subst (λ x. Store.get approval_id db1 x ≡ some first) key g1) in
      let whole = claims ∙ ap (run_claimed nobody execute id t t') e ∙ e2 in
      let ended : Approval = finish claimed (execute claimed) t t' in
      let last : Stored Approval = record { value = ended; revision = row.revision + 1 + 1 } in
      (
        ap (λ (x : Run). x.ran) whole,
        ap (λ (x : Run). x.reply) whole,
        subst (λ x. Store.get approval_id x id ≡ some last) (sym (ap (λ (x : Run). x.db) whole)) g2,
        elim (idle execute id t0' u u' db2 last g2 nobody ended.status refl) [
          | inl n ↦
              subst (λ x. (execute_approved nobody execute id t0' u u' x).ran ≡ none)
                (sym (ap (λ (x : Run). x.db) whole)) n
          | inr a' ↦ absurd (finish-ended claimed (execute claimed) t t' a')
        ],
      )

-- A claim that is lost is not noticed: where another writer has moved the record on between the read
-- and the claim and it then stays, the executor is called all the same, with that writer's record.
-- In particular two runs of one approval both call it.
pub lost_claim_runs :
    (execute : Approval → String ⊎ String) (id : String) (t0 t t' : ℕ) (db : Db)
    (row : Stored Approval) (other : Db → Db) (now : Stored Approval)
    → Store.get approval_id db id ≡ some row
    → row.value.status ≡ approved
    → DistinctRows approval_id (other db).rows
    → Store.get approval_id (other db) id ≡ some now
    → now.revision ≢ row.revision
    → (execute_approved (once other) execute id t0 t t' db).ran ≡ some now.value
unfolding run_claimed
lost_claim_runs execute id t0 t t' db row other now found a d moved still =
    let key : row.value.id ≡ id = get-key db row id found in
    let at = subst (λ x. Store.get approval_id (other db) x ≡ some now) (sym key) moved in
    let late =
      write-late (λ (x : Db). x) (other db) now (claim row.value t0) row.revision d at still at in
    ap (λ (x : Run). x.ran) (execute-claims execute id t0 t t' db row found (once other) a)
    ∙ (rw late (rw (run_claimed, moved) refl))
