-- ===== src/Approvals/Decisions.antt =====
-- How a proposal is decided (src/nova_voice/companion/approvals.py, `decide`).
use nova_voice.Base.{
  ℕ, ◌+◌, ◌≡◌, refl, sym, subst, ap, ◌≢◌, eq_refl, zero, suc, if_both, ◌∙◌, String, Bool, true,
  false, some, leb, eqb, if◌then◌else◌, ◌⊎◌, inl, inr, arith, Bool-cases,
}
use mathlib.Core.Bool.{false≢true}
use nova_voice.Durable.Store
use nova_voice.Durable.Laws.{DistinctRows, at_revision, get-save, find_row-key}
use nova_voice.Durable.Store.{Stored, Database, Written, written, conflict, duplicate}
use nova_voice.Approvals.Gate.{
  pending, same_state, Approval, Db, approval_id, Reply, returned, current_or_vanished, write,
  lapse, saved_or, answer, decide,
}

saved_or-cases :
    (r : Approval) (lost : Reply × Db) (w : Written Approval)
    → ((db' : Db) × (w ≡ written db') × (saved_or r lost w ≡ (returned r, db')))
      ⊎ (saved_or r lost w ≡ lost)
saved_or-cases r lost (written db) = inl (db, refl, refl)
saved_or-cases r lost conflict = inr refl
saved_or-cases r lost duplicate = inr refl

-- A written record is the one that was asked for, or the one that another writer left.
pub write-cases :
    (after : Db → Db) (db : Db) (r : Approval) (n : ℕ)
    → ((db' : Db) × (Store.save approval_id db r n "system" ≡ written db')
        × (write after db r n ≡ (returned r, db')))
      ⊎ (write after db r n
          ≡ (current_or_vanished (Store.get approval_id (after db) r.id), after db))
unfolding write
write-cases after db r n = saved_or-cases r _ (Store.save approval_id db r n "system")

-- The record that an answer makes of a pending approval.
abbrev pub verdict : Approval → Bool → String → (moment t : ℕ) → Approval
verdict r agreed who moment t =
    if leb r.respond_by moment then lapse r t else answer r agreed who moment t

verdict-id :
    (r : Approval) (agreed : Bool) (who : String) (moment t : ℕ)
    → (verdict r agreed who moment t).id ≡ r.id
verdict-id r agreed who moment t =
    if_both (λ x. x.id ≡ r.id) (leb r.respond_by moment) (lapse r t) (answer r agreed who moment t)
      refl refl

abbrev pub nobody : ℕ → Db → Db
nobody n db = db

-- Others that run only after the first call.
abbrev pub once : (Db → Db) → ℕ → Db → Db
once f zero db = f db
once f (suc n) db = db

module _ (verify : String → Bool → String → Bool) (id : String) (db : Db) (row : Stored Approval)
    (found : Store.get approval_id db id ≡ some row) where
  decide-pending :
      (others : ℕ → Db → Db) (agreed : Bool) (who : String) (moment t : ℕ)
      → verify id agreed row.value.nonce ≡ true
      → same_state row.value.status pending ≡ true
      → decide others verify id agreed who moment t db
        ≡ write (others 1) (others 0 db) (verdict row.value agreed who moment t) row.revision
  unfolding decide write
  decide-pending others agreed who moment t v p =
      elim (Bool-cases (leb row.value.respond_by moment)) [
        | inl e ↦ rw (found, decide, v, p, e) refl
        | inr e ↦ rw (found, decide, v, p, e) refl
      ]

  -- The first answer stands: a later one is verified, and then returns the record as it is.
  pub decide_again :
      (others : ℕ → Db → Db) (agreed : Bool) (who : String) (moment t : ℕ)
      → verify id agreed row.value.nonce ≡ true
      → same_state row.value.status pending ≡ false
      → decide others verify id agreed who moment t db ≡ (returned row.value, others 0 db)
  unfolding decide
  decide_again others agreed who moment t v h = rw (found, decide, v, h) refl

pub get-key :
    (db : Db) (row : Stored Approval) (id : String)
    → Store.get approval_id db id ≡ some row
    → row.value.id ≡ id
unfolding Store.get
get-key db row id found = find_row-key approval_id db.rows id row found

-- A write that goes through on a table with one row for each key.
pub write-here :
    (after : Db → Db) (db : Db) (row : Stored Approval) (r : Approval)
    → DistinctRows approval_id db.rows
    → Store.get approval_id db r.id ≡ some row
    → (db' : Db) × (Store.save approval_id db r row.revision "system" ≡ written db')
      × (write after db r row.revision ≡ (returned r, db'))
      × DistinctRows approval_id db'.rows
      × (Store.get approval_id db' r.id ≡ some (record { value = r; revision = row.revision + 1 }))
unfolding write
write-here after db row r d found = elim (get-save approval_id db r row.revision "system" d) [
  | inl (_, (db', w, d', g)) ↦ (db', w, rw w refl, d', g r.id ∙ (rw (eq_refl r.id) refl))
  | inr (at, _) ↦
      let own : at_revision (Store.get approval_id db r.id) row.revision ≡ true =
        rw found (ground arith) in
      absurd (false≢true (sym at ∙ own))
]

-- A write from a revision that is no longer there gives the record that is.
pub write-late :
    (after : Db → Db) (db : Db) (now : Stored Approval) (r : Approval) (n : ℕ)
    → DistinctRows approval_id db.rows
    → Store.get approval_id db r.id ≡ some now
    → now.revision ≢ n
    → Store.get approval_id (after db) r.id ≡ some now
    → write after db r n ≡ (returned now.value, after db)
unfolding write
write-late after db now r n d found moved still = elim (get-save approval_id db r n "system" d) [
  | inl (at, _) ↦
      let here : eqb now.revision n ≡ true = subst (λ o. at_revision o n ≡ true) found at in
      absurd (moved (ground arith))
  | inr (_, c) ↦ rw (c, still) refl
]

-- Two answers to one pending proposal race, the second between the first's read and its write: the
-- one that writes first stands, and the other is handed that record and writes nothing.
pub decide_race :
    (verify : String → Bool → String → Bool) (id : String) (db : Db) (row : Stored Approval)
    (a b : Bool) (who_a who_b : String) (moment_a t_a moment_b t_b : ℕ)
    → DistinctRows approval_id db.rows
    → Store.get approval_id db id ≡ some row
    → same_state row.value.status pending ≡ true
    → verify id a row.value.nonce ≡ true
    → verify id b row.value.nonce ≡ true
    → decide
        (once (λ d. (decide nobody verify id a who_a moment_a t_a d).1))
        verify
        id
        b
        who_b
        moment_b
        t_b
        db
      ≡ decide nobody verify id a who_a moment_a t_a db
decide_race verify id db row a b who_a who_b moment_a t_a moment_b t_b d found p va vb =
    let first : Db → Db = λ x. (decide nobody verify id a who_a moment_a t_a x).1 in
    let r = verdict row.value a who_a moment_a t_a in
    let s = verdict row.value b who_b moment_b t_b in
    let key : row.value.id ≡ id = get-key db row id found in
    let rid : r.id ≡ id = verdict-id row.value a who_a moment_a t_a ∙ key in
    let sid : s.id ≡ id = verdict-id row.value b who_b moment_b t_b ∙ key in
    let alone = decide-pending verify id db row found nobody a who_a moment_a t_a va p in
    let raced = decide-pending verify id db row found (once first) b who_b moment_b t_b vb p in
    let (db', w, e, d', g) =
      write-here (λ (x : Db). x) db row r d
        (subst (λ x. Store.get approval_id db x ≡ some row) (sym rid) found) in
    let mine = alone ∙ e in
    let there : first db ≡ db' = ap (λ (x : Reply × Db). x.1) mine in
    let left : Stored Approval = record { value = r; revision = row.revision + 1 } in
    let late =
      write-late (λ (x : Db). x) db' (record { value = r; revision = row.revision + 1 }) s
        row.revision d' (subst (λ x. Store.get approval_id db' x ≡ some left) (rid ∙ sym sid) g)
        (λ x. omega arith)
        (subst (λ x. Store.get approval_id db' x ≡ some left) (rid ∙ sym sid) g) in
    raced ∙ (rw there late) ∙ sym mine
