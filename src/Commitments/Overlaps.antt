-- ===== src/Commitments/Overlaps.antt =====
-- Where operations of src/nova_voice/commitments.py get in each other's way, or in the way of the
-- validator that reads the rows back.
use nova_voice.Base.{
  ℕ, ◌+◌, ◌≤◌, ◌≡◌, ◌≢◌, ◌↔◌, refl, ap, subst, ◌∙◌, String, true, false, some, ltb, leb, eq_refl,
  Bool-cases, Option-cases, inl, inr, arith,
}
use nova_voice.Durable.Store
use nova_voice.Durable.Store.{Database, Stored}
use nova_voice.Durable.Laws.{DistinctRows, save_here}
use nova_voice.Commitments.Recurrence.{advance}
use nova_voice.Commitments.Defs.{
  active, due, is_active, Commitment, commitment_id, is_before, is_within, valid_commitment,
  is_readable, Reply, returned, save_latest, made_due, comes_due, turn, passed_by, snoozed,
  withdrawn, operate,
}

-- `_save` never meets a conflict: a row that is there is overwritten, whoever wrote it last.
save_latest-overwrites :
    (db : Database Commitment) (row : Stored Commitment) (c : Commitment) (actor : String)
    → DistinctRows commitment_id db.rows
    → Store.get commitment_id db c.id ≡ some row
    → (db' : Database Commitment) × (save_latest db c actor ≡ (returned c, db'))
      × DistinctRows commitment_id db'.rows
      × (Store.get commitment_id db' c.id
          ≡ some (record { value = c; revision = row.revision + 1 }))
unfolding save_latest
save_latest-overwrites db row c actor d found =
    let (db', w, d', at) = save_here commitment_id db row c actor d found in
    (db', rw (save_latest, found) (rw w refl), d', at c.id ∙ rw (eq_refl c.id) refl)

passed_by-kind :
    (fuel : ℕ) (c c' : Commitment) (at now : ℕ) → passed_by fuel c at now ≢ comes_due c'
unfolding passed_by
passed_by-kind fuel c c' at now h = elim (Option-cases c.recurrence) [
  | inl e ↦ ground arith
  | inr (rule, e) ↦ elim (Option-cases (advance fuel now rule at)) [
    | inl f ↦ ground arith
    | inr (later, f) ↦ ground arith
  ]
]

-- What comes due is the record that was listed, made due.
turn-made :
    (fuel : ℕ) (c : Commitment) (now : ℕ) (c' : Commitment)
    → turn fuel c now ≡ comes_due c'
    → made_due c now ≡ c'
unfolding turn passed_by
turn-made fuel c now c' h = elim (Bool-cases (is_active c.status)) [
  | inr e ↦ ground arith
  | inl e ↦ elim (Option-cases c.due_at) [
    | inl f ↦ ground arith
    | inr (at, f) ↦ elim (Bool-cases (ltb now at)) [
      | inl g ↦ ground arith
      | inr g ↦ elim (Bool-cases (is_before c.deadline (some now))) [
        | inl k ↦
            let no : passed_by fuel c at now ≡ comes_due c' = ground arith in
            elim (passed_by-kind fuel c c' at now no) [ ]
        | inr k ↦ ground arith
      ]
    ]
  ]
]

abbrev pub alone : Database Commitment → Database Commitment
alone db = db

abbrev pub cancelling : String → ℕ → Commitment → Reply Commitment
cancelling device now c = returned (withdrawn c device now)

-- A commitment that comes due in a poll, and that is cancelled between the poll's listing and its
-- writing, is due afterwards: the poll writes its own record over the cancellation and meets no conflict.
pub poll_undoes_cancel :
    (fuel now at : ℕ) (device worker : String) (db : Database Commitment) (row : Stored Commitment)
    (c : Commitment)
    → DistinctRows commitment_id db.rows
    → Store.get commitment_id db row.value.id ≡ some row
    → turn fuel row.value now ≡ comes_due c
    → (db' : Database Commitment) × (save_latest
          (operate alone (cancelling device at) row.value.id device db).1
          c
          worker
        ≡ (returned c, db'))
      × (Store.get commitment_id db' row.value.id
          ≡ some (record { value = c; revision = row.revision + 1 + 1 }))
      × (c.status ≡ due)
unfolding operate
poll_undoes_cancel fuel now at device worker db row c d found comes =
    let was = turn-made fuel row.value now c comes in
    let (db1, w1, d1, at1) =
      save_latest-overwrites db row (withdrawn row.value device at) device d found in
    let (db2, w2, d2, at2) =
      save_latest-overwrites db1
        (record { value = withdrawn row.value device at; revision = row.revision + 1 })
        (made_due row.value now) worker d1 at1 in
    let stored : (operate alone (cancelling device at) row.value.id device db).1 ≡ db1 =
      rw (operate, found) (ap (λ o. o.1) w1) in
    subst
      (λ (x : Commitment).
        (db' : Database Commitment) × (save_latest
            (operate alone (cancelling device at) row.value.id device db).1 x worker
          ≡ (returned x, db'))
        × (Store.get commitment_id db' row.value.id
            ≡ some (record { value = x; revision = row.revision + 1 + 1 }))
        × (x.status ≡ due))
      was (db2, rw stored w2, at2, refl)

-- A commitment that can be read can be read after a snooze exactly when it is not snoozed past its
-- deadline, the device's name is 160 characters at most, and the clock is not behind its creation.
pub snooze_iff_readable :
    (c c' : Commitment) (until now later : ℕ) (device : String)
    → is_readable c ≡ true
    → snoozed c until device now later ≡ returned c'
    → (is_readable c' ≡ true) ↔ (
        (is_before c.deadline (some until) ≡ false)
        × (is_within 160 (some device) ≡ true)
        × (c.created_at ≤ later))
unfolding is_readable valid_commitment snoozed
snooze_iff_readable c c' until now later device v s = elim (Bool-cases (leb until now)) [
  | inl e ↦ ground arith
  | inr e ↦
      let same : record c {
        status = active;
        due_at = some until;
        continuation_device = some device;
        updated_at = later;
      }
          ≡ c' =
        ground arith in
      subst
        (λ (x : Commitment). (is_readable x ≡ true) ↔ (
          (is_before c.deadline (some until) ≡ false)
          × (is_within 160 (some device) ≡ true)
          × (c.created_at ≤ later)))
        same (λ h. ground arith, λ h. ground arith)
]
