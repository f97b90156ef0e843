-- ===== src/Durable/Store.antt =====
-- The store of durable records with its optimistic revisions (src/nova_voice/durable/store.py),
-- for the records of one type `R`, found by their `id`. A database is the rows of that type and
-- the audit trail; SQLite runs each operation as one transaction, so an operation is one function.
-- The other unique column of a row, `idempotency_key`, is left out: an insert whose key another row has
-- raises as one whose id is taken does, and the key of a record is its own throughout.
-- The status and parent columns are copies of fields of the record. Left out of an audit entry are
-- its random id, its instant and its free detail.
use nova_voice.Base.{
  ℕ, ◌+◌, String, Bool, true, false, ◌&&◌, Option, none, some, List, [], ◌∷◌, ◌++◌, eqb, leb,
  if◌then◌else◌, ◌==◌,
}

-- `StoredRecord`
pub record Stored (R : Type 0) : Type 0 where
  pub value : R
  pub revision : ℕ

pub data Action : Type 0 where
  create update : Action

-- `AuditRecord`
pub record AuditEntry : Type 0 where
  pub actor_id : String
  pub action : Action
  pub object_id : String
  pub prior_revision : Option ℕ
  pub resulting_revision : ℕ

pub record Database (R : Type 0) : Type 0 where
  pub rows : List (Stored R)
  pub audit : List AuditEntry

-- What a write does: the new database, or the exception that leaves the database as it was.
pub data Written (R : Type 0) : Type 0 where
  written : Database R → Written R
  conflict : Written R  -- `ConcurrentRecordUpdate`
  duplicate : Written R  -- the primary key is taken: `sqlite3.IntegrityError`

module _ {R : Type 0} (id : R → String) where
  unfoldable pub find_row : List (Stored R) → String → Option (Stored R)
  find_row [] name = none
  find_row (row ∷ rest) name = if id row.value == name then some row else find_row rest name

  -- `get_sync`
  unfoldable pub get : Database R → String → Option (Stored R)
  unfolding find_row
  get db name = find_row db.rows name

  -- The row that the `WHERE` clause of the update selects, rewritten.
  unfoldable pub update_row : List (Stored R) → R → ℕ → List (Stored R)
  update_row [] r expected = []
  update_row (row ∷ rest) r expected =
      (if id row.value == id r && eqb row.revision expected
        then record { value = r; revision = expected + 1 }
        else row)
      ∷ update_row rest r expected

  -- `cursor.rowcount != 1`
  unfoldable pub selects : List (Stored R) → R → ℕ → Bool
  selects [] r expected = false
  selects (row ∷ rest) r expected =
      if id row.value == id r && eqb row.revision expected then true else selects rest r expected

  -- `_append_audit`
  unfoldable pub append_audit : Database R → String → Action → String → Option ℕ → ℕ → Database R
  append_audit db actor action object prior resulting = record db {
    audit =
        db.audit
        ++ record {
          actor_id = actor;
          action = action;
          object_id = object;
          prior_revision = prior;
          resulting_revision = resulting;
        }
          ∷ [];
  }

  -- `_insert`, of `create_sync`
  unfoldable pub insert : Database R → R → String → Written R
  unfolding append_audit get
  insert db r actor = elim (get db (id r)) [
    | some _ ↦ duplicate
    | none ↦ written (
        append_audit (record db { rows = db.rows ++ record { value = r; revision = 1 } ∷ [] }) actor
          create (id r) none 1)
  ]

  -- `_save`, of `save_sync`
  unfoldable pub save : Database R → R → ℕ → String → Written R
  unfolding selects update_row append_audit
  save db r expected actor =
      if selects db.rows r expected
      then written (
          append_audit (record db { rows = update_row db.rows r expected }) actor update (id r)
            (some expected) (expected + 1))
      else conflict

  abbrev pub is_expired : (R → Option ℕ) → ℕ → R → Bool
  is_expired expires boundary r = elim (expires r) [ none ↦ false | some t ↦ leb t boundary ]

  -- The rows that the `DELETE` of `prune_expired_sync` leaves.
  unfoldable pub unexpired : (R → Option ℕ) → (boundary : ℕ) → List (Stored R) → List (Stored R)
  unexpired expires boundary [] = []
  unexpired expires boundary (row ∷ rest) = elim (is_expired expires boundary row.value) [
    | true ↦ unexpired expires boundary rest
    | false ↦ row ∷ unexpired expires boundary rest
  ]

  -- `prune_expired_sync`, which leaves the audit trail alone
  unfoldable pub prune : (R → Option ℕ) → Database R → (boundary : ℕ) → Database R
  unfolding unexpired
  prune expires db boundary = record db { rows = unexpired expires boundary db.rows }
