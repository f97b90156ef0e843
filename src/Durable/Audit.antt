-- ===== src/Durable/Audit.antt =====
-- The audit trail accounts for the revision of every row (src/nova_voice/durable/store.py).
use nova_voice.Base.{ℕ, ◌+◌, String, ◌≡◌, true, false, Option, none, some, List, [], ◌∷◌, ◌==◌}
use nova_voice.Durable.Store.{
  Stored, Action, AuditEntry, Database, Written, written, conflict, duplicate, get, insert, save,
  prune,
}
use nova_voice.Durable.Laws.{DistinctRows}

-- One write of a client, or the removal of the rows that have expired by an instant.
pub data Write (R : Type 0) : Type 0 where
  create : (r : R) (actor : String) → Write R
  update : (r : R) (expected : ℕ) (actor : String) → Write R
  prune_expired : (boundary : ℕ) → Write R

-- An entry for an object counts as its first write, or as one more.
abbrev pub counted : String → ℕ → AuditEntry → ℕ
counted j n e = elim (e.object_id == j) [
  | true ↦ elim e.action [ Action.create ↦ 1 | Action.update ↦ n + 1 ]
  | false ↦ n
]

-- The entries for an object since the last one of its creation.
unfoldable pub writes_since : String → ℕ → List AuditEntry → ℕ
writes_since j n [] = n
writes_since j n (e ∷ rest) = writes_since j (counted j n e) rest

abbrev pub writes_of : String → List AuditEntry → ℕ
writes_of j trail = writes_since j 0 trail

-- A row that is there has the revision.
abbrev pub Accounts : {R : Type 0} → Option (Stored R) → ℕ → Type 0
Accounts none n = Unit
Accounts (some row) n = row.revision ≡ n

module _ {R : Type 0} (id : R → String) (expires : R → Option ℕ) where
  -- The database after a write; a refused one is rolled back.
  abbrev kept_or : Database R → Written R → Database R
  kept_or db (written db') = db'
  kept_or db conflict = db
  kept_or db duplicate = db

  unfoldable pub commit : Database R → Write R → Database R
  commit db (create r actor) = kept_or db (insert id db r actor)
  commit db (update r n actor) = kept_or db (save id db r n actor)
  commit db (prune_expired boundary) = prune id expires db boundary

  unfoldable pub commit_all : Database R → List (Write R) → Database R
  unfolding commit
  commit_all db [] = db
  commit_all db (w ∷ ws) = commit_all (commit db w) ws

  -- One row for each key, at a revision that is the number of entries that the trail has for it since
  -- its creation.
  pub record IsAudited (db : Database R) : Type 0 where
    pub distinct : DistinctRows id db.rows
    pub accounted : (j : String) → Accounts (get id db j) (writes_of j db.audit)

  entry : String → Action → String → Option ℕ → ℕ → AuditEntry
  entry actor action object prior resulting = record {
    actor_id = actor;
    action = action;
    object_id = object;
    prior_revision = prior;
    resulting_revision = resulting;
  }
