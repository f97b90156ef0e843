-- ===== src/Durable/Laws.antt =====
-- Reading after writing, and optimistic concurrency.
use nova_voice.Base.{
  ℕ, ◌+◌, String, ◌≡◌, refl, sym, Bool, true, false, Option, none, some, List, [], ◌∷◌, ◌++◌, arith,
  eqb, if◌then◌else◌, ◌==◌, eq_iff, Bool-cases, inl, inr, ◌∙◌, ◌⊎◌,
}
use mathlib.Core.Bool.{false≢true}
use nova_voice.Durable.Store.{
  update, Stored, Database, Written, written, conflict, find_row, get, update_row, selects, save,
  append_audit,
}

-- Whether an optional row is at a revision.
abbrev pub at_revision : {R : Type 0} → Option (Stored R) → ℕ → Bool
at_revision none n = false
at_revision (some row) n = eqb row.revision n

module _ {R : Type 0} (id : R → String) where
  -- No two rows have one primary key.
  abbrev pub DistinctRows : List (Stored R) → Type 0
  DistinctRows [] = Unit
  DistinctRows (row ∷ rest) = (find_row id rest (id row.value) ≡ none) × DistinctRows rest

  -- A row is found under its own key.
  pub find_row-key :
      (rows : List (Stored R)) (name : String) (row : Stored R)
      → find_row id rows name ≡ some row
      → id row.value ≡ name
  unfolding find_row
  find_row-key [] name row h = ground arith
  find_row-key (first ∷ rest) name row h =
      ground (arith, find_row-key rest name row, eq_iff (id first.value) name)

  selects-eq-at :
      (rows : List (Stored R)) (r : R) (n : ℕ)
      → DistinctRows rows
      → selects id rows r n ≡ at_revision (find_row id rows (id r)) n
  unfolding selects find_row
  selects-eq-at [] r n d = refl
  selects-eq-at (row ∷ rest) r n d =
      ground (arith, selects-eq-at rest r n d.1, eq_iff (id row.value) (id r), d.0)

  absent_unchanged :
      (rows : List (Stored R)) (r : R) (n : ℕ)
      → find_row id rows (id r) ≡ none
      → (update_row id rows r n ≡ rows) × (selects id rows r n ≡ false)
  unfolding find_row update_row selects
  absent_unchanged [] r n h = (refl, refl)
  absent_unchanged (row ∷ rest) r n h = ground (arith, absent_unchanged rest r n)

  module _ (r : R) (n : ℕ) (j : String) where
    find_row-update_row :
        (rows : List (Stored R))
        → DistinctRows rows
        → selects id rows r n ≡ true
        → find_row id (update_row id rows r n) j ≡ (
            if id r == j then some (record { value = r; revision = n + 1 }) else find_row id rows j)
    unfolding selects find_row update_row
    find_row-update_row [] d s = ground arith
    find_row-update_row (row ∷ rest) d s = elim (Bool-cases (id row.value == id r)) [
      | inl e ↦
          let same : id row.value ≡ id r = (eq_iff _ _).0 e in
          let gone = absent_unchanged rest r n (rw (← same) d.0) in ground (arith, gone, same)
      | inr e ↦ ground (
        arith,
        find_row-update_row rest d.1,
        eq_iff (id row.value) j,
        eq_iff (id r) j,
        eq_iff (id row.value) (id r),
      )
    ]

    pub find_row-append :
        (rows : List (Stored R)) (row : Stored R)
        → find_row id rows (id row.value) ≡ none
        → find_row id (rows ++ row ∷ []) j
          ≡ (if id row.value == j then some row else find_row id rows j)
    unfolding find_row
    find_row-append [] row h = refl
    find_row-append (first ∷ rest) row h = ground (
      arith,
      find_row-append rest row,
      eq_iff (id row.value) j,
      eq_iff (id first.value) j,
      eq_iff (id first.value) (id row.value),
    )

  DistinctRows-update_row :
      (rows : List (Stored R)) (r : R) (n : ℕ)
      → DistinctRows rows
      → selects id rows r n ≡ true
      → DistinctRows (update_row id rows r n)
  unfolding selects update_row
  DistinctRows-update_row [] r n d s = d
  DistinctRows-update_row (row ∷ rest) r n d s = elim (Bool-cases (id row.value == id r)) [
    | inl e ↦
        let same : id row.value ≡ id r = (eq_iff _ _).0 e in
        let gone = absent_unchanged rest r n (rw (← same) d.0) in ground (arith, gone, same)
    | inr e ↦ ground (
      arith,
      DistinctRows-update_row rest r n d.1,
      find_row-update_row r n (id row.value) rest d.1,
      eq_iff (id r) (id row.value),
      eq_iff (id row.value) (id r),
    )
  ]

  pub DistinctRows-append :
      (rows : List (Stored R)) (row : Stored R)
      → DistinctRows rows
      → find_row id rows (id row.value) ≡ none
      → DistinctRows (rows ++ row ∷ [])
  unfolding find_row
  DistinctRows-append [] row d h = (refl, tt)
  DistinctRows-append (first ∷ rest) row d h = ground (
    arith,
    DistinctRows-append rest row d.1,
    find_row-append row.value 0 (id first.value) rest row,
    eq_iff (id row.value) (id first.value),
    eq_iff (id first.value) (id row.value),
  )

  -- A write went through: the row of the record's key is the record at the next revision, every
  -- other row is as it was, and keys stay distinct.
  abbrev pub Overwrites : Database R → R → ℕ → Written R → Type 0
  Overwrites db r n w =
      (db' : Database R) × (w ≡ written db')
      × DistinctRows db'.rows
      × ((j : String)
          → get id db' j
            ≡ (if id r == j then some (record { value = r; revision = n + 1 }) else get id db j))

  -- In a table with one row for each key, a save goes through exactly when the row is there at the
  -- expected revision: the row is then the new record at the next revision, every other row is as
  -- it was, and keys stay distinct. Otherwise it is refused.
  pub get-save :
      (db : Database R) (r : R) (n : ℕ) (actor : String)
      → DistinctRows db.rows
      → ((at_revision (get id db (id r)) n ≡ true) × Overwrites db r n (save id db r n actor))
        ⊎ ((at_revision (get id db (id r)) n ≡ false) × (save id db r n actor ≡ conflict))
  unfolding get save
  get-save db r n actor d = elim (Bool-cases (selects id db.rows r n)) [
    | inl s ↦ inl (
      sym (selects-eq-at db.rows r n d) ∙ s,
      (
        append_audit id (record db { rows = update_row id db.rows r n }) actor update (id r)
            (some n) (n + 1),
        rw s refl,
        DistinctRows-update_row db.rows r n d s,
        λ j. find_row-update_row r n j db.rows d s,
      ),
    )
    | inr s ↦ inr (sym (selects-eq-at db.rows r n d) ∙ s, rw s refl)
  ]

  -- A save from the revision at which the row is goes through.
  pub save_here :
      (db : Database R) (row : Stored R) (r : R) (actor : String)
      → DistinctRows db.rows
      → get id db (id r) ≡ some row
      → Overwrites db r row.revision (save id db r row.revision actor)
  save_here db row r actor d found = elim (get-save db r row.revision actor d) [
    | inl (_, o) ↦ o
    | inr (at, _) ↦
        let own : at_revision (get id db (id r)) row.revision ≡ true = rw found (ground arith) in
        absurd (false≢true (sym at ∙ own))
  ]

  pub rows-save :
      (db db' : Database R) (r : R) (n : ℕ) (actor : String)
      → save id db r n actor ≡ written db'
      → (selects id db.rows r n ≡ true) × (db'.rows ≡ update_row id db.rows r n)
  unfolding save
  rows-save db db' r n actor h = ground arith

  -- What a save that went through leaves.
  module _ (db db' : Database R) (r : R) (n : ℕ) (actor : String) (d : DistinctRows db.rows)
      (h : save id db r n actor ≡ written db') where
    pub saved_get :
        (j : String)
        → get id db' j
          ≡ (if id r == j then some (record { value = r; revision = n + 1 }) else get id db j)
    unfolding get
    saved_get j =
        let (s, e) = rows-save db db' r n actor h in rw e (find_row-update_row r n j db.rows d s)

    pub saved_distinct : DistinctRows db'.rows
    saved_distinct =
        let (s, e) = rows-save db db' r n actor h in rw e (DistinctRows-update_row db.rows r n d s)

    stale : (s : R) → id s ≡ id r → at_revision (get id db' (id s)) n ≡ true → ⊥
    stale s e at = ground (arith, saved_get (id s), eq_iff (id r) (id s))

    -- Two writers that read a record at the same revision do not both write: once one save has gone
    -- through, every save of that key from the same revision is refused.
    save-save : (s : R) (other : String) → id s ≡ id r → save id db' s n other ≡ conflict
    save-save s other e = elim (get-save db' s n other saved_distinct) [
      | inl (at, _) ↦ absurd (stale s e at)
      | inr (_, c) ↦ c
    ]
