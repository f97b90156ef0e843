-- ===== src/Transactions/Tables.antt =====
-- What an update of one row of src/nova_voice/transactions.py leaves to be read.
use nova_voice.Base.{
  ◌≡◌, refl, sym, ap, subst, ◌∙◌, String, true, false, some, List, [], ◌∷◌, if◌then◌else◌, ◌==◌,
  eq_of_==, eq_refl, Bool-cases, inl, inr, arith,
}
use nova_voice.Transactions.Records.{
  Proposal, Row, Budget, find_row, update_rows, find_budget, update_budgets,
}

find_row-update :
    (f : Row → Row) (rows : List Row) (id : String) (r : Row)
    → ((s : Row) → s.proposal.id == id ≡ true → (f s).proposal.id ≡ id)
    → find_row rows id ≡ some r
    → find_row (update_rows f rows id) id ≡ some (f r)
unfolding find_row update_rows
find_row-update f [] id r k h = cc (h)
find_row-update f (s ∷ rest) id r k h = elim (Bool-cases (s.proposal.id == id)) [
  | inl e ↦
      let same : s ≡ r = ground arith in
      let kept : (f s).proposal.id == id ≡ true =
        subst (λ x. x == id ≡ true) (sym (k s e)) (eq_refl id) in
      rw (e, kept) (ap (λ x. some (f x)) same)
  | inr e ↦
      rw (e, e)
        (find_row-update f rest id r k
          (subst (λ b. (if b then some s else find_row rest id) ≡ some r) e h))
]

pub found-id :
    (rows : List Row) (id : String) (r : Row) → find_row rows id ≡ some r → r.proposal.id ≡ id
unfolding find_row
found-id [] id r h = cc (h)
found-id (s ∷ rest) id r h = elim (Bool-cases (s.proposal.id == id)) [
  | inl e ↦
      let same : s ≡ r = ground arith in
      subst (λ (x : Row). x.proposal.id ≡ id) same (eq_of_== s.proposal.id id e)
  | inr e ↦ found-id rest id r (subst (λ b. (if b then some s else find_row rest id) ≡ some r) e h)
]

-- A write over the rows of a proposal's id is read back there.
pub find_row-written :
    (f : Row → Row) (p : Proposal) (rows : List Row) (id : String) (r : Row)
    → p.id ≡ id
    → ((s : Row) → (f s).proposal.id ≡ p.id)
    → find_row rows id ≡ some r
    → find_row (update_rows f rows p.id) id ≡ some (f r)
find_row-written f p rows id r at k h =
    subst (λ j. find_row (update_rows f rows j) id ≡ some (f r)) (sym at)
      (find_row-update f rows id r (λ s e. k s ∙ at) h)

pub find_budget-id :
    (bs : List Budget) (id : String) (b : Budget) → find_budget bs id ≡ some b → b.id ≡ id
unfolding find_budget
find_budget-id [] id b h = cc (h)
find_budget-id (s ∷ rest) id b h = elim (Bool-cases (s.id == id)) [
  | inl e ↦
      let same : s ≡ b = ground arith in subst (λ (x : Budget). x.id ≡ id) same (eq_of_== s.id id e)
  | inr e ↦
      find_budget-id rest id b
        (subst (λ c. (if c then some s else find_budget rest id) ≡ some b) e h)
]

module _ (f : Budget → Budget) (keeps : (b : Budget) → (f b).id ≡ b.id) where
  -- The budget of the name is updated.
  pub find_budget-here :
      (bs : List Budget) (id : String) (b : Budget)
      → find_budget bs id ≡ some b
      → find_budget (update_budgets f bs id) id ≡ some (f b)
  unfolding find_budget update_budgets
  find_budget-here [] id b h = cc (h)
  find_budget-here (s ∷ rest) id b h = elim (Bool-cases (s.id == id)) [
    | inl e ↦
        let same : s ≡ b = ground arith in
        let kept : (f s).id == id ≡ true = subst (λ x. x == id ≡ true) (sym (keeps s)) e in
        rw (e, kept) (ap (λ x. some (f x)) same)
    | inr e ↦
        rw (e, e)
          (find_budget-here rest id b
            (subst (λ c. (if c then some s else find_budget rest id) ≡ some b) e h))
  ]

  -- Every other one stays.
  pub find_budget-there :
      (bs : List Budget) (id j : String)
      → id == j ≡ false
      → find_budget (update_budgets f bs id) j ≡ find_budget bs j
  unfolding find_budget update_budgets
  find_budget-there [] id j h = refl
  find_budget-there (s ∷ rest) id j h = elim (Bool-cases (s.id == id)) [
    | inl e ↦
        let at : s.id ≡ id = eq_of_== s.id id e in
        let off : s.id == j ≡ false = subst (λ x. x == j ≡ false) (sym at) h in
        let off' : (f s).id == j ≡ false = subst (λ x. x == j ≡ false) (sym (keeps s)) off in
        rw (e, off', off) (find_budget-there rest id j h)
    | inr e ↦ rw e (ap (λ o. if s.id == j then some s else o) (find_budget-there rest id j h))
  ]
