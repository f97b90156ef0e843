-- ===== src/Transactions/Pending.antt =====
-- Whether a proposal could still be committed, and what updates of its row do to that
-- (src/nova_voice/transactions.py).
use nova_voice.Base.{
  ℕ, ◌+◌, ◌≤◌, ◌≡◌, refl, sym, ap, subst, ◌∙◌, String, Bool, true, false, some, List, [], ◌∷◌, ◌++◌,
  if◌then◌else◌, ◌==◌, eq_of_==, Bool-cases, inl, inr, arith,
}
use nova_voice.Transactions.Records.{Proposal, Row, find_row, update_rows}
use nova_voice.Transactions.Manager.{is_proposed}

abbrev pub bit : Bool → ℕ
bit true = 1
bit false = 0

-- One where the proposal could still be committed: it has no row, or waits in it.
unfoldable pub pending : List Row → String → ℕ
pending [] id = 1
pending (r ∷ rest) id =
    if r.proposal.id == id then bit (is_proposed r.proposal.state) else pending rest id

pub if_le :
    (b : Bool) (x y x' y' : ℕ) → x ≤ x' → y ≤ y' → (if b then x else y) ≤ (if b then x' else y')
if_le true x y x' y' p q = p
if_le false x y x' y' p q = q

-- An update that keeps the ids and sets no proposal back to waiting.
pub record Downward (f : Row → Row) (j : String) : Type 0 where
  pub id_kept : (r : Row) → r.proposal.id == j ≡ true → (f r).proposal.id ≡ r.proposal.id
  pub lower :
      (r : Row) → bit (is_proposed (f r).proposal.state) ≤ bit (is_proposed r.proposal.state)

pub pending-update :
    (f : Row → Row) (j : String)
    → Downward f j
    → (rows : List Row) (id : String) → pending (update_rows f rows j) id ≤ pending rows id
unfolding pending update_rows
pending-update f j d [] id = omega arith
pending-update f j d (r ∷ rest) id =
    let after = pending-update f j d rest id in
    let low = d.lower r in
    elim (Bool-cases (r.proposal.id == j)) [
      | inl e ↦ rw (e, d.id_kept r e) (if_le (r.proposal.id == id) _ _ _ _ low after)
      | inr e ↦ rw e (if_le (r.proposal.id == id) _ _ _ _ (omega arith) after)
    ]

pub pending-closed :
    (f : Row → Row) (rows : List Row) (id : String) (r : Row)
    → ((s : Row) → s.proposal.id == id ≡ true → (f s).proposal.id ≡ s.proposal.id)
    → ((s : Row) → is_proposed (f s).proposal.state ≡ false)
    → find_row rows id ≡ some r
    → pending (update_rows f rows id) id ≡ 0
unfolding pending update_rows find_row
pending-closed f [] id r k low h = cc (h)
pending-closed f (s ∷ rest) id r k low h = elim (Bool-cases (s.proposal.id == id)) [
  | inl e ↦ rw (e, k s e, e, low s) refl
  | inr e ↦
      rw (e, e)
        (pending-closed f rest id r k low
          (subst (λ b. (if b then some s else find_row rest id) ≡ some r) e h))
]

pub pending-append :
    (rows : List Row) (new : Row) (id : String) → pending (rows ++ new ∷ []) id ≤ pending rows id
unfolding pending
pending-append [] new id = ground arith
pending-append (r ∷ rest) new id = let after = pending-append rest new id in ground arith

-- Writing a proposal over the rows of its id that no longer waits.
pub over-Downward :
    (f : Row → Row) (p : Proposal)
    → ((r : Row) → (f r).proposal.id ≡ p.id)
    → ((r : Row) → is_proposed (f r).proposal.state ≡ false)
    → Downward f p.id
over-Downward f p k low = record {
  id_kept = λ r e. k r ∙ sym (eq_of_== r.proposal.id p.id e);
  lower = λ r. rw (low r) (omega arith);
}

pub pending-found :
    (rows : List Row) (id : String) (r : Row)
    → find_row rows id ≡ some r
    → pending rows id ≡ bit (is_proposed r.proposal.state)
unfolding pending find_row
pending-found [] id r h = cc (h)
pending-found (s ∷ rest) id r h = elim (Bool-cases (s.proposal.id == id)) [
  | inl e ↦
      let same : s ≡ r = ground arith in
      rw e (ap (λ (x : Row). bit (is_proposed x.proposal.state)) same)
  | inr e ↦
      rw e (
        pending-found rest id r
          (subst (λ b. (if b then some s else find_row rest id) ≡ some r) e h))
]

pub nothing : (b : Bool) (n m : ℕ) → n ≤ m → (if b then 0 else 0) + n ≤ m
nothing true n m h = omega arith
nothing false n m h = omega arith
