-- ===== src/Transactions/Warrants.antt =====
-- What lets a commit of src/nova_voice/transactions.py through to the transport.
use nova_voice.Base.{
  ℕ, ◌≡◌, ◌⊎◌, refl, String, true, false, Option, some, Bool-cases, Option-cases, inl, inr,
}
use nova_voice.Transactions.Records.{Row, World, find_row}
use nova_voice.Transactions.Manager.{
  Error, unknown_proposal, not_pending, not_authorized, raised, returned, is_proposed, warrant,
  is_denied, authorized, begin_commit,
}

module _ (hash casefold : String → String) where
  -- What a commit that gets to the transport has found and written.
  pub record Begun (w : World) (id actor : String) (token budget_id : Option String) (now : ℕ)
      : Type 0 where
    pub row : Row
    pub found : find_row w.rows id ≡ some row
    pub waiting : is_proposed row.proposal.state ≡ true
    pub granted : is_denied (warrant hash casefold w row token budget_id) ≡ false
    pub result : begin_commit hash casefold w id actor token budget_id now ≡ (
      returned row.proposal,
      authorized w row.proposal (warrant hash casefold w row token budget_id) actor now,
    )

  -- A commit gets to the transport, or raises and writes nothing.
  pub begin-cases :
      (w : World) (id actor : String) (token budget_id : Option String) (now : ℕ)
      → ((e : Error) × (begin_commit hash casefold w id actor token budget_id now ≡ (raised e, w)))
        ⊎ Begun w id actor token budget_id now
  unfolding begin_commit
  begin-cases w id actor token budget_id now = elim (Option-cases (find_row w.rows id)) [
    | inl e ↦ inl (unknown_proposal, rw (begin_commit, e) refl)
    | inr (r, e) ↦ elim (Bool-cases (is_proposed r.proposal.state)) [
      | inr f ↦ inl (not_pending, rw (begin_commit, e) (rw f refl))
      | inl f ↦ elim (Bool-cases (is_denied (warrant hash casefold w r token budget_id))) [
        | inl g ↦ inl (not_authorized, rw (begin_commit, e) (rw f (rw g refl)))
        | inr g ↦ inr (record {
          row = r;
          found = e;
          waiting = f;
          granted = g;
          result = rw (begin_commit, e) (rw f (rw g refl));
        })
      ]
    ]
  ]
