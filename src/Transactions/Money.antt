-- ===== src/Transactions/Money.antt =====
-- What a commit of src/nova_voice/transactions.py does to the budget that it names, and what a
-- cancellation does to a commit that it overlaps.
use nova_voice.Base.{
  ℕ, ◌+◌, ◌≤◌, ◌≡◌, refl, sym, ap, subst, String, true, false, Option, none, some, ◌==◌,
  Option-cases, inl, inr, arith,
}
use nova_voice.Transactions.Records.{
  Proposal, Row, Budget, World, find_row, find_budget, update_budgets,
}
use nova_voice.Transactions.Manager.{
  returned, is_proposed, by_approval, by_budget, approves, covers, warrant, spend, credit,
  authorized, begin_commit,
}
use nova_voice.Transactions.Endings.{refund, settle, finish_commit, commit}
use nova_voice.Transactions.Tables.{find_budget-id, find_budget-here}

module _ (hash casefold : String → String) where
  covers-amount :
      (b : Budget) (p : Proposal) → covers hash casefold b p ≡ true → p.amount ≤ b.remaining_amount
  unfolding covers
  covers-amount b p h = ground arith

  warrant-by_budget :
      (w : World) (i : String) (token : Option String) (r : Row) (b : Budget)
      → approves hash casefold r token ≡ false
      → (i == "") ≡ false
      → find_budget w.budgets i ≡ some b
      → covers hash casefold b r.proposal ≡ true
      → warrant hash casefold w r token (some i) ≡ by_budget b
  unfolding warrant
  warrant-by_budget w i token r b a n g c = rw (warrant, a) (rw n (rw g (rw c refl)))

  -- A commit that its budget warrants is let through.
  begin-by_budget :
      (w : World) (id i actor : String) (token : Option String) (now : ℕ) (r : Row) (b : Budget)
      → find_row w.rows id ≡ some r
      → is_proposed r.proposal.state ≡ true
      → approves hash casefold r token ≡ false
      → (i == "") ≡ false
      → find_budget w.budgets i ≡ some b
      → covers hash casefold b r.proposal ≡ true
      → begin_commit hash casefold w id actor token (some i) now
        ≡ (returned r.proposal, authorized w r.proposal (by_budget b) actor now)
  unfolding begin_commit warrant
  begin-by_budget w id i actor token now r b f s a n g c =
      rw (begin_commit, f)
        (rw s (
          rw (warrant-by_budget w i token r b a n g c) (
            ap (λ v. (returned r.proposal, authorized w r.proposal v actor now))
              (warrant-by_budget w i token r b a n g c))))

  begin-by_approval :
      (w : World) (id actor : String) (token budget_id : Option String) (now : ℕ) (r : Row)
      → find_row w.rows id ≡ some r
      → is_proposed r.proposal.state ≡ true
      → approves hash casefold r token ≡ true
      → begin_commit hash casefold w id actor token budget_id now
        ≡ (returned r.proposal, authorized w r.proposal by_approval actor now)
  unfolding begin_commit warrant
  begin-by_approval w id actor token budget_id now r f s a =
      let by_token : warrant hash casefold w r token budget_id ≡ by_approval =
        rw (warrant, a) refl in
      rw (begin_commit, f)
        (rw s (
          rw by_token
            (ap (λ v. (returned r.proposal, authorized w r.proposal v actor now)) by_token)))

abbrev pub alone : World → World
alone w = w

-- What a commit costs its budget in the end.
abbrev pub cost : Option String → Proposal → ℕ
cost none p = 0
cost (some receipt) p = p.amount

-- What an approved commit leaves of a budget that it names.
abbrev pub after_approved : Option String → ℕ → Budget → Budget
after_approved none amount b = credit amount b
after_approved (some receipt) amount b = b

refund-here :
    (w : World) (p : Proposal) (i : String) (b : Budget)
    → (i == "") ≡ false
    → find_budget w.budgets i ≡ some b
    → find_budget (refund w p (some i)).budgets i ≡ some (credit p.amount b)
unfolding refund
refund-here w p i b n f =
    rw (refund, n) (find_budget-here (credit p.amount) (λ c. refl) w.budgets i b f)

module _ (hash casefold : String → String) where
  -- With nobody else acting, a commit that a budget covers costs the budget its amount where the
  -- transport verified it, and nothing where the transport raised.
  pub commit_balances :
      (transport : Proposal → Option String) (w : World) (id i actor : String)
      (token : Option String) (now later : ℕ) (r : Row) (b : Budget)
      → find_row w.rows id ≡ some r
      → is_proposed r.proposal.state ≡ true
      → approves hash casefold r token ≡ false
      → (i == "") ≡ false
      → find_budget w.budgets i ≡ some b
      → covers hash casefold b r.proposal ≡ true
      → (b' : Budget) × (find_budget
            (commit hash casefold transport alone alone w id actor token
              (some i)
              now
              later).1.budgets
            i
          ≡ some b')
        × (b'.remaining_amount + cost (transport r.proposal) r.proposal ≡ b.remaining_amount)
  unfolding commit finish_commit settle
  commit_balances transport w id i actor token now later r b f s a n g c =
      let fits = covers-amount hash casefold b r.proposal c in
      let p = r.proposal in
      let name : b.id ≡ i = find_budget-id w.budgets i b g in
      let begun = begin-by_budget hash casefold w id i actor token now r b f s a n g c in
      let spent : find_budget (authorized w p (by_budget b) actor now).budgets i
          ≡ some (spend p.amount b) =
        subst
          (λ j.
            find_budget (update_budgets (spend p.amount) w.budgets j) i ≡ some (spend p.amount b))
          (sym name) (find_budget-here (spend p.amount) (λ d. refl) w.budgets i b g) in
      elim (Option-cases (transport p)) [
        | inl e ↦ (
          credit p.amount (spend p.amount b),
          rw (commit, begun, finish_commit, e)
              (refund-here (authorized w p (by_budget b) actor now) p i (spend p.amount b) n spent),
          rw e (omega arith),
        )
        | inr (receipt, e) ↦
            (spend p.amount b, rw (commit, begun, finish_commit, e) spent, rw e (omega arith))
      ]

  -- With nobody else acting, a commit of a waiting proposal that the owner's token approves leaves the
  -- budget that it also names as it is where the transport verified it, and adds the amount to it where
  -- the transport raised.
  pub approved_failure_credits :
      (transport : Proposal → Option String) (w : World) (id i actor : String)
      (token : Option String) (now later : ℕ) (r : Row) (b : Budget)
      → find_row w.rows id ≡ some r
      → is_proposed r.proposal.state ≡ true
      → approves hash casefold r token ≡ true
      → (i == "") ≡ false
      → find_budget w.budgets i ≡ some b
      → find_budget
          (commit hash casefold transport alone alone w id actor token (some i) now later).1.budgets
          i
        ≡ some (after_approved (transport r.proposal) r.proposal.amount b)
  unfolding commit finish_commit settle
  approved_failure_credits transport w id i actor token now later r b f s a n g =
      let begun = begin-by_approval hash casefold w id actor token (some i) now r f s a in
      elim (Option-cases (transport r.proposal)) [
        | inl e ↦
            rw (commit, begun, finish_commit, e)
              (refund-here (authorized w r.proposal by_approval actor now) r.proposal i b n g)
        | inr (receipt, e) ↦ rw (commit, begun, finish_commit, e) g
      ]
