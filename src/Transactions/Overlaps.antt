-- ===== src/Transactions/Overlaps.antt =====
-- A cancellation of src/nova_voice/transactions.py that overlaps a commit.
use nova_voice.Base.{ℕ, ◌≡◌, refl, ap, String, Bool, true, false, Option, some}
use nova_voice.Transactions.Records.{
  State, proposed, committing, committed, failed, cancelled, Proposal, Row, World, find_row,
  update_rows,
}
use nova_voice.Transactions.Manager.{
  returned, is_proposed, warrant, is_denied, taken, authorized, begin_commit,
}
use nova_voice.Transactions.Endings.{
  settled, settle, withdrawn, settle_cancel, finish_commit, commit, cancel,
}
use nova_voice.Transactions.Money.{alone}
use nova_voice.Transactions.Tables.{found-id, find_row-written}

waits : (x : State) → is_proposed x ≡ true → x ≡ proposed
waits proposed h = refl
waits committing h = cc (h)
waits committed h = cc (h)
waits failed h = cc (h)
waits cancelled h = cc (h)

-- What waits is withdrawn without the transport.
cancel-waiting :
    (compensate : Proposal → Bool) (others : World → World) (w : World) (id canceller : String)
    (at : ℕ) (r : Row)
    → find_row w.rows id ≡ some r
    → is_proposed r.proposal.state ≡ true
    → (cancel compensate others w id canceller at).1
      ≡ settle_cancel (others w) r.proposal canceller at
unfolding cancel
cancel-waiting compensate others w id canceller at r f s =
    rw (cancel, f) (simp (waits r.proposal.state s) refl)

module _ (hash casefold : String → String) where
  -- A cancellation that reads a proposal before a commit of it and writes after it withdraws it without a
  -- word to the transport: the commit is answered with its receipt, and the row has neither.
  pub cancel_overwrites_commit :
      (transport : Proposal → Option String) (compensate : Proposal → Bool) (w : World)
      (id actor canceller : String) (token budget_id : Option String) (now later at : ℕ) (r : Row)
      (receipt : String)
      → find_row w.rows id ≡ some r
      → is_proposed r.proposal.state ≡ true
      → is_denied (warrant hash casefold w r token budget_id) ≡ false
      → transport r.proposal ≡ some receipt
      → ((commit hash casefold transport alone alone w id actor token budget_id now later).0
          ≡ returned (settled r.proposal (some receipt) later))
        × ((row : Row) × (find_row
                (cancel compensate
                  (λ v.
                    (commit hash casefold transport alone alone v id actor token budget_id now
                      later).1)
                  w
                  id
                  canceller
                  at).1.rows
                id
              ≡ some row)
            × (row.proposal ≡ withdrawn r.proposal at))
  unfolding begin_commit settle settled settle_cancel commit finish_commit cancel
  cancel_overwrites_commit transport compensate w id actor canceller token budget_id now later at r
        receipt f s d t =
      let p = r.proposal in
      let name : p.id ≡ id = found-id w.rows id r f in
      let begun : begin_commit hash casefold w id actor token budget_id now
          ≡ (returned p, authorized w p (warrant hash casefold w r token budget_id) actor now) =
        rw (begin_commit, f) (rw s (rw d refl)) in
      let whole : commit hash casefold transport alone alone w id actor token budget_id now later
          ≡ (
            returned (settled p (some receipt) later),
            settle (authorized w p (warrant hash casefold w r token budget_id) actor now) p actor
                (some receipt) later,
          ) =
        rw (commit, begun, finish_commit, t) refl in
      let one = find_row-written (taken p now) p w.rows id r name (λ x. refl) f in
      let two =
        find_row-written (λ (x : Row). record x { proposal = settled p (some receipt) later }) p
          (update_rows (taken p now) w.rows p.id) id (taken p now r) name (λ x. refl) one in
      let three =
        find_row-written (λ (x : Row). record x { proposal = withdrawn p at; approval_used = true })
          p
          (update_rows (λ (x : Row). record x { proposal = settled p (some receipt) later })
            (update_rows (taken p now) w.rows p.id) p.id)
          id (record (taken p now r) { proposal = settled p (some receipt) later }) name (λ x. refl)
          two in
      let over : (cancel compensate
            (λ v.
              (commit hash casefold transport alone alone v id actor token budget_id now later).1)
            w id canceller at).1
          ≡ settle_cancel
              (commit hash casefold transport alone alone w id actor token budget_id now later).1 p
              canceller at =
        cancel-waiting compensate
          (λ v. (commit hash casefold transport alone alone v id actor token budget_id now later).1)
          w id canceller at r f s in
      (
        ap (λ o. o.0) whole,
        (
          record r { proposal = withdrawn p at; approval_used = true },
          rw (over, whole) three,
          refl,
        ),
      )
